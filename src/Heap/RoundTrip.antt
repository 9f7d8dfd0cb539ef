-- ===== src/Heap/RoundTrip.antt =====
-- `alloc_no_map` of kernel/src/mem/vmm.c undone by `free_no_map`.
use nocturne_os_base.Prelude.{
  ℕ, ◌+◌, ◌-◌, ret, ◌^◌, ◌<◌, ◌≡◌, arith, inl, inr, get_or_ext, dec_lt, ◌∙◌, subst,
}
use nocturne_os_base.Heap.{Heap, no_entry, entry_at, alloc_no_map, free_no_map}
use nocturne_os_base.Heap.Insert.{IsValid, end_of}
use nocturne_os_base.Heap.Search.{IsAlignment}
use nocturne_os_base.Heap.Alloc.{Allocates, alloc_no_map-Allocates}
use nocturne_os_base.Heap.Free.{IsBlockAt, Removes, free_no_map-Removes}

module _ (h : Heap) (size align k a : ℕ) (h' : Heap) (valid : IsValid h)
    (new : Allocates h size align k a h')
    (nonempty : (j : ℕ) → j < h.allocated_count → 0 < (entry_at h.memory j).length) where
  -- No other block stands at the new address.
  same_block : (k' : ℕ) → IsBlockAt h'.memory a 0 h'.allocated_count k' → k' ≡ k
  same_block k' (lo, hi, at, least) = elim (dec_lt k' k) [
    | yes below ↦ absurd (
        ground (
          arith,
          at,
          new.inserts.below k' below,
          new.inserts.k_in,
          new.fits.after k' below,
          nonempty k',
        ))
    | no above ↦ elim (dec_lt k k') [
      | yes behind ↦ absurd (least k (omega arith) behind (ground (arith, new.inserts.at)))
      | no here ↦ omega arith
    ]
  ]

  entries : (h'' : Heap) → Removes h' k h'' → (j : ℕ) → entry_at h''.memory j ≡ entry_at h.memory j
  entries h'' r j =
      ground (arith, r.below j, r.above j, new.inserts.below j, new.inserts.above (j + 1))

  -- Taking the new block out again restores the table.
  Allocates-undone :
      h.used_memory < 2 ^ 32
      → size < 2 ^ 32
      → ((free_no_map a h').memory ≡ h.memory)
        × ((free_no_map a h').allocated_count ≡ h.allocated_count)
        × ((free_no_map a h').used_memory ≡ h.used_memory)
  Allocates-undone used_fits size_fits =
      elim (free_no_map-Removes h' a new.valid (omega (arith, new.fits.positive))) [
        | inl (e, no_block) ↦ absurd (
            no_block k (omega (arith, new.inserts.k_in, new.counted))
              (ground (arith, new.inserts.at)))
        | inr (k', block, r) ↦
            let r' : Removes h' k (free_no_map a h') =
              subst (λ n. Removes h' n (free_no_map a h')) (same_block k' block) r in
            (
              get_or_ext no_entry (free_no_map a h').memory h.memory
                  (r'.same_length ∙ new.inserts.same_length) (entries (free_no_map a h') r'),
              omega (arith, r'.counted, new.counted),
              ground (arith, r'.used, new.used, new.inserts.at),
            )
      ]

-- `alloc_no_map` on a table in order that is not full and whose blocks are not empty, with an alignment above 0, a start other than 0
-- where the block fits and every block far enough from the end of the address space, returns, and `free_no_map` of the address it
-- gives, on what it leaves, restores the table, the number of blocks and the memory in use, which is below 2^32 before.
pub free_no_map-alloc_no_map :
    (h : Heap) (size align : ℕ) (valid : IsValid h)
    → h.allocated_count + 1 < h.capacity
    → ((j : ℕ) → j < h.allocated_count → 0 < (entry_at h.memory j).length)
    → IsAlignment align
    → 0 < align
    → 0 < h.start
    → h.start + size < 2 ^ 32
    → ((i : ℕ) → i < h.allocated_count → end_of (entry_at h.memory i) + align + size < 2 ^ 32 - 1)
    → h.used_memory < 2 ^ 32
    → (a : ℕ) × (h' : Heap) × (alloc_no_map size align h ≡ ret (a, h'))
      × ((free_no_map a h').memory ≡ h.memory)
      × ((free_no_map a h').allocated_count ≡ h.allocated_count)
      × ((free_no_map a h').used_memory ≡ h.used_memory)
free_no_map-alloc_no_map h size align valid free nonempty aligns pos start fits space used =
    let (k, a, h', e, new) =
      alloc_no_map-Allocates h size align valid free aligns pos start fits space in
    let u = Allocates-undone h size align k a h' valid new nonempty used (omega arith) in
    (a, h', e, u.0, u.1, u.2)
