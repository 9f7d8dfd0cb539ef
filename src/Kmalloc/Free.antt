-- ===== src/Kmalloc/Free.antt =====
-- What `kfree` of kernel/src/mem/vmm.c gives back: the pages that no other block touches.
use nocturne_os_base.Prelude.{
  ℕ, zero, suc, ◌+◌, ◌-◌, ◌*◌, ◌/◌, ◌^◌, ◌≤◌, ◌<◌, ltb, leb, ◌==◌, ◌&&◌, not, u32, page_size, ◌≡◌,
  ◌≢◌, refl, arith, ap, true, false, Bool-cases, ◌⊎◌, inl, inr, ret, ℕ_discrete, dec_lt, length,
  if◌then◌else◌, subst,
}
use nocturne_os_base.Pmm.{Pmm, byte_index}
use nocturne_os_base.Heap.{
  HeapEntry, Heap, entry_at, vmm_is_page_used_by_entries, heap_get_block, free_no_map,
}
use nocturne_os_base.Heap.Insert.{IsValid, end_of}
use nocturne_os_base.Heap.First.{first_unique}
use nocturne_os_base.Heap.Cover.{touches, IsBelowTop, used_page_cases, used_page_same}
use nocturne_os_base.Heap.Free.{IsBlockAt, Removes, free_no_map-Removes, heap_get_block_lem}
use nocturne_os_base.Pmm.Room.{free_single-ret}
use nocturne_os_base.Paging.{Mapping, page_mask, phys_get_page_data, unmap_single_page}
use nocturne_os_base.Paging.Lookup.{page_entry, get_page_data_lem}
use nocturne_os_base.Paging.Map.{unmap_single-Sets, unmap_single-same}
use nocturne_os_base.Kmalloc.{Kernel, free_page, free_rounds, kfree}
use nocturne_os_base.Kmalloc.Ensure.{HasFrames}

-- One page of the loop: the page of the address is unmapped unless a block touches it.
free_page-cases :
    (h : Heap) (a : ℕ) (s : Mapping)
    → a < 2 ^ 32
    → HasFrames s
    → (s' : Mapping) × (free_page h a s ≡ ret s')
      × HasFrames s'
      × ((q : ℕ)
          → page_entry s' q ≡ (
              if q == a / page_size && not (vmm_is_page_used_by_entries h a)
              then 0
              else page_entry s q))
unfolding free_page
free_page-cases h a s small frames = elim (Bool-cases (vmm_is_page_used_by_entries h a)) [
  | inl used ↦ (s, rw used refl, frames, λ q. ground (arith, used))
  | inr unused ↦
      let phys_addr = page_mask (phys_get_page_data a s) in
      let sets = unmap_single-Sets a s small in
      let pmm = unmap_single-same a s in
      let frame : ℕ → ℕ = λ (t : ℕ). byte_index (page_mask t) in
      let bits = ap (λ (t : Pmm). length t.bitmap) pmm in
      let (p, e, same_size) =
        free_single-ret phys_addr (unmap_single_page a s).pmm
          (omega (arith, frames (a / page_size), ap frame (get_page_data_lem a s small), bits)) in
      (
        record (unmap_single_page a s) { pmm = p },
        rw unused (rw e refl),
        (λ q. elim (ℕ_discrete q (a / page_size)) [
          | yes here ↦
              let cleared : page_entry (unmap_single_page a s) q ≡ 0 =
                ground (arith, sets q, here) in
              omega (arith, ap frame cleared, same_size, bits, frames q)
          | no other ↦
              let same : page_entry (unmap_single_page a s) q ≡ page_entry s q =
                ground (arith, sets q, other) in
              omega (arith, ap frame same, same_size, bits, frames q)
        ]),
        λ q. ground (arith, unused, sets q),
      )
]

free_rounds-cases :
    (n : ℕ) (h : Heap) (a : ℕ) (s : Mapping)
    → a < 2 ^ 32
    → a / page_size + n ≤ 2 ^ 20
    → IsBelowTop h
    → HasFrames s
    → (s' : Mapping) × (free_rounds n h a s ≡ ret s')
      × ((q : ℕ)
          → page_entry s' q ≡ (
              if (leb (a / page_size) q && ltb q (a / page_size + n))
                && not (vmm_is_page_used_by_entries h (q * page_size))
              then 0
              else page_entry s q))
unfolding free_rounds
free_rounds-cases zero h a s small inside top frames = (s, refl, λ q. ground arith)
free_rounds-cases (suc n) h a s small inside top frames =
    let (t, e, frames', one) = free_page-cases h a s small frames in
    let (u, e', rest) =
      free_rounds-cases n h (u32 (a + page_size)) t (omega arith) (omega arith) top frames' in
    (
      u,
      rw e e',
      λ q. elim (ℕ_discrete q (a / page_size)) [
        | yes here ↦
            let used : vmm_is_page_used_by_entries h (q * page_size)
                ≡ vmm_is_page_used_by_entries h a =
              used_page_same h (q * page_size) a top (omega arith) in
            ground (arith, rest q, one q, here, used)
        | no other ↦ ground (arith, rest q, one q, other)
      ],
    )

Removes-IsBelowTop : (h : Heap) (i : ℕ) (h' : Heap) → Removes h i h' → IsBelowTop h → IsBelowTop h'
Removes-IsBelowTop h i h' removes top j hj = elim (dec_lt j i) [
  | yes low ↦ omega (arith, ap end_of (removes.below j low), top j (omega (arith, removes.counted)))
  | no high ↦ omega (
    arith,
    ap end_of (removes.above j (omega arith)),
    top (j + 1) (omega (arith, removes.counted)),
  )
]

-- `k'` is `k` without block `i`, which stands at `ptr`, and without the pages that only it touches.
pub record Releases (k : Kernel) (ptr i : ℕ) (k' : Kernel) : Type 0 where
  pub removed : Removes k.heap i k'.heap
  pub kept :
      (j q : ℕ)
      → j < k'.heap.allocated_count
      → touches (entry_at k'.heap.memory j) q ≡ true
      → page_entry k'.mapping q ≡ page_entry k.mapping q
  pub cleared :
      (q : ℕ)
      → ptr / page_size ≤ q
      → q < ptr / page_size + ((entry_at k.heap.memory i).length + (page_size - 1)) / page_size
      → ((j : ℕ) → j < k'.heap.allocated_count → touches (entry_at k'.heap.memory j) q ≡ false)
      → page_entry k'.mapping q ≡ 0
  pub bytes : k'.memory ≡ k.memory

-- `kfree` of an address other than 0, on a table in order whose blocks stay below the last page and
-- whose frames are the allocator's, returns. With no block at the address nothing changes. Otherwise the first block there leaves
-- the table; each page that a block left in the table touches keeps its entry, and of the pages that the
-- loop visits those that no block touches are unmapped.
pub kfree-Releases :
    (k : Kernel) (ptr : ℕ)
    → IsValid k.heap
    → ptr ≢ 0
    → IsBelowTop k.heap
    → HasFrames k.mapping
    → ((kfree ptr k ≡ ret k)
        × ((j : ℕ) → j < k.heap.allocated_count → (entry_at k.heap.memory j).address ≢ ptr))
      ⊎ ((i : ℕ) × (k' : Kernel) × IsBlockAt k.heap.memory ptr 0 k.heap.allocated_count i
          × (kfree ptr k ≡ ret k')
          × Releases k ptr i k')
unfolding kfree
kfree-Releases k ptr valid nonzero top frames = elim (heap_get_block_lem k.heap ptr) [
  | inl (none, _, no_block) ↦
      inl (ground (arith, ap (λ (b : HeapEntry). b.address) none, nonzero), no_block)
  | inr (i, block, found, _) ↦ elim (free_no_map-Removes k.heap ptr valid nonzero) [
    | inl (_, no_block) ↦ absurd (no_block i (omega (arith, block.1)) block.2)
    | inr (i', block', removes') ↦ inr (
        freed i block found (
          subst (λ m. Removes k.heap m (free_no_map ptr k.heap))
            (first_unique k.heap.memory ptr k.heap.allocated_count i' i block' block) removes'))
  ]
]
  where
    freed :
        (i : ℕ)
        → IsBlockAt k.heap.memory ptr 0 k.heap.allocated_count i
        → heap_get_block k.heap ptr ≡ entry_at k.heap.memory i
        → Removes k.heap i (free_no_map ptr k.heap)
        → (i' : ℕ) × (k' : Kernel) × IsBlockAt k.heap.memory ptr 0 k.heap.allocated_count i'
          × (kfree ptr k ≡ ret k')
          × Releases k ptr i' k'
    freed i block found removes =
        let h' = free_no_map ptr k.heap in
        let e = entry_at k.heap.memory i in
        let fits = top i (omega (arith, block.1)) in
        let top' = Removes-IsBelowTop k.heap i h' removes top in
        let at : e.address ≡ ptr = block.2 in
        let (m, rounds, pages) =
          free_rounds-cases ((e.length + (page_size - 1)) / page_size) h' ptr k.mapping
            (omega (arith, at)) (omega (arith, at)) top' frames in
        let nz : (ptr == 0) ≡ false = ground (arith, nonzero) in
        let short : ltb (2 ^ 32 - page_size) e.length ≡ false = ground (arith, at) in
        (
          i,
          record k { heap = h'; mapping = m },
          block,
          rw found (rw at (rw nz (rw short (rw rounds refl)))),
          record {
            removed = removes;
            kept = λ j q hj t. elim (used_page_cases h' (q * page_size) top') [
              | inl (_, no_block) ↦
                  let page : q * page_size / page_size ≡ q = omega arith in
                  absurd
                    (ground (arith, no_block j hj, ap (touches (entry_at h'.memory j)) page, t))
              | inr (used, _) ↦ ground (arith, pages q, used)
            ];
            cleared = λ q lo hi alone. elim (used_page_cases h' (q * page_size) top') [
              | inl (unused, _) ↦ ground (arith, pages q, unused)
              | inr (_, (j, hj, t)) ↦
                  let page : q * page_size / page_size ≡ q = omega arith in
                  absurd (ground (arith, alone j hj, ap (touches (entry_at h'.memory j)) page, t))
            ];
            bytes = refl;
          },
        )
