-- ===== src/Heap/Free.antt =====
-- The searches by address and `free_no_map` of kernel/src/mem/vmm.c.
use nocturne_os_base.Prelude.{
  ℕ, zero, suc, ◌+◌, ◌-◌, ◌≤◌, ◌<◌, List, length, set, ◌≡◌, ◌≢◌, refl, arith, ◌⊎◌, inl, inr, sub32,
  Bool-cases, length-set, get_or-set_self, get_or-set_ne, ltb, leb, ◌==◌, if◌then◌else◌, ◌&&◌, none,
  some, ap, ◌∙◌, dec_lt, subst, false,
}
use nocturne_os_base.Heap.{
  HeapEntry, Heap, no_entry, entry_at, find_block, heap_get_block, heap_get_block_idx, shift_down,
  free_no_map,
}
use nocturne_os_base.Heap.Shift.{length-shift_down, entry_at-shift_down}
use nocturne_os_base.Heap.Insert.{IsValid}

-- The first block with an address, among `n` from index `i` on.
abbrev pub IsBlockAt : List HeapEntry → ℕ → ℕ → ℕ → ℕ → Type 0
IsBlockAt mem address i n k =
    (i ≤ k)
    × (k < i + n)
    × ((entry_at mem k).address ≡ address)
    × ((j : ℕ) → i ≤ j → j < k → (entry_at mem j).address ≢ address)

pub find_block_cases :
    (mem : List HeapEntry) (address n i : ℕ)
    → ((find_block mem address n i ≡ none)
        × ((j : ℕ) → i ≤ j → j < i + n → (entry_at mem j).address ≢ address))
      ⊎ ((k : ℕ) × (find_block mem address n i ≡ some k) × IsBlockAt mem address i n k)
unfolding find_block
find_block_cases mem address zero i = inl (refl, λ j lo hi. absurd (omega arith))
find_block_cases mem address (suc n) i = elim (Bool-cases ((entry_at mem i).address == address)) [
  | inl here ↦
      rw here
        (inr (i, refl, (omega arith, omega arith, ground arith, λ j lo hi. absurd (omega arith))))
  | inr other ↦ rw other (elim (find_block_cases mem address n (i + 1)) [
    | inl (e, no_block) ↦ inl (e, λ j lo hi. later j lo (λ p. no_block j p (omega arith)) other)
    | inr (k, e, (lo, hi, at, least)) ↦
        inr (
          k,
          e,
          (omega arith, omega arith, at, λ j lo' hi'. later j lo' (λ p. least j p hi') other),
        )
  ])
]
  where
    later :
        (j : ℕ)
        → i ≤ j
        → (i + 1 ≤ j → (entry_at mem j).address ≢ address)
        → ((entry_at mem i).address == address) ≡ false
        → (entry_at mem j).address ≢ address
    later j lo above other e = elim (dec_lt i j) [
      | yes p ↦ above (omega arith) e
      | no p ↦
          let same : j ≡ i = omega arith in
          ground (arith, ap (λ (t : ℕ). (entry_at mem t).address) same)
    ]

-- `h'` is `h` without block `k`.
pub record Removes (h : Heap) (k : ℕ) (h' : Heap) : Type 0 where
  pub below : (j : ℕ) → j < k → entry_at h'.memory j ≡ entry_at h.memory j
  pub above : (j : ℕ) → k ≤ j → entry_at h'.memory j ≡ entry_at h.memory (j + 1)
  pub counted : h'.allocated_count + 1 ≡ h.allocated_count
  pub used : h'.used_memory ≡ sub32 h.used_memory (entry_at h.memory k).length
  pub same_length : length h'.memory ≡ length h.memory
  pub valid : IsValid h'

module _ (h : Heap) (k : ℕ) (valid : IsValid h) (hk : k < h.allocated_count) where
  removed : Heap
  removed = record h {
    used_memory = sub32 h.used_memory (entry_at h.memory k).length;
    memory =
        set (shift_down h.memory (h.allocated_count - 1 - k) k) (h.allocated_count - 1) no_entry;
    allocated_count = h.allocated_count - 1;
  }

  shifted :
      (j : ℕ)
      → entry_at (shift_down h.memory (h.allocated_count - 1 - k) k) j ≡ (
          if leb k j && ltb j (h.allocated_count - 1)
          then entry_at h.memory (j + 1)
          else entry_at h.memory j)
  shifted j =
      ground (
        arith,
        valid.holds,
        valid.room,
        entry_at-shift_down h.memory (h.allocated_count - 1 - k) k j,
      )

  removed_entry :
      (j : ℕ)
      → entry_at removed.memory j
        ≡ (if ltb j k then entry_at h.memory j else entry_at h.memory (j + 1))
  unfolding removed
  removed_entry j =
      let mem = shift_down h.memory (h.allocated_count - 1 - k) k in
      ground (
        arith,
        shifted j,
        valid.blank j,
        valid.blank (j + 1),
        get_or-set_self mem (h.allocated_count - 1) no_entry no_entry,
        length-shift_down h.memory (h.allocated_count - 1 - k) k,
        valid.holds,
        valid.room,
        get_or-set_ne mem (h.allocated_count - 1) j no_entry no_entry,
      )

  removed-count : removed.allocated_count + 1 ≡ h.allocated_count
  unfolding removed
  removed-count = omega arith

  removed-IsValid : IsValid removed
  removed-IsValid = record {
    holds =
        unfold removed in
        (length-set _ (h.allocated_count - 1) no_entry
          ∙ length-shift_down h.memory _ k
          ∙ valid.holds);
    room = unfold removed in (omega (arith, valid.room));
    nonzero = λ i hi.
        ground (arith, removed-count, removed_entry i, valid.nonzero i, valid.nonzero (i + 1));
    ends = λ i hi. ground (arith, removed-count, removed_entry i, valid.ends i, valid.ends (i + 1));
    ordered = λ i j lt hj. ground (
      arith,
      removed-count,
      removed_entry i,
      removed_entry j,
      valid.ordered i j,
      valid.ordered i (j + 1),
      valid.ordered (i + 1) (j + 1),
    );
    blank = λ i hi. ground (arith, removed-count, removed_entry i, valid.blank (i + 1));
  }

  removed-Removes : Removes h k removed
  removed-Removes = record {
    below = λ j hj. ground (arith, removed_entry j);
    above = λ j hj. ground (arith, removed_entry j);
    counted = removed-count;
    used = unfold removed in refl;
    same_length =
        unfold removed in
        (length-set _ (h.allocated_count - 1) no_entry ∙ length-shift_down h.memory _ k);
    valid = removed-IsValid;
  }

-- `free_no_map` of an address other than 0 on a table in order takes out the first block at that address, moves the blocks
-- behind it down by one and takes its size off the memory in use; the table stays in order. With
-- no block at that address it changes nothing.
pub free_no_map-Removes :
    (h : Heap) (ptr : ℕ)
    → IsValid h
    → ptr ≢ 0
    → ((free_no_map ptr h ≡ h)
        × ((j : ℕ) → j < h.allocated_count → (entry_at h.memory j).address ≢ ptr))
      ⊎ ((k : ℕ) × IsBlockAt h.memory ptr 0 h.allocated_count k × Removes h k (free_no_map ptr h))
unfolding free_no_map removed
free_no_map-Removes h ptr valid nonzero = elim (find_block_cases h.memory ptr h.allocated_count 0) [
  | inl (e, no_block) ↦ inl (ground (arith, e), λ j hj. no_block j (omega arith) (omega arith))
  | inr (k, e, block) ↦
      let found : removed h k valid (omega (arith, block.1)) ≡ free_no_map ptr h =
        ground (arith, e) in
      inr (k, block, subst (Removes h k) found (removed-Removes h k valid (omega (arith, block.1))))
]

-- The searches return the block that `free_no_map` would take out.
pub heap_get_block_lem :
    (h : Heap) (ptr : ℕ)
    → ((heap_get_block h ptr ≡ no_entry)
        × (heap_get_block_idx h ptr ≡ 0xffffffff)
        × ((j : ℕ) → j < h.allocated_count → (entry_at h.memory j).address ≢ ptr))
      ⊎ ((k : ℕ) × IsBlockAt h.memory ptr 0 h.allocated_count k
          × (heap_get_block h ptr ≡ entry_at h.memory k)
          × (heap_get_block_idx h ptr ≡ k))
unfolding heap_get_block heap_get_block_idx
heap_get_block_lem h ptr = elim (find_block_cases h.memory ptr h.allocated_count 0) [
  | inl (e, no_block) ↦
      inl (ground (arith, e), ground (arith, e), λ j hj. no_block j (omega arith) (omega arith))
  | inr (k, e, block) ↦ inr (k, block, ground (arith, e), ground (arith, e))
]
