-- ===== src/Heap/Alloc.antt =====
-- `alloc_no_map` of kernel/src/mem/vmm.c keeps the block table in order.
use nocturne_os_base.Prelude.{
  ℕ, suc, ◌⊎◌, ◌+◌, ◌-◌, ◌%◌, ◌^◌, ◌<◌, List, length, ◌≡◌, ◌≢◌, refl, arith, inl, inr, u32, ret,
  Bool-cases, length-set, get_or-set_self, get_or-set_ne, subst, sym, ◌∙◌, false, ==_iff, ◌==◌,
}
use nocturne_os_base.Heap.{
  HeapEntry, Heap, no_entry, entry_at, append, insert, find_place, shift_up, place_block,
  alloc_no_map,
}
use nocturne_os_base.Heap.Shift.{length-shift_up, entry_at-shift_up}
use nocturne_os_base.Heap.Search.{IsAlignment, Finds, find_place-Finds}
use nocturne_os_base.Heap.Insert.{IsValid, end_of, Inserts, Fits, Inserts-IsValid}

place_block-address :
    (h : Heap) (mem : List HeapEntry) (k a size : ℕ)
    → place_block h mem k a size ≡ (a, (place_block h mem k a size).1)
unfolding place_block
place_block-address h mem k a size = refl

module _ (h : Heap) (size : ℕ) (valid : IsValid h) where
  -- The block is put in at a place behind the last one.
  append-Inserts :
      (c : ℕ)
      → Inserts h.memory h.allocated_count h.allocated_count
          (record { address = c; length = size })
          (place_block h h.memory h.allocated_count c size).1.memory
  unfolding place_block
  append-Inserts c = record {
    k_in = omega arith;
    below = λ j hj. get_or-set_ne h.memory h.allocated_count j _ no_entry (omega arith);
    at =
        get_or-set_self h.memory h.allocated_count _ no_entry
          (ground (arith, valid.holds, valid.room));
    above = λ j hj. ground (
      arith,
      valid.blank j,
      valid.blank (j - 1),
      get_or-set_ne h.memory h.allocated_count j (record { address = c; length = size }) no_entry,
    );
    same_length = length-set h.memory h.allocated_count _;
  }

  -- Or in front of block `k`.
  insert-Inserts :
      (k c : ℕ)
      → 0 < k
      → k < h.allocated_count
      → Inserts h.memory h.allocated_count k
          (record { address = c; length = size })
          (place_block h
            (shift_up h.memory (h.allocated_count - (k - 1)) h.allocated_count)
            k
            c
            size).1.memory
  unfolding place_block
  insert-Inserts k c pos lt =
      let e : HeapEntry = record { address = c; length = size } in
      let n = h.allocated_count - (k - 1) in
      let mem = shift_up h.memory n h.allocated_count in
      let in_table : h.allocated_count < length h.memory =
        ground (arith, valid.holds, valid.room) in
      let same : length mem ≡ length h.memory = length-shift_up h.memory n h.allocated_count in
      record {
        k_in = omega arith;
        below = λ j hj. ground (
          arith,
          get_or-set_ne mem k j e no_entry,
          entry_at-shift_up h.memory n h.allocated_count j (omega arith) in_table,
        );
        at = get_or-set_self mem k e no_entry (omega (arith, same, in_table));
        above = λ j hj. ground (
          arith,
          get_or-set_ne mem k j e no_entry,
          entry_at-shift_up h.memory n h.allocated_count j (omega arith) in_table,
          valid.blank j,
          valid.blank (j - 1),
        );
        same_length = length-set mem k e ∙ same;
      }

-- `h'` is `h` with a block of `size` bytes at address `a`, as block `k`.
pub record Allocates (h : Heap) (size align k a : ℕ) (h' : Heap) : Type 0 where
  pub inserts :
      Inserts h.memory h.allocated_count k (record { address = a; length = size }) h'.memory
  pub fits : Fits h k (record { address = a; length = size })
  pub counted : h'.allocated_count ≡ h.allocated_count + 1
  pub used : h'.used_memory ≡ u32 (h.used_memory + size)
  pub aligned : h.allocated_count ≢ 0 → a % align ≡ 0
  pub near :
      (a ≡ h.start)
      ⊎ ((j : ℕ) × (j < h.allocated_count) × (a < end_of (entry_at h.memory j) + align))
  pub valid : IsValid h'

module _ (h : Heap) (size align : ℕ) (valid : IsValid h)
    (free : h.allocated_count + 1 < h.capacity) where
  Allocates-at :
      (k a : ℕ) (mem : List HeapEntry)
      → let h' = (place_block h mem k a size).1 in
        Inserts h.memory h.allocated_count k (record { address = a; length = size }) h'.memory
        → Fits h k (record { address = a; length = size })
        → (h.allocated_count ≢ 0 → a % align ≡ 0)
        → (a ≡ h.start)
          ⊎ ((j : ℕ) × (j < h.allocated_count) × (a < end_of (entry_at h.memory j) + align))
        → Allocates h size align k a h'
  unfolding place_block
  Allocates-at k a mem ins fits aligned near = record {
    inserts = ins;
    fits = fits;
    counted = refl;
    used = refl;
    aligned = aligned;
    near = near;
    valid =
        Inserts-IsValid h _ k (record { address = a; length = size }) valid ins fits refl refl free;
  }

  -- `alloc_no_map` with an alignment, on a table in order that is not full, with a start other than 0
  -- where the block fits and every block far enough from the end of the address space, returns the address of a new block of the size asked for. The block is
  -- put in address order, overlaps no other and is aligned unless it is the first; the other blocks
  -- stay, the size is added to the memory in use, and the table stays in order.
  pub alloc_no_map-Allocates :
      IsAlignment align
      → 0 < align
      → 0 < h.start
      → h.start + size < 2 ^ 32
      → ((i : ℕ) → i < h.allocated_count → end_of (entry_at h.memory i) + align + size < 2 ^ 32 - 1)
      → (k : ℕ) × (a : ℕ) × (h' : Heap) × (alloc_no_map size align h ≡ ret (a, h'))
        × Allocates h size align k a h'
  unfolding alloc_no_map
  alloc_no_map-Allocates aligns align_pos start_pos start_fits space =
      elim (Bool-cases (h.allocated_count == 0)) [
        | inl first ↦ (
          0,
          h.start,
          (place_block h h.memory 0 h.start size).1,
          ground (arith, first, place_block-address h h.memory 0 h.start size),
          Allocates-at 0 h.start h.memory
              (subst
                (λ n.
                  Inserts h.memory h.allocated_count n (record { address = h.start; length = size })
                    (place_block h h.memory n h.start size).1.memory)
                ((==_iff h.allocated_count 0).0 first) (append-Inserts h size valid h.start))
              (record {
                positive = start_pos;
                in_space = start_fits;
                after = λ j hj. absurd (omega arith);
                before = λ j lo hj. absurd (ground arith);
              })
              (λ ne. absurd (ne ((==_iff h.allocated_count 0).0 first))) (inl refl),
        )
        | inr later ↦
            let e' : suc (h.allocated_count - 1) ≡ h.allocated_count = ground arith in
            later_cases e' later (
              find_place-Finds h size align valid aligns align_pos space (h.allocated_count - 1) 0
                (omega arith))
      ]
    where
      later_cases :
          suc (h.allocated_count - 1) ≡ h.allocated_count
          → (h.allocated_count == 0) ≡ false
          → Finds h size align valid aligns align_pos space
              (find_place h.memory size align (suc (h.allocated_count - 1)) 0)
          → (k : ℕ) × (a : ℕ) × (h' : Heap) × (alloc_no_map size align h ≡ ret (a, h'))
            × Allocates h size align k a h'
      later_cases e' later (k, c, place, inl (e, last)) = (
        k,
        c,
        (place_block h h.memory k c size).1,
        (let found : find_place h.memory size align h.allocated_count 0 ≡ append c k =
              subst (λ n. find_place h.memory size align n 0 ≡ append c k) e' e in
            ground (arith, found, later, free, place_block-address h h.memory k c size)),
        Allocates-at k c h.memory
            (subst
              (λ n.
                Inserts h.memory h.allocated_count n (record { address = c; length = size })
                  (place_block h h.memory n c size).1.memory)
              (sym last) (append-Inserts h size valid c))
            place.fits (λ _. place.aligned) (inr place.near),
      )
      later_cases e' later (k, c, place, inr (e, lt)) =
          let mem = shift_up h.memory (h.allocated_count - (k - 1)) h.allocated_count in
          (
            k,
            c,
            (place_block h mem k c size).1,
            (let found : find_place h.memory size align h.allocated_count 0 ≡ insert c (k - 1) =
                  subst (λ n. find_place h.memory size align n 0 ≡ insert c (k - 1)) e' e in
                let k' : k - 1 + 1 ≡ k = omega (arith, place.k_pos) in
                ground (
                  arith,
                  found,
                  later,
                  free,
                  k',
                  place.fits_space,
                  place_block-address h mem k c size,
                )),
            Allocates-at k c mem (insert-Inserts h size valid k c place.k_pos lt) place.fits
                (λ _. place.aligned) (inr place.near),
          )
