-- ===== src/Heap/Search.antt =====
-- The search of `alloc_no_map` in kernel/src/mem/vmm.c ends at a place where the block fits.
use nocturne_os_base.Prelude.{
  ℕ, zero, suc, ◌+◌, ◌-◌, ◌%◌, ◌^◌, ◌≤◌, ◌<◌, ◌≡◌, refl, arith, ◌⊎◌, inl, inr, u32, sub32, align_up,
  Bool-cases, ap, leb, ◌==◌,
}
use nocturne_os_base.Prelude.Bits.{bit_and_mask, bit_and-zero}
use nocturne_os_base.Heap.{Heap, entry_at, block_end, Place, append, insert, find_place}
use nocturne_os_base.Heap.Insert.{IsValid, end_of, Fits}

-- `ALIGN(v, a)` is a multiple of `a` less than `a` above `v`, unless it leaves the address space.
abbrev pub IsAlignment : ℕ → Type 0
IsAlignment a =
    (v : ℕ) → v + a ≤ 2 ^ 32 → (v ≤ align_up v a) × (align_up v a < v + a) × (align_up v a % a ≡ 0)

-- The alignments that the kernel asks for.
pub one-IsAlignment : IsAlignment 1
unfolding align_up
one-IsAlignment v h = omega (arith, bit_and-zero (sub32 0 v))

pub four-IsAlignment : IsAlignment 4
unfolding align_up
four-IsAlignment v h = omega (arith, bit_and_mask 2 (sub32 0 v))

pub sixteen-IsAlignment : IsAlignment 16
unfolding align_up
sixteen-IsAlignment v h = omega (arith, bit_and_mask 4 (sub32 0 v))

pub page-IsAlignment : IsAlignment 4096
unfolding align_up
page-IsAlignment v h = omega (arith, bit_and_mask 12 (sub32 0 v))

module _ (h : Heap) (size align : ℕ) (valid : IsValid h) (aligns : IsAlignment align)
    (align_pos : 0 < align)
    (space : (i : ℕ)
      → i < h.allocated_count
      → end_of (entry_at h.memory i) + align + size < 2 ^ 32 - 1) where
  -- Where block `i` ends, aligned.
  block_end_bounds :
      (i : ℕ)
      → i < h.allocated_count
      → let c = block_end (entry_at h.memory i) align in
        (end_of (entry_at h.memory i) ≤ c)
        × (c < end_of (entry_at h.memory i) + align)
        × (c % align ≡ 0)
  unfolding block_end
  block_end_bounds i hi =
      ground (arith, valid.ends i hi, space i hi, aligns (end_of (entry_at h.memory i)))

  -- A place at index `k`, at address `c`.
  pub record IsPlace (k c : ℕ) : Type 0 where
    pub fits : Fits h k (record { address = c; length = size })
    pub k_pos : 0 < k
    pub k_in : k ≤ h.allocated_count
    pub aligned : c % align ≡ 0
    pub near : (j : ℕ) × (j < h.allocated_count) × (c < end_of (entry_at h.memory j) + align)
    pub fits_space : c + size < 2 ^ 32 - 1

  behind :
      (i : ℕ)
      → i < h.allocated_count
      → let c = block_end (entry_at h.memory i) align in
        ((i + 1 < h.allocated_count) → c + size ≤ (entry_at h.memory (i + 1)).address)
        → IsPlace (i + 1) c
  behind i hi next = record {
    fits = record {
      positive = omega (arith, block_end_bounds i hi, valid.nonzero i hi);
      in_space = omega (arith, block_end_bounds i hi, space i hi);
      after = λ j hj. ground (arith, block_end_bounds i hi, valid.ordered j i);
      before = λ j lo hj. ground (arith, next, valid.ordered (i + 1) j);
    };
    k_pos = omega arith;
    k_in = omega arith;
    aligned = (block_end_bounds i hi).2;
    near = (i, hi, (block_end_bounds i hi).1);
    fits_space = omega (arith, block_end_bounds i hi, space i hi);
  }

  -- The search ends at a place: behind the last block, or in front of another.
  abbrev pub Finds : Place → Type 0
  Finds p =
      (k : ℕ) × (c : ℕ) × IsPlace k c
      × (((p ≡ append c k) × (k ≡ h.allocated_count))
          ⊎ ((p ≡ insert c (k - 1)) × (k < h.allocated_count)))

  find_place-step :
      (n i : ℕ)
      → i < h.allocated_count
      → (i + 1 < h.allocated_count → Finds (find_place h.memory size align n (i + 1)))
      → Finds (find_place h.memory size align (suc n) i)
  unfolding find_place
  find_place-step n i hi rest = elim (Bool-cases ((entry_at h.memory (i + 1)).address == 0)) [
    | inl end ↦ rw end (
      i + 1,
      block_end (entry_at h.memory i) align,
      behind i hi (λ lt. absurd (ground (arith, valid.nonzero (i + 1) lt))),
      inl (refl, ground (arith, valid.nonzero (i + 1))),
    )
    | inr more ↦
        let lt : i + 1 < h.allocated_count = ground (arith, valid.blank (i + 1)) in
        rw more
          (elim (Bool-cases (
            leb (u32 (block_end (entry_at h.memory i) align + size))
              (entry_at h.memory (i + 1)).address)) [
                | inl gap ↦ rw gap (
                  i + 1,
                  block_end (entry_at h.memory i) align,
                  behind i hi (λ _. ground (arith, block_end_bounds i hi, space i hi)),
                  inr (ap (insert (block_end (entry_at h.memory i) align)) (omega arith), lt),
                )
                | inr tight ↦ rw tight (rest lt)
              ])
  ]

  pub find_place-Finds :
      (n i : ℕ) → i + suc n ≡ h.allocated_count → Finds (find_place h.memory size align (suc n) i)
  find_place-Finds zero i e = find_place-step zero i (omega arith) (λ lt. absurd (omega arith))
  find_place-Finds (suc n) i e =
      find_place-step (suc n) i (omega arith) (λ lt. find_place-Finds n (i + 1) (omega arith))
