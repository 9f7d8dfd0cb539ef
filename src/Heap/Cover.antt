-- ===== src/Heap/Cover.antt =====
-- The pages that the blocks touch: `vmm_is_page_used_by_entries` of kernel/src/mem/vmm.c.
use nocturne_os_base.Prelude.{
  ℕ, zero, suc, ◌+◌, ◌*◌, ◌/◌, ◌^◌, ◌≤◌, ◌<◌, ltb, leb, ◌&&◌, u32, page_size, ◌≡◌, refl, arith, ap,
  ◌∙◌, Bool, true, false, Bool-cases, ◌⊎◌, inl, inr, ℕ_discrete, List,
}
use nocturne_os_base.Prelude.Align.{align_up_page}
use nocturne_os_base.Prelude.Bits.{bit_and_page}
use nocturne_os_base.Heap.{
  HeapEntry, Heap, entry_at, covers_page, any_covers_page, vmm_is_page_used_by_entries,
}
use nocturne_os_base.Heap.Insert.{end_of}

-- A block has a byte on a page, or starts on it.
abbrev pub touches : HeapEntry → ℕ → Bool
touches e q = leb (e.address / page_size) q && ltb (q * page_size) (end_of e)

-- No block reaches into the last page of the address space.
abbrev pub IsBelowTop : Heap → Type 0
IsBelowTop h = (j : ℕ) → j < h.allocated_count → end_of (entry_at h.memory j) + page_size ≤ 2 ^ 32

-- The test of the code, at any address of the page.
covers_page_lem :
    (e : HeapEntry) (a : ℕ)
    → end_of e + page_size ≤ 2 ^ 32
    → covers_page e a ≡ touches e (a / page_size)
unfolding covers_page
covers_page_lem e a inside =
    ground
      (arith, bit_and_page e.address (omega arith), align_up_page (u32 (end_of e)) (omega arith))

any_covers_cases :
    (mem : List HeapEntry) (a n i : ℕ)
    → ((j : ℕ) → i ≤ j → j < i + n → end_of (entry_at mem j) + page_size ≤ 2 ^ 32)
    → ((any_covers_page mem a n i ≡ false)
        × ((j : ℕ) → i ≤ j → j < i + n → touches (entry_at mem j) (a / page_size) ≡ false))
      ⊎ ((any_covers_page mem a n i ≡ true)
          × ((j : ℕ) × (i ≤ j) × (j < i + n) × (touches (entry_at mem j) (a / page_size) ≡ true)))
unfolding any_covers_page
any_covers_cases mem a zero i inside = inl (refl, λ j lo hi. absurd (omega arith))
any_covers_cases mem a (suc n) i inside =
    let here = covers_page_lem (entry_at mem i) a (inside i (omega arith) (omega arith)) in
    elim (Bool-cases (touches (entry_at mem i) (a / page_size))) [
      | inl yes_here ↦ inr (rw (here ∙ yes_here) refl, (i, omega arith, omega arith, yes_here))
      | inr not_here ↦
          rw (here ∙ not_here)
            (elim (any_covers_cases mem a n (i + 1)
              (λ j lo hi. inside j (omega arith) (omega arith))) [
                | inr (e, (j, lo, hi, t)) ↦ inr (e, (j, omega arith, omega arith, t))
                | inl (e, none_later) ↦ inl (
                  e,
                  λ j lo hi. elim (ℕ_discrete j i) [
                    | yes same ↦
                        ap (λ (t : ℕ). touches (entry_at mem t) (a / page_size)) same ∙ not_here
                    | no other ↦ none_later j (omega arith) (omega arith)
                  ],
                )
              ])
    ]

-- An address counts as used if a block touches its page.
pub used_page_cases :
    (h : Heap) (a : ℕ)
    → IsBelowTop h
    → ((vmm_is_page_used_by_entries h a ≡ false)
        × ((j : ℕ) → j < h.allocated_count → touches (entry_at h.memory j) (a / page_size) ≡ false))
      ⊎ ((vmm_is_page_used_by_entries h a ≡ true)
          × ((j : ℕ) × (j < h.allocated_count)
              × (touches (entry_at h.memory j) (a / page_size) ≡ true)))
unfolding vmm_is_page_used_by_entries
used_page_cases h a top =
    elim (any_covers_cases h.memory a h.allocated_count 0 (λ j lo hi. top j (omega arith))) [
      | inl (e, no_block) ↦ inl (e, λ j hj. no_block j (omega arith) (omega arith))
      | inr (e, (j, lo, hi, t)) ↦ inr (e, (j, omega arith, t))
    ]

-- The answer is the same at each address of a page.
pub used_page_same :
    (h : Heap) (a b : ℕ)
    → IsBelowTop h
    → a / page_size ≡ b / page_size
    → vmm_is_page_used_by_entries h a ≡ vmm_is_page_used_by_entries h b
used_page_same h a b top page = elim (used_page_cases h a top) [
  | inl (e, no_block) ↦ elim (used_page_cases h b top) [
    | inl (e', _) ↦ ground (arith, e, e')
    | inr (e', (j, hj, t)) ↦
        absurd (ground (arith, no_block j hj, t, ap (touches (entry_at h.memory j)) page))
  ]
  | inr (e, (j, hj, t)) ↦ elim (used_page_cases h b top) [
    | inr (e', _) ↦ ground (arith, e, e')
    | inl (e', no_block) ↦
        absurd (ground (arith, no_block j hj, t, ap (touches (entry_at h.memory j)) page))
  ]
]
