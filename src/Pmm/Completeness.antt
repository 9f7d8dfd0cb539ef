-- ===== src/Pmm/Completeness.antt =====
-- The search of `phys_alloc_multi_pages` in kernel/src/mem/pmm.c: when it finds a run.
use nocturne_os_base.Prelude.{
  ℕ, zero, suc, ◌+◌, ◌*◌, ◌%◌, ◌≤◌, ◌<◌, false, List, [], ◌∷◌, ◌==◌, length, get_or, ◌≡◌, refl,
  arith, Option, none, some, inl, inr, Bool-cases, ◌≢◌,
}
use nocturne_os_base.Prelude.Bytes.{bit_at, bit_at_full}
use nocturne_os_base.Pmm.{Run, Visit, found, more, visit, visit_byte, find_run, run_start}
use nocturne_os_base.Pmm.Sweep.{page_used}
use nocturne_os_base.Pmm.Single.{page_used_at}

-- `count + 1` free pages in a row, from page `a` on.
module _ (bm : List ℕ) (count a : ℕ) (pos : 0 < count)
    (free : (q : ℕ) → a ≤ q → q ≤ a + count → page_used bm q ≡ false)
    (inside : a + count < 8 * length bm) where
  -- Before page `p` the search has not passed the last of them, and counts those before `p`.
  -- If that is page 0, the run before it is started there.
  abbrev FromZero : Run → Type 0
  FromZero r = (r.addr ≡ 0) × (r.si ≡ 0) × (r.sj ≡ 0)

  record Keeps (p : ℕ) (r : Run) : Type 0 where
    before_end : p ≤ a + count
    counted : p ≤ a + r.counter
    bounded : r.counter ≤ count
    origin : a ≡ 0 → (r.counter ≤ p) × (0 < p → FromZero r)

  KeepsOn : ℕ → Visit → Type 0
  KeepsOn p (found r) = a ≡ 0 → FromZero r
  KeepsOn p (more r) = Keeps p r

  visit-KeepsOn :
      (i j p : ℕ) (r : Run)
      → p ≡ 8 * i + j
      → j < 8
      → Keeps p r
      → KeepsOn (p + 1) (visit count (page_used bm p) i j r)
  unfolding KeepsOn visit
  visit-KeepsOn i j p r at hj k = elim (Bool-cases (page_used bm p)) [
    | inl used ↦ rw used (ground (arith, free p))
    | inr clear ↦ rw clear (elim (Bool-cases (r.counter == 0)) [
      | inl e ↦ rw e (ground (arith, free p))
      | inr e ↦ rw e (elim (Bool-cases (r.counter == count)) [
        | inl full ↦ rw full (λ z. (k.origin z).1 (ground arith))
        | inr short ↦ rw short (ground arith)
      ])
    ])
  ]

  visit_byte-KeepsOn :
      (i n j : ℕ) (r : Run)
      → j + n ≡ 8
      → Keeps (8 * i + j) r
      → KeepsOn (8 * i + 8) (visit_byte count (get_or bm i 0) i n j r)
  unfolding KeepsOn visit_byte
  visit_byte-KeepsOn i zero j r e k = ground arith
  visit_byte-KeepsOn i (suc n) j r e k =
      next (visit count (bit_at (get_or bm i 0) j) i j r)
        (rw (page_used_at bm i j (omega arith)) at
          (visit-KeepsOn i j (8 * i + j) r refl (omega arith) k))
        (λ r' h. visit_byte-KeepsOn i n (j + 1) r' (omega arith) (ground arith))
    where
      next :
          (v : Visit)
          → KeepsOn (8 * i + j + 1) v
          → ((r' : Run)
              → Keeps (8 * i + j + 1) r'
              → KeepsOn (8 * i + 8) (visit_byte count (get_or bm i 0) i n (j + 1) r'))
          → KeepsOn (8 * i + 8) (elim v [
            | found r' ↦ found r'
            | more r' ↦ visit_byte count (get_or bm i 0) i n (j + 1) r'
          ])
      next (found r') w go = w
      next (more r') w go = go r' w

  full_before : (i : ℕ) → get_or bm i 0 ≡ 0xff → 8 * i ≤ a + count → 8 * i + 8 ≤ a
  full_before i full h = ground (
    arith,
    free a,
    free (8 * i),
    page_used_at bm i (a % 8),
    page_used_at bm i 0,
    bit_at_full (a % 8),
    bit_at_full 0,
  )

  Ends : Option Run → Type 0
  Ends none = ⊥
  Ends (some r) = a ≡ 0 → FromZero r

  find_run-Ends :
      (bs : List ℕ) (i : ℕ) (r : Run)
      → ((d : ℕ) → get_or bs d 0 ≡ get_or bm (i + d) 0)
      → length bm ≡ i + length bs
      → Keeps (8 * i) r
      → Ends (find_run count bs i r)
  unfolding find_run Ends
  find_run-Ends [] i r link e k = omega (arith, k.before_end)
  find_run-Ends (b ∷ bs) i r link e k =
      let here : b ≡ get_or bm i 0 = ground (arith, link 0) in
      let link' : (d : ℕ) → get_or bs d 0 ≡ get_or bm (i + 1 + d) 0 =
        λ d. ground (arith, link (suc d)) in
      elim (Bool-cases (b == 0xff)) [
        | inl full ↦ rw full (
            find_run-Ends bs (i + 1) r link' (omega arith)
              (let past = full_before i (ground arith) k.before_end in ground arith))
        | inr partial ↦ rw partial (
            next (visit_byte count b i 8 0 r)
              (rw here (visit_byte-KeepsOn i 8 0 r refl (ground arith)))
              (λ r' k'. find_run-Ends bs (i + 1) r' link' (omega arith) k'))
      ]
    where
      next :
          (v : Visit)
          → KeepsOn (8 * i + 8) v
          → ((r' : Run) → Keeps (8 * (i + 1)) r' → Ends (find_run count bs (i + 1) r'))
          → Ends (elim v [ found r' ↦ some r' | more r' ↦ find_run count bs (i + 1) r' ])
      next (found r') w go = unfold KeepsOn in w
      next (more r') w go =
          let w' : Keeps (8 * i + 8) r' = unfold KeepsOn in w in
          let e' : 8 * i + 8 ≡ 8 * (i + 1) = omega arith in go r' (rw e' at w')

  ends : Ends (find_run count bm 0 run_start)
  ends =
      find_run-Ends bm 0 run_start (λ d. ground arith) (omega arith)
        (record {
          before_end = omega arith;
          counted = omega arith;
          bounded = omega arith;
          origin = λ z. (omega arith, λ h. absurd (omega arith));
        })

  -- The search finds a run.
  pub find_run_total : find_run count bm 0 run_start ≢ none
  find_run_total h = unfold Ends in (rw h at ends)

  -- It is the one at page 0, if that is where the free pages start.
  pub find_run-FromZero : {r : Run} → find_run count bm 0 run_start ≡ some r → a ≡ 0 → FromZero r
  unfolding Ends
  find_run-FromZero e z = (rw e at ends) z
