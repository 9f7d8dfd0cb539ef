-- ===== src/Pmm/Search.antt =====
-- The search of `phys_alloc_multi_pages` in kernel/src/mem/pmm.c: what is known of the run that it
-- ends with.
use nocturne_os_base.Prelude.{
  ℕ, zero, suc, ◌+◌, ◌*◌, ◌/◌, ◌≤◌, ◌<◌, false, List, [], ◌∷◌, ◌==◌, length, get_or, ◌≡◌, refl,
  arith, Option, none, some, ◌⊎◌, inl, inr, Bool-cases, subst, dec_lt,
}
use nocturne_os_base.Prelude.Bytes.{bit_at}
use nocturne_os_base.Pmm.{
  Run, Visit, found, more, visit, visit_byte, find_run, page_address, run_start,
}
use nocturne_os_base.Pmm.Sweep.{page_used}
use nocturne_os_base.Pmm.Single.{page_used_at}

module _ (bm : List ℕ) where
  -- A page that the search lets a run hold: a free one, or any page of a byte that is `0xff`.
  abbrev pub Passed : ℕ → Type 0
  Passed q = (page_used bm q ≡ false) ⊎ (get_or bm (q / 8) 0 ≡ 0xff)

  -- The run started at page `8 * si + sj`, which is free, and has passed all pages up to `p`.
  pub record IsRun (p : ℕ) (r : Run) : Type 0 where
    pub sj_in : r.sj < 8
    pub at : r.addr ≡ page_address r.si r.sj
    pub room : 8 * r.si + r.sj + r.counter ≤ p
    pub first_free : page_used bm (8 * r.si + r.sj) ≡ false
    pub passed : (q : ℕ) → 8 * r.si + r.sj ≤ q → q < p → Passed q

  abbrev RunBefore : ℕ → Run → Type 0
  RunBefore p r = (r.counter ≡ 0) ⊎ IsRun p r

  -- The search ended at page `p`, with `count` pages counted.
  pub record IsFound (count p : ℕ) (r : Run) : Type 0 where
    pub run : IsRun p r
    pub full : r.counter ≡ count
    pub positive : 0 < count
    pub inside : p < 8 * length bm

  -- What one page, number `p`, makes of a run.
  Visited : ℕ → ℕ → Visit → Type 0
  Visited count p (found r) = IsFound count p r
  Visited count p (more r) = RunBefore (p + 1) r

  extend :
      (p : ℕ) {r r' : Run}
      → IsRun p r
      → Passed p
      → r'.addr ≡ r.addr
      → r'.si ≡ r.si
      → r'.sj ≡ r.sj
      → r'.counter ≤ r.counter + 1
      → IsRun (p + 1) r'
  extend p {r} {r'} run ok ea ei ej le = record {
    sj_in = omega (arith, run.sj_in);
    at = ground (arith, run.at);
    room = omega (arith, run.room);
    first_free = rw (ei, ej) run.first_free;
    passed = λ q lo hi. elim (dec_lt q p) [
      | yes below ↦ run.passed q (omega arith) below
      | no above ↦ let here : p ≡ q = omega arith in subst Passed here ok
    ];
  }

  start :
      (i j p : ℕ)
      → j < 8
      → p ≡ 8 * i + j
      → page_used bm p ≡ false
      → IsRun (p + 1) (record { counter = 1; addr = page_address i j; si = i; sj = j })
  start i j p hj e free = record {
    sj_in = hj;
    at = refl;
    room = omega arith;
    first_free = rw (← e) free;
    passed = λ q lo hi. let here : p ≡ q = omega arith in subst Passed here (inl free);
  }

  visit-Visited :
      (count i j p : ℕ) (r : Run)
      → j < 8
      → p ≡ 8 * i + j
      → p < 8 * length bm
      → RunBefore p r
      → Visited count p (visit count (page_used bm p) i j r)
  unfolding Visited visit
  visit-Visited count i j p r hj e hp before = elim (Bool-cases (page_used bm p)) [
    | inl used ↦ rw used (inl refl)
    | inr free ↦ rw free (elim (Bool-cases (r.counter == 0)) [
      | inl zero_run ↦ rw zero_run (inr (start i j p hj e free))
      | inr running ↦ rw running (elim before [
        | inl none_yet ↦ absurd (ground arith)
        | inr run ↦ elim (Bool-cases (r.counter == count)) [
          | inl full ↦
              rw full
                (record { run = run; full = ground arith; positive = ground arith; inside = hp })
          | inr short ↦ rw short (inr (extend p run (inl free) refl refl refl (omega arith)))
        ]
      ])
    ])
  ]

  -- After the rest of byte `i`.
  VisitedByte : ℕ → ℕ → Visit → Type 0
  VisitedByte count i (found r) = (p : ℕ) × IsFound count p r
  VisitedByte count i (more r) = RunBefore (8 * i + 8) r

  visit_byte-VisitedByte :
      (count i n j : ℕ) (r : Run)
      → j + n ≡ 8
      → i < length bm
      → RunBefore (8 * i + j) r
      → VisitedByte count i (visit_byte count (get_or bm i 0) i n j r)
  unfolding Visited VisitedByte visit_byte
  visit_byte-VisitedByte count i zero j r e hi before =
      let here : j ≡ 8 = omega arith in rw here at before
  visit_byte-VisitedByte count i (suc n) j r e hi before =
      next (visit count (bit_at (get_or bm i 0) j) i j r)
        (rw (page_used_at bm i j (omega arith)) at
          (visit-Visited count i j (8 * i + j) r (omega arith) refl (omega arith) before))
        (λ r' h. visit_byte-VisitedByte count i n (j + 1) r' (omega arith) hi h)
    where
      next :
          (v : Visit)
          → Visited count (8 * i + j) v
          → ((r' : Run)
              → RunBefore (8 * i + (j + 1)) r'
              → VisitedByte count i (visit_byte count (get_or bm i 0) i n (j + 1) r'))
          → VisitedByte count i (elim v [
            | found r' ↦ found r'
            | more r' ↦ visit_byte count (get_or bm i 0) i n (j + 1) r'
          ])
      next (found r') w go = (8 * i + j, w)
      next (more r') w go =
          go r' (let e : 8 * i + j + 1 ≡ 8 * i + (j + 1) = omega arith in rw e at w)

  skip : (i : ℕ) {r : Run} → get_or bm i 0 ≡ 0xff → RunBefore (8 * i) r → RunBefore (8 * (i + 1)) r
  skip i full (inl none_yet) = inl none_yet
  skip i {r} full (inr run) = inr (record {
    sj_in = run.sj_in;
    at = run.at;
    room = omega (arith, run.room);
    first_free = run.first_free;
    passed = λ q lo hi. elim (dec_lt q (8 * i)) [
      | yes below ↦ run.passed q lo below
      | no above ↦ let here : q / 8 ≡ i = omega arith in inr (rw here full)
    ];
  })

  FoundRun : ℕ → Option Run → Type 0
  FoundRun count none = Unit {0}
  FoundRun count (some r) = (p : ℕ) × IsFound count p r

  find_run-FoundRun :
      (count : ℕ) (bs : List ℕ) (i : ℕ) (r : Run)
      → ((d : ℕ) → get_or bs d 0 ≡ get_or bm (i + d) 0)
      → length bm ≡ i + length bs
      → RunBefore (8 * i) r
      → FoundRun count (find_run count bs i r)
  unfolding FoundRun find_run
  find_run-FoundRun count [] i r link e before = tt
  find_run-FoundRun count (b ∷ bs) i r link e before =
      let here : b ≡ get_or bm i 0 = ground (arith, link 0) in
      let link' : (d : ℕ) → get_or bs d 0 ≡ get_or bm (i + 1 + d) 0 =
        λ d. ground (arith, link (suc d)) in
      elim (Bool-cases (b == 0xff)) [
        | inl full ↦ rw full (
            find_run-FoundRun count bs (i + 1) r link' (omega arith) (skip i (ground arith) before))
        | inr partial ↦ rw partial (
            next (visit_byte count b i 8 0 r)
              (rw here (visit_byte-VisitedByte count i 8 0 r refl (omega arith) (ground arith)))
              (λ r' h. find_run-FoundRun count bs (i + 1) r' link' (omega arith) h))
      ]
    where
      next :
          (v : Visit)
          → VisitedByte count i v
          → ((r' : Run)
              → RunBefore (8 * (i + 1)) r'
              → FoundRun count (find_run count bs (i + 1) r'))
          → FoundRun count (elim v [ found r' ↦ some r' | more r' ↦ find_run count bs (i + 1) r' ])
      next (found r') w go = unfold VisitedByte in w
      next (more r') w go =
          let w' : RunBefore (8 * i + 8) r' = unfold VisitedByte in w in
          let e : 8 * i + 8 ≡ 8 * (i + 1) = omega arith in go r' (rw e at w')

-- A search that ends with a run has found one.
pub find_run-IsFound :
    (count : ℕ) (bm : List ℕ) {r : Run}
    → find_run count bm 0 run_start ≡ some r
    → (p : ℕ) × IsFound bm count p r
unfolding FoundRun
find_run-IsFound count bm e =
    rw e at (find_run-FoundRun bm count bm 0 run_start (λ d. ground arith) (omega arith) (inl refl))
