-- ===== src/Pmm/Multi.antt =====
-- `phys_alloc_multi_pages` of kernel/src/mem/pmm.c, over page
-- numbers.
use nocturne_os_base.Prelude.{
  ℕ, ◌+◌, ◌*◌, ◌≤◌, ◌<◌, false, ◌||◌, length, ◌≡◌, refl, arith, u32, ◌⊎◌, inl, inr, ret, page_size,
  Option-cases, subst,
}
use nocturne_os_base.Prelude.Bytes.{bit_set}
use nocturne_os_base.Pmm.{Pmm, Run, sweep, find_run, run_start, phys_alloc_multi_pages}
use nocturne_os_base.Pmm.Sweep.{page_used, in_range, length-mark, mark-IsByte, page_used-mark}
use nocturne_os_base.Pmm.Single.{IsValid}
use nocturne_os_base.Pmm.Search.{Passed, IsFound, find_run-IsFound}
use nocturne_os_base.Pmm.Completeness.{find_run_total, find_run-FromZero}

-- `s'` is `s` with the `count` pages from page `t` on marked and counted.
pub record TakesRun (s : Pmm) (t count : ℕ) (s' : Pmm) : Type 0 where
  pub inside : t + count < 8 * length s.bitmap
  pub first_free : page_used s.bitmap t ≡ false
  pub passed : (q : ℕ) → t ≤ q → q < t + count → Passed s.bitmap q
  pub marked :
      (q : ℕ)
      → q < 8 * length s.bitmap
      → page_used s'.bitmap q ≡ (in_range t count q || page_used s.bitmap q)
  pub same_size : length s'.bitmap ≡ length s.bitmap
  pub counted : s'.used_phys_memory_size ≡ u32 (s.used_phys_memory_size + page_size * count)
  pub valid : IsValid s'

module _ (s : Pmm) (count : ℕ) (valid : IsValid s) where
  taken : Run → Pmm
  taken r = record s {
    bitmap = (sweep bit_set s.bitmap r.si r.sj r.counter).0;
    used_phys_memory_size = u32 (s.used_phys_memory_size + page_size * count);
  }

  taken-TakesRun :
      (p : ℕ) (r : Run) → IsFound s.bitmap count p r → TakesRun s (8 * r.si + r.sj) count (taken r)
  unfolding taken
  taken-TakesRun p r f = record {
    inside = omega (arith, f.run.room, f.full, f.inside);
    first_free = f.run.first_free;
    passed = λ q lo hi. f.run.passed q lo (omega (arith, f.run.room, f.full));
    marked = λ q hq. ground (
      arith,
      f.full,
      page_used-mark s.bitmap r.si r.sj r.counter f.run.sj_in (omega (arith, f.full, f.positive))
          (omega (arith, f.inside, f.run.room, valid.small)) valid.bytes q hq,
    );
    same_size = length-mark s.bitmap r.si r.sj r.counter;
    counted = refl;
    valid = record {
      bytes = mark-IsByte s.bitmap r.si r.sj r.counter valid.bytes;
      small = omega (arith, length-mark s.bitmap r.si r.sj r.counter, valid.small);
      total = valid.total;
      used = omega arith;
    };
  }

  -- On a state in order, `phys_alloc_multi_pages` below the memory limit either returns 0 and changes nothing, or it
  -- returns the address of a free page `t`, marks the `count` pages from `t` on and no other, and
  -- counts them. Each of these pages was free or lay in a byte of the bitmap that was `0xff`.
  pub alloc_multi-TakesRun :
      u32 (s.used_phys_memory_size + count * page_size) < s.phys_memory_size
      → ((t : ℕ) × (s' : Pmm) × (phys_alloc_multi_pages count s ≡ ret (page_size * t, s'))
          × TakesRun s t count s')
        ⊎ (phys_alloc_multi_pages count s ≡ ret (0, s))
  unfolding phys_alloc_multi_pages taken
  alloc_multi-TakesRun room = elim (Option-cases (find_run count s.bitmap 0 run_start)) [
    | inl e ↦ inr (ground arith)
    | inr (r, e) ↦
        let (p, f) = find_run-IsFound count s.bitmap e in
        let took = taken-TakesRun p r f in
        inl (8 * r.si + r.sj, taken r, ground (arith, f.run.at, took.inside, valid.small), took)
  ]

  -- On a state in order, below the memory limit, where `count + 1` pages in a row are free and `count`
  -- is not 0, `phys_alloc_multi_pages` takes a run.
  pub alloc_multi_succeeds :
      (a : ℕ)
      → 0 < count
      → u32 (s.used_phys_memory_size + count * page_size) < s.phys_memory_size
      → ((q : ℕ) → a ≤ q → q ≤ a + count → page_used s.bitmap q ≡ false)
      → a + count < 8 * length s.bitmap
      → (t : ℕ) × (s' : Pmm) × (phys_alloc_multi_pages count s ≡ ret (page_size * t, s'))
        × TakesRun s t count s'
  unfolding phys_alloc_multi_pages taken
  alloc_multi_succeeds a pos room free inside =
      elim (Option-cases (find_run count s.bitmap 0 run_start)) [
        | inl e ↦ absurd (find_run_total s.bitmap count a pos free inside e)
        | inr (r, e) ↦
            let (p, f) = find_run-IsFound count s.bitmap e in
            let took = taken-TakesRun p r f in
            (8 * r.si + r.sj, taken r, ground (arith, f.run.at, took.inside, valid.small), took)
      ]

  -- On a state in order, below the memory limit, where the first `count + 1` pages are free and `count`
  -- is not 0, the run starts at page 0.
  pub alloc_multi_from_zero :
      0 < count
      → u32 (s.used_phys_memory_size + count * page_size) < s.phys_memory_size
      → ((q : ℕ) → q ≤ count → page_used s.bitmap q ≡ false)
      → count < 8 * length s.bitmap
      → (s' : Pmm) × (phys_alloc_multi_pages count s ≡ ret (0, s')) × TakesRun s 0 count s'
  unfolding phys_alloc_multi_pages taken
  alloc_multi_from_zero pos room free inside =
      elim (Option-cases (find_run count s.bitmap 0 run_start)) [
        | inl e ↦
            absurd (
              find_run_total s.bitmap count 0 pos (λ q lo hi. free q (omega arith)) (omega arith) e)
        | inr (r, e) ↦
            let (p, f) = find_run-IsFound count s.bitmap e in
            let took = taken-TakesRun p r f in
            let z =
              find_run-FromZero s.bitmap count 0 pos (λ q lo hi. free q (omega arith)) (omega arith)
                e refl in
            let at : 8 * r.si + r.sj ≡ 0 = omega (arith, z) in
            (taken r, ground (arith, z), subst (λ t. TakesRun s t count (taken r)) at took)
      ]
