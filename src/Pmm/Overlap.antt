-- ===== src/Pmm/Overlap.antt =====
-- A run that `phys_alloc_multi_pages` of kernel/src/mem/pmm.c takes over pages in use.
use nocturne_os_base.Prelude.{
  ℕ, zero, suc, ◌+◌, ◌*◌, ◌<◌, true, List, ◌∷◌, ◌++◌, replicate, ◌≡◌, refl, arith, u32, ret,
  page_size, some,
}
use nocturne_os_base.Prelude.Bytes.{bit_at, bit_set}
use nocturne_os_base.Pmm.{
  Pmm, Run, visit, visit_byte, find_run, run_start, phys_alloc_multi_pages, more, found, sweep,
}
use nocturne_os_base.Pmm.Sweep.{page_used}

-- Full bytes are passed over with the counter as it is.
find_run-full :
    (count m : ℕ) (bs : List ℕ) (i : ℕ) (r : Run)
    → find_run count (replicate m 0xff ++ bs) i r ≡ find_run count bs (i + m) r
unfolding find_run
find_run-full count zero bs i r = ground arith
find_run-full count (suc m) bs i r = ground (arith, find_run-full count m bs (i + 1) r)

-- A bitmap whose first byte has its last page free only, then full bytes, then a free byte.
abbrev pub gap : ℕ → List ℕ → List ℕ
gap m rest = 0x7f ∷ (0xff ∷ (replicate m 0xff ++ 0 ∷ rest))

abbrev from_seven : ℕ → Run
from_seven n = record { counter = n; addr = page_size * 7; si = 0; sj = 7 }

first_byte : visit_byte 2 0x7f 0 8 0 run_start ≡ more (from_seven 1)
unfolding visit_byte visit bit_at
first_byte = refl

last_byte : (i : ℕ) → visit_byte 2 0 i 8 0 (from_seven 1) ≡ found (from_seven 2)
unfolding visit_byte visit bit_at
last_byte i = refl

find_run-gap : (m : ℕ) (rest : List ℕ) → find_run 2 (gap m rest) 0 run_start ≡ some (from_seven 2)
unfolding find_run
find_run-gap m rest =
    ground (arith, first_byte, last_byte (2 + m), find_run-full 2 m (0 ∷ rest) 2 (from_seven 1))

page_eight_used : (m : ℕ) (rest : List ℕ) → page_used (gap m rest) 8 ≡ true
unfolding page_used bit_at
page_eight_used m rest = refl

-- Below the memory limit, on a bitmap whose first free page is page 7, with page 8 in use, and whose next free pages
-- stand behind one or more full bytes, `phys_alloc_multi_pages` of two pages gives out pages 7
-- and 8.
pub alloc_multi_overlaps :
    (m : ℕ) (rest : List ℕ) (s : Pmm)
    → s.bitmap ≡ gap m rest
    → u32 (s.used_phys_memory_size + 2 * page_size) < s.phys_memory_size
    → (page_used s.bitmap 8 ≡ true)
      × ((s' : Pmm) × (phys_alloc_multi_pages 2 s ≡ ret (page_size * 7, s')))
unfolding phys_alloc_multi_pages
alloc_multi_overlaps m rest s e room = (
  rw e (page_eight_used m rest),
  (
    record s {
      bitmap = (sweep bit_set s.bitmap 0 7 2).0;
      used_phys_memory_size = u32 (s.used_phys_memory_size + page_size * 2);
    },
    ground (arith, e, find_run-gap m rest),
  ),
)
