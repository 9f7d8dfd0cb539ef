-- ===== src/Pmm/Tests.antt =====
-- The page allocator at small bitmaps.
use nocturne_os_base.Prelude.{
  ℕ, ◌+◌, ◌*◌, ◌/◌, ◌^◌, ◌≤◌, ◌<◌, true, false, List, [], ◌∷◌, ltb, length, ◌≡◌, refl, arith, ret,
  page_size, ◌⊎◌, ℕ_discrete, align_up, replicate, length-replicate, ◌-◌,
}
use nocturne_os_base.Prelude.Bytes.{bit_at, bit_set}
use nocturne_os_base.Pmm.{
  Pmm, phys_alloc_single_page, phys_alloc_multi_pages, first_free, first_clear, visit, visit_byte,
  find_run, sweep_byte, sweep,
}
use nocturne_os_base.Pmm.Sweep.{page_used}
use nocturne_os_base.Pmm.Single.{IsValid, TakesFirst, alloc_single-TakesFirst}
use nocturne_os_base.Pmm.Multi.{TakesRun, alloc_multi-TakesRun, alloc_multi_succeeds}
use nocturne_os_base.Pmm.Boot.{MemoryMapEntry, init_pmm, pages_available, kernel_page_count}
use nocturne_os_base.Pmm.Boot.Laws.{init_pmm_lem}

-- Pages 0 to 3 in use, pages 4 to 15 free.
abbrev pub half_used : Pmm
half_used = record {
  bitmap = 0x0f ∷ 0 ∷ [];
  phys_memory_size = 65536;
  used_phys_memory_size = 16384;
}

half_used-IsValid : IsValid half_used
half_used-IsValid = omega arith

abbrev with_gap : Pmm
with_gap = record {
  bitmap = 0x7f ∷ 0xff ∷ 0 ∷ [];
  phys_memory_size = 98304;
  used_phys_memory_size = 61440;
}

alloc_single_runs :
    phys_alloc_single_page half_used
    ≡ ret (16384, record half_used { bitmap = 0x1f ∷ 0 ∷ []; used_phys_memory_size = 20480 })
unfolding phys_alloc_single_page first_free first_clear bit_at bit_set
alloc_single_runs = refl

alloc_multi_runs :
    phys_alloc_multi_pages 6 half_used
    ≡ ret (16384, record half_used { bitmap = 0xff ∷ 0x03 ∷ []; used_phys_memory_size = 40960 })
unfolding phys_alloc_multi_pages find_run visit_byte visit sweep sweep_byte bit_at bit_set
alloc_multi_runs = refl

abbrev pub two_taken : Pmm
two_taken = record half_used { bitmap = 0x3f ∷ 0 ∷ []; used_phys_memory_size = 24576 }

pub alloc_two_runs : phys_alloc_multi_pages 2 half_used ≡ ret (16384, two_taken)
unfolding phys_alloc_multi_pages find_run visit_byte visit sweep sweep_byte bit_at bit_set
alloc_two_runs = refl

-- Pages 7 and 16 are joined over the full byte.
alloc_multi_joins :
    phys_alloc_multi_pages 2 with_gap
    ≡ ret (28672, record with_gap { bitmap = 0xff ∷ 0xff ∷ 0 ∷ []; used_phys_memory_size = 69632 })
unfolding phys_alloc_multi_pages find_run visit_byte visit sweep sweep_byte bit_at bit_set
alloc_multi_joins = refl

alloc_single-TakesFirst_example :
    ((p : ℕ) × (s' : Pmm) × (phys_alloc_single_page half_used ≡ ret (page_size * p, s'))
      × TakesFirst half_used p s')
    ⊎ ((phys_alloc_single_page half_used ≡ ret (0, half_used))
        × ((q : ℕ) → q < 16 → page_used half_used.bitmap q ≡ true))
alloc_single-TakesFirst_example = alloc_single-TakesFirst half_used half_used-IsValid (omega arith)

alloc_multi-TakesRun_example :
    ((t : ℕ) × (s' : Pmm) × (phys_alloc_multi_pages 6 half_used ≡ ret (page_size * t, s'))
      × TakesRun half_used t 6 s')
    ⊎ (phys_alloc_multi_pages 6 half_used ≡ ret (0, half_used))
alloc_multi-TakesRun_example = alloc_multi-TakesRun half_used 6 half_used-IsValid (omega arith)

four_five : (page_used (0x0f ∷ 0 ∷ []) 4 ≡ false) × (page_used (0x0f ∷ 0 ∷ []) 5 ≡ false)
unfolding page_used bit_at
four_five = (refl, refl)

free_from_four : (q : ℕ) → 4 ≤ q → q ≤ 4 + 1 → page_used half_used.bitmap q ≡ false
free_from_four q lo hi = elim (ℕ_discrete q 4) [
  | yes e ↦ rw e four_five.0
  | no ne ↦ let e : q ≡ 5 = omega arith in rw e four_five.1
]

alloc_multi_succeeds_example :
    (t : ℕ) × (s' : Pmm) × (phys_alloc_multi_pages 1 half_used ≡ ret (page_size * t, s'))
    × TakesRun half_used t 1 s'
alloc_multi_succeeds_example =
    alloc_multi_succeeds half_used 1 half_used-IsValid 4 (omega arith) (omega arith) free_from_four
      (omega arith)

-- 1 MiB of memory, with the last module ending at 64 KiB: 16 pages and the one of the bitmap.
init_pmm_lem_example :
    (s : Pmm) × (init_pmm 65536 1048576 0 ≡ ret s)
    × IsValid s
    × ((q : ℕ)
        → q < 8 * length s.bitmap
        → page_used s.bitmap q ≡ ltb (q * page_size) (65536 + pages_available 1048576 / 8))
    × (s.used_phys_memory_size ≡ kernel_page_count 65536 (pages_available 1048576 / 8) * page_size)
unfolding pages_available align_up
init_pmm_lem_example =
    init_pmm_lem 65536 1048576 (omega arith) (omega arith) (omega arith) (omega arith)

abbrev memory_map : List MemoryMapEntry
memory_map =
    record { addr_low = 4096; len_low = 8192; type = 1 }
    ∷ (record { addr_low = 40960; len_low = 6000; type = 2 } ∷ [])

four_gib : Pmm
four_gib = record {
  bitmap = replicate (2 ^ 17) 0;
  phys_memory_size = 2 ^ 32 - 4096;
  used_phys_memory_size = 0;
}

four_gib_full : length four_gib.bitmap ≡ 2 ^ 17
unfolding four_gib
four_gib_full = length-replicate {A = ℕ} (2 ^ 17) 0
