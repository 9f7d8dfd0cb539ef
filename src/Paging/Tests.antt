-- ===== src/Paging/Tests.antt =====
-- The page tables at small states.
use nocturne_os_base.Prelude.{replicate, ◌≡◌, arith, ret}
use nocturne_os_base.Pmm.{Pmm}
use nocturne_os_base.Pmm.Room.{Uses}
use nocturne_os_base.Paging.{Mapping, map_pages}
use nocturne_os_base.Paging.Range.{MapsRange, map_pages-MapsRange}

abbrev free_frames : Pmm
free_frames = record {
  bitmap = replicate 32 0;
  phys_memory_size = 1048576;
  used_phys_memory_size = 0;
}

abbrev pub unmapped : Mapping
unmapped = record { pmm = free_frames; directory = λ i. 0; tables = λ i j. 0 }

-- Every page shows frame 2, writeable.
abbrev pub all_mapped : Mapping
all_mapped = record { pmm = free_frames; directory = λ i. 1; tables = λ i j. 8195 }

map_pages-MapsRange_example :
    (s' : Mapping) × (map_pages 8192 20480 5000 2 unmapped ≡ ret s')
    × MapsRange unmapped 5 7 8192 2 s'
    × Uses unmapped.pmm 2 s'.pmm
map_pages-MapsRange_example =
    map_pages-MapsRange 8192 20480 5000 2 unmapped (omega arith) (omega arith) (omega arith)
