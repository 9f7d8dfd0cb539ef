-- ===== src/Heap/Tests.antt =====
-- The block table at small heaps.
use nocturne_os_base.Prelude.{
  ℕ, zero, suc, ◌+◌, ◌-◌, ◌^◌, ◌≤◌, ◌<◌, [], ◌∷◌, ◌≡◌, ◌≢◌, refl, arith, ◌⊎◌, ret, align_up,
}
use nocturne_os_base.Heap.{
  HeapEntry, Heap, no_entry, entry_at, block_end, alloc_no_map, find_place, shift_up, place_block,
  find_block, free_no_map, shift_down,
}
use nocturne_os_base.Heap.Insert.{IsValid, end_of}
use nocturne_os_base.Heap.Search.{page-IsAlignment}
use nocturne_os_base.Heap.Alloc.{Allocates, alloc_no_map-Allocates}
use nocturne_os_base.Heap.Free.{IsBlockAt, Removes, free_no_map-Removes}
use nocturne_os_base.Heap.RoundTrip.{free_no_map-alloc_no_map}

abbrev pub entry : ℕ → ℕ → HeapEntry
entry a l = record { address = a; length = l }

-- Two blocks with room for a page between them, in a table of four entries.
abbrev pub two_blocks : Heap
two_blocks = record {
  allocated_count = 2;
  capacity = 4;
  start = 16777216;
  used_memory = 300;
  memory = entry 16777216 100 ∷ entry 16793600 200 ∷ no_entry ∷ no_entry ∷ [];
  peak_heap_usage = 300;
  total_memory_run = 300;
}

abbrev three_blocks : Heap
three_blocks = record two_blocks {
  allocated_count = 3;
  used_memory = 4396;
  memory = entry 16777216 100 ∷ entry 16781312 4096 ∷ entry 16793600 200 ∷ no_entry ∷ [];
  peak_heap_usage = 4396;
  total_memory_run = 4396;
}

alloc_no_map_in_gap : alloc_no_map 4096 4096 two_blocks ≡ ret (16781312, three_blocks)
unfolding alloc_no_map find_place block_end align_up shift_up place_block
alloc_no_map_in_gap = refl

free_no_map_middle : (free_no_map 16781312 three_blocks).memory ≡ two_blocks.memory
unfolding free_no_map find_block shift_down
free_no_map_middle = refl

two_blocks-nonzero : (i : ℕ) → i < 2 → 0 < (entry_at two_blocks.memory i).address
two_blocks-nonzero zero hi = omega arith
two_blocks-nonzero (suc zero) hi = omega arith
two_blocks-nonzero (suc (suc i)) hi = absurd (omega arith)

pub two_blocks-ends :
    (i : ℕ) → i < 2 → end_of (entry_at two_blocks.memory i) + 4096 + 4096 < 2 ^ 32 - 1
two_blocks-ends zero hi = omega arith
two_blocks-ends (suc zero) hi = omega arith
two_blocks-ends (suc (suc i)) hi = absurd (omega arith)

two_blocks-nonempty : (i : ℕ) → i < 2 → 0 < (entry_at two_blocks.memory i).length
two_blocks-nonempty zero hi = omega arith
two_blocks-nonempty (suc zero) hi = omega arith
two_blocks-nonempty (suc (suc i)) hi = absurd (omega arith)

two_blocks-ordered :
    (i j : ℕ)
    → i < j
    → j < 2
    → end_of (entry_at two_blocks.memory i) ≤ (entry_at two_blocks.memory j).address
two_blocks-ordered zero zero lt hj = absurd (omega arith)
two_blocks-ordered zero (suc zero) lt hj = omega arith
two_blocks-ordered (suc i) (suc zero) lt hj = absurd (omega arith)
two_blocks-ordered i (suc (suc j)) lt hj = absurd (omega arith)
two_blocks-ordered (suc i) zero lt hj = absurd (omega arith)

two_blocks-blank : (i : ℕ) → 2 ≤ i → entry_at two_blocks.memory i ≡ no_entry
two_blocks-blank zero lo = absurd (omega arith)
two_blocks-blank (suc zero) lo = absurd (omega arith)
two_blocks-blank (suc (suc zero)) lo = refl
two_blocks-blank (suc (suc (suc zero))) lo = refl
two_blocks-blank (suc (suc (suc (suc i)))) lo = refl

pub two_blocks-IsValid : IsValid two_blocks
two_blocks-IsValid = record {
  holds = refl;
  room = omega arith;
  nonzero = two_blocks-nonzero;
  ends = λ i hi. omega (arith, two_blocks-ends i hi);
  ordered = two_blocks-ordered;
  blank = two_blocks-blank;
}

alloc_no_map-Allocates_example :
    (k : ℕ) × (a : ℕ) × (h' : Heap) × (alloc_no_map 4096 4096 two_blocks ≡ ret (a, h'))
    × Allocates two_blocks 4096 4096 k a h'
alloc_no_map-Allocates_example =
    alloc_no_map-Allocates two_blocks 4096 4096 two_blocks-IsValid (omega arith) page-IsAlignment
      (omega arith) (omega arith) (omega arith) two_blocks-ends

free_no_map-Removes_example :
    ((free_no_map 16793600 two_blocks ≡ two_blocks)
      × ((j : ℕ) → j < 2 → (entry_at two_blocks.memory j).address ≢ 16793600))
    ⊎ ((k : ℕ) × IsBlockAt two_blocks.memory 16793600 0 2 k
        × Removes two_blocks k (free_no_map 16793600 two_blocks))
free_no_map-Removes_example =
    free_no_map-Removes two_blocks 16793600 two_blocks-IsValid (omega arith)

free_no_map-alloc_no_map_example :
    (a : ℕ) × (h' : Heap) × (alloc_no_map 4096 4096 two_blocks ≡ ret (a, h'))
    × ((free_no_map a h').memory ≡ two_blocks.memory)
    × ((free_no_map a h').allocated_count ≡ 2)
    × ((free_no_map a h').used_memory ≡ 300)
free_no_map-alloc_no_map_example =
    free_no_map-alloc_no_map two_blocks 4096 4096 two_blocks-IsValid (omega arith)
      two_blocks-nonempty page-IsAlignment (omega arith) (omega arith) (omega arith) two_blocks-ends
      (omega arith)
