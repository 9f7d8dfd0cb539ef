-- ===== src/Heap/First.antt =====
-- The first block at an address, which all searches of kernel/src/mem/vmm.c find.
use nocturne_os_base.Prelude.{ℕ, List, ◌≡◌, arith, inl, inr, some, ap, ◌∙◌, dec_lt}
use nocturne_os_base.Heap.{HeapEntry, Heap, find_block, heap_get_block_idx}
use nocturne_os_base.Heap.Free.{IsBlockAt, find_block_cases}

pub first_unique :
    (mem : List HeapEntry) (ptr n i j : ℕ)
    → IsBlockAt mem ptr 0 n i
    → IsBlockAt mem ptr 0 n j
    → i ≡ j
first_unique mem ptr n i j (_, _, at, least) (_, _, at', least') = elim (dec_lt i j) [
  | yes lt ↦ absurd (least' i (omega arith) lt at)
  | no ge ↦ elim (dec_lt j i) [
    | yes lt ↦ absurd (least j (omega arith) lt at')
    | no le ↦ omega arith
  ]
]

pub find_block-first :
    (mem : List HeapEntry) (ptr n i : ℕ) → IsBlockAt mem ptr 0 n i → find_block mem ptr n 0 ≡ some i
find_block-first mem ptr n i block = elim (find_block_cases mem ptr n 0) [
  | inl (_, no_block) ↦ absurd (no_block i (omega arith) block.1 block.2)
  | inr (j, e, block') ↦ e ∙ ap some (first_unique mem ptr n j i block' block)
]

pub heap_get_block_idx-first :
    (h : Heap) (ptr i : ℕ)
    → IsBlockAt h.memory ptr 0 h.allocated_count i
    → heap_get_block_idx h ptr ≡ i
unfolding heap_get_block_idx
heap_get_block_idx-first h ptr i block =
    let found = find_block-first h.memory ptr h.allocated_count i block in ground (arith, found)
