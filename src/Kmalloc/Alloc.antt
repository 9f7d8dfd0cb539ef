-- ===== src/Kmalloc/Alloc.antt =====
-- What `kmalloc_common` of kernel/src/mem/vmm.c promises: a block in the table and its pages mapped.
use nocturne_os_base.Prelude.{
  ℕ, ◌+◌, ◌-◌, ◌*◌, ◌/◌, ◌^◌, ◌≤◌, ◌<◌, ◌==◌, page_size, ◌≡◌, ◌≢◌, refl, arith, inl, inr, ret,
  false,
}
use nocturne_os_base.Heap.{Heap, entry_at}
use nocturne_os_base.Heap.Insert.{IsValid, end_of}
use nocturne_os_base.Heap.Search.{IsAlignment}
use nocturne_os_base.Heap.Alloc.{Allocates, alloc_no_map-Allocates}
use nocturne_os_base.Paging.Lookup.{page_entry}
use nocturne_os_base.Paging.Range.{HasRoom}
use nocturne_os_base.Kmalloc.{Kernel, kmalloc_common}
use nocturne_os_base.Kmalloc.Ensure.{HasFrames, ensure_mapped-Ensures}

-- The pages that the loop looks at for `size` bytes.
abbrev pub pages_for : ℕ → ℕ
pages_for size = (size + (page_size - 1)) / page_size + 1

-- `k'` is `k` with a block of `size` bytes at `a`, as block `i` of the table, and its pages mapped.
pub record Provides (k : Kernel) (size align i a : ℕ) (k' : Kernel) : Type 0 where
  pub block : Allocates k.heap size align i a k'.heap
  pub mapped : (q : ℕ) → a / page_size ≤ q → q * page_size < a + size → 0 < page_entry k'.mapping q
  pub kept : (q : ℕ) → page_entry k.mapping q ≢ 0 → page_entry k'.mapping q ≡ page_entry k.mapping q
  pub bytes : k'.memory ≡ k.memory
  pub frames : HasFrames k.mapping → HasFrames k'.mapping
  pub inside : a + size + 2 * page_size ≤ 2 ^ 32

-- Every block, and the start of the heap, is far enough from the end of the address space for
-- `size` bytes more and two pages.
abbrev pub HasSpace : Heap → ℕ → ℕ → Type 0
HasSpace h size align =
    (h.start + size + 2 * page_size ≤ 2 ^ 32)
    × ((i : ℕ)
        → i < h.allocated_count
        → end_of (entry_at h.memory i) + align + size + 2 * page_size ≤ 2 ^ 32)

-- `kmalloc_common` with an alignment, on a table in order that is not full, with address space and frames
-- left, returns the address of a new block as `alloc_no_map` does. Every page that the block
-- touches is mapped then, the pages that were mapped keep their entries, and no byte changes.
-- If every frame in the page tables was one of the allocator's, it is so still.
pub kmalloc-Provides :
    (k : Kernel) (size align : ℕ)
    → IsValid k.heap
    → k.heap.allocated_count + 1 < k.heap.capacity
    → IsAlignment align
    → 0 < align
    → 0 < k.heap.start
    → HasSpace k.heap size align
    → HasRoom k.mapping (2 * pages_for size)
    → (i : ℕ) × (a : ℕ) × (k' : Kernel) × (kmalloc_common size align k ≡ ret (a, k'))
      × Provides k size align i a k'
unfolding kmalloc_common
kmalloc-Provides k size align valid free aligns pos start_pos (start, space) room =
    let (i, a, h', e, block) =
      alloc_no_map-Allocates k.heap size align valid free aligns pos start_pos (omega arith)
        (λ j hj. omega (arith, space j hj)) in
    let inside : a + size + 2 * page_size ≤ 2 ^ 32 = elim block.near [
      | inl at ↦ omega arith
      | inr (j, hj, lt) ↦ omega (arith, space j hj)
    ] in
    let (m, e', ensures, uses) = ensure_mapped-Ensures a size k.mapping inside room in
    let nonzero : (a == 0) ≡ false = ground (arith, block.fits.positive) in
    (
      i,
      a,
      record k { heap = h'; mapping = m },
      rw e (rw nonzero (rw e' refl)),
      record {
        block = block;
        mapped = λ q lo hi. ensures.mapped q lo (omega arith);
        kept = ensures.kept;
        bytes = refl;
        frames = ensures.frames;
        inside = inside;
      },
    )
