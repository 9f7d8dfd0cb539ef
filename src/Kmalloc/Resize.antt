-- ===== src/Kmalloc/Resize.antt =====
-- `krealloc_common` of kernel/src/mem/vmm.c where the block stays in its place.
use nocturne_os_base.Prelude.{
  ℕ, ◌+◌, ◌-◌, ◌*◌, ◌/◌, ◌^◌, ◌≤◌, ◌<◌, ltb, ◌==◌, if◌then◌else◌, u32, sub32, page_size, ◌≡◌, ◌≢◌,
  refl, arith, ap, ◌∙◌, sym, false, ◌⊎◌, ret, set, length-set, get_or-set_self, get_or-set_ne,
  dec_lt,
}
use nocturne_os_base.Heap.{HeapEntry, Heap, no_entry, entry_at}
use nocturne_os_base.Heap.Insert.{IsValid}
use nocturne_os_base.Heap.Free.{IsBlockAt}
use nocturne_os_base.Heap.First.{find_block-first, heap_get_block_idx-first}
use nocturne_os_base.Paging.Lookup.{page_entry}
use nocturne_os_base.Paging.Range.{HasRoom}
use nocturne_os_base.Kmalloc.{Kernel, set_length, grow, move, krealloc_common}
use nocturne_os_base.Kmalloc.Ensure.{ensure_mapped-Ensures}
use nocturne_os_base.Kmalloc.Alloc.{pages_for}

-- `h'` is `h` with `size` as the length of block `i`.
pub record Relengthens (h : Heap) (i size : ℕ) (h' : Heap) : Type 0 where
  pub at : entry_at h'.memory i ≡ record (entry_at h.memory i) { length = size }
  pub others : (j : ℕ) → j ≢ i → entry_at h'.memory j ≡ entry_at h.memory j
  pub counted : h'.allocated_count ≡ h.allocated_count
  pub valid : IsValid h'

-- Block `i` may have `size` bytes where it stands.
abbrev pub HasPlace : Heap → ℕ → ℕ → Type 0
HasPlace h i size =
    ((entry_at h.memory i).address + size < 2 ^ 32)
    × (i + 1 < h.allocated_count
        → (entry_at h.memory i).address + size ≤ (entry_at h.memory (i + 1)).address)

set_length-Relengthens :
    (h : Heap) (i size used : ℕ)
    → IsValid h
    → i < h.allocated_count
    → HasPlace h i size
    → Relengthens h i size (set_length i size used h)
unfolding set_length
set_length-Relengthens h i size used valid hi (space, next) =
    let e : HeapEntry = record (entry_at h.memory i) { length = size } in
    let at : entry_at (set h.memory i e) i ≡ e =
      get_or-set_self h.memory i e no_entry (omega (arith, valid.holds, valid.room)) in
    let others : (j : ℕ) → j ≢ i → entry_at (set h.memory i e) j ≡ entry_at h.memory j =
      λ j ne. get_or-set_ne h.memory i j e no_entry (λ same. ne (sym same)) in
    record {
      at = at;
      others = others;
      counted = refl;
      valid = record {
        holds = length-set h.memory i e ∙ valid.holds;
        room = valid.room;
        nonzero = λ j hj. ground (arith, at, others j, valid.nonzero j hj);
        ends = λ j hj. ground (arith, at, others j, valid.ends j hj);
        ordered = λ j l lt hl.
            ground (
              arith,
              at,
              others j,
              others l,
              valid.ordered j l lt hl,
              valid.ordered (i + 1) l,
              next,
            );
        blank = λ j hj. ground (arith, others j, valid.blank j hj);
      };
    }

-- `k'` is `k` with `size` as the length of block `i`; if that is more than before, the pages of the block
-- are mapped.
pub record Resizes (k : Kernel) (i size : ℕ) (k' : Kernel) : Type 0 where
  pub table : Relengthens k.heap i size k'.heap
  pub mapped :
      (entry_at k.heap.memory i).length < size
      → (q : ℕ) → (entry_at k.heap.memory i).address / page_size ≤ q
      → q * page_size < (entry_at k.heap.memory i).address + size
      → 0 < page_entry k'.mapping q
  pub kept : (q : ℕ) → page_entry k.mapping q ≢ 0 → page_entry k'.mapping q ≡ page_entry k.mapping q
  pub bytes : k'.memory ≡ k.memory

-- Growing in place.
grow-Resizes :
    (k : Kernel) (i size : ℕ)
    → IsValid k.heap
    → i < k.heap.allocated_count
    → HasPlace k.heap i size
    → (entry_at k.heap.memory i).address + size + 2 * page_size ≤ 2 ^ 32
    → HasRoom k.mapping (2 * pages_for size)
    → (k' : Kernel) × (grow i size k ≡ ret ((entry_at k.heap.memory i).address, k'))
      × Resizes k i size k'
unfolding grow
grow-Resizes k i size valid hi place inside room =
    let block = entry_at k.heap.memory i in
    let used = u32 (k.heap.used_memory + (size - block.length)) in
    let (m, e, ensures, _) = ensure_mapped-Ensures block.address size k.mapping inside room in
    (
      record k { heap = set_length i size used k.heap; mapping = m },
      rw e refl,
      record {
        table = set_length-Relengthens k.heap i size used valid hi place;
        mapped = λ _ q lo hi. ensures.mapped q lo (omega arith);
        kept = ensures.kept;
        bytes = refl;
      },
    )

-- A block that keeps its length or shrinks keeps its place.
shrink_place :
    (h : Heap) (i size : ℕ)
    → IsValid h
    → i < h.allocated_count
    → size ≤ (entry_at h.memory i).length
    → HasPlace h i size
shrink_place h i size valid hi le =
    (omega (arith, valid.ends i hi), λ lt. omega (arith, valid.ordered i (i + 1) (omega arith) lt))

-- The branches of `krealloc_common` once the block is found.
pub krealloc_at :
    (k : Kernel) (ptr size align i : ℕ)
    → ptr ≢ 0
    → IsBlockAt k.heap.memory ptr 0 k.heap.allocated_count i
    → let e = entry_at k.heap.memory i in
      krealloc_common ptr size align k ≡ (
        if ltb e.length size
        then (if i == k.heap.allocated_count - 1
            then grow i size k
            else (if ltb (u32 (e.address + size)) (entry_at k.heap.memory (i + 1)).address
                then grow i size k
                else move ptr i size align k))
        else (if ltb size e.length
            then ret (
              e.address,
              record k {
                heap = set_length i size (sub32 k.heap.used_memory (e.length - size)) k.heap;
              },
            )
            else ret (e.address, k)))
unfolding krealloc_common
krealloc_at k ptr size align i nonzero block =
    let nz : (ptr == 0) ≡ false = ground (arith, nonzero) in
    rw nz (
      rw (find_block-first k.heap.memory ptr k.heap.allocated_count i block)
        (rw (heap_get_block_idx-first k.heap ptr i block) refl))

-- `krealloc_common` of a block of a table in order returns the same address, with the new length in the table,
-- if the size is no more than the length, or if the block is the last, or if it would end before the next block. With
-- address space and frames left, every page of a block that has grown is mapped; the pages
-- that were mapped keep their entries, the other blocks stay and no byte changes.
pub krealloc-Resizes :
    (k : Kernel) (ptr size align i : ℕ)
    → IsValid k.heap
    → ptr ≢ 0
    → IsBlockAt k.heap.memory ptr 0 k.heap.allocated_count i
    → ptr + size + 2 * page_size ≤ 2 ^ 32
    → HasRoom k.mapping (2 * pages_for size)
    → (size ≤ (entry_at k.heap.memory i).length)
      ⊎ (i + 1 ≡ k.heap.allocated_count)
      ⊎ (ptr + size < (entry_at k.heap.memory (i + 1)).address)
    → (k' : Kernel) × (krealloc_common ptr size align k ≡ ret (ptr, k')) × Resizes k i size k'
krealloc-Resizes k ptr size align i valid nonzero block inside room place =
    let e = entry_at k.heap.memory i in
    let hi : i < k.heap.allocated_count = omega (arith, block.1) in
    let at : e.address ≡ ptr = block.2 in
    let start = krealloc_at k ptr size align i nonzero block in
    elim (dec_lt e.length size) [
      | yes more ↦
          let fits : HasPlace k.heap i size =
            (omega (arith, at), λ lt. ground (arith, place, at, more)) in
          let (k', done, resizes) = grow-Resizes k i size valid hi fits (omega (arith, at)) room in
          let grows : krealloc_common ptr size align k ≡ grow i size k =
            ground (arith, start, place, at, more) in
          (k', grows ∙ done ∙ ap (λ (a : ℕ). ret (a, k')) at, resizes)
      | no less ↦ elim (dec_lt size e.length) [
        | yes lt ↦ (
          record k { heap = set_length i size (sub32 k.heap.used_memory (e.length - size)) k.heap },
          ground (arith, start, at, lt),
          record {
            table =
                set_length-Relengthens k.heap i size (sub32 k.heap.used_memory (e.length - size))
                  valid hi (shrink_place k.heap i size valid hi (omega arith));
            mapped = λ more. absurd (less more);
            kept = λ q _. refl;
            bytes = refl;
          },
        )
        | no ge ↦
            let same : e.length ≡ size = omega arith in
            (
              k,
              ground (arith, start, at, same),
              record {
                table = record {
                  at = ap (λ (l : ℕ). record e { length = l }) same;
                  others = λ j _. refl;
                  counted = refl;
                  valid = valid;
                };
                mapped = λ more. absurd (less more);
                kept = λ q _. refl;
                bytes = refl;
              },
            )
      ]
    ]
