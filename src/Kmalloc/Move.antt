-- ===== src/Kmalloc/Move.antt =====
-- `krealloc_common` of kernel/src/mem/vmm.c where the block moves: what it copies.
use nocturne_os_base.Prelude.{
  ℕ, ◌+◌, ◌-◌, ◌*◌, ◌≤◌, ◌<◌, ltb, ◌==◌, if◌then◌else◌, ◌≡◌, ◌≢◌, refl, arith, ap, ◌∙◌, inr, ret,
  ◌>>=◌, >>=-ret, dec_lt, suc, inl, subst, sym,
}
use nocturne_os_base.Memory.{Memory, memcpy}
use nocturne_os_base.Memory.Words.{IsBytes}
use nocturne_os_base.Memory.Copy.{memcpy_lem}
use nocturne_os_base.Heap.{HeapEntry, Heap, entry_at}
use nocturne_os_base.Heap.Insert.{IsValid, end_of}
use nocturne_os_base.Heap.Search.{IsAlignment}
use nocturne_os_base.Heap.Cover.{IsBelowTop}
use nocturne_os_base.Heap.Free.{IsBlockAt}
use nocturne_os_base.Paging.Range.{HasRoom}
use nocturne_os_base.Kmalloc.{Kernel, kfree, move, krealloc_common}
use nocturne_os_base.Kmalloc.Alloc.{pages_for, HasSpace, Provides, kmalloc-Provides}
use nocturne_os_base.Kmalloc.Ensure.{HasFrames}
use nocturne_os_base.Kmalloc.Free.{Releases, kfree-Releases}
use nocturne_os_base.Kmalloc.Resize.{krealloc_at}

-- The entry that index `i` has once a block of `size` bytes at `a` is put in as block `j`.
abbrev pub entry_after : Heap → ℕ → ℕ → ℕ → ℕ → HeapEntry
entry_after h i j a size =
    if ltb i j
    then entry_at h.memory i
    else if i == j
    then record { address = a; length = size }
    else entry_at h.memory (i - 1)

-- A copy to a block behind the old one takes the old one's bytes.
copies_behind :
    (h : Heap) (mem : Memory) (i j a size ptr : ℕ)
    → IsBytes mem
    → (entry_at h.memory i).address ≡ ptr
    → end_of (entry_at h.memory i) ≤ a
    → i < j
    → (x : ℕ) → x < (entry_at h.memory i).length
    → memcpy mem a (entry_after h i j a size).address (entry_after h i j a size).length (a + x)
      ≡ mem (ptr + x)
copies_behind h mem i j a size ptr bytes at apart behind x lt =
    let e = entry_at h.memory i in
    let old : entry_after h i j a size ≡ e = ground (arith, behind) in
    let place : e.address + (a + x - a) ≡ ptr + x = omega (arith, at) in
    ap (λ (b : HeapEntry). memcpy mem a b.address b.length (a + x)) old
    ∙ memcpy_lem mem a e.address e.length (a + x) bytes (inr apart)
    ∙ ground (arith, lt, ap mem place)

-- The table with the new block stays below the last page.
Provides-IsBelowTop :
    (k k₁ : Kernel) (size align j a : ℕ)
    → Provides k size align j a k₁
    → HasSpace k.heap size align
    → IsBelowTop k₁.heap
Provides-IsBelowTop k k₁ size align j a new space i hi =
    let ins = new.block.inserts in
    let count = new.block.counted in
    elim (dec_lt i j) [
      | yes low ↦ omega (arith, ap end_of (ins.below i low), space.1 i (omega (arith, ins.k_in)))
      | no high ↦ elim (dec_lt j i) [
        | yes behind ↦ omega (arith, ap end_of (ins.above i behind), space.1 (i - 1) (omega arith))
        | no low' ↦
            let same : i ≡ j = omega arith in
            let here : entry_at k₁.heap.memory i ≡ record { address = a; length = size } =
              ap (entry_at k₁.heap.memory) same ∙ ins.at in
            omega (arith, ap end_of here, new.inside)
      ]
    ]

-- The block `i` still stands in the table, behind the new one or in front of it.
still_there :
    (k k₁ : Kernel) (size align i j a ptr : ℕ)
    → Provides k size align j a k₁
    → i < k.heap.allocated_count
    → (entry_at k.heap.memory i).address ≡ ptr
    → (m : ℕ) × (m < k₁.heap.allocated_count) × ((entry_at k₁.heap.memory m).address ≡ ptr)
still_there k k₁ size align i j a ptr new inside at =
    let ins = new.block.inserts in
    let count = new.block.counted in
    elim (dec_lt i j) [
      | yes low ↦ (i, omega arith, ap (λ (e : HeapEntry). e.address) (ins.below i low) ∙ at)
      | no high ↦
          let back : suc i - 1 ≡ i = omega arith in
          (
            suc i,
            omega arith,
            ap (λ (e : HeapEntry). e.address) (ins.above (suc i) (omega arith))
                ∙ (ap (λ n. (entry_at k.heap.memory n).address) back ∙ at),
          )
    ]

-- What a moving `krealloc_common` leaves, `k₂`: `k₁` has the new block as block `j` at `a` and its pages mapped, and from it
-- the first block at the old address, block `i'` there, is freed with the pages that only it touches.
pub record Moves (k : Kernel) (ptr size align i j a i' : ℕ) (k₁ k₂ : Kernel) : Type 0 where
  pub new : Provides k size align j a k₁
  pub old : IsBlockAt k₁.heap.memory ptr 0 k₁.heap.allocated_count i'
  pub releases : Releases (record k₁ { memory = k₂.memory }) ptr i' k₂
  pub copies_entry :
      k₂.memory
      ≡ memcpy k.memory a
          (entry_after k.heap i j a size).address
          (entry_after k.heap i j a size).length
  pub copies_block :
      i < j
      → (x : ℕ) → x < (entry_at k.heap.memory i).length
      → k₂.memory (a + x) ≡ k.memory (ptr + x)

-- `krealloc_common` of a block that is not the last and would reach the next one, with a size above its own, on a table in order that
-- is not full, with address space, frames and entries left, and with all frames in the page tables the allocator's, returns the
-- address of a new block of the size asked for, whose pages are mapped. The first block at the old address is out of the table then,
-- and its pages that no block touches are unmapped. Where the new block stands behind the old one in the table, its first bytes are
-- those of the old block. In any case the bytes are those after a copy of the entry that stands at the old index after the new
-- block has been put in, so that the copy is of another block where the new one stands in front.
pub krealloc-Moves :
    (k : Kernel) (ptr size align i : ℕ)
    → IsValid k.heap
    → k.heap.allocated_count + 1 < k.heap.capacity
    → IsAlignment align
    → 0 < align
    → 0 < k.heap.start
    → HasSpace k.heap size align
    → HasRoom k.mapping (2 * pages_for size)
    → HasFrames k.mapping
    → IsBytes k.memory
    → ptr ≢ 0
    → IsBlockAt k.heap.memory ptr 0 k.heap.allocated_count i
    → (entry_at k.heap.memory i).length < size
    → i + 1 < k.heap.allocated_count
    → (entry_at k.heap.memory (i + 1)).address ≤ ptr + size
    → (j : ℕ) × (a : ℕ) × (i' : ℕ) × (k₁ : Kernel) × (k₂ : Kernel) × (krealloc_common ptr size align
          k
        ≡ ret (a, k₂))
      × Moves k ptr size align i j a i' k₁ k₂
unfolding move
krealloc-Moves k ptr size align i valid free aligns pos start space room frames bytes nonzero block
      more inner close =
    let e = entry_at k.heap.memory i in
    let at : e.address ≡ ptr = block.2 in
    let (j, a, k₁, done, new) =
      kmalloc-Provides k size align valid free aligns pos start space room in
    let ins = new.block.inserts in
    let after : entry_at k₁.heap.memory i ≡ entry_after k.heap i j a size =
      ground (arith, ins.below i, ins.at, ins.above i) in
    let moves : krealloc_common ptr size align k ≡ move ptr i size align k = ground (
      arith,
      krealloc_at k ptr size align i nonzero block,
      at,
      more,
      inner,
      close,
      space.1 i (omega arith),
    ) in
    let b = entry_after k.heap i j a size in
    let m = memcpy k.memory a b.address b.length in
    let runs : krealloc_common ptr size align k
        ≡ (kfree ptr (record k₁ { memory = m }) >>= λ k₂. ret (a, k₂)) =
      moves ∙ rw done (rw after (rw new.bytes refl)) in
    let (n, n_in, n_at) = still_there k k₁ size align i j a ptr new (omega arith) at in
    elim (kfree-Releases (record k₁ { memory = m }) ptr new.block.valid nonzero
      (Provides-IsBelowTop k k₁ size align j a new space) (new.frames frames)) [
        | inl (_, no_block) ↦ absurd (no_block n n_in n_at)
        | inr (i', k₂, old, freed, rel) ↦ (
          j,
          a,
          i',
          k₁,
          k₂,
          runs ∙ >>=-ret _ _ freed refl,
          record {
            new = new;
            old = old;
            releases =
                subst (λ t. Releases (record k₁ { memory = t }) ptr i' k₂) (sym rel.bytes) rel;
            copies_entry = rel.bytes;
            copies_block = λ behind x lt.
                ap (λ (t : Memory). t (a + x)) rel.bytes
                ∙ copies_behind k.heap k.memory i j a size ptr bytes at
                    (new.block.fits.after i behind) behind x lt;
          },
        )
      ]
