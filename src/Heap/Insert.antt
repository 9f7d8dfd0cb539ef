-- ===== src/Heap/Insert.antt =====
-- The invariant of the block table of kernel/src/mem/vmm.c, and a block put into it.
use nocturne_os_base.Prelude.{ℕ, ◌+◌, ◌-◌, ◌^◌, ◌≤◌, ◌<◌, List, length, ◌≡◌, arith}
use nocturne_os_base.Heap.{HeapEntry, Heap, no_entry, entry_at}

-- The first address behind a block.
abbrev pub end_of : HeapEntry → ℕ
end_of e = e.address + e.length

-- The blocks stand in address order and do not overlap, none is at address 0, none reaches past the
-- address space, and the entries behind the last block are zero.
pub record IsValid (h : Heap) : Type 0 where
  pub holds : length h.memory ≡ h.capacity
  pub room : h.allocated_count < h.capacity
  pub nonzero : (i : ℕ) → i < h.allocated_count → 0 < (entry_at h.memory i).address
  pub ends : (i : ℕ) → i < h.allocated_count → end_of (entry_at h.memory i) < 2 ^ 32
  pub ordered :
      (i j : ℕ)
      → i < j
      → j < h.allocated_count
      → end_of (entry_at h.memory i) ≤ (entry_at h.memory j).address
  pub blank : (i : ℕ) → h.allocated_count ≤ i → entry_at h.memory i ≡ no_entry

-- `mem'` is `mem`, a table of `n` blocks, with `e` put in at index `k` and the blocks from there on
-- moved up by one.
pub record Inserts (mem : List HeapEntry) (n k : ℕ) (e : HeapEntry) (mem' : List HeapEntry)
    : Type 0 where
  pub k_in : k ≤ n
  pub below : (j : ℕ) → j < k → entry_at mem' j ≡ entry_at mem j
  pub at : entry_at mem' k ≡ e
  pub above : (j : ℕ) → k < j → entry_at mem' j ≡ entry_at mem (j - 1)
  pub same_length : length mem' ≡ length mem

-- `e` fits between the blocks around index `k`.
pub record Fits (h : Heap) (k : ℕ) (e : HeapEntry) : Type 0 where
  pub positive : 0 < e.address
  pub in_space : end_of e < 2 ^ 32
  pub after : (j : ℕ) → j < k → end_of (entry_at h.memory j) ≤ e.address
  pub before : (j : ℕ) → k ≤ j → j < h.allocated_count → end_of e ≤ (entry_at h.memory j).address

module _ (h h' : Heap) (k : ℕ) (e : HeapEntry) (valid : IsValid h)
    (ins : Inserts h.memory h.allocated_count k e h'.memory) (fits : Fits h k e)
    (count : h'.allocated_count ≡ h.allocated_count + 1) (cap : h'.capacity ≡ h.capacity)
    (free : h.allocated_count + 1 < h.capacity) where
  nonzero : (i : ℕ) → i < h'.allocated_count → 0 < (entry_at h'.memory i).address
  nonzero i hi = ground (
    arith,
    ins.below i,
    ins.at,
    ins.above i,
    ins.k_in,
    fits.positive,
    valid.nonzero i,
    valid.nonzero (i - 1),
  )

  ends : (i : ℕ) → i < h'.allocated_count → end_of (entry_at h'.memory i) < 2 ^ 32
  ends i hi = ground (
    arith,
    ins.below i,
    ins.at,
    ins.above i,
    ins.k_in,
    fits.in_space,
    valid.ends i,
    valid.ends (i - 1),
  )

  ordered :
      (i j : ℕ)
      → i < j
      → j < h'.allocated_count
      → end_of (entry_at h'.memory i) ≤ (entry_at h'.memory j).address
  ordered i j lt hj = ground (
    arith,
    ins.k_in,
    ins.below i,
    ins.below j,
    ins.at,
    ins.above i,
    ins.above j,
    fits.after i,
    fits.before (j - 1),
    valid.ordered i j,
    valid.ordered i (j - 1),
    valid.ordered (i - 1) (j - 1),
  )

  blank : (i : ℕ) → h'.allocated_count ≤ i → entry_at h'.memory i ≡ no_entry
  blank i hi = ground (arith, ins.k_in, ins.above i, valid.blank (i - 1))

  pub Inserts-IsValid : IsValid h'
  Inserts-IsValid = record {
    holds = ground (arith, ins.same_length, valid.holds);
    room = omega arith;
    nonzero = nonzero;
    ends = ends;
    ordered = ordered;
    blank = blank;
  }
