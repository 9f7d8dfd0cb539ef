-- ===== src/Heap.antt =====
-- The block table of the kernel heap, kernel/src/mem/vmm.c: `alloc_no_map`, `free_no_map` and the
-- searches in the table. The child modules prove what holds of them.
--
-- `system_heap.memory` is a list of `capacity` entries; the code never indexes past it while
-- `allocated_count < capacity`, which the invariant states. The endless loop of a full
-- table is `hang`. Log calls are left out; Kmalloc has the mapping of pages.
pub mod Shift
pub mod Insert
pub mod Search
pub mod Alloc
pub mod Free
pub mod RoundTrip
pub mod First
pub mod Cover
pub mod Tests
use nocturne_os_base.Prelude.{
  ℕ, zero, suc, ◌+◌, ◌-◌, ◌^◌, Bool, true, false, ◌&&◌, Option, none, some, List, [], ◌∷◌, ltb, leb,
  ◌==◌, if◌then◌else◌, length, get_or, set, max, u32, sub32, align_up, Outcome, ret, hang,
  page_size, bit_and,
}

-- `struct heap_entry`.
pub record HeapEntry : Type 0 where
  pub address : ℕ
  pub length : ℕ

-- `heap_t`, with the two statistics that stand beside it.
pub record Heap : Type 0 where
  pub allocated_count : ℕ
  pub capacity : ℕ
  pub start : ℕ
  pub used_memory : ℕ
  pub memory : List HeapEntry
  pub peak_heap_usage : ℕ
  pub total_memory_run : ℕ

abbrev pub no_entry : HeapEntry
no_entry = record { address = 0; length = 0 }

-- `system_heap.memory[i]`.
abbrev pub entry_at : List HeapEntry → ℕ → HeapEntry
entry_at mem i = get_or mem i no_entry

-- `cur.address + cur.length`, aligned if an alignment is asked for.
pub block_end : HeapEntry → ℕ → ℕ
block_end cur align =
    let curend = u32 (cur.address + cur.length) in
    if align == 0 then curend else align_up curend align

-- What the search finds: the end of the table, a gap behind block `i`, or nothing.
pub data Place : Type 0 where
  append : ℕ → ℕ → Place
  insert : ℕ → ℕ → Place
  nowhere : Place

-- The rounds from block `i` on, `n` of them left.
pub find_place : List HeapEntry → ℕ → ℕ → ℕ → ℕ → Place
find_place mem size align zero i = nowhere
find_place mem size align (suc n) i =
    let curend = block_end (entry_at mem i) align in
    let next = entry_at mem (i + 1) in
    let rest = find_place mem size align n (i + 1) in
    if next.address == 0
    then append curend (i + 1)
    else if leb (u32 (curend + size)) next.address
    then insert curend i
    else rest

-- `memory[j] = memory[j - 1]` for `n` rounds of falling `j`.
pub shift_up : List HeapEntry → ℕ → ℕ → List HeapEntry
shift_up mem zero j = mem
shift_up mem (suc n) j = shift_up (set mem j (entry_at mem (j - 1))) n (j - 1)

-- The end of `alloc_no_map`, behind the label `ok`.
pub place_block : Heap → List HeapEntry → ℕ → ℕ → ℕ → ℕ × Heap
place_block h mem bestindex bestaddress size = (
  bestaddress,
  record h {
    memory = set mem bestindex (record { address = bestaddress; length = size });
    allocated_count = h.allocated_count + 1;
    used_memory = u32 (h.used_memory + size);
    total_memory_run = u32 (h.total_memory_run + size);
    peak_heap_usage = max h.peak_heap_usage (u32 (h.used_memory + size));
  },
)

pub alloc_no_map : ℕ → ℕ → Heap → Outcome (ℕ × Heap)
alloc_no_map size align h =
    if h.allocated_count == 0
    then ret (place_block h h.memory 0 h.start size)
    else if h.allocated_count == h.capacity - 1
    then hang
    else elim (find_place h.memory size align h.allocated_count 0) [
      | append curend index ↦ ret (place_block h h.memory index curend size)
      | insert curend i ↦
          let mem = shift_up h.memory (h.allocated_count - i) h.allocated_count in
          ret (
            if ltb (u32 (curend + size)) 0xffffffff
            then place_block h mem (i + 1) curend size
            else place_block h mem 0 0 size)
      | nowhere ↦ ret (place_block h h.memory 0 0 size)
    ]

-- The first block from index `i` on with that address, `n` rounds left: the loop that
-- `free_no_map`, `heap_get_block`, `heap_get_block_ref` and `heap_get_block_idx` share.
pub find_block : List HeapEntry → ℕ → ℕ → ℕ → Option ℕ
find_block mem address zero i = none
find_block mem address (suc n) i =
    let rest = find_block mem address n (i + 1) in
    if (entry_at mem i).address == address then some i else rest

pub heap_get_block : Heap → ℕ → HeapEntry
heap_get_block h address = elim (find_block h.memory address h.allocated_count 0) [
  | some i ↦ entry_at h.memory i
  | none ↦ no_entry
]

pub heap_get_block_idx : Heap → ℕ → ℕ
heap_get_block_idx h address = elim (find_block h.memory address h.allocated_count 0) [
  | some i ↦ i
  | none ↦ 0xffffffff
]

-- `memory[i] = memory[i + 1]` for `n` rounds of rising `i`.
pub shift_down : List HeapEntry → ℕ → ℕ → List HeapEntry
shift_down mem zero i = mem
shift_down mem (suc n) i = shift_down (set mem i (entry_at mem (i + 1))) n (i + 1)

pub free_no_map : ℕ → Heap → Heap
free_no_map ptr h = if ptr == 0 then h else elim (find_block h.memory ptr h.allocated_count 0) [
  | none ↦ h
  | some i ↦ record h {
    used_memory = sub32 h.used_memory (entry_at h.memory i).length;
    memory =
        set (shift_down h.memory (h.allocated_count - 1 - i) i) (h.allocated_count - 1) no_entry;
    allocated_count = h.allocated_count - 1;
  }
]

-- Block `i` covers the page of `address`: the test of `vmm_is_page_used_by_entries`.
pub covers_page : HeapEntry → ℕ → Bool
covers_page e address =
    leb (bit_and e.address (2 ^ 32 - 1 - 0xfff)) address
    && ltb address (align_up (u32 (e.address + e.length)) page_size)

pub any_covers_page : List HeapEntry → ℕ → ℕ → ℕ → Bool
any_covers_page mem address zero i = false
any_covers_page mem address (suc n) i =
    let rest = any_covers_page mem address n (i + 1) in
    if covers_page (entry_at mem i) address then true else rest

pub vmm_is_page_used_by_entries : Heap → ℕ → Bool
vmm_is_page_used_by_entries h address = any_covers_page h.memory address h.allocated_count 0
