-- ===== src/Kmalloc.antt =====
-- The kernel heap over its pages: `kmalloc_common`, `kmalloc_common_contiguous`, `kfree` and
-- `krealloc_common` of kernel/src/mem/vmm.c. The child modules prove what holds of them.
--
-- The block table is that of Heap, the page tables those of Paging. A loop over the pages of a
-- block runs for ever once its counter wraps around, which is `hang`. Log calls and the calls of
-- `scheduler_mode` are left out.
pub mod Init
pub mod Ensure
pub mod Alloc
pub mod Free
pub mod Resize
pub mod Move
mod Tests
use nocturne_os_base.Prelude.{
  ℕ, zero, suc, ◌+◌, ◌-◌, ◌*◌, ◌/◌, ◌^◌, none, some, List, replicate, ltb, leb, ◌==◌, if◌then◌else◌,
  set, u32, sub32, align_up, page_size, Outcome, ret, hang, ◌>>=◌,
}
use nocturne_os_base.Pmm.{
  phys_alloc_single_page, phys_alloc_multi_pages, phys_free_single_page, phys_free_multi_pages,
}
use nocturne_os_base.Heap.{
  HeapEntry, Heap, no_entry, entry_at, alloc_no_map, free_no_map, find_block, heap_get_block,
  heap_get_block_idx, vmm_is_page_used_by_entries,
}
use nocturne_os_base.Paging.{
  Mapping, page_mask, phys_get_page_data, map_single_page, unmap_single_page, map_pages,
}
use nocturne_os_base.Memory.{Memory, memcpy}

-- The block table has room for as many entries as two pages hold, eight bytes each.
abbrev pub heap_capacity : ℕ
heap_capacity = page_size * 2 / 8

-- `system_heap`, the page tables and the bytes of the blocks. The table of `system_heap` lies in two pages in front of
-- `start`, and the page tables in a window of their own: both are fields of their own here and no part of `memory`, so that a
-- statement about `memory` is one about the bytes of the blocks only.
pub record Kernel : Type 0 where
  pub heap : Heap
  pub mapping : Mapping
  pub memory : Memory

-- `PAGE_WRITEABLE` and `PAGE_CACHE_DISABLE`.
abbrev pub page_writeable : ℕ
page_writeable = 2

abbrev pub page_cache_disable : ℕ
page_cache_disable = 16

-- Frames that are mapped at their own addresses.
pub pmm_alloc_and_map_self : ℕ → Mapping → Outcome (ℕ × Mapping)
pmm_alloc_and_map_self bytes s =
    phys_alloc_multi_pages (align_up bytes page_size / page_size) s.pmm >>= λ r.
    map_pages r.0 r.0 bytes page_writeable (record s { pmm = r.1 }) >>= λ m. ret (r.0, m)

-- `real_end` is `grub_last_module_end + phys_get_bitmap_size()`. The table is made of zeros: the
-- `memset` through the new mapping.
pub vmm_init : ℕ → Mapping → Outcome (Heap × Mapping)
vmm_init real_end s =
    let start = if ltb 0x1000000 real_end then align_up real_end page_size else 0x1000000 in
    let pages_occupied = heap_capacity * 8 / page_size in
    phys_alloc_multi_pages pages_occupied s.pmm >>= λ r.
    map_pages r.0 start (heap_capacity * 8) page_writeable (record s { pmm = r.1 }) >>= λ m. ret (
      record {
        allocated_count = 0;
        capacity = heap_capacity;
        start = u32 (start + page_size * (pages_occupied + 1));
        used_memory = 0;
        memory = replicate heap_capacity no_entry;
        peak_heap_usage = 0;
        total_memory_run = 0;
      },
      m,
    )

-- A page for an address that has none.
pub ensure_page : ℕ → Mapping → Outcome Mapping
ensure_page curaddr s =
    let made = phys_alloc_single_page s.pmm >>= λ r.
    map_single_page r.0 curaddr page_writeable (record s { pmm = r.1 }) in
    if phys_get_page_data curaddr s == 0 then made else ret s

-- The rounds of the loop over the pages from `curaddr` on, `n` of them left.
pub ensure_rounds : ℕ → ℕ → Mapping → Outcome Mapping
ensure_rounds zero curaddr s = ret s
ensure_rounds (suc n) curaddr s =
    ensure_page curaddr s >>= ensure_rounds n (u32 (curaddr + page_size))

-- The loop of `kmalloc_common`, which stands twice in `krealloc_common` too: its counter takes the
-- multiples of the page size up to `ALIGN(size, 4096)`.
pub ensure_mapped : ℕ → ℕ → Mapping → Outcome Mapping
ensure_mapped address size s =
    if leb (2 ^ 32 - page_size) (align_up size page_size)
    then hang
    else ensure_rounds (align_up size page_size / page_size + 1) (page_mask address) s

pub kmalloc_common : ℕ → ℕ → Kernel → Outcome (ℕ × Kernel)
kmalloc_common size align k = alloc_no_map size align k.heap >>= λ r.
    if r.0 == 0
    then ret (0, record k { heap = r.1 })
    else (ensure_mapped r.0 size k.mapping >>= λ m. ret (r.0, record k { heap = r.1; mapping = m }))

pub kmalloc_common_contiguous : ℕ → Kernel → Outcome (ℕ × Kernel)
kmalloc_common_contiguous page_count k =
    let sz = u32 (page_count * page_size) in
    phys_alloc_multi_pages page_count k.mapping.pmm >>= λ p.
    let mapping = record k.mapping { pmm = p.1 } in
    if p.0 == 0
    then ret (0, record k { mapping = mapping })
    else (alloc_no_map sz page_size k.heap >>= λ r.
        if r.0 == 0
        then ret (
          0,
          record k {
            heap = r.1;
            mapping = record mapping { pmm = phys_free_multi_pages p.0 page_count p.1 };
          },
        )
        else (map_pages p.0 r.0 sz (page_writeable + page_cache_disable) mapping >>= λ m.
            ret (r.0, record k { heap = r.1; mapping = m })))

-- One page of the loop of `kfree`.
pub free_page : Heap → ℕ → Mapping → Outcome Mapping
free_page h address s =
    let phys_addr = page_mask (phys_get_page_data address s) in
    let unmapped = unmap_single_page address s in
    let freed =
      phys_free_single_page phys_addr unmapped.pmm >>= λ p. ret (record unmapped { pmm = p }) in
    if vmm_is_page_used_by_entries h address then ret s else freed

pub free_rounds : ℕ → Heap → ℕ → Mapping → Outcome Mapping
free_rounds zero h address s = ret s
free_rounds (suc n) h address s =
    free_page h address s >>= free_rounds n h (u32 (address + page_size))

pub kfree : ℕ → Kernel → Outcome Kernel
kfree ptr k =
    let block = heap_get_block k.heap ptr in
    let heap' = free_no_map ptr k.heap in
    let freed =
      if ltb (2 ^ 32 - page_size) block.length
      then hang
      else (free_rounds ((block.length + (page_size - 1)) / page_size) heap' block.address k.mapping
          >>= λ m. ret (record k { heap = heap'; mapping = m })) in
    if ptr == 0 then ret k else if block.address == 0 then ret k else freed

-- `block->length = memory_size` with its share of the memory in use, for the block at index `i`.
pub set_length : ℕ → ℕ → ℕ → Heap → Heap
set_length i memory_size used h = record h {
  used_memory = used;
  memory = set h.memory i (record (entry_at h.memory i) { length = memory_size });
}

-- The block grows where it stands.
pub grow : ℕ → ℕ → Kernel → Outcome (ℕ × Kernel)
grow i memory_size k =
    let block = entry_at k.heap.memory i in
    ensure_mapped block.address memory_size k.mapping >>= λ m. ret (
      block.address,
      record k {
        heap =
            set_length i memory_size (u32 (k.heap.used_memory + (memory_size - block.length)))
              k.heap;
        mapping = m;
      },
    )

-- The block moves. The reference `block` is read again after `kmalloc_common`: it is entry `i`
-- of the table that this leaves.
pub move : ℕ → ℕ → ℕ → ℕ → Kernel → Outcome (ℕ × Kernel)
move ptr i memory_size alignment k = kmalloc_common memory_size alignment k >>= λ r.
    let block = entry_at r.1.heap.memory i in
    kfree ptr (record r.1 { memory = memcpy r.1.memory r.0 block.address block.length }) >>= λ k'.
    ret (r.0, k')

pub krealloc_common : ℕ → ℕ → ℕ → Kernel → Outcome (ℕ × Kernel)
krealloc_common ptr memory_size alignment k =
    let i = heap_get_block_idx k.heap ptr in
    let block = entry_at k.heap.memory i in
    let next = entry_at k.heap.memory (i + 1) in
    let expand =
      if i == k.heap.allocated_count - 1
      then grow i memory_size k
      else if ltb (u32 (block.address + memory_size)) next.address
      then grow i memory_size k
      else move ptr i memory_size alignment k in
    let shrink = ret (
      block.address,
      record k {
        heap =
            set_length i memory_size (sub32 k.heap.used_memory (block.length - memory_size)) k.heap;
      },
    ) in
    if ptr == 0 then ret (0, k) else elim (find_block k.heap.memory ptr k.heap.allocated_count 0) [
      | none ↦ ret (0, k)
      | some j ↦
          if ltb block.length memory_size
          then expand
          else if ltb memory_size block.length
          then shrink
          else ret (block.address, k)
    ]
