-- ===== src/Pmm/Boot.antt =====
-- The set-up of the allocator: `check_memory_map`, `init_pmm` and `mark_reserved_memory_as_used`
-- of kernel/src/mem/pmm.c.
pub mod Reserve
pub mod Laws
use nocturne_os_base.Prelude.{
  ℕ, zero, suc, ◌+◌, ◌*◌, ◌/◌, ◌-◌, ◌^◌, true, List, [], ◌∷◌, ltb, leb, ◌==◌, if◌then◌else◌, length,
  replicate, u32, align_up, Outcome, ret, hang, ◌>>=◌, page_size,
}
use nocturne_os_base.Pmm.{Pmm, phys_alloc_multi_pages, phys_mark_page_entry}

-- `memory_map_entry_t`, with the fields that the code reads.
pub record MemoryMapEntry : Type 0 where
  pub addr_low : ℕ
  pub len_low : ℕ
  pub type : ℕ

-- The new `phys_memory_size`.
pub check_memory_map : List MemoryMapEntry → ℕ → ℕ
check_memory_map [] size = size
check_memory_map (e ∷ es) size = check_memory_map es (u32 (size + e.len_low))

unfoldable pub pages_available : ℕ → ℕ
pages_available phys_memory_size = align_up (phys_memory_size / page_size) 0x100

-- The pages from address 0 to the end of the bitmap, which stands behind the last module.
pub kernel_page_count : ℕ → ℕ → ℕ
kernel_page_count grub_last_module_end bitmap_size =
    align_up (u32 (grub_last_module_end + bitmap_size)) page_size / page_size

-- `init_pmm`, from the sizes that stand in the globals.
pub init_pmm : ℕ → ℕ → ℕ → Outcome Pmm
init_pmm grub_last_module_end phys used =
    let bitmap_size = pages_available phys / 8 in
    let s : Pmm = record {
      bitmap = replicate bitmap_size 0;
      phys_memory_size = phys;
      used_phys_memory_size = used;
    } in
    phys_alloc_multi_pages (kernel_page_count grub_last_module_end bitmap_size) s >>= λ r.
    if r.0 == 0 then ret r.1 else hang

-- The rounds `j = 0, PAGE_SIZE, ...` below `length`, `n` of them left.
pub mark_range : ℕ → ℕ → ℕ → Pmm → Outcome Pmm
mark_range zero addr j s = ret s
mark_range (suc n) addr j s =
    phys_mark_page_entry (u32 (addr + j)) true s >>= mark_range n addr (j + page_size)

-- Above `2 ^ 32 - PAGE_SIZE` the loop variable wraps before it reaches `length`.
pub mark_entry : MemoryMapEntry → Pmm → Outcome Pmm
mark_entry e s =
    if leb (u32 (length s.bitmap * 4096 * 8)) e.addr_low
    then ret s
    else if e.type == 1
    then ret s
    else if ltb (2 ^ 32 - page_size) e.len_low
    then hang
    else mark_range ((e.len_low + 4095) / page_size) e.addr_low 0 s

pub mark_reserved_memory_as_used : List MemoryMapEntry → Pmm → Outcome Pmm
mark_reserved_memory_as_used [] s = ret s
mark_reserved_memory_as_used (e ∷ es) s = mark_entry e s >>= mark_reserved_memory_as_used es
