-- ===== src/Paging.antt =====
-- The kernel's page tables: kernel/src/arch/x86/mem/paging.c and kernel/src/arch/x86/mem/paging_common.c,
-- once paging is on and for the kernel's page directory. The child modules prove what holds of them.
--
-- The table behind entry `i` of the directory is seen through the window at `page_directory_start`; the
-- tables are taken to stand in frames of their own, and the addresses to lie below the window.
-- What the processor caches is left out, and so is `virt2phys_ext`, which reads foreign tables.
pub mod Lookup
pub mod Map
pub mod Range
pub mod Tests
use nocturne_os_base.Prelude.{
  ℕ, zero, suc, ◌+◌, ◌-◌, ◌*◌, ◌/◌, ◌^◌, ltb, ◌==◌, if◌then◌else◌, u32, ◌>>>◌, bit_and, bit_or,
  align_up, page_size, Outcome, ret, ◌>>=◌,
}
use nocturne_os_base.Pmm.{Pmm, phys_alloc_single_page}

-- The page directory and its tables, with the allocator that their frames come from.
pub record Mapping : Type 0 where
  pub pmm : Pmm
  pub directory : ℕ → ℕ
  pub tables : ℕ → ℕ → ℕ

abbrev pub pd_index : ℕ → ℕ
pd_index virtual = virtual >>> 22

abbrev pub pt_index : ℕ → ℕ
pt_index virtual = bit_and (virtual >>> 12) 0x3ff

-- `& ~0xfff` and `& ~0x3ff`.
abbrev pub page_mask : ℕ → ℕ
page_mask a = bit_and a (2 ^ 32 - 2 ^ 12)

abbrev pub flags_mask : ℕ → ℕ
flags_mask a = bit_and a (2 ^ 32 - 2 ^ 10)

abbrev pub update : {A : Type 0} → (ℕ → A) → ℕ → A → ℕ → A
update f i v j = if j == i then v else f j

-- `pt[pti] = entry`.
abbrev pub set_entry : ℕ → ℕ → Mapping → Mapping
set_entry virtual entry s = record s {
  tables =
      update s.tables (pd_index virtual)
        (update (s.tables (pd_index virtual)) (pt_index virtual) entry);
}

-- A directory entry for the table in frame `pt`.
abbrev pub directory_entry : ℕ → ℕ → ℕ
directory_entry pt flags =
    let entry = bit_or (bit_or pt 2) 1 in if bit_and flags 4 == 0 then entry else bit_or entry 4

-- The table of an address, made if it is not there.
pub with_table : ℕ → ℕ → Mapping → Outcome Mapping
with_table virtual flags s =
    let made = phys_alloc_single_page s.pmm >>= λ r. ret (record s {
      pmm = r.1;
      directory = update s.directory (pd_index virtual) (directory_entry r.0 flags);
      tables = update s.tables (pd_index virtual) (λ i. 0);
    }) in
    if bit_and (s.directory (pd_index virtual)) 1 == 0 then made else ret s

pub map_single_page : ℕ → ℕ → ℕ → Mapping → Outcome Mapping
map_single_page physical virtual flags s = with_table (page_mask virtual) flags s >>= λ s'.
    ret (set_entry (page_mask virtual) (bit_or (bit_or (page_mask physical) flags) 1) s')

pub unmap_single_page : ℕ → Mapping → Mapping
unmap_single_page virtual s =
    if bit_and (s.directory (pd_index (page_mask virtual))) 1 == 0
    then s
    else set_entry (page_mask virtual) 0 s

pub phys_get_page_data : ℕ → Mapping → ℕ
phys_get_page_data virtual s =
    if bit_and (s.directory (pd_index (flags_mask virtual))) 1 == 0
    then 0
    else s.tables (pd_index (flags_mask virtual)) (pt_index (flags_mask virtual))

pub virt2phys : ℕ → Mapping → ℕ
virt2phys virtual s =
    if bit_and (s.directory (pd_index (page_mask virtual))) 1 == 0
    then 0
    else flags_mask (s.tables (pd_index (page_mask virtual)) (pt_index (page_mask virtual)))

pub virt2phys_precise : ℕ → Mapping → ℕ
virt2phys_precise virtual s = u32 (virt2phys (page_mask virtual) s + bit_and virtual 0xfff)

pub phys_set_flags : ℕ → ℕ → Mapping → Mapping
phys_set_flags virtual flags s =
    let v = page_mask virtual in
    let entry = s.tables (pd_index v) (pt_index v) in
    let open_to_user = record s {
      directory = update s.directory (pd_index v) (bit_or (s.directory (pd_index v)) 4);
    } in
    if bit_and (s.directory (pd_index v)) 1 == 0
    then s
    else set_entry v (bit_or (bit_or (flags_mask entry) flags) 1)
        (if bit_and flags 4 == 0 then s else open_to_user)

-- The rounds of `map_pages`, `n` of them left.
pub map_rounds : ℕ → ℕ → ℕ → ℕ → Mapping → Outcome Mapping
map_rounds zero phys virt flags s = ret s
map_rounds (suc n) phys virt flags s =
    map_single_page phys virt flags s
    >>= map_rounds n (u32 (phys + page_size)) (u32 (virt + page_size)) flags

pub map_pages : ℕ → ℕ → ℕ → ℕ → Mapping → Outcome Mapping
map_pages physical virtual size flags s =
    let vend = align_up (u32 (virtual + size)) page_size in
    map_rounds (if ltb virtual vend then (vend - virtual + (page_size - 1)) / page_size else 0)
      physical virtual flags s

pub map_pages_overlapping : ℕ → ℕ → ℕ → ℕ → Mapping → Outcome Mapping
map_pages_overlapping physical_start virtual_start size flags s =
    let nth1 = virtual_start / page_size in
    let nth2 = u32 (virtual_start + size) / page_size in
    let pages_to_map = u32 (nth2 + 2 ^ 32 - nth1 + 1) in
    map_pages physical_start virtual_start (u32 (pages_to_map * page_size)) flags s

-- The rounds of `unmap_pages_overlapping` from page `i` on, `n` of them left.
pub unmap_rounds : ℕ → ℕ → ℕ → Mapping → Mapping
unmap_rounds zero virtual i s = s
unmap_rounds (suc n) virtual i s =
    unmap_rounds n virtual (i + 1) (unmap_single_page (u32 (virtual + i * page_size)) s)

pub unmap_pages_overlapping : ℕ → ℕ → Mapping → Mapping
unmap_pages_overlapping virtual size s =
    let start = page_mask virtual in
    let nth1 = start / page_size in
    let nth2 = u32 (start + size) / page_size in
    unmap_rounds (u32 (nth2 + 2 ^ 32 - nth1 + 1)) start 0 s
