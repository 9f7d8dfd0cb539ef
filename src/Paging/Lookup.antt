-- ===== src/Paging/Lookup.antt =====
-- Reading the page tables of kernel/src/arch/x86/mem/paging.c, page by page.
use nocturne_os_base.Prelude.{
  ℕ, ◌/◌, ◌%◌, ◌^◌, ◌<◌, ◌==◌, if◌then◌else◌, ◌>>>◌, page_size, ◌≡◌, arith, ap, ap₂, ◌∙◌,
}
use nocturne_os_base.Prelude.Bits.{bit_and_mask, bit_and_page, bit_and_flags, bit_and_one}
use nocturne_os_base.Paging.{
  Mapping, pd_index, pt_index, page_mask, flags_mask, phys_get_page_data, virt2phys,
}

-- The entry of a page, 0 if there is no table for it.
abbrev pub page_entry : Mapping → ℕ → ℕ
page_entry s page =
    if s.directory (page / 1024) % 2 == 0 then 0 else s.tables (page / 1024) (page % 1024)

-- The two indices of an address depend on its page only.
pub pd_index_page : (v : ℕ) → v < 2 ^ 32 → pd_index (page_mask v) ≡ v / 4096 / 1024
pd_index_page v small = omega (arith, bit_and_page v small)

pub pt_index_page : (v : ℕ) → v < 2 ^ 32 → pt_index (page_mask v) ≡ v / 4096 % 1024
pt_index_page v small = bit_and_mask 10 (page_mask v >>> 12) ∙ omega (arith, bit_and_page v small)

pd_index_flags : (v : ℕ) → v < 2 ^ 32 → pd_index (flags_mask v) ≡ v / 4096 / 1024
pd_index_flags v small = omega (arith, bit_and_flags v small)

pt_index_flags : (v : ℕ) → v < 2 ^ 32 → pt_index (flags_mask v) ≡ v / 4096 % 1024
pt_index_flags v small =
    bit_and_mask 10 (flags_mask v >>> 12) ∙ omega (arith, bit_and_flags v small)

-- `phys_get_page_data` reads the entry of the page of the address.
pub get_page_data_lem :
    (v : ℕ) (s : Mapping) → v < 2 ^ 32 → phys_get_page_data v s ≡ page_entry s (v / page_size)
unfolding phys_get_page_data
get_page_data_lem v s small = ground (
  arith,
  ap s.directory (pd_index_flags v small),
  ap₂ s.tables (pd_index_flags v small) (pt_index_flags v small),
  bit_and_one (s.directory (pd_index (flags_mask v))),
)

-- `virt2phys` is the entry of the page without its low ten bits.
pub virt2phys_lem :
    (v : ℕ) (s : Mapping) → v < 2 ^ 32 → virt2phys v s ≡ flags_mask (page_entry s (v / page_size))
unfolding virt2phys
virt2phys_lem v s small = ground (
  arith,
  ap s.directory (pd_index_page v small),
  ap₂ s.tables (pd_index_page v small) (pt_index_page v small),
  bit_and_one (s.directory (pd_index (page_mask v))),
)
