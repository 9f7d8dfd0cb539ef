-- ===== src/Paging/Map.antt =====
-- Mapping and unmapping one page in kernel/src/arch/x86/mem/paging.c.
use nocturne_os_base.Prelude.{
  ℕ, ◌+◌, ◌-◌, ◌*◌, ◌/◌, ◌%◌, ◌^◌, ◌<◌, ◌==◌, if◌then◌else◌, bit_and, bit_or, page_size, ◌≡◌, ◌≢◌,
  refl, arith, ap, ap₂, ◌∙◌, inl, inr, Bool-cases, ret, ℕ_discrete,
}
use nocturne_os_base.Prelude.Bits.{bit_and_page, bit_and_one, bit_or_lowest, bit_or_one, bit_or_low}
use nocturne_os_base.Pmm.Room.{Uses, Uses-refl, Uses-le, alloc_single-Uses}
use nocturne_os_base.Paging.{
  Mapping, pd_index, pt_index, page_mask, flags_mask, set_entry, directory_entry, with_table,
  map_single_page, unmap_single_page, phys_set_flags, update,
}
use nocturne_os_base.Paging.Lookup.{page_entry, pd_index_page, pt_index_page}

-- `s'` is `s` with `e` as the entry of one page.
abbrev pub Sets : Mapping → ℕ → ℕ → Mapping → Type 0
Sets s page e s' = (q : ℕ) → page_entry s' q ≡ (if q == page then e else page_entry s q)

-- The entry for a frame and flags.
abbrev pub entry_of : ℕ → ℕ → ℕ
entry_of physical flags = bit_or (bit_or (page_mask physical) flags) 1

-- As a sum: the frame, the flags, and the present bit.
pub entry_of_lem :
    (physical flags : ℕ)
    → physical < 2 ^ 32
    → flags < 4096
    → entry_of physical flags ≡ physical / 4096 * 4096 + flags + (1 - flags % 2)
entry_of_lem physical flags small low =
    let frame = bit_and_page physical small in
    let sum : bit_or (page_mask physical) flags ≡ physical / 4096 * 4096 + flags =
      ap (λ (t : ℕ). bit_or t flags) frame ∙ bit_or_low 12 (physical / 4096) flags low in
    omega (arith, bit_or_one (bit_or (page_mask physical) flags), sum)

pub entry_of-nonzero : (physical flags : ℕ) → 0 < entry_of physical flags
entry_of-nonzero physical flags = omega (arith, bit_or_one (bit_or (page_mask physical) flags))

directory_entry-present : (pt flags : ℕ) → directory_entry pt flags % 2 ≡ 1
directory_entry-present pt flags =
    ground (arith, bit_or_one (bit_or pt 2), bit_or_lowest (bit_or (bit_or pt 2) 1) 4)

-- A write to a table that is there.
set_entry-Sets :
    (s : Mapping) (v e page : ℕ)
    → pd_index v ≡ page / 1024
    → pt_index v ≡ page % 1024
    → s.directory (page / 1024) % 2 ≡ 1
    → Sets s page e (set_entry v e s)
set_entry-Sets s v e page pd pt present q = elim (ℕ_discrete (q / 1024) (page / 1024)) [
  | no other ↦
      let apart : q ≢ page = λ same. other (ap (λ (t : ℕ). t / 1024) same) in
      ground (arith, pd, other, apart)
  | yes table ↦ elim (ℕ_discrete (q % 1024) (page % 1024)) [
    | yes slot ↦
        let same : q ≡ page = omega arith in
        ground (arith, pd, pt, present, table, slot, same, ap s.directory table)
    | no other ↦
        let apart : q ≢ page = λ same. other (ap (λ (t : ℕ). t % 1024) same) in
        ground (arith, pd, pt, table, other, apart)
  ]
]

-- What `with_table` leaves: the table is there, and no entry has changed.
record HasTable (s : Mapping) (i : ℕ) (s' : Mapping) : Type 0 where
  present : s'.directory i % 2 ≡ 1
  same : (q : ℕ) → page_entry s' q ≡ page_entry s q
  uses : Uses s.pmm 1 s'.pmm

with_table-HasTable :
    (v flags : ℕ) (s : Mapping)
    → s.pmm.used_phys_memory_size < s.pmm.phys_memory_size
    → (s' : Mapping) × (with_table v flags s ≡ ret s') × HasTable s (pd_index v) s'
unfolding with_table
with_table-HasTable v flags s room = elim (Bool-cases (bit_and (s.directory (pd_index v)) 1 == 0)) [
  | inr there ↦ (
    s,
    ground (arith, there),
    record {
      present = ground (arith, there, bit_and_one (s.directory (pd_index v)));
      same = λ q. refl;
      uses = Uses-le (omega arith) (Uses-refl s.pmm);
    },
  )
  | inl absent ↦
      let (pt, pmm', e, uses, _, _) = alloc_single-Uses s.pmm room in
      (
        record s {
          pmm = pmm';
          directory = update s.directory (pd_index v) (directory_entry pt flags);
          tables = update s.tables (pd_index v) (λ i. 0);
        },
        ground (arith, absent, e),
        record {
          present = ground (arith, directory_entry-present pt flags);
          same = λ q. elim (ℕ_discrete (q / 1024) (pd_index v)) [
            | yes table ↦ ground (
              arith,
              table,
              absent,
              directory_entry-present pt flags,
              bit_and_one (s.directory (pd_index v)),
              ap s.directory table,
            )
            | no other ↦ ground (arith, other)
          ];
          uses = uses;
        },
      )
]

-- `map_single_page` returns, sets the entry of the page of the address and no other.
pub map_single-Sets :
    (physical v flags : ℕ) (s : Mapping)
    → v < 2 ^ 32
    → s.pmm.used_phys_memory_size < s.pmm.phys_memory_size
    → (s' : Mapping) × (map_single_page physical v flags s ≡ ret s')
      × Sets s (v / page_size) (entry_of physical flags) s'
      × Uses s.pmm 1 s'.pmm
unfolding map_single_page
map_single-Sets physical v flags s small room =
    let (t, e, has) = with_table-HasTable (page_mask v) flags s room in
    let pd = pd_index_page v small in
    let set_one =
      set_entry-Sets t (page_mask v) (entry_of physical flags) (v / page_size) pd
        (pt_index_page v small) (ground (arith, ap t.directory pd, has.present)) in
    (
      set_entry (page_mask v) (entry_of physical flags) t,
      rw e refl,
      λ q. ground (arith, set_one q, has.same q),
      has.uses,
    )

-- `unmap_single_page` clears the entry of the page of the address and no other.
pub unmap_single-Sets :
    (v : ℕ) (s : Mapping) → v < 2 ^ 32 → Sets s (v / page_size) 0 (unmap_single_page v s)
unfolding unmap_single_page
unmap_single-Sets v s small =
    let i = pd_index (page_mask v) in
    let pd = pd_index_page v small in
    elim (Bool-cases (bit_and (s.directory i) 1 == 0)) [
      | inl absent ↦ λ q. elim (ℕ_discrete q (v / page_size)) [
        | yes same ↦ ground (
          arith,
          absent,
          same,
          bit_and_one (s.directory i),
          ap s.directory pd,
          ap (λ (t : ℕ). s.directory (t / 1024)) same,
        )
        | no other ↦ ground (arith, absent, other)
      ]
      | inr there ↦ λ q. ground (
        arith,
        there,
        set_entry-Sets s (page_mask v) 0 (v / page_size) pd (pt_index_page v small)
            (ground (arith, there, bit_and_one (s.directory i), ap s.directory pd)) q,
      )
    ]

pub unmap_single-same : (v : ℕ) (s : Mapping) → (unmap_single_page v s).pmm ≡ s.pmm
unfolding unmap_single_page
unmap_single-same v s = elim (Bool-cases (bit_and (s.directory (pd_index (page_mask v))) 1 == 0)) [
  | inl absent ↦ ground (arith, absent)
  | inr there ↦ ground (arith, there)
]

-- `phys_set_flags` puts new flags on the frame of a page whose table is there, and on no other page.
pub phys_set_flags-Sets :
    (v flags : ℕ) (s : Mapping)
    → v < 2 ^ 32
    → s.directory (v / page_size / 1024) % 2 ≡ 1
    → Sets s
        (v / page_size)
        (bit_or (bit_or (flags_mask (page_entry s (v / page_size))) flags) 1)
        (phys_set_flags v flags s)
unfolding phys_set_flags
phys_set_flags-Sets v flags s small present =
    let i = pd_index (page_mask v) in
    let pd = pd_index_page v small in
    let there : s.directory i % 2 ≡ 1 = ground (arith, ap s.directory pd, present) in
    let entry : s.tables i (pt_index (page_mask v)) ≡ page_entry s (v / page_size) =
      ground (arith, present, ap₂ s.tables pd (pt_index_page v small)) in
    let e = bit_or (bit_or (flags_mask (s.tables i (pt_index (page_mask v)))) flags) 1 in
    let e' : e ≡ bit_or (bit_or (flags_mask (page_entry s (v / page_size))) flags) 1 =
      ap (λ (t : ℕ). bit_or (bit_or (flags_mask t) flags) 1) entry in
    let open_to_user : Mapping = record s {
      directory = update s.directory i (bit_or (s.directory i) 4);
    } in
    let open_present : open_to_user.directory (v / page_size / 1024) % 2 ≡ 1 =
      ground (arith, pd, bit_or_lowest (s.directory i) 4, there) in
    let same : (q : ℕ) → page_entry open_to_user q ≡ page_entry s q =
      λ q. ground (arith, bit_or_lowest (s.directory i) 4, ap s.directory pd) in
    let written : (t : Mapping)
        → t.directory (v / page_size / 1024) % 2 ≡ 1
        → Sets t (v / page_size) e (set_entry (page_mask v) e t) =
      λ t. set_entry-Sets t (page_mask v) e (v / page_size) pd (pt_index_page v small) in
    λ q. elim (Bool-cases (bit_and flags 4 == 0)) [
      | inl kernel ↦
          ground (arith, kernel, bit_and_one (s.directory i), there, written s present q, e')
      | inr user ↦ ground (
        arith,
        user,
        bit_and_one (s.directory i),
        there,
        written open_to_user open_present q,
        same q,
        e',
      )
    ]
