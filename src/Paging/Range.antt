-- ===== src/Paging/Range.antt =====
-- Mapping and unmapping ranges of pages in kernel/src/arch/x86/mem/paging_common.c.
use nocturne_os_base.Prelude.{
  ℕ, zero, suc, ◌+◌, ◌-◌, ◌*◌, ◌/◌, ◌%◌, ◌^◌, ◌≤◌, ◌<◌, ltb, leb, ◌&&◌, if◌then◌else◌, u32,
  page_size, ◌≡◌, refl, arith, ap, ◌∙◌, ret, dec_lt, align_up,
}
use nocturne_os_base.Prelude.Align.{align_up_page}
use nocturne_os_base.Prelude.Bits.{bit_and_page}
use nocturne_os_base.Pmm.Room.{Uses, Uses-refl, Uses-trans, Uses-le}
use nocturne_os_base.Paging.{
  Mapping, page_mask, map_rounds, map_pages, unmap_rounds, unmap_pages_overlapping,
  unmap_single_page,
}
use nocturne_os_base.Paging.Lookup.{page_entry}
use nocturne_os_base.Paging.Map.{entry_of, map_single-Sets, unmap_single-Sets}

-- `s'` is `s` with the pages from `first` up to `last` mapped to the frames from `physical` on.
abbrev pub MapsRange : Mapping → ℕ → ℕ → ℕ → ℕ → Mapping → Type 0
MapsRange s first last physical flags s' =
    (q : ℕ)
    → page_entry s' q ≡ (
        if leb first q && ltb q last
        then entry_of (physical + (q - first) * page_size) flags
        else page_entry s q)

-- `s'` is `s` without the pages from `first` up to `last`.
abbrev pub ClearsRange : Mapping → ℕ → ℕ → Mapping → Type 0
ClearsRange s first last s' =
    (q : ℕ) → page_entry s' q ≡ (if leb first q && ltb q last then 0 else page_entry s q)

-- There are enough frames for `n` more tables.
abbrev pub HasRoom : Mapping → ℕ → Type 0
HasRoom s n = s.pmm.used_phys_memory_size + n * page_size ≤ s.pmm.phys_memory_size

map_rounds-MapsRange :
    (n physical v flags : ℕ) (s : Mapping)
    → v < 2 ^ 32
    → v / page_size + n ≤ 2 ^ 20
    → physical + n * page_size ≤ 2 ^ 32
    → HasRoom s n
    → (s' : Mapping) × (map_rounds n physical v flags s ≡ ret s')
      × MapsRange s (v / page_size) (v / page_size + n) physical flags s'
      × Uses s.pmm n s'.pmm
unfolding map_rounds
map_rounds-MapsRange zero physical v flags s small inside frames room =
    (s, refl, (λ q. ground arith), Uses-refl s.pmm)
map_rounds-MapsRange (suc n) physical v flags s small inside frames room =
    let (t, e, sets, uses) = map_single-Sets physical v flags s small (omega arith) in
    let (u, e', maps, uses') =
      map_rounds-MapsRange n (u32 (physical + page_size)) (u32 (v + page_size)) flags t
        (omega arith) (omega arith) (omega arith) (omega (arith, uses.used, uses.total)) in
    (
      u,
      rw e e',
      λ q. elim (dec_lt (v / page_size) q) [
        | yes above ↦ elim (dec_lt q (v / page_size + suc n)) [
          | yes below ↦
              let p : u32 (physical + page_size) + (q - u32 (v + page_size) / page_size) * page_size
                  ≡ physical + (q - v / page_size) * page_size =
                omega arith in
              ground (arith, maps q, ap (λ (a : ℕ). entry_of a flags) p)
          | no out ↦ ground (arith, maps q, sets q)
        ]
        | no low ↦ ground (arith, maps q, sets q)
      ],
      Uses-le (omega arith) (Uses-trans uses uses'),
    )

-- `map_pages` of a range that ends at least one page before 2^32, of as many physical pages below 2^32 as the range touches, with
-- enough frames free for the page tables that can be needed, returns. It maps every page that the range touches, also the last one
-- of a range that starts inside a page, to the physical pages in order, changes no other page, and takes at most that many frames.
pub map_pages-MapsRange :
    (physical v size flags : ℕ) (s : Mapping)
    → v + size + page_size ≤ 2 ^ 32
    → let last = (v + size + (page_size - 1)) / page_size in
      physical + (last - v / page_size) * page_size ≤ 2 ^ 32
      → HasRoom s (last - v / page_size)
      → (s' : Mapping) × (map_pages physical v size flags s ≡ ret s')
        × MapsRange s (v / page_size) last physical flags s'
        × Uses s.pmm (last - v / page_size) s'.pmm
unfolding map_pages
map_pages-MapsRange physical v size flags s inside frames room =
    let last = (v + size + (page_size - 1)) / page_size in
    let vend = align_up (u32 (v + size)) page_size in
    let aligned : vend ≡ last * page_size =
      align_up_page (u32 (v + size)) (omega arith) ∙ omega arith in
    let rounds : (if ltb v vend then (vend - v + (page_size - 1)) / page_size else 0)
        ≡ last - v / page_size =
      ground (arith, aligned) in
    let (s', e, maps, uses) =
      map_rounds-MapsRange (last - v / page_size) physical v flags s (omega arith) (omega arith)
        frames room in
    (
      s',
      ap (λ (n : ℕ). map_rounds n physical v flags s) rounds ∙ e,
      (λ q. ground (arith, maps q)),
      uses,
    )

unmap_rounds-ClearsRange :
    (n v i : ℕ) (s : Mapping)
    → v / page_size + i + n ≤ 2 ^ 20
    → v % page_size ≡ 0
    → ClearsRange s (v / page_size + i) (v / page_size + i + n) (unmap_rounds n v i s)
unfolding unmap_rounds
unmap_rounds-ClearsRange zero v i s inside aligned q = ground arith
unmap_rounds-ClearsRange (suc n) v i s inside aligned q =
    let at : u32 (v + i * page_size) / page_size ≡ v / page_size + i = omega arith in
    ground (
      arith,
      at,
      unmap_rounds-ClearsRange n v (i + 1) (unmap_single_page (u32 (v + i * page_size)) s)
          (omega arith) aligned q,
      unmap_single-Sets (u32 (v + i * page_size)) s (omega arith) q,
    )

-- `unmap_pages_overlapping` clears the pages from that of `v` to that of `size` bytes behind its
-- start, both included.
pub unmap_overlapping-ClearsRange :
    (v size : ℕ) (s : Mapping)
    → v + size < 2 ^ 32
    → ClearsRange s
        (v / page_size)
        (v / page_size + size / page_size + 1)
        (unmap_pages_overlapping v size s)
unfolding unmap_pages_overlapping
unmap_overlapping-ClearsRange v size s inside q =
    let start = page_mask v in
    let down : start ≡ v / page_size * page_size = bit_and_page v (omega arith) in
    let rounds : u32 (u32 (start + size) / page_size + 2 ^ 32 - start / page_size + 1)
        ≡ size / page_size + 1 =
      omega (arith, down) in
    rw rounds (
      ground (
        arith,
        down,
        unmap_rounds-ClearsRange (size / page_size + 1) start 0 s (omega (arith, down))
            (omega (arith, down)) q,
      ))
