-- ===== src/Kmalloc/Ensure.antt =====
-- The loop of kernel/src/mem/vmm.c that maps the pages of a block.
use nocturne_os_base.Prelude.{
  ℕ, zero, suc, ◌+◌, ◌-◌, ◌*◌, ◌/◌, ◌^◌, ◌≤◌, ◌<◌, ◌==◌, u32, page_size, align_up, ◌≡◌, ◌≢◌, refl,
  arith, ap, ◌∙◌, Bool-cases, inl, inr, ret, ℕ_discrete, dec_lt, leb, false, subst, length,
}
use nocturne_os_base.Prelude.Align.{align_up_page}
use nocturne_os_base.Prelude.Bits.{bit_and_page}
use nocturne_os_base.Pmm.Room.{Uses, Uses-refl, Uses-trans, Uses-le, alloc_single-Uses}
use nocturne_os_base.Paging.{Mapping, page_mask, phys_get_page_data}
use nocturne_os_base.Paging.Lookup.{page_entry, get_page_data_lem}
use nocturne_os_base.Pmm.{byte_index}
use nocturne_os_base.Paging.Map.{entry_of, entry_of_lem, entry_of-nonzero, map_single-Sets}
use nocturne_os_base.Paging.Range.{HasRoom}
use nocturne_os_base.Kmalloc.{page_writeable, ensure_page, ensure_rounds, ensure_mapped}

-- Every frame in a table is one of the allocator's.
abbrev pub HasFrames : Mapping → Type 0
HasFrames s = (q : ℕ) → byte_index (page_mask (page_entry s q)) < length s.pmm.bitmap

-- `s'` is `s` with every page from `first` up to `last` mapped; the pages that were mapped, and those
-- outside, keep their entries. If all frames were the allocator's, they are so still.
pub record Ensures (s : Mapping) (first last : ℕ) (s' : Mapping) : Type 0 where
  pub mapped : (q : ℕ) → first ≤ q → q < last → 0 < page_entry s' q
  pub kept : (q : ℕ) → page_entry s q ≢ 0 → page_entry s' q ≡ page_entry s q
  pub below : (q : ℕ) → q < first → page_entry s' q ≡ page_entry s q
  pub above : (q : ℕ) → last ≤ q → page_entry s' q ≡ page_entry s q
  pub frames : HasFrames s → HasFrames s'

-- The byte of the bitmap for the frame of an entry.
abbrev frame_of : ℕ → ℕ
frame_of e = byte_index (page_mask e)

frame_of_entry :
    (frame : ℕ) → frame < 2 ^ 32 → frame_of (entry_of frame page_writeable) ≡ byte_index frame
frame_of_entry frame low =
    let sum = entry_of_lem frame page_writeable low (omega arith) in
    let small : entry_of frame page_writeable < 2 ^ 32 = omega (arith, sum) in
    omega (arith, sum, bit_and_page (entry_of frame page_writeable) small)

ensure_page-Ensures :
    (a : ℕ) (s : Mapping)
    → a < 2 ^ 32
    → HasRoom s 2
    → (s' : Mapping) × (ensure_page a s ≡ ret s')
      × Ensures s (a / page_size) (a / page_size + 1) s'
      × Uses s.pmm 2 s'.pmm
unfolding ensure_page
ensure_page-Ensures a s small room = elim (Bool-cases (phys_get_page_data a s == 0)) [
  | inr there ↦ (
    s,
    ground (arith, there),
    record {
      mapped = λ q lo hi.
          let same : q ≡ a / page_size = omega arith in
          ground (arith, there, get_page_data_lem a s small, ap (page_entry s) same);
      kept = λ q _. refl;
      below = λ q _. refl;
      above = λ q _. refl;
      frames = λ held. held;
    },
    Uses-le (omega arith) (Uses-refl s.pmm),
  )
  | inl absent ↦
      let (frame, p, e, uses, low, inside) = alloc_single-Uses s.pmm (omega arith) in
      let (s', e', sets, uses') =
        map_single-Sets frame a page_writeable (record s { pmm = p }) small
          (omega (arith, uses.used, uses.total)) in
      let empty : page_entry s (a / page_size) ≡ 0 =
        ground (arith, absent, get_page_data_lem a s small) in
      (
        s',
        rw absent (rw e e'),
        record {
          mapped = λ q lo hi. ground (arith, sets q, entry_of-nonzero frame page_writeable);
          kept = λ q full. elim (ℕ_discrete q (a / page_size)) [
            | yes here ↦ absurd (full (ap (page_entry s) here ∙ empty))
            | no other ↦ ground (arith, sets q, other)
          ];
          below = λ q out. ground (arith, sets q);
          above = λ q out. ground (arith, sets q);
          frames = λ held q. elim (ℕ_discrete q (a / page_size)) [
            | yes here ↦
                let new : page_entry s' q ≡ entry_of frame page_writeable =
                  ground (arith, sets q, here) in
                omega (
                  arith,
                  ap frame_of new,
                  frame_of_entry frame low,
                  inside (omega (arith, held q)),
                  uses.same_size,
                  uses'.same_size,
                )
            | no other ↦
                let same : page_entry s' q ≡ page_entry s q = ground (arith, sets q, other) in
                omega (arith, ap frame_of same, held q, uses.same_size, uses'.same_size)
          ];
        },
        Uses-trans uses uses',
      )
]

ensure_rounds-Ensures :
    (n a : ℕ) (s : Mapping)
    → a < 2 ^ 32
    → a / page_size + n ≤ 2 ^ 20
    → HasRoom s (2 * n)
    → (s' : Mapping) × (ensure_rounds n a s ≡ ret s')
      × Ensures s (a / page_size) (a / page_size + n) s'
      × Uses s.pmm (2 * n) s'.pmm
unfolding ensure_rounds
ensure_rounds-Ensures zero a s small inside room = (
  s,
  refl,
  record {
    mapped = λ q lo hi. absurd (omega arith);
    kept = λ q _. refl;
    below = λ q _. refl;
    above = λ q _. refl;
    frames = λ held. held;
  },
  Uses-le (omega arith) (Uses-refl s.pmm),
)
ensure_rounds-Ensures (suc n) a s small inside room =
    let (t, e, one, uses) = ensure_page-Ensures a s small (omega arith) in
    let (u, e', rest, uses') =
      ensure_rounds-Ensures n (u32 (a + page_size)) t (omega arith) (omega arith)
        (omega (arith, uses.used, uses.total)) in
    (
      u,
      rw e e',
      record {
        mapped = λ q lo hi. elim (ℕ_discrete q (a / page_size)) [
          | yes here ↦
              let there = one.mapped q (omega arith) (omega arith) in
              omega (arith, there, rest.kept q (λ empty. absurd (omega (arith, empty, there))))
          | no other ↦ rest.mapped q (omega arith) (omega arith)
        ];
        kept = λ q full.
            rest.kept q (λ empty. full (omega (arith, empty, one.kept q full))) ∙ one.kept q full;
        below = λ q out. elim (dec_lt q (u32 (a + page_size) / page_size)) [
          | yes lower ↦ rest.below q lower ∙ one.below q out
          | no wrapped ↦ rest.above q (omega arith) ∙ one.below q out
        ];
        above = λ q out. rest.above q (omega arith) ∙ one.above q (omega arith);
        frames = λ held. rest.frames (one.frames held);
      },
      Uses-le (omega arith) (Uses-trans uses uses'),
    )

-- The pages from that of the address up to that behind `size` bytes, and one page more.
pub ensure_mapped-Ensures :
    (address size : ℕ) (s : Mapping)
    → address + size + 2 * page_size ≤ 2 ^ 32
    → let n = (size + (page_size - 1)) / page_size + 1 in
      HasRoom s (2 * n)
      → (s' : Mapping) × (ensure_mapped address size s ≡ ret s')
        × Ensures s (address / page_size) (address / page_size + n) s'
        × Uses s.pmm (2 * n) s'.pmm
unfolding ensure_mapped
ensure_mapped-Ensures address size s inside room =
    let n = (size + (page_size - 1)) / page_size + 1 in
    let up : align_up size page_size ≡ (size + (page_size - 1)) / page_size * page_size =
      align_up_page size (omega arith) in
    let rounds : align_up size page_size / page_size + 1 ≡ n = omega (arith, up) in
    let start : page_mask address / page_size ≡ address / page_size =
      omega (arith, bit_and_page address (omega arith)) in
    let low : page_mask address < 2 ^ 32 = omega (arith, bit_and_page address (omega arith)) in
    let small : leb (2 ^ 32 - page_size) (align_up size page_size) ≡ false = ground (arith, up) in
    let (s', e, ensures, uses) =
      ensure_rounds-Ensures n (page_mask address) s low (omega (arith, start)) room in
    (
      s',
      rw small (ap (λ (m : ℕ). ensure_rounds m (page_mask address) s) rounds ∙ e),
      subst (λ i. Ensures s i (i + n) s') start ensures,
      uses,
    )
