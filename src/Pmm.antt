-- ===== src/Pmm.antt =====
-- The physical page allocator, kernel/src/mem/pmm.c. The definitions; the child modules prove
-- what holds of them.
--
-- `pages_bitmap` is a list of `bitmap_size` bytes, so `phys_get_bitmap_size()` is its length.
-- `phys_not_enough_memory` and the other `while(1)` are `hang`. A write through
-- `pages_bitmap[i]` beyond the bitmap is `fault`. Log calls are left out.
pub mod Sweep
pub mod Single
pub mod Free
pub mod Search
pub mod Completeness
pub mod Multi
pub mod FreeMulti
pub mod Overlap
pub mod Boot
pub mod Room
pub mod Tests
use nocturne_os_base.Prelude.{
  ℕ, zero, suc, ◌+◌, ◌-◌, ◌*◌, ◌/◌, ◌%◌, ◌^◌, Bool, true, false, Option, none, some, List, [], ◌∷◌,
  ltb, leb, ◌==◌, if◌then◌else◌, length, get_or, set, replicate, u32, sub32, align_up, Outcome, ret,
  hang, fault, ◌>>=◌, page_size,
}
use nocturne_os_base.Prelude.Bytes.{bit_at, bit_set, bit_clear}

pub record Pmm : Type 0 where
  pub bitmap : List ℕ
  pub phys_memory_size : ℕ
  pub used_phys_memory_size : ℕ

-- `(PAGE_SIZE * 8 * i) + (j * PAGE_SIZE)`.
abbrev pub page_address : ℕ → ℕ → ℕ
page_address i j = u32 (page_size * 8 * i + j * page_size)

-- Where a physical address stands in the bitmap.
abbrev pub byte_index : ℕ → ℕ
byte_index addr = addr / (page_size * 8)

abbrev pub bit_index : ℕ → ℕ
bit_index addr = addr % (page_size * 8) / page_size

-- The bits of one byte from bit `j` on, `n` of them: the first that is clear.
pub first_clear : ℕ → ℕ → ℕ → Option ℕ
first_clear b zero j = none
first_clear b (suc n) j = let rest = first_clear b n (j + 1) in if bit_at b j then rest else some j

-- The bytes from index `i` on: the first clear bit, past full bytes.
pub first_free : List ℕ → ℕ → Option (ℕ × ℕ)
first_free [] i = none
first_free (b ∷ bs) i =
    let rest = first_free bs (i + 1) in
    if b == 0xff then rest else elim (first_clear b 8 0) [ some j ↦ some (i, j) | none ↦ rest ]

pub phys_alloc_single_page : Pmm → Outcome (ℕ × Pmm)
phys_alloc_single_page s =
    if leb s.phys_memory_size s.used_phys_memory_size then hang else elim (first_free s.bitmap 0) [
      | none ↦ ret (0, s)
      | some (i, j) ↦ ret (
        page_address i j,
        record s {
          bitmap = set s.bitmap i (bit_set (get_or s.bitmap i 0) j);
          used_phys_memory_size = u32 (s.used_phys_memory_size + page_size);
        },
      )
    ]

-- The variables of the search in `phys_alloc_multi_pages`.
pub record Run : Type 0 where
  pub counter : ℕ
  pub addr : ℕ
  pub si : ℕ
  pub sj : ℕ

-- One page of the search: it ends, or goes on with new variables.
pub data Visit : Type 0 where
  found : Run → Visit
  more : Run → Visit

pub visit : ℕ → Bool → ℕ → ℕ → Run → Visit
visit count true i j r = more (record r { counter = 0; addr = 0 })
visit count false i j r =
    if r.counter == 0
    then more (record { counter = 1; addr = page_address i j; si = i; sj = j })
    else if r.counter == count
    then found r
    else more (record r { counter = r.counter + 1 })

-- The bits of byte `i` from bit `j` on, `n` of them.
pub visit_byte : ℕ → ℕ → ℕ → ℕ → ℕ → Run → Visit
visit_byte count b i zero j r = more r
visit_byte count b i (suc n) j r = elim (visit count (bit_at b j) i j r) [
  | found r' ↦ found r'
  | more r' ↦ visit_byte count b i n (j + 1) r'
]

-- The bytes from index `i` on. A full byte is passed over with the variables as they are.
pub find_run : ℕ → List ℕ → ℕ → Run → Option Run
find_run count [] i r = none
find_run count (b ∷ bs) i r =
    let skipped = find_run count bs (i + 1) r in
    if b == 0xff then skipped else elim (visit_byte count b i 8 0 r) [
      | found r' ↦ some r'
      | more r' ↦ find_run count bs (i + 1) r'
    ]

-- The loops that mark and that free `c` pages in a row apply `op` to a bit and stop when `--c`
-- is 0. Here to one byte, from bit `j` on, `n` bits: the byte, and what is left of `c`, which is
-- 0 exactly when the loop was left.
pub sweep_byte : (ℕ → ℕ → ℕ) → ℕ → ℕ → ℕ → ℕ → ℕ × ℕ
sweep_byte op b zero j c = (b, c)
sweep_byte op b (suc n) j c =
    let c' = sub32 c 1 in
    let rest = sweep_byte op (op b j) n (j + 1) c' in if c' == 0 then (op b j, 0) else rest

-- From bit `j` of byte `i` on.
pub sweep : (ℕ → ℕ → ℕ) → List ℕ → ℕ → ℕ → ℕ → List ℕ × ℕ
sweep op [] i j c = ([], c)
sweep op (b ∷ bs) (suc i) j c = let (bs', c') = sweep op bs i j c in (b ∷ bs', c')
sweep op (b ∷ bs) zero j c =
    let (b', c') = sweep_byte op b (8 - j) j c in
    let rest = sweep op bs 0 0 c' in if c' == 0 then (b' ∷ bs, 0) else (b' ∷ rest.0, rest.1)

abbrev pub run_start : Run
run_start = record { counter = 0; addr = 0; si = 0; sj = 0 }

pub phys_alloc_multi_pages : ℕ → Pmm → Outcome (ℕ × Pmm)
phys_alloc_multi_pages count s =
    if leb s.phys_memory_size (u32 (s.used_phys_memory_size + count * page_size))
    then hang
    else elim (find_run count s.bitmap 0 run_start) [
      | none ↦ ret (0, s)
      | some r ↦ ret (
        r.addr,
        record s {
          bitmap = (sweep bit_set s.bitmap r.si r.sj r.counter).0;
          used_phys_memory_size = u32 (s.used_phys_memory_size + page_size * count);
        },
      )
    ]

pub phys_free_single_page : ℕ → Pmm → Outcome Pmm
phys_free_single_page addr s =
    if addr == 0
    then ret s
    else if leb (length s.bitmap) (byte_index addr)
    then fault
    else let b = get_or s.bitmap (byte_index addr) 0 in
      ret (record s {
        bitmap = set s.bitmap (byte_index addr) (bit_clear b (bit_index addr));
        used_phys_memory_size = sub32 s.used_phys_memory_size page_size;
      })

-- The count of used bytes is updated only where the loops run past the end of the bitmap.
pub phys_free_multi_pages : ℕ → ℕ → Pmm → Pmm
phys_free_multi_pages addr count s =
    if addr == 0
    then s
    else let (bitmap', left) = sweep bit_clear s.bitmap (byte_index addr) (bit_index addr) count in
      if left == 0 then record s { bitmap = bitmap' } else record s {
        bitmap = bitmap';
        used_phys_memory_size = sub32 s.used_phys_memory_size (u32 (page_size * left));
      }

pub phys_is_used_page : ℕ → Pmm → Outcome Bool
phys_is_used_page addr s =
    if addr == 0
    then ret true
    else if leb (length s.bitmap) (byte_index addr)
    then fault
    else ret (bit_at (get_or s.bitmap (byte_index addr) 0) (bit_index addr))

-- Beyond the bitmap the code stops the machine by `cli; hlt`.
pub phys_mark_page_entry : ℕ → Bool → Pmm → Outcome Pmm
phys_mark_page_entry addr used s =
    if addr == 0
    then ret s
    else if leb (length s.bitmap) (addr / 4096 / 8)
    then hang
    else let b = get_or s.bitmap (byte_index addr) 0 in
      let b' = if used then bit_set b (bit_index addr) else bit_clear b (bit_index addr) in
      ret (record s { bitmap = set s.bitmap (byte_index addr) b' })
