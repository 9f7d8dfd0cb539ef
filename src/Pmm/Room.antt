-- ===== src/Pmm/Room.antt =====
-- `phys_alloc_single_page` of kernel/src/mem/pmm.c below the memory limit, and `phys_free_single_page` within
-- the bitmap, on any state.
use nocturne_os_base.Prelude.{
  ℕ, ◌+◌, ◌*◌, ◌^◌, ◌≤◌, ◌<◌, length, set, get_or, u32, ◌≡◌, refl, arith, inl, inr, Bool-cases,
  ◌==◌, sub32, ret, page_size, length-set,
}
use nocturne_os_base.Prelude.Bytes.{bit_set, bit_clear}
use nocturne_os_base.Pmm.{
  Pmm, phys_alloc_single_page, page_address, phys_free_single_page, byte_index, bit_index,
}
use nocturne_os_base.Pmm.Single.{first_free_cases}

-- `s'` comes from `s` by at most `n` pages more in use.
pub record Uses (s : Pmm) (n : ℕ) (s' : Pmm) : Type 0 where
  pub used : s'.used_phys_memory_size ≤ s.used_phys_memory_size + n * page_size
  pub total : s'.phys_memory_size ≡ s.phys_memory_size
  pub same_size : length s'.bitmap ≡ length s.bitmap

pub Uses-refl : (s : Pmm) → Uses s 0 s
Uses-refl s = record { used = omega arith; total = refl; same_size = refl }

pub Uses-trans : {s t u : Pmm} {m n : ℕ} → Uses s m t → Uses t n u → Uses s (m + n) u
Uses-trans {s} {t} {u} {m} {n} a b = record {
  used = omega (arith, a.used, b.used);
  total = omega (arith, a.total, b.total);
  same_size = omega (arith, a.same_size, b.same_size);
}

pub Uses-le : {s t : Pmm} {m n : ℕ} → m ≤ n → Uses s m t → Uses s n t
Uses-le le a = record { used = omega (arith, a.used); total = a.total; same_size = a.same_size }

-- It returns, whatever the bitmap holds, and the frame is 0 or one of the bitmap.
pub alloc_single-Uses :
    (s : Pmm)
    → s.used_phys_memory_size < s.phys_memory_size
    → (a : ℕ) × (s' : Pmm) × (phys_alloc_single_page s ≡ ret (a, s'))
      × Uses s 1 s'
      × (a < 2 ^ 32)
      × (0 < length s.bitmap → byte_index a < length s.bitmap)
unfolding phys_alloc_single_page
alloc_single-Uses s room = elim (first_free_cases s.bitmap 0) [
  | inl (e, _) ↦ (
    0,
    s,
    ground (arith, e),
    Uses-le (omega arith) (Uses-refl s),
    omega arith,
    λ some_byte. omega arith,
  )
  | inr f ↦ (
    page_address f.x f.m,
    record s {
      bitmap = set s.bitmap f.x (bit_set (get_or s.bitmap f.x 0) f.m);
      used_phys_memory_size = u32 (s.used_phys_memory_size + page_size);
    },
    ground (arith, f.at),
    record { used = omega arith; total = refl; same_size = length-set s.bitmap f.x _ },
    omega arith,
    λ some_byte. omega (arith, f.x_in, f.m_in),
  )
]

-- `phys_free_single_page` returns for a frame that the bitmap has.
pub free_single-ret :
    (addr : ℕ) (s : Pmm)
    → byte_index addr < length s.bitmap
    → (s' : Pmm) × (phys_free_single_page addr s ≡ ret s') × (length s'.bitmap ≡ length s.bitmap)
unfolding phys_free_single_page
free_single-ret addr s inside = elim (Bool-cases (addr == 0)) [
  | inl null ↦ (s, rw null refl, refl)
  | inr frame ↦
      let b = get_or s.bitmap (byte_index addr) 0 in
      (
        record s {
          bitmap = set s.bitmap (byte_index addr) (bit_clear b (bit_index addr));
          used_phys_memory_size = sub32 s.used_phys_memory_size page_size;
        },
        ground (arith, frame, inside),
        length-set s.bitmap (byte_index addr) _,
      )
]
