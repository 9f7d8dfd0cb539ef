-- ===== src/Pmm/Boot/Laws.antt =====
-- `init_pmm` of kernel/src/mem/pmm.c: what is in use when it returns.
use nocturne_os_base.Prelude.{
  ℕ, zero, suc, ◌+◌, ◌*◌, ◌/◌, ◌%◌, ◌^◌, ◌≤◌, ◌<◌, false, ltb, length, get_or, replicate, u32, ◌≡◌,
  refl, arith, ret, page_size, All, length-replicate,
}
use nocturne_os_base.Prelude.Align.{align_up_page, align_up_256}
use nocturne_os_base.Prelude.Bytes.{bit_at_zero}
use nocturne_os_base.Pmm.{Pmm}
use nocturne_os_base.Pmm.Sweep.{IsByte, page_used}
use nocturne_os_base.Pmm.Single.{IsValid}
use nocturne_os_base.Pmm.Multi.{alloc_multi_from_zero}
use nocturne_os_base.Pmm.Boot.{pages_available, kernel_page_count, init_pmm}

get_or-replicate : (n x : ℕ) → get_or {A = ℕ} (replicate n 0) x 0 ≡ 0
get_or-replicate zero x = refl
get_or-replicate (suc n) zero = refl
get_or-replicate (suc n) (suc x) = get_or-replicate n x

zeros-IsByte : (n : ℕ) → All IsByte (replicate n 0)
zeros-IsByte zero = tt
zeros-IsByte (suc n) = (omega arith, zeros-IsByte n)

all_free : (n q : ℕ) → page_used (replicate n 0) q ≡ false
unfolding page_used
all_free n q = ground (arith, get_or-replicate n (q / 8), bit_at_zero (q % 8))

module _ (grub_last_module_end phys : ℕ) (small : phys < 2 ^ 32) where
  abbrev pub size : ℕ
  size = pages_available phys / 8

  fresh : Pmm
  fresh = record { bitmap = replicate size 0; phys_memory_size = phys; used_phys_memory_size = 0 }

  size_lem : (8 * size ≡ (phys / page_size + 255) / 256 * 256)
  unfolding pages_available
  size_lem = omega (arith, align_up_256 (phys / page_size) (omega arith))

  fresh-IsValid : IsValid fresh
  unfolding fresh
  fresh-IsValid = record {
    bytes = zeros-IsByte size;
    small = omega (arith, size_lem, length-replicate {A = ℕ} size 0);
    total = small;
    used = omega arith;
  }

  module _ (real_end_fits : grub_last_module_end + size + page_size ≤ 2 ^ 32)
      (real_end_pos : 0 < grub_last_module_end + size)
      (memory : grub_last_module_end + size + 2 * page_size ≤ phys) where
    abbrev pub pages : ℕ
    pages = kernel_page_count grub_last_module_end size

    pages_lem : pages ≡ (grub_last_module_end + size + 4095) / page_size
    unfolding kernel_page_count
    pages_lem =
        let e : u32 (grub_last_module_end + size) ≡ grub_last_module_end + size = omega arith in
        rw e (omega (arith, align_up_page (grub_last_module_end + size) (omega arith)))

    -- `init_pmm` on a machine with less than 4 GiB, whose memory reaches two pages beyond the kernel, its
    -- modules and the bitmap, with these at least a page from the end of the address space, returns with exactly the pages below their end in use, and with these counted.
    pub init_pmm_lem :
        (s : Pmm) × (init_pmm grub_last_module_end phys 0 ≡ ret s)
        × IsValid s
        × ((q : ℕ)
            → q < 8 * length s.bitmap
            → page_used s.bitmap q ≡ ltb (q * page_size) (grub_last_module_end + size))
        × (s.used_phys_memory_size ≡ pages * page_size)
    unfolding init_pmm fresh
    init_pmm_lem =
        let bits = length-replicate {A = ℕ} size 0 in
        let pos : 0 < pages = omega (arith, pages_lem) in
        let room : u32 (0 + pages * page_size) < phys = omega (arith, pages_lem) in
        let inside : pages < 8 * length fresh.bitmap = omega (arith, pages_lem, bits, size_lem) in
        let (s', e, t) =
          alloc_multi_from_zero fresh pages fresh-IsValid pos room (λ q hq. all_free size q)
            inside in
        (
          s',
          rw e,
          t.valid,
          λ q hq. ground (
            arith,
            t.same_size,
            t.marked q (omega (arith, t.same_size)),
            all_free size q,
            pages_lem,
          ),
          omega (arith, t.counted, pages_lem),
        )
