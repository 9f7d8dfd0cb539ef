-- ===== src/Pmm/Free.antt =====
-- `phys_free_single_page`, `phys_is_used_page` and `phys_mark_page_entry` of
-- kernel/src/mem/pmm.c, and the single allocation undone.
use nocturne_os_base.Prelude.{
  ℕ, ◌*◌, ◌/◌, ◌%◌, ◌<◌, Bool, true, false, ◌==◌, if◌then◌else◌, length, get_or, set, ◌≡◌, refl,
  arith, sub32, All-get_or, All-set, inl, inr, ret, page_size, length-set, get_or-set_self, set-set,
  set-get_or, ◌≢◌,
}
use nocturne_os_base.Prelude.Bytes.{bit_set, bit_clear, bit_clear-bit_set, bit_set-lt, bit_clear-lt}
use nocturne_os_base.Pmm.{
  Pmm, phys_alloc_single_page, phys_free_single_page, phys_is_used_page, phys_mark_page_entry,
  byte_index, bit_index,
}
use nocturne_os_base.Pmm.Sweep.{IsByte, page_used}
use nocturne_os_base.Pmm.Single.{IsValid, page_used-take, page_used-clear, first_free_cases}

-- What a page's mark becomes by a write that leaves the other pages alone.
pub record Writes (s : Pmm) (p : ℕ) (w : Bool) (s' : Pmm) : Type 0 where
  pub marks :
      (q : ℕ)
      → q < 8 * length s.bitmap
      → page_used s'.bitmap q ≡ (if q == p then w else page_used s.bitmap q)
  pub same_size : length s'.bitmap ≡ length s.bitmap
  pub valid : IsValid s'

module _ (s : Pmm) (addr : ℕ) (valid : IsValid s) (nonzero : addr ≢ 0)
    (inside : addr / page_size < 8 * length s.bitmap) where
  -- On a state in order, `phys_free_single_page` of an address in the bitmap other than 0 clears the
  -- page of that address, leaves the other pages, and counts one page less.
  pub free_single_clears :
      (s' : Pmm) × (phys_free_single_page addr s ≡ ret s')
      × Writes s (addr / page_size) false s'
      × (s'.used_phys_memory_size ≡ sub32 s.used_phys_memory_size page_size)
  unfolding phys_free_single_page
  free_single_clears = (
    record s {
      bitmap =
          set s.bitmap (byte_index addr)
            (bit_clear (get_or s.bitmap (byte_index addr) 0) (bit_index addr));
      used_phys_memory_size = sub32 s.used_phys_memory_size page_size;
    },
    ground arith,
    record {
      marks = λ q hq. ground (
        arith,
        page_used-clear s valid (byte_index addr) (bit_index addr) (omega arith) (omega arith) q,
      );
      same_size = length-set s.bitmap (byte_index addr) _;
      valid = record {
        bytes = All-set IsByte s.bitmap (byte_index addr) _ valid.bytes (bit_clear-lt _ _);
        small = omega (
          arith,
          length-set s.bitmap (byte_index addr)
              (bit_clear (get_or s.bitmap (byte_index addr) 0) (bit_index addr)),
          valid.small,
        );
        total = valid.total;
        used = omega arith;
      };
    },
    refl,
  )

  -- On a state in order, `phys_mark_page_entry` of an address in the bitmap other than 0 gives its
  -- page the mark asked for, leaves the other pages and the count of used bytes.
  pub mark_entry-Writes :
      (w : Bool)
      → (s' : Pmm) × (phys_mark_page_entry addr w s ≡ ret s')
        × Writes s (addr / page_size) w s'
        × (s'.used_phys_memory_size ≡ s.used_phys_memory_size)
  unfolding phys_mark_page_entry
  mark_entry-Writes true = (
    record s {
      bitmap =
          set s.bitmap (byte_index addr)
            (bit_set (get_or s.bitmap (byte_index addr) 0) (bit_index addr));
    },
    ground arith,
    record {
      marks = λ q hq. ground (
        arith,
        page_used-take s valid (byte_index addr) (bit_index addr) (omega arith) (omega arith) q,
      );
      same_size = length-set s.bitmap (byte_index addr) _;
      valid = record {
        bytes = All-set IsByte s.bitmap (byte_index addr) _ valid.bytes (bit_set-lt _ _);
        small = omega (
          arith,
          length-set s.bitmap (byte_index addr)
              (bit_set (get_or s.bitmap (byte_index addr) 0) (bit_index addr)),
          valid.small,
        );
        total = valid.total;
        used = valid.used;
      };
    },
    refl,
  )
  mark_entry-Writes false = (
    record s {
      bitmap =
          set s.bitmap (byte_index addr)
            (bit_clear (get_or s.bitmap (byte_index addr) 0) (bit_index addr));
    },
    ground arith,
    record {
      marks = λ q hq. ground (
        arith,
        page_used-clear s valid (byte_index addr) (bit_index addr) (omega arith) (omega arith) q,
      );
      same_size = length-set s.bitmap (byte_index addr) _;
      valid = record {
        bytes = All-set IsByte s.bitmap (byte_index addr) _ valid.bytes (bit_clear-lt _ _);
        small = omega (
          arith,
          length-set s.bitmap (byte_index addr)
              (bit_clear (get_or s.bitmap (byte_index addr) 0) (bit_index addr)),
          valid.small,
        );
        total = valid.total;
        used = valid.used;
      };
    },
    refl,
  )

  -- On a state in order, `phys_is_used_page` of an address in the bitmap other than 0 reads the mark
  -- of the page of the address.
  pub is_used_page_lem : phys_is_used_page addr s ≡ ret (page_used s.bitmap (addr / page_size))
  unfolding phys_is_used_page page_used
  is_used_page_lem =
      let e : addr / page_size / 8 ≡ byte_index addr = omega arith in
      let e' : addr / page_size % 8 ≡ bit_index addr = omega arith in rw (e, e') (ground arith)

-- Freeing the page that `phys_alloc_single_page` has just given out on a state in order, unless that
-- is page 0, restores the allocator's whole state.
pub free-alloc_single :
    (s : Pmm) {s' : Pmm} (addr : ℕ)
    → IsValid s
    → phys_alloc_single_page s ≡ ret (addr, s')
    → addr ≢ 0
    → phys_free_single_page addr s' ≡ ret s
unfolding phys_alloc_single_page phys_free_single_page
free-alloc_single s {s'} addr valid e nonzero = elim (first_free_cases s.bitmap 0) [
  | inl full ↦ ground (arith, full.0)
  | inr f ↦
      let b = get_or s.bitmap f.x 0 in
      let b-lt : b < 256 = All-get_or IsByte s.bitmap f.x 0 valid.bytes (omega arith) in
      ground (
        arith,
        f.at,
        f.x_in,
        f.m_in,
        bit_clear-bit_set b f.m b-lt f.m_in f.free,
        get_or-set_self s.bitmap f.x (bit_set b f.m) 0 f.x_in,
        length-set s.bitmap f.x (bit_set b f.m),
        set-set s.bitmap f.x (bit_set b f.m) b,
        set-get_or s.bitmap f.x 0,
      )
]
