-- ===== src/Pmm/FreeMulti.antt =====
-- `phys_free_multi_pages` of kernel/src/mem/pmm.c, over page numbers.
use nocturne_os_base.Prelude.{
  ℕ, ◌+◌, ◌*◌, ◌/◌, ◌≤◌, ◌<◌, ◌&&◌, not, length, ◌≡◌, ◌≢◌, refl, arith, page_size,
}
use nocturne_os_base.Prelude.Bytes.{bit_clear}
use nocturne_os_base.Pmm.{Pmm, sweep, phys_free_multi_pages, byte_index, bit_index}
use nocturne_os_base.Pmm.Sweep.{
  page_used, in_range, length-unmark, unmark-IsByte, unmark_left, page_used-unmark,
}
use nocturne_os_base.Pmm.Single.{IsValid}

module _ (s : Pmm) (addr count : ℕ) (valid : IsValid s) (nonzero : addr ≢ 0) (pos : 0 < count)
    (inside : addr / page_size + count ≤ 8 * length s.bitmap) where
  cleared : Pmm
  cleared = record s {
    bitmap = (sweep bit_clear s.bitmap (byte_index addr) (bit_index addr) count).0;
  }

  -- The loops are left by their `return`, in front of the update of the count.
  free_multi_returns : phys_free_multi_pages addr count s ≡ cleared
  unfolding phys_free_multi_pages cleared
  free_multi_returns = ground (
    arith,
    unmark_left s.bitmap (byte_index addr) (bit_index addr) count (omega arith) pos
        (omega (arith, valid.small)) (omega arith),
  )

  -- On a state in order, `phys_free_multi_pages` of a range of at least one page inside the bitmap,
  -- at an address other than 0, clears the pages of
  -- the range and no other, and leaves the count of used bytes as it was.
  pub free_multi_clears :
      ((q : ℕ)
        → q < 8 * length s.bitmap
        → page_used (phys_free_multi_pages addr count s).bitmap q
          ≡ (not (in_range (addr / page_size) count q) && page_used s.bitmap q))
      × ((phys_free_multi_pages addr count s).used_phys_memory_size ≡ s.used_phys_memory_size)
      × IsValid (phys_free_multi_pages addr count s)
  unfolding cleared
  free_multi_clears = rw free_multi_returns (
    λ q hq. ground (
      arith,
      page_used-unmark s.bitmap (byte_index addr) (bit_index addr) count (omega arith) pos
          (omega (arith, valid.small)) valid.bytes q hq,
    ),
    refl,
    record {
      bytes = unmark-IsByte s.bitmap (byte_index addr) (bit_index addr) count valid.bytes;
      small =
          omega
            (arith, length-unmark s.bitmap (byte_index addr) (bit_index addr) count, valid.small);
      total = valid.total;
      used = valid.used;
    },
  )
