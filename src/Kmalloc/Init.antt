-- ===== src/Kmalloc/Init.antt =====
-- The heap that `vmm_init` of kernel/src/mem/vmm.c leaves.
use nocturne_os_base.Prelude.{
  ℕ, zero, suc, ◌+◌, ◌-◌, ◌*◌, ◌/◌, ◌^◌, ◌≤◌, ltb, if◌then◌else◌, u32, page_size, align_up,
  replicate, length-replicate, max, ◌≡◌, refl, arith, ap, ◌∙◌, Outcome, ret, ◌>>=◌, >>=-ret,
}
use nocturne_os_base.Prelude.Align.{align_up_page}
use nocturne_os_base.Pmm.{Pmm, phys_alloc_multi_pages}
use nocturne_os_base.Heap.{Heap, no_entry, entry_at}
use nocturne_os_base.Heap.Insert.{IsValid}
use nocturne_os_base.Paging.{Mapping, map_pages}
use nocturne_os_base.Paging.Range.{HasRoom, MapsRange, map_pages-MapsRange}
use nocturne_os_base.Kmalloc.{heap_capacity, page_writeable, vmm_init}

blank_entries : (n i : ℕ) → entry_at (replicate n no_entry) i ≡ no_entry
blank_entries zero i = refl
blank_entries (suc n) zero = refl
blank_entries (suc n) (suc i) = blank_entries n i

abbrev pub fresh_heap : ℕ → Heap
fresh_heap start = record {
  allocated_count = 0;
  capacity = heap_capacity;
  start = start;
  used_memory = 0;
  memory = replicate heap_capacity no_entry;
  peak_heap_usage = 0;
  total_memory_run = 0;
}

-- Where the table goes: above the modules and the bitmap, on a page.
abbrev pub arena_start : ℕ → ℕ
arena_start real_end = max 0x1000000 ((real_end + (page_size - 1)) / page_size * page_size)

-- `vmm_init` with two frames next to each other and frames for the tables leaves an empty table in order with room for 1024 blocks. The
-- two pages of the table stand above the modules and are mapped to the two frames, and the
-- heap starts a page behind them.
pub vmm_init-IsValid :
    (real_end arena : ℕ) (s : Mapping) (p : Pmm)
    → real_end + 8 * page_size ≤ 2 ^ 32
    → phys_alloc_multi_pages 2 s.pmm ≡ ret (arena, p)
    → arena + 2 * page_size ≤ 2 ^ 32
    → HasRoom (record s { pmm = p }) 2
    → (h : Heap) × (m : Mapping) × (vmm_init real_end s ≡ ret (h, m))
      × IsValid h
      × (h.allocated_count ≡ 0)
      × (h.capacity ≡ 1024)
      × (h.start ≡ arena_start real_end + 3 * page_size)
      × MapsRange
          (record s { pmm = p })
          (arena_start real_end / page_size)
          (arena_start real_end / page_size + 2)
          arena
          page_writeable
          m
unfolding vmm_init
vmm_init-IsValid real_end arena s p inside frames low room =
    let start = if ltb 0x1000000 real_end then align_up real_end page_size else 0x1000000 in
    let at : start ≡ arena_start real_end = ground (arith, align_up_page real_end (omega arith)) in
    let first = arena_start real_end in
    let (m, e, maps, _) =
      map_pages-MapsRange arena first (heap_capacity * 8) page_writeable (record s { pmm = p })
        (omega arith) (omega arith) (omega arith) in
    let finish : ℕ → Outcome (Heap × Mapping) = λ (v : ℕ).
      map_pages arena v (heap_capacity * 8) page_writeable (record s { pmm = p }) >>= λ t.
      ret (fresh_heap (u32 (v + 12288)), t) in
    let done : finish first ≡ ret (fresh_heap (u32 (first + 12288)), m) =
      >>=-ret (map_pages arena first (heap_capacity * 8) page_writeable (record s { pmm = p }))
        (λ t. ret (fresh_heap (u32 (first + 12288)), t)) e refl in
    let end : (first + 8192 + 4095) / 4096 ≡ first / 4096 + 2 = omega arith in
    (
      fresh_heap (u32 (first + 12288)),
      m,
      rw frames (ap finish at ∙ done),
      record {
        holds = length-replicate heap_capacity no_entry;
        room = omega arith;
        nonzero = λ i hi. absurd (omega arith);
        ends = λ i hi. absurd (omega arith);
        ordered = λ i j lt hj. absurd (omega arith);
        blank = λ i _. blank_entries heap_capacity i;
      },
      refl,
      refl,
      omega arith,
      λ q. ground (arith, maps q, end),
    )
