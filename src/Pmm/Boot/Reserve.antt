-- ===== src/Pmm/Boot/Reserve.antt =====
-- `mark_reserved_memory_as_used` of kernel/src/mem/pmm.c, over page numbers.
use nocturne_os_base.Prelude.{
  ℕ, zero, suc, ◌+◌, ◌-◌, ◌*◌, ◌/◌, ◌^◌, ◌≤◌, ◌<◌, Bool, true, false, ◌&&◌, ◌||◌, not, List, [],
  ◌∷◌, leb, ◌==◌, length, ◌≡◌, ◌≢◌, refl, arith, u32, ret, page_size, All, Bool-cases, inl, inr, ap,
  ◌∙◌, >>=-ret,
}
use nocturne_os_base.Pmm.{Pmm, phys_mark_page_entry}
use nocturne_os_base.Pmm.Sweep.{page_used, in_range}
use nocturne_os_base.Pmm.Single.{IsValid}
use nocturne_os_base.Pmm.Free.{mark_entry-Writes}
use nocturne_os_base.Pmm.Boot.{MemoryMapEntry, mark_range, mark_entry, mark_reserved_memory_as_used}

-- `result` is a return with the pages of `set` marked besides those of `s`, and the count as it was.
pub record Marks (s : Pmm) (set : ℕ → Bool) (s' : Pmm) : Type 0 where
  pub marks :
      (q : ℕ) → q < 8 * length s.bitmap → page_used s'.bitmap q ≡ (set q || page_used s.bitmap q)
  pub same_size : length s'.bitmap ≡ length s.bitmap
  pub same_count : s'.used_phys_memory_size ≡ s.used_phys_memory_size
  pub valid : IsValid s'

Marks-trans :
    {s s₁ s₂ : Pmm} {f g h : ℕ → Bool}
    → Marks s f s₁
    → Marks s₁ g s₂
    → ((q : ℕ) → h q ≡ (f q || g q))
    → Marks s h s₂
Marks-trans a b e = record {
  marks = λ q hq.
      ground (arith, a.same_size, a.marks q hq, b.marks q (omega (arith, a.same_size)), e q);
  same_size = b.same_size ∙ a.same_size;
  same_count = b.same_count ∙ a.same_count;
  valid = b.valid;
}

Marks-refl : {s : Pmm} (f : ℕ → Bool) → IsValid s → ((q : ℕ) → f q ≡ false) → Marks s f s
Marks-refl f valid none_set = record {
  marks = λ q hq. ground (arith, none_set q);
  same_size = refl;
  same_count = refl;
  valid = valid;
}

-- The rounds of one entry mark the pages from that of `addr + j` on.
mark_range-Marks :
    (n addr j : ℕ) (s : Pmm)
    → IsValid s
    → addr ≢ 0
    → (addr + j) / page_size + n ≤ 8 * length s.bitmap
    → addr + j + n * page_size < 2 ^ 32 + page_size
    → (s' : Pmm) × (mark_range n addr j s ≡ ret s')
      × Marks s (in_range ((addr + j) / page_size) n) s'
unfolding mark_range
mark_range-Marks zero addr j s valid nz inside fits =
    (s, refl, Marks-refl _ valid (λ q. ground arith))
mark_range-Marks (suc n) addr j s valid nz inside fits =
    let e : u32 (addr + j) ≡ addr + j = omega arith in
    let (s₁, done, w, count) =
      mark_entry-Writes s (addr + j) valid (omega arith) (omega arith) true in
    let first : Marks s (in_range ((addr + j) / page_size) 1) s₁ = record {
      marks = λ q hq. ground (arith, w.marks q hq);
      same_size = w.same_size;
      same_count = count;
      valid = w.valid;
    } in
    let (s₂, rest, m) =
      mark_range-Marks n addr (j + page_size) s₁ w.valid nz (omega (arith, w.same_size))
        (omega arith) in
    (
      s₂,
      >>=-ret _ (mark_range n addr (j + page_size))
          (ap (λ a. phys_mark_page_entry a true s) e ∙ done) rest,
      Marks-trans first m (λ q. ground arith),
    )

-- The entry is reserved and its pages stand in the bitmap.
pub record IsInside (size : ℕ) (e : MemoryMapEntry) : Type 0 where
  pub nonzero : e.addr_low ≢ 0
  pub ends : e.addr_low / page_size + (e.len_low + 4095) / page_size ≤ 8 * size
  pub fits : e.addr_low + e.len_low ≤ 2 ^ 32 - page_size

-- Page `q` is one that a reserved entry covers.
abbrev pub reserved : List MemoryMapEntry → ℕ → Bool
reserved [] q = false
reserved (e ∷ es) q =
    not (e.type == 1) && in_range (e.addr_low / page_size) ((e.len_low + 4095) / page_size) q
    || reserved es q

mark_entry-Marks :
    (e : MemoryMapEntry) (s : Pmm)
    → IsValid s
    → length s.bitmap < 2 ^ 17
    → IsInside (length s.bitmap) e
    → (s' : Pmm) × (mark_entry e s ≡ ret s') × Marks s (reserved (e ∷ [])) s'
unfolding mark_entry
mark_entry-Marks e s valid small ok =
    elim (Bool-cases (leb (u32 (length s.bitmap * 4096 * 8)) e.addr_low)) [
      | inl beyond ↦ rw beyond (s, refl, Marks-refl _ valid (λ q. ground arith))
      | inr within ↦ rw within (elim (Bool-cases (e.type == 1)) [
        | inl free ↦ rw free (s, refl, Marks-refl _ valid (λ q. ground arith))
        | inr busy ↦ rw busy (
            let (s', done, m) =
              mark_range-Marks ((e.len_low + 4095) / page_size) e.addr_low 0 s valid ok.nonzero
                (omega (arith, ok.ends)) (omega (arith, ok.fits)) in
            (
              s',
              ground (arith, done, ok.fits),
              record {
                marks = λ q hq. ground (arith, m.marks q hq);
                same_size = m.same_size;
                same_count = m.same_count;
                valid = m.valid;
              },
            ))
      ])
    ]

-- On a state in order with a bitmap for less than 4 GiB, whose reserved entries lie in it and do not start at
-- address 0, `mark_reserved_memory_as_used` returns with exactly the pages of the reserved entries
-- marked besides those that were, and does not count them as used bytes.
pub mark_reserved-Marks :
    (es : List MemoryMapEntry) (s : Pmm)
    → IsValid s
    → length s.bitmap < 2 ^ 17
    → All (IsInside (length s.bitmap)) es
    → (s' : Pmm) × (mark_reserved_memory_as_used es s ≡ ret s') × Marks s (reserved es) s'
unfolding mark_reserved_memory_as_used
mark_reserved-Marks [] s valid small ok = (s, refl, Marks-refl _ valid (λ q. refl))
mark_reserved-Marks (e ∷ es) s valid small ok =
    let (s₁, done, m) = mark_entry-Marks e s valid small ok.0 in
    let (s₂, rest, m') =
      mark_reserved-Marks es s₁ m.valid (rw m.same_size small) (rw m.same_size ok.1) in
    (
      s₂,
      >>=-ret _ (mark_reserved_memory_as_used es) done rest,
      Marks-trans m m' (λ q. ground arith),
    )

-- On a bitmap of 2^17 bytes, that of a machine with 4 GiB, `phys_get_bitmap_size() * 4096 * 8` is 0 as a `size_t`, and
-- `mark_reserved_memory_as_used` marks nothing.
pub mark_reserved_4gib :
    (es : List MemoryMapEntry) (s : Pmm)
    → length s.bitmap ≡ 2 ^ 17
    → mark_reserved_memory_as_used es s ≡ ret s
unfolding mark_reserved_memory_as_used mark_entry
mark_reserved_4gib [] s full = refl
mark_reserved_4gib (e ∷ es) s full = ground (arith, mark_reserved_4gib es s full)
