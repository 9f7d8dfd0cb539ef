-- ===== src/Pmm/Single.antt =====
-- `phys_alloc_single_page`, `phys_free_single_page`, `phys_is_used_page` and
-- `phys_mark_page_entry` of kernel/src/mem/pmm.c, over page numbers.
use nocturne_os_base.Prelude.{
  ℕ, zero, suc, ◌+◌, ◌*◌, ◌/◌, ◌%◌, ◌^◌, ◌≤◌, ◌<◌, Bool, true, false, ◌&&◌, List, [], ◌∷◌, ◌==◌,
  if◌then◌else◌, length, get_or, set, All, ◌≡◌, refl, arith, u32, not, ◌||◌, All-get_or, All-set,
  Option, none, some, ◌⊎◌, inl, inr, ret, page_size, Bool-cases, Option-cases, length-set,
  get_or-set_self, get_or-set_ne, ◌∙◌,
}
use nocturne_os_base.Prelude.Bytes.{
  bit_at, bit_set, bit_clear, bit_at-bit_set, bit_at-bit_clear, bit_set-lt, bit_at_full,
}
use nocturne_os_base.Pmm.{Pmm, first_clear, first_free, phys_alloc_single_page}
use nocturne_os_base.Pmm.Sweep.{IsByte, page_used}

first_clear-none :
    (b n j k : ℕ) → j + n ≡ 8 → first_clear b n j ≡ none → j ≤ k → k < 8 → bit_at b k ≡ true
unfolding first_clear
first_clear-none b zero j k e h lo hi = absurd (omega arith)
first_clear-none b (suc n) j k e h lo hi = ground (arith, first_clear-none b n (j + 1) k)

first_clear-some :
    (b n j m : ℕ)
    → j + n ≡ 8
    → first_clear b n j ≡ some m
    → (j ≤ m) × (m < 8) × (bit_at b m ≡ false)
unfolding first_clear
first_clear-some b zero j m e h = ground arith
first_clear-some b (suc n) j m e h = ground (arith, first_clear-some b n (j + 1) m)

first_clear_least : (b n j m k : ℕ) → first_clear b n j ≡ some m → j ≤ k → k < m → bit_at b k ≡ true
unfolding first_clear
first_clear_least b zero j m k h lo hi = ground arith
first_clear_least b (suc n) j m k h lo hi = ground (arith, first_clear_least b n (j + 1) m k)

-- The page at `found` is the first free one of the bytes `bm`, counted from byte `i`.
pub record IsFirst (bm : List ℕ) (i : ℕ) (found : Option (ℕ × ℕ)) : Type 0 where
  pub x : ℕ
  pub m : ℕ
  pub at : found ≡ some (i + x, m)
  pub x_in : x < length bm
  pub m_in : m < 8
  pub free : bit_at (get_or bm x 0) m ≡ false
  pub least : (y k : ℕ) → k < 8 → 8 * y + k < 8 * x + m → bit_at (get_or bm y 0) k ≡ true

abbrev pub IsFull : List ℕ → Option (ℕ × ℕ) → Type 0
IsFull bm found =
    (found ≡ none) × ((y k : ℕ) → y < length bm → k < 8 → bit_at (get_or bm y 0) k ≡ true)

-- A byte with no free page in front.
IsFirst-cons :
    (b : ℕ) (bs : List ℕ) (i : ℕ) {found : Option (ℕ × ℕ)}
    → ((k : ℕ) → k < 8 → bit_at b k ≡ true)
    → IsFull bs found ⊎ IsFirst bs (i + 1) found
    → IsFull (b ∷ bs) found ⊎ IsFirst (b ∷ bs) i found
IsFirst-cons b bs i {found} busy (inl (e, full)) = inl (e, all)
  where
    all : (y k : ℕ) → y < length (b ∷ bs) → k < 8 → bit_at (get_or (b ∷ bs) y 0) k ≡ true
    all zero k hy hk = busy k hk
    all (suc y) k hy hk = full y k (omega arith) hk
IsFirst-cons b bs i {found} busy (inr r) = inr (record {
  x = suc r.x;
  m = r.m;
  at = ground (arith, r.at);
  x_in = omega (arith, r.x_in);
  m_in = r.m_in;
  free = r.free;
  least = least;
})
  where
    least :
        (y k : ℕ) → k < 8 → 8 * y + k < 8 * suc r.x + r.m → bit_at (get_or (b ∷ bs) y 0) k ≡ true
    least zero k hk h = busy k hk
    least (suc y) k hk h = r.least y k hk (omega arith)

-- A free page in the first byte.
least_in_byte :
    (b m : ℕ) (bs : List ℕ)
    → first_clear b 8 0 ≡ some m
    → (y k : ℕ) → k < 8
    → 8 * y + k < 8 * 0 + m
    → bit_at (get_or (b ∷ bs) y 0) k ≡ true
least_in_byte b m bs e zero k hk h = first_clear_least b 8 0 m k e (omega arith) (omega arith)
least_in_byte b m bs e (suc y) k hk h = absurd (omega (arith, first_clear-some b 8 0 m refl e))

pub first_free_cases :
    (bm : List ℕ) (i : ℕ) → IsFull bm (first_free bm i) ⊎ IsFirst bm i (first_free bm i)
unfolding first_free
first_free_cases [] i = inl (refl, λ y k hy hk. absurd (omega arith))
first_free_cases (b ∷ bs) i = elim (Bool-cases (b == 0xff)) [
  | inl e ↦
      rw e (
        IsFirst-cons b bs i (λ k hk. ground (arith, bit_at_full k hk))
          (first_free_cases bs (i + 1)))
  | inr e ↦ rw e (elim (Option-cases (first_clear b 8 0)) [
    | inl none_clear ↦ rw none_clear (
        IsFirst-cons b bs i (λ k hk. first_clear-none b 8 0 k refl none_clear (omega arith) hk)
          (first_free_cases bs (i + 1)))
    | inr (m, e') ↦ rw e' (
        inr (record {
          x = 0;
          m = m;
          at = ground arith;
          x_in = omega arith;
          m_in = omega (arith, first_clear-some b 8 0 m refl e');
          free = (first_clear-some b 8 0 m refl e').2;
          least = least_in_byte b m bs e';
        }))
  ])
]

-- The bitmap holds bytes, at most one for each eighth page of the address space, and the
-- sizes are `size_t`.
pub record IsValid (s : Pmm) : Type 0 where
  pub bytes : All IsByte s.bitmap
  pub small : length s.bitmap ≤ 2 ^ 17
  pub total : s.phys_memory_size < 2 ^ 32
  pub used : s.used_phys_memory_size < 2 ^ 32

-- `s'` is `s` with the first free page, number `p`, taken.
pub record TakesFirst (s : Pmm) (p : ℕ) (s' : Pmm) : Type 0 where
  pub in_bitmap : p < 8 * length s.bitmap
  pub was_free : page_used s.bitmap p ≡ false
  pub least : (q : ℕ) → q < p → page_used s.bitmap q ≡ true
  pub marked :
      (q : ℕ) → q < 8 * length s.bitmap → page_used s'.bitmap q ≡ (q == p || page_used s.bitmap q)
  pub same_size : length s'.bitmap ≡ length s.bitmap
  pub counted : s'.used_phys_memory_size ≡ u32 (s.used_phys_memory_size + page_size)
  pub valid : IsValid s'

-- One bit of the bitmap written.
module _ (bm : List ℕ) (x m v : ℕ) (hx : x < length bm) (hm : m < 8) where
  page_used-set_bit :
      (w : Bool)
      → ((k : ℕ) → k < 8 → bit_at v k ≡ (if m == k then w else bit_at (get_or bm x 0) k))
      → (q : ℕ) → page_used (set bm x v) q ≡ (if q == 8 * x + m then w else page_used bm q)
  unfolding page_used
  page_used-set_bit w bits q = elim (Bool-cases (x == q / 8)) [
    | inl e ↦ ground (arith, bits (q % 8), get_or-set_self bm x v 0 hx)
    | inr ne ↦ ground (arith, get_or-set_ne bm x (q / 8) v 0)
  ]

pub page_used_at :
    (bm : List ℕ) (x m : ℕ) → m < 8 → page_used bm (8 * x + m) ≡ bit_at (get_or bm x 0) m
unfolding page_used
page_used_at bm x m hm =
    let e : (8 * x + m) / 8 ≡ x = omega arith in
    let e' : (8 * x + m) % 8 ≡ m = omega arith in rw (e, e')

module _ (s : Pmm) (valid : IsValid s) where
  -- `pages_bitmap[i] |= (1 << j)`
  pub page_used-take :
      (x m : ℕ)
      → x < length s.bitmap
      → m < 8
      → (q : ℕ)
      → page_used (set s.bitmap x (bit_set (get_or s.bitmap x 0) m)) q
        ≡ (q == 8 * x + m || page_used s.bitmap q)
  page_used-take x m hx hm q = ground (
    arith,
    page_used-set_bit s.bitmap x m (bit_set (get_or s.bitmap x 0) m) hx hm true
        (λ k hk. ground (
          arith,
          bit_at-bit_set (get_or s.bitmap x 0) m k
              (All-get_or IsByte s.bitmap x 0 valid.bytes (omega arith)) hm hk,
        ))
        q,
  )

  -- `pages_bitmap[i] &= ~(1 << j)`
  pub page_used-clear :
      (x m : ℕ)
      → x < length s.bitmap
      → m < 8
      → (q : ℕ)
      → page_used (set s.bitmap x (bit_clear (get_or s.bitmap x 0) m)) q
        ≡ (not (q == 8 * x + m) && page_used s.bitmap q)
  page_used-clear x m hx hm q = ground (
    arith,
    page_used-set_bit s.bitmap x m (bit_clear (get_or s.bitmap x 0) m) hx hm false
        (λ k hk. ground (
          arith,
          bit_at-bit_clear (get_or s.bitmap x 0) m k
              (All-get_or IsByte s.bitmap x 0 valid.bytes (omega arith)) hm hk,
        ))
        q,
  )

  TakesFirst-at :
      (f : IsFirst s.bitmap 0 (first_free s.bitmap 0))
      → TakesFirst s (8 * f.x + f.m) (record s {
        bitmap = set s.bitmap f.x (bit_set (get_or s.bitmap f.x 0) f.m);
        used_phys_memory_size = u32 (s.used_phys_memory_size + page_size);
      })
  TakesFirst-at f = record {
    in_bitmap = omega (arith, f.x_in, f.m_in);
    was_free = page_used_at s.bitmap f.x f.m f.m_in ∙ f.free;
    least = λ q hq. unfold page_used in f.least (q / 8) (q % 8) (omega arith) (omega arith);
    marked = λ q hq. page_used-take f.x f.m f.x_in f.m_in q;
    same_size = length-set s.bitmap f.x _;
    counted = refl;
    valid = record {
      bytes = All-set IsByte s.bitmap f.x _ valid.bytes (bit_set-lt _ _);
      small =
          omega (arith, length-set s.bitmap f.x (bit_set (get_or s.bitmap f.x 0) f.m), valid.small);
      total = valid.total;
      used = omega arith;
    };
  }

  -- On a state in order, below the memory limit, `phys_alloc_single_page` takes the first free page,
  -- marks that page and no other, and counts it; with no free page it returns 0 and changes nothing.
  pub alloc_single-TakesFirst :
      s.used_phys_memory_size < s.phys_memory_size
      → ((p : ℕ) × (s' : Pmm) × (phys_alloc_single_page s ≡ ret (page_size * p, s'))
          × TakesFirst s p s')
        ⊎ ((phys_alloc_single_page s ≡ ret (0, s))
            × ((q : ℕ) → q < 8 * length s.bitmap → page_used s.bitmap q ≡ true))
  unfolding phys_alloc_single_page
  alloc_single-TakesFirst room = elim (first_free_cases s.bitmap 0) [
    | inl (e, full) ↦
        inr (
          ground arith,
          λ q hq. unfold page_used in full (q / 8) (q % 8) (omega arith) (omega arith),
        )
    | inr f ↦ inl (
      8 * f.x + f.m,
      record s {
        bitmap = set s.bitmap f.x (bit_set (get_or s.bitmap f.x 0) f.m);
        used_phys_memory_size = u32 (s.used_phys_memory_size + page_size);
      },
      ground (arith, f.at, f.x_in, f.m_in, valid.small),
      TakesFirst-at f,
    )
  ]
