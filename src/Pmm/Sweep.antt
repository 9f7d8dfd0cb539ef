-- ===== src/Pmm/Sweep.antt =====
-- The loops over a range of pages, in kernel/src/mem/pmm.c: what they do to each page.
use nocturne_os_base.Prelude.{
  ℕ, zero, suc, ◌+◌, ◌-◌, ◌*◌, ◌/◌, ◌%◌, ◌^◌, ◌<◌, Bool, true, false, ◌&&◌, List, [], ◌∷◌, ltb, leb,
  ◌==◌, if◌then◌else◌, length, get_or, All, Bool-cases, inl, inr, ◌≡◌, refl, arith, sub32, not,
  ◌||◌, ap,
}
use nocturne_os_base.Prelude.Bytes.{
  bit_at, bit_set, bit_clear, bit_at-bit_set, bit_at-bit_clear, bit_set-lt, bit_clear-lt,
}
use nocturne_os_base.Pmm.{sweep_byte, sweep}

abbrev pub IsByte : ℕ → Type 0
IsByte b = b < 256

-- Bit `k` is among the `c` from bit `j` on.
abbrev pub in_range : ℕ → ℕ → ℕ → Bool
in_range j c k = leb j k && ltb k (j + c)

-- Page number `p` is marked in the bitmap.
unfoldable pub page_used : List ℕ → ℕ → Bool
page_used bm p = bit_at (get_or bm (p / 8) 0) (p % 8)

-- `op` gives bit `j` of a byte the value `v` and leaves the others.
module _ (op : ℕ → ℕ → ℕ) (v : Bool)
    (op_bits : (b j k : ℕ)
      → b < 256
      → j < 8
      → k < 8
      → bit_at (op b j) k ≡ (if j == k then v else bit_at b k))
    (op-lt : (b j : ℕ) → op b j < 256) where
  sweep_byte-lt : (b n j c : ℕ) → b < 256 → (sweep_byte op b n j c).0 < 256
  unfolding sweep_byte
  sweep_byte-lt b zero j c h = h
  sweep_byte-lt b (suc n) j c h =
      ground (arith, op-lt b j, sweep_byte-lt (op b j) n (j + 1) (sub32 c 1))

  sweep_byte_bits :
      (b n j c k : ℕ)
      → b < 256
      → j + n ≡ 8
      → 0 < c
      → c < 2 ^ 32
      → k < 8
      → bit_at (sweep_byte op b n j c).0 k ≡ (if in_range j c k then v else bit_at b k)
  unfolding sweep_byte
  sweep_byte_bits b zero j c k hb e pos fits hk = ground arith
  sweep_byte_bits b (suc n) j c k hb e pos fits hk =
      ground (arith, op-lt b j, op_bits b j k, sweep_byte_bits (op b j) n (j + 1) (sub32 c 1) k)

  sweep_byte_left : (b n j c : ℕ) → 0 < c → c < 2 ^ 32 → (sweep_byte op b n j c).1 ≡ c - n
  unfolding sweep_byte
  sweep_byte_left b zero j c pos fits = omega arith
  sweep_byte_left b (suc n) j c pos fits =
      ground (arith, sweep_byte_left (op b j) n (j + 1) (sub32 c 1))

  length-sweep : (bm : List ℕ) (i j c : ℕ) → length (sweep op bm i j c).0 ≡ length bm
  unfolding sweep
  length-sweep [] i j c = refl
  length-sweep (b ∷ bs) (suc i) j c = ap suc (length-sweep bs i j c)
  length-sweep (b ∷ bs) zero j c =
      ground (arith, length-sweep bs 0 0 (sweep_byte op b (8 - j) j c).1)

  sweep-IsByte : (bm : List ℕ) (i j c : ℕ) → All IsByte bm → All IsByte (sweep op bm i j c).0
  unfolding sweep
  sweep-IsByte [] i j c h = h
  sweep-IsByte (b ∷ bs) (suc i) j c h = (h.0, sweep-IsByte bs i j c h.1)
  sweep-IsByte (b ∷ bs) zero j c h = elim (Bool-cases ((sweep_byte op b (8 - j) j c).1 == 0)) [
    | inl e ↦ rw e (sweep_byte-lt b (8 - j) j c h.0, h.1)
    | inr e ↦
        rw e
          (sweep_byte-lt b (8 - j) j c h.0, sweep-IsByte bs 0 0 (sweep_byte op b (8 - j) j c).1 h.1)
  ]

  sweep_left :
      (bm : List ℕ) (i j c : ℕ)
      → i < length bm
      → j < 8
      → 0 < c
      → c < 2 ^ 32
      → (sweep op bm i j c).1 ≡ (8 * i + j + c) - 8 * length bm
  unfolding sweep
  sweep_left [] i j c hi hj pos fits = absurd (omega arith)
  sweep_left (b ∷ bs) (suc i) j c hi hj pos fits =
      omega (arith, sweep_left bs i j c (omega arith) hj pos fits)
  sweep_left (b ∷ []) zero j c hi hj pos fits =
      ground (arith, sweep_byte_left b (8 - j) j c pos fits)
  sweep_left (b ∷ b₂ ∷ bs) zero j c hi hj pos fits = ground (
    arith,
    sweep_byte_left b (8 - j) j c pos fits,
    sweep_left (b₂ ∷ bs) 0 0 (sweep_byte op b (8 - j) j c).1,
  )

  sweep_bits :
      (bm : List ℕ) (i j c x k : ℕ)
      → All IsByte bm
      → j < 8
      → 0 < c
      → c < 2 ^ 32
      → x < length bm
      → k < 8
      → bit_at (get_or (sweep op bm i j c).0 x 0) k
        ≡ (if in_range (8 * i + j) c (8 * x + k) then v else bit_at (get_or bm x 0) k)
  unfolding sweep
  sweep_bits [] i j c x k hb hj pos fits hx hk = absurd (omega arith)
  sweep_bits (b ∷ bs) (suc i) j c zero k hb hj pos fits hx hk = ground arith
  sweep_bits (b ∷ bs) (suc i) j c (suc x) k hb hj pos fits hx hk =
      ground (arith, sweep_bits bs i j c x k hb.1 hj pos fits)
  sweep_bits (b ∷ bs) zero j c zero k hb hj pos fits hx hk =
      ground (arith, sweep_byte_left b (8 - j) j c pos fits, sweep_byte_bits b (8 - j) j c k hb.0)
  sweep_bits (b ∷ bs) zero j c (suc x) k hb hj pos fits hx hk = ground (
    arith,
    sweep_byte_left b (8 - j) j c pos fits,
    sweep_bits bs 0 0 (sweep_byte op b (8 - j) j c).1 x k hb.1,
  )

set_bits :
    (b j k : ℕ)
    → b < 256
    → j < 8
    → k < 8
    → bit_at (bit_set b j) k ≡ (if j == k then true else bit_at b k)
set_bits b j k hb hj hk = ground (arith, bit_at-bit_set b j k hb hj hk)

clear_bits :
    (b j k : ℕ)
    → b < 256
    → j < 8
    → k < 8
    → bit_at (bit_clear b j) k ≡ (if j == k then false else bit_at b k)
clear_bits b j k hb hj hk = ground (arith, bit_at-bit_clear b j k hb hj hk)

module _ (bm : List ℕ) (i j c : ℕ) where
  pub length-mark : length (sweep bit_set bm i j c).0 ≡ length bm
  length-mark = length-sweep bit_set true set_bits bit_set-lt bm i j c

  pub length-unmark : length (sweep bit_clear bm i j c).0 ≡ length bm
  length-unmark = length-sweep bit_clear false clear_bits bit_clear-lt bm i j c

  module _ (bytes : All IsByte bm) where
    pub mark-IsByte : All IsByte (sweep bit_set bm i j c).0
    mark-IsByte = sweep-IsByte bit_set true set_bits bit_set-lt bm i j c bytes

    pub unmark-IsByte : All IsByte (sweep bit_clear bm i j c).0
    unmark-IsByte = sweep-IsByte bit_clear false clear_bits bit_clear-lt bm i j c bytes

  module _ (hj : j < 8) (pos : 0 < c) (fits : c < 2 ^ 32) where
    pub unmark_left : i < length bm → (sweep bit_clear bm i j c).1 ≡ (8 * i + j + c) - 8 * length bm
    unmark_left hi = sweep_left bit_clear false clear_bits bit_clear-lt bm i j c hi hj pos fits

    module _ (bytes : All IsByte bm) (p : ℕ) (hp : p < 8 * length bm) where
      -- Marking sets the pages of the range and no other.
      pub page_used-mark :
          page_used (sweep bit_set bm i j c).0 p ≡ (in_range (8 * i + j) c p || page_used bm p)
      unfolding page_used
      page_used-mark = ground (
        arith,
        sweep_bits bit_set true set_bits bit_set-lt bm i j c (p / 8) (p % 8) bytes hj pos fits,
      )

      -- Freeing clears the pages of the range and no other.
      pub page_used-unmark :
          page_used (sweep bit_clear bm i j c).0 p
          ≡ (not (in_range (8 * i + j) c p) && page_used bm p)
      unfolding page_used
      page_used-unmark = ground (
        arith,
        sweep_bits bit_clear false clear_bits bit_clear-lt bm i j c (p / 8) (p % 8) bytes hj pos
            fits,
      )
