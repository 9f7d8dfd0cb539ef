-- ===== src/Utf/Laws.antt =====
-- `utf16_to_utf8` of kernel/src/lib/utf_conversion.c against the two encodings.
use nocturne_os_base.Prelude.{
  ℕ, ◌+◌, ◌-◌, ◌/◌, ◌%◌, ◌≤◌, ◌<◌, true, false, List, [], ◌∷◌, ◌++◌, All, ltb, if◌then◌else◌, u8,
  ◌>>>◌, bit_and, bit_or, ◌≡◌, refl, arith, ap, ap₂, ◌⊎◌, inl, inr, ◌∙◌, dec_lt, sym,
}
use nocturne_os_base.Prelude.Bits.{bit_and_mask, bit_or_low}
use nocturne_os_base.Utf.{is_single, code_point, put_code_point, utf16_to_utf8}

-- A Unicode scalar value.
abbrev pub IsScalar : ℕ → Type 0
IsScalar c = (c < 0xd800) ⊎ ((0xe000 ≤ c) × (c < 0x110000))

-- The units of a text in UTF-16.
abbrev pub units : ℕ → List ℕ → List ℕ
units c rest =
    if ltb c 0x10000
    then c ∷ rest
    else (0xd800 + (c - 0x10000) / 1024) ∷ (0xdc00 + (c - 0x10000) % 1024) ∷ rest

abbrev pub utf16 : List ℕ → List ℕ
utf16 [] = []
utf16 (c ∷ cs) = units c (utf16 cs)

-- And its bytes in UTF-8.
abbrev pub bytes : ℕ → List ℕ
bytes c =
    if ltb c 0x80
    then c ∷ []
    else if ltb c 0x800
    then (192 + c / 64) ∷ (128 + c % 64) ∷ []
    else if ltb c 0x10000
    then (224 + c / 4096) ∷ (128 + c / 64 % 64) ∷ (128 + c % 64) ∷ []
    else (240 + c / 262144) ∷ (128 + c / 4096 % 64) ∷ (128 + c / 64 % 64) ∷ (128 + c % 64) ∷ []

abbrev pub utf8 : List ℕ → List ℕ
utf8 [] = []
utf8 (c ∷ cs) = bytes c ++ utf8 cs

continuation : (x : ℕ) → bit_or 0x80 (bit_and x 0x3f) ≡ 128 + x % 64
continuation x =
    ap (λ (l : ℕ). bit_or 0x80 l) (bit_and_mask 6 x) ∙ bit_or_low 6 2 (x % 64) (omega arith)

lead_two : (x : ℕ) → bit_or 0xc0 (bit_and x 0x1f) ≡ 192 + x % 32
lead_two x =
    ap (λ (l : ℕ). bit_or 0xc0 l) (bit_and_mask 5 x) ∙ bit_or_low 5 6 (x % 32) (omega arith)

lead_three : (x : ℕ) → bit_or 0xe0 (bit_and x 0x0f) ≡ 224 + x % 16
lead_three x =
    ap (λ (l : ℕ). bit_or 0xe0 l) (bit_and_mask 4 x) ∙ bit_or_low 4 14 (x % 16) (omega arith)

lead_four : (x : ℕ) → bit_or 0xf0 (bit_and x 0x07) ≡ 240 + x % 8
lead_four x =
    ap (λ (l : ℕ). bit_or 0xf0 l) (bit_and_mask 3 x) ∙ bit_or_low 3 30 (x % 8) (omega arith)

put_code_point_lem : (c : ℕ) → c < 0x110000 → put_code_point c ≡ bytes c
unfolding put_code_point
put_code_point_lem c small = elim (dec_lt c 0x80) [
  | yes one ↦ let low : u8 c ≡ c = omega arith in ground (arith, low)
  | no more ↦ elim (dec_lt c 0x800) [
    | yes two ↦
        let a : bit_or 0xc0 (bit_and (c >>> 6) 0x1f) ≡ 192 + c / 64 =
          omega (arith, lead_two (c >>> 6)) in
        ground (arith, a, continuation c)
    | no more' ↦ elim (dec_lt c 0x10000) [
      | yes three ↦
          let a : bit_or 0xe0 (bit_and (c >>> 12) 0x0f) ≡ 224 + c / 4096 =
            omega (arith, lead_three (c >>> 12)) in
          ground (arith, a, continuation (c >>> 6), continuation c)
      | no four ↦
          let a : bit_or 0xf0 (bit_and (c >>> 18) 0x07) ≡ 240 + c / 262144 =
            omega (arith, lead_four (c >>> 18)) in
          ground (arith, a, continuation (c >>> 12), continuation (c >>> 6), continuation c)
    ]
  ]
]

append-nil : (xs : List ℕ) → xs ++ [] ≡ xs
append-nil [] = refl
append-nil (x ∷ xs) = ap (λ ys. x ∷ ys) (append-nil xs)

-- One unit that is no surrogate.
single_unit :
    (behind c : ℕ) (rest : List ℕ)
    → is_single c ≡ true
    → utf16_to_utf8 behind (c ∷ rest) ≡ put_code_point c ++ utf16_to_utf8 behind rest
unfolding utf16_to_utf8
single_unit behind c [] single = rw single (sym (append-nil (put_code_point c)))
single_unit behind c (next ∷ rest) single = rw single refl

-- A surrogate and the unit behind it.
surrogates :
    (behind high low : ℕ) (rest : List ℕ)
    → is_single high ≡ false
    → utf16_to_utf8 behind (high ∷ low ∷ rest)
      ≡ put_code_point (code_point high low) ++ utf16_to_utf8 behind rest
unfolding utf16_to_utf8
surrogates behind high low rest pair = rw pair refl

-- The units of a scalar value are that value, or a pair that stands for it.
units_cases :
    (c : ℕ) (rest : List ℕ)
    → IsScalar c
    → (c < 0x110000)
      × (((units c rest ≡ c ∷ rest) × (is_single c ≡ true))
          ⊎ ((high : ℕ) × (low : ℕ) × (units c rest ≡ high ∷ low ∷ rest)
              × (is_single high ≡ false)
              × (code_point high low ≡ c)))
unfolding code_point
units_cases c rest scalar = elim (dec_lt c 0x10000) [
  | yes one ↦ (omega arith, inl (ground arith, ground arith))
  | no two ↦ (
    omega arith,
    inr (
      0xd800 + (c - 0x10000) / 1024,
      0xdc00 + (c - 0x10000) % 1024,
      ground arith,
      ground arith,
      omega arith,
    ),
  )
]

-- `utf16_to_utf8` of the UTF-16 units of Unicode scalar values writes their bytes in UTF-8, whatever
-- stands behind the units.
pub utf16_to_utf8_lem :
    (behind : ℕ) (cs : List ℕ) → All IsScalar cs → utf16_to_utf8 behind (utf16 cs) ≡ utf8 cs
utf16_to_utf8_lem behind [] scalar = unfold utf16_to_utf8 in refl
utf16_to_utf8_lem behind (c ∷ cs) scalar =
    let (small, cases) = units_cases c (utf16 cs) scalar.0 in
    elim cases [
      | inl (e, single) ↦
          ap (utf16_to_utf8 behind) e
          ∙ single_unit behind c (utf16 cs) single
          ∙ ap₂ ◌++◌ (put_code_point_lem c small) (utf16_to_utf8_lem behind cs scalar.1)
      | inr (high, low, e, pair, same) ↦
          ap (utf16_to_utf8 behind) e
          ∙ surrogates behind high low (utf16 cs) pair
          ∙ ap₂ ◌++◌ (ap put_code_point same ∙ put_code_point_lem c small)
              (utf16_to_utf8_lem behind cs scalar.1)
    ]
