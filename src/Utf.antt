-- ===== src/Utf.antt =====
-- `utf16_to_utf8` of kernel/src/lib/utf_conversion.c, on the list of the UTF-16 units; the result is the
-- list of the bytes written.
--
-- The code reads the unit behind a surrogate without a look at the length: `behind` is what
-- stands in memory behind the last unit.
pub mod Laws
mod Tests
use nocturne_os_base.Prelude.{
  ℕ, ◌+◌, ◌-◌, Bool, ◌||◌, List, [], ◌∷◌, ◌++◌, ltb, if◌then◌else◌, u8, u32, sub32, ◌<<<◌, ◌>>>◌,
  bit_and, bit_or,
}

abbrev pub is_single : ℕ → Bool
is_single unit = ltb unit 0xd800 || ltb 0xdfff unit

pub code_point : ℕ → ℕ → ℕ
code_point high low = u32 (0x10000 + ((high - 0xd800) <<< 10) + sub32 low 0xdc00)

-- The second half of the loop: the bytes of one code point.
pub put_code_point : ℕ → List ℕ
put_code_point c =
    if ltb c 0x80
    then u8 c ∷ []
    else if ltb c 0x800
    then bit_or 0xc0 (bit_and (c >>> 6) 0x1f) ∷ bit_or 0x80 (bit_and c 0x3f) ∷ []
    else if ltb c 0x10000
    then bit_or 0xe0 (bit_and (c >>> 12) 0x0f)
      ∷ bit_or 0x80 (bit_and (c >>> 6) 0x3f)
      ∷ bit_or 0x80 (bit_and c 0x3f)
      ∷ []
    else bit_or 0xf0 (bit_and (c >>> 18) 0x07)
      ∷ bit_or 0x80 (bit_and (c >>> 12) 0x3f)
      ∷ bit_or 0x80 (bit_and (c >>> 6) 0x3f)
      ∷ bit_or 0x80 (bit_and c 0x3f)
      ∷ []

pub utf16_to_utf8 : ℕ → List ℕ → List ℕ
utf16_to_utf8 behind [] = []
utf16_to_utf8 behind (unit ∷ []) =
    if is_single unit then put_code_point unit else put_code_point (code_point unit behind)
utf16_to_utf8 behind (unit ∷ next ∷ units) =
    let single = put_code_point unit ++ utf16_to_utf8 behind (next ∷ units) in
    let pair = put_code_point (code_point unit next) ++ utf16_to_utf8 behind units in
    if is_single unit then single else pair
