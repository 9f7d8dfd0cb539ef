-- ===== src/Utf/Tests.antt =====
-- `utf16_to_utf8` at a text with a pair of surrogates.
use nocturne_os_base.Prelude.{ℕ, List, [], ◌∷◌, ◌≡◌, refl, arith, inl, inr}
use nocturne_os_base.Utf.{utf16_to_utf8, put_code_point, code_point}
use nocturne_os_base.Utf.Laws.{utf16, utf8, utf16_to_utf8_lem}

-- "я" and U+1F600.
abbrev text : List ℕ
text = 0x44f ∷ 0x1f600 ∷ []

text_bytes :
    utf16_to_utf8 0 (0x44f ∷ 0xd83d ∷ 0xde00 ∷ []) ≡ 0xd1 ∷ 0x8f ∷ 0xf0 ∷ 0x9f ∷ 0x98 ∷ 0x80 ∷ []
unfolding utf16_to_utf8 put_code_point code_point
text_bytes = refl

utf16_to_utf8_lem_example : utf16_to_utf8 7 (utf16 text) ≡ utf8 text
utf16_to_utf8_lem_example =
    utf16_to_utf8_lem 7 text (inl (omega arith), (inr (omega arith, omega arith), tt))
