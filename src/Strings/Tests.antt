-- ===== src/Strings/Tests.antt =====
-- The string functions at small texts.
use nocturne_os_base.Prelude.{
  ℕ, zero, suc, ◌+◌, ◌-◌, ◌^◌, ◌<◌, some, List, [], ◌∷◌, get_or, ◌≡◌, ◌≢◌, refl, arith, All-get_or,
}
use nocturne_os_base.Memory.{Memory}
use nocturne_os_base.Memory.Words.{IsBytes}
use nocturne_os_base.Strings.{
  strlen, mb_strlen, count_characters, is_utf, atoi, decimal, htoi, hex_digit,
}
use nocturne_os_base.Strings.Length.{IsString}

-- "ab", "abc" and "-42", each with its NUL byte, then the bytes of the Cyrillic letter "я" and of "z".
abbrev text_bytes : List ℕ
text_bytes = 97 ∷ 98 ∷ 0 ∷ 97 ∷ 98 ∷ 99 ∷ 0 ∷ 45 ∷ 52 ∷ 50 ∷ 0 ∷ 209 ∷ 143 ∷ 122 ∷ []

abbrev text : Memory
text x = get_or text_bytes x 0

text-IsBytes : IsBytes text
text-IsBytes x =
    All-get_or (λ b. b < 256) text_bytes x 0
      (
        omega arith,
        (
          omega arith,
          (
            omega arith,
            (
              omega arith,
              (
                omega arith,
                (
                  omega arith,
                  (
                    omega arith,
                    (
                      omega arith,
                      (
                        omega arith,
                        (
                          omega arith,
                          (omega arith, (omega arith, (omega arith, (omega arith, tt)))),
                        ),
                      ),
                    ),
                  ),
                ),
              ),
            ),
          ),
        ),
      )
      (omega arith)

ab-inner : (i : ℕ) → i < 2 → text (0 + i) ≢ 0
ab-inner zero h = omega arith
ab-inner (suc zero) h = omega arith
ab-inner (suc (suc i)) h = absurd (omega arith)

ab : IsString text 0 2
ab = record { ends = refl; inner = ab-inner }

abc-inner : (i : ℕ) → i < 3 → text (3 + i) ≢ 0
abc-inner zero h = omega arith
abc-inner (suc zero) h = omega arith
abc-inner (suc (suc zero)) h = omega arith
abc-inner (suc (suc (suc i))) h = absurd (omega arith)

abc : IsString text 3 3
abc = record { ends = refl; inner = abc-inner }

mb_strlen_ya_z : mb_strlen 8 text 11 ≡ some 2
unfolding mb_strlen strlen count_characters is_utf
mb_strlen_ya_z = refl

atoi_minus : atoi 8 text 7 ≡ some (2 ^ 32 - 42)
unfolding atoi decimal
atoi_minus = refl

htoi_abc : htoi 8 text 3 0 ≡ some 2748
unfolding htoi hex_digit
htoi_abc = refl

dest : IsString text 20 0
dest = record { ends = refl; inner = λ i h. absurd (omega arith) }
