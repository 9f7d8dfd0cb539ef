-- ===== src/Prelude/Bytes.antt =====
-- Single bits of a byte. A law of three small numbers is checked at every value.
use Prim.Native.Nat.{ℕ, zero, suc, ◌-◌, ◌/◌, ◌%◌, ◌^◌, ◌<◌, bit_and, bit_or}
use mathlib.Core.Path.{◌≡◌, refl, ap}
use mathlib.Core.Bool.{Bool, true, false, ◌&&◌, ◌||◌, not}
use native.Mathlib.Omega.{arith}
use nocturne_os_base.Prelude.Tests.{◌==◌, if◌then◌else◌}
use native.Mathlib.Decide.{dec_lt}

-- `(b >> j) & 1`, `b |= 1 << j` and `b &= ~(1 << j)` on a `uint8_t`; `~` is that of an `int`.
unfoldable pub bit_at : ℕ → ℕ → Bool
bit_at b j = bit_and (b / 2 ^ j) 1 == 1

unfoldable pub bit_set : ℕ → ℕ → ℕ
bit_set b j = bit_or b (2 ^ j) % 256

unfoldable pub bit_clear : ℕ → ℕ → ℕ
bit_clear b j = bit_and b (2 ^ 32 - 1 - 2 ^ j) % 256

-- Whether a test holds of each number under a bound.
unfoldable pub each_under : (ℕ → Bool) → ℕ → Bool
each_under test zero = true
each_under test (suc k) = if◌then◌else◌ (test k) (each_under test k) false

pub each_under-lt : (test : ℕ → Bool) (k v : ℕ) → v < k → each_under test k ≡ true → test v ≡ true
unfolding each_under
each_under-lt test zero v lt all = absurd (omega arith)
each_under-lt test (suc k) v lt all = elim (dec_lt v k) [
  | yes inner ↦ each_under-lt test k v inner (ground (arith, all))
  | no last ↦ let at : v ≡ k = omega arith in ground (arith, all, ap test at)
]

every_bit : (ℕ → ℕ → ℕ → Bool) → Bool
unfolding each_under
every_bit p = each_under (λ b. each_under (λ j. each_under (p b j) 8) 8) 256

every_bit_sound :
    (p : ℕ → ℕ → ℕ → Bool) (b j k : ℕ)
    → every_bit p ≡ true
    → b < 256
    → j < 8
    → k < 8
    → p b j k ≡ true
every_bit_sound p b j k h hb hj hk = each_under-lt (p b j) 8 k hk (
    each_under-lt (λ j'. each_under (p b j') 8) 8 j hj
      (each_under-lt (λ b'. each_under (λ j'. each_under (p b' j') 8) 8) 256 b hb
        (unfold every_bit in h)))

same : Bool → Bool → Bool
same true c = c
same false c = not c

same_sound : (a c : Bool) → same a c ≡ true → a ≡ c
unfolding same
same_sound true true h = refl
same_sound true false h = ground arith
same_sound false true h = ground arith
same_sound false false h = refl

set_law : ℕ → ℕ → ℕ → Bool
unfolding same bit_at bit_set
set_law b j k = same (bit_at (bit_set b j) k) (j == k || bit_at b k)

set_table : every_bit set_law ≡ true
unfolding every_bit set_law
set_table = refl

-- Setting a bit sets that bit and no other.
pub bit_at-bit_set :
    (b j k : ℕ) → b < 256 → j < 8 → k < 8 → bit_at (bit_set b j) k ≡ (j == k || bit_at b k)
bit_at-bit_set b j k hb hj hk =
    same_sound _ _ (unfold set_law in every_bit_sound set_law b j k set_table hb hj hk)

clear_law : ℕ → ℕ → ℕ → Bool
unfolding same bit_at bit_clear
clear_law b j k = same (bit_at (bit_clear b j) k) (not (j == k) && bit_at b k)

clear_table : every_bit clear_law ≡ true
unfolding every_bit clear_law
clear_table = refl

-- Clearing a bit clears that bit and no other.
pub bit_at-bit_clear :
    (b j k : ℕ) → b < 256 → j < 8 → k < 8 → bit_at (bit_clear b j) k ≡ (not (j == k) && bit_at b k)
bit_at-bit_clear b j k hb hj hk =
    same_sound _ _ (unfold clear_law in every_bit_sound clear_law b j k clear_table hb hj hk)

undo_law : ℕ → ℕ → ℕ → Bool
unfolding bit_at bit_set bit_clear
undo_law b j k = bit_at b j || bit_clear (bit_set b j) j == b

undo_sound : (b j : ℕ) → undo_law b j 0 ≡ true → bit_at b j ≡ false → bit_clear (bit_set b j) j ≡ b
unfolding undo_law
undo_sound b j h free = ground arith

undo_table : every_bit undo_law ≡ true
unfolding every_bit undo_law
undo_table = refl

-- Clearing a bit that was just set gives the byte back.
pub bit_clear-bit_set :
    (b j : ℕ) → b < 256 → j < 8 → bit_at b j ≡ false → bit_clear (bit_set b j) j ≡ b
bit_clear-bit_set b j hb hj free =
    let law : undo_law b j 0 ≡ true =
      every_bit_sound undo_law b j 0 undo_table hb hj (omega arith) in
    undo_sound b j law free

full_law : ℕ → ℕ → ℕ → Bool
unfolding bit_at
full_law b j k = not (b == 255) || bit_at b j

full_sound : (j : ℕ) → full_law 255 j 0 ≡ true → bit_at 255 j ≡ true
unfolding full_law
full_sound j h = ground arith

full_table : every_bit full_law ≡ true
unfolding every_bit full_law
full_table = refl

pub bit_at_full : (j : ℕ) → j < 8 → bit_at 255 j ≡ true
bit_at_full j hj =
    full_sound j (every_bit_sound full_law 255 j 0 full_table (omega arith) hj (omega arith))

pub bit_set-lt : (b j : ℕ) → bit_set b j < 256
unfolding bit_set
bit_set-lt b j = omega arith

pub bit_clear-lt : (b j : ℕ) → bit_clear b j < 256
unfolding bit_clear
bit_clear-lt b j = omega arith

empty_law : ℕ → ℕ → ℕ → Bool
unfolding bit_at
empty_law b j k = not (b == 0) || not (bit_at b j)

empty_sound : (j : ℕ) → empty_law 0 j 0 ≡ true → bit_at 0 j ≡ false
unfolding empty_law
empty_sound j h = ground arith

empty_table : every_bit empty_law ≡ true
unfolding every_bit empty_law
empty_table = refl

pub bit_at_zero : (j : ℕ) → j < 8 → bit_at 0 j ≡ false
bit_at_zero j hj =
    empty_sound j (every_bit_sound empty_law 0 j 0 empty_table (omega arith) hj (omega arith))
