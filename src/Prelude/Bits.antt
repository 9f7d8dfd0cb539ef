-- ===== src/Prelude/Bits.antt =====
-- `&` with a mask of low ones and `|` of disjoint fields, as arithmetic, at every width.
use Prim.Native.Nat.{
  ℕ, zero, suc, ◌+◌, ◌-◌, ◌*◌, ◌/◌, ◌%◌, ◌^◌, ◌≤◌, ◌<◌, min, max, bit_and, bit_or, digits,
  bit_and-bitwise, bit_or-bitwise,
}
use mathlib.Core.Path.{◌≡◌, refl, sym, ap, ◌∙◌}
use native.Mathlib.Nat.{pow-suc, pow-succ', one-le-pow, div-div-eq-div-mul}
use native.Mathlib.Omega.{arith}

-- The digit recursion behind the native operations, once its fuel covers the number.
module _ (low : ℕ → ℕ) (join : ℕ → ℕ → ℕ) where
  enough_fuel : (x p q y : ℕ) → x ≤ p → x ≤ q → digits low join p x y ≡ digits low join q x y
  enough_fuel zero zero zero y hp hq = refl
  enough_fuel zero zero (suc q) y hp hq = refl
  enough_fuel zero (suc p) zero y hp hq = refl
  enough_fuel zero (suc p) (suc q) y hp hq = refl
  enough_fuel (suc x) zero q y hp hq = absurd (omega arith)
  enough_fuel (suc x) (suc p) zero y hp hq = absurd (omega arith)
  enough_fuel (suc x) (suc p) (suc q) y hp hq =
      rw (enough_fuel (suc x / 2) p q (y / 2) (omega arith) (omega arith))

pub bit_and_step : (x y : ℕ) → bit_and x y ≡ 2 * bit_and (x / 2) (y / 2) + min (x % 2) (y % 2)
bit_and_step zero y = omega (arith, bit_and-bitwise 0 y, bit_and-bitwise 0 (y / 2))
bit_and_step (suc x) y = omega (
  arith,
  bit_and-bitwise (suc x) y,
  bit_and-bitwise (suc x / 2) (y / 2),
  enough_fuel (λ d. 0) min (suc x / 2) x (suc x / 2) (y / 2) (omega arith) (omega arith),
)

pub bit_or_step : (x y : ℕ) → bit_or x y ≡ 2 * bit_or (x / 2) (y / 2) + max (x % 2) (y % 2)
bit_or_step zero y = omega (arith, bit_or-bitwise 0 y, bit_or-bitwise 0 (y / 2))
bit_or_step (suc x) y = omega (
  arith,
  bit_or-bitwise (suc x) y,
  bit_or-bitwise (suc x / 2) (y / 2),
  enough_fuel (λ d. d) max (suc x / 2) x (suc x / 2) (y / 2) (omega arith) (omega arith),
)

bit_and-zero_below : (n x : ℕ) → x < n → bit_and x 0 ≡ 0
bit_and-zero_below zero x h = absurd (omega arith)
bit_and-zero_below (suc n) zero h = refl
bit_and-zero_below (suc n) (suc x) h =
    omega (arith, bit_and_step (suc x) 0, bit_and-zero_below n (suc x / 2) (omega arith))

bit_or-zero_below : (n x : ℕ) → x < n → bit_or x 0 ≡ x
bit_or-zero_below zero x h = absurd (omega arith)
bit_or-zero_below (suc n) zero h = refl
bit_or-zero_below (suc n) (suc x) h =
    omega (arith, bit_or_step (suc x) 0, bit_or-zero_below n (suc x / 2) (omega arith))

pub bit_and-zero : (x : ℕ) → bit_and x 0 ≡ 0
bit_and-zero x = bit_and-zero_below (suc x) x (omega arith)

pub bit_or-zero : (x : ℕ) → bit_or x 0 ≡ x
bit_or-zero x = bit_or-zero_below (suc x) x (omega arith)

double_pow : (h k : ℕ) → h * 2 ^ suc k ≡ 2 * (h * 2 ^ k)
double_pow h k = omega (arith, ap (λ (t : ℕ). h * t) (pow-suc 2 k))

-- The sum of a multiple of `2 ^ k` and a number below, masked, is that number.
bit_and_low : (k h l : ℕ) → l < 2 ^ k → bit_and (h * 2 ^ k + l) (2 ^ k - 1) ≡ l
bit_and_low zero h l fits = rw bit_and-zero (omega arith)
bit_and_low (suc k) h l fits = ground (
  arith,
  bit_and_step (h * 2 ^ suc k + l) (2 ^ suc k - 1),
  double_pow h k,
  pow-suc 2 k,
  one-le-pow k 2,
  bit_and_low k h (l / 2) (omega (arith, pow-suc 2 k)),
)

-- Masking the low `k` bits is the remainder by `2 ^ k`.
pub bit_and_mask : (k x : ℕ) → bit_and x (2 ^ k - 1) ≡ x % 2 ^ k
bit_and_mask k x = ground (arith, one-le-pow k 2, bit_and_low k (x / 2 ^ k) (x % 2 ^ k))

-- `|` of a multiple of `2 ^ k` and a number below is their sum.
pub bit_or_low : (k h l : ℕ) → l < 2 ^ k → bit_or (h * 2 ^ k) l ≡ h * 2 ^ k + l
bit_or_low zero h l fits = ground (arith, bit_or-zero h)
bit_or_low (suc k) h l fits = ground (
  arith,
  bit_or_step (h * 2 ^ suc k) l,
  double_pow h k,
  bit_or_low k h (l / 2) (omega (arith, pow-suc 2 k)),
)

-- `&` with a mask of low zeros works on the digits above them.
pub bit_and_above : (k x y : ℕ) → bit_and x (y * 2 ^ k) ≡ bit_and (x / 2 ^ k) y * 2 ^ k
bit_and_above zero x y =
    let same : x / 2 ^ zero ≡ x = omega arith in
    let plain : y * 2 ^ zero ≡ y = omega arith in rw plain (rw same (omega arith))
bit_and_above (suc k) x y =
    let halves : x / 2 / 2 ^ k ≡ x / 2 ^ suc k =
      div-div-eq-div-mul x 2 (2 ^ k) ∙ ap (λ (d : ℕ). x / d) (sym (pow-succ' 2 k)) in
    let half : y * 2 ^ suc k / 2 ≡ y * 2 ^ k = omega (arith, double_pow y k) in
    let even : y * 2 ^ suc k % 2 ≡ 0 = omega (arith, double_pow y k) in
    let above : bit_and (x / 2) (y * 2 ^ suc k / 2) ≡ bit_and (x / 2 ^ suc k) y * 2 ^ k =
      ap (λ (t : ℕ). bit_and (x / 2) t) half
      ∙ bit_and_above k (x / 2) y
      ∙ ap (λ (t : ℕ). bit_and t y * 2 ^ k) halves in
    omega
      (arith, bit_and_step x (y * 2 ^ suc k), above, even, double_pow (bit_and (x / 2 ^ suc k) y) k)

-- `x & ~0xfff` and `x & ~0x3ff` on 32 bits.
pub bit_and_page : (x : ℕ) → x < 2 ^ 32 → bit_and x (2 ^ 32 - 2 ^ 12) ≡ x / 4096 * 4096
bit_and_page x small = bit_and_above 12 x (2 ^ 20 - 1) ∙ omega (arith, bit_and_mask 20 (x / 4096))

pub bit_and_flags : (x : ℕ) → x < 2 ^ 32 → bit_and x (2 ^ 32 - 2 ^ 10) ≡ x / 1024 * 1024
bit_and_flags x small = bit_and_above 10 x (2 ^ 22 - 1) ∙ omega (arith, bit_and_mask 22 (x / 1024))

-- The lowest bit.
pub bit_and_one : (x : ℕ) → bit_and x 1 ≡ x % 2
bit_and_one x = bit_and_mask 1 x

pub bit_or_lowest : (x y : ℕ) → bit_or x y % 2 ≡ max (x % 2) (y % 2)
bit_or_lowest x y = omega (arith, bit_or_step x y)

pub bit_or_one : (x : ℕ) → bit_or x 1 ≡ x + (1 - x % 2)
bit_or_one x = omega (arith, bit_or_step x 1, bit_or-zero (x / 2))
