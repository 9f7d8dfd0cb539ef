-- ===== src/Strings/Number.antt =====
-- `atoi` and `htoi` of kernel/src/lib/string.c.
use nocturne_os_base.Prelude.{
  ℕ, zero, suc, ◌+◌, ◌-◌, ◌*◌, ◌/◌, ◌^◌, ◌<◌, true, false, none, some, List, [], ◌∷◌, length, ◌==◌,
  u32, sub32, ◌≡◌, arith, ap, sym, ◌∙◌,
}
use native.Mathlib.Nat.{add-mul, mul_assoc, mul_comm, pow-succ', add-mul-mod_self_right}
use nocturne_os_base.Memory.{Memory}
use nocturne_os_base.Strings.{is_digit, decimal, atoi, hex_digit, htoi}

-- The number that digits stand for in a base, the first digit the highest.
abbrev pub value : ℕ → List ℕ → ℕ
value base [] = 0
value base (d ∷ ds) = d * base ^ length ds + value base ds

-- The characters at `p` begin with those of the digits, and `stop` holds of the one behind them.
abbrev pub Spells : (ℕ → ℕ → Type 0) → (ℕ → Type 0) → Memory → ℕ → List ℕ → Type 0
Spells letter stop m p [] = stop (m p)
Spells letter stop m p (d ∷ ds) = letter d (m p) × Spells letter stop m (p + 1) ds

abbrev pub IsDecimal : ℕ → ℕ → Type 0
IsDecimal d c = (d < 10) × (c ≡ 48 + d)

abbrev pub IsNoDigit : ℕ → Type 0
IsNoDigit c = is_digit c ≡ false

-- A remainder may be taken before the next digits are added.
wrap : (x p v : ℕ) → u32 (u32 x * p + v) ≡ u32 (x * p + v)
wrap x p v =
    let q = x / 2 ^ 32 in
    let parts : x ≡ u32 x + q * 2 ^ 32 = omega arith in
    let move : q * 2 ^ 32 * p ≡ q * p * 2 ^ 32 =
      mul_assoc q (2 ^ 32) p
      ∙ ap (λ (t : ℕ). q * t) (mul_comm (2 ^ 32) p)
      ∙ sym (mul_assoc q p (2 ^ 32)) in
    let split : x * p ≡ u32 x * p + q * 2 ^ 32 * p =
      ap (λ (y : ℕ). y * p) parts ∙ add-mul (u32 x) (q * 2 ^ 32) p in
    let back : u32 (u32 x * p + v + q * p * 2 ^ 32) ≡ u32 (u32 x * p + v) =
      add-mul-mod_self_right (u32 x * p + v) (q * p) (2 ^ 32) in
    let sum : x * p + v ≡ u32 x * p + v + q * p * 2 ^ 32 = omega (arith, split, move) in
    sym back ∙ ap (λ (t : ℕ). u32 t) (sym sum)

-- One more digit in front.
shift_in :
    (base n d l v : ℕ) → (n * base + d) * base ^ l + v ≡ n * base ^ suc l + (d * base ^ l + v)
shift_in base n d l v =
    let sum : (n * base + d) * base ^ l ≡ n * base * base ^ l + d * base ^ l =
      add-mul (n * base) d (base ^ l) in
    let power : n * base * base ^ l ≡ n * base ^ suc l =
      mul_assoc n base (base ^ l) ∙ ap (λ (t : ℕ). n * t) (sym (pow-succ' base l)) in
    omega (arith, sum, power)

step :
    (base n d l v : ℕ)
    → u32 (u32 (n * base + d) * base ^ l + v) ≡ u32 (n * base ^ suc l + (d * base ^ l + v))
step base n d l v = wrap (n * base + d) (base ^ l) v ∙ ap (λ (t : ℕ). u32 t) (shift_in base n d l v)

decimal_lem :
    (m : Memory) (p n fuel : ℕ) (ds : List ℕ)
    → Spells IsDecimal IsNoDigit m p ds
    → n < 2 ^ 32
    → length ds < fuel
    → decimal fuel m p n ≡ some (u32 (n * 10 ^ length ds + value 10 ds))
unfolding decimal
decimal_lem m p n zero ds digits small enough = absurd (omega arith)
decimal_lem m p n (suc fuel) [] digits small enough =
    let same : n ≡ u32 (n * 1 + 0) = omega arith in ground (arith, digits, ap some same)
decimal_lem m p n (suc fuel) (d ∷ ds) digits small enough =
    let digit : m p - 48 ≡ d = ground (arith, digits.0) in
    let is : is_digit (m p) ≡ true = ground (arith, digits.0) in
    let ih =
      decimal_lem m (p + 1) (u32 (n * 10 + d)) fuel ds digits.1 (omega arith) (omega arith) in
    rw is (rw digit (ih ∙ ap some (step 10 n d (length ds) (value 10 ds))))

-- `atoi` reads one digit or more up to the first other character, with a minus sign in front or without, and
-- returns their number if it is below 2^31, once it may make one round more than there are digits.
pub atoi_lem :
    (m : Memory) (p fuel : ℕ) (d : ℕ) (ds : List ℕ)
    → length (d ∷ ds) < fuel
    → value 10 (d ∷ ds) < 2 ^ 31
    → (Spells IsDecimal IsNoDigit m p (d ∷ ds) → atoi fuel m p ≡ some (value 10 (d ∷ ds)))
      × (m p ≡ 45
          → Spells IsDecimal IsNoDigit m (p + 1) (d ∷ ds)
          → atoi fuel m p ≡ some (sub32 0 (value 10 (d ∷ ds))))
unfolding atoi
atoi_lem m p fuel d ds enough small =
    let v = value 10 (d ∷ ds) in
    let whole : u32 (0 * 10 ^ length (d ∷ ds) + v) ≡ v = omega arith in
    (
      λ digits. ground (
        arith,
        digits.0,
        decimal_lem m p 0 fuel (d ∷ ds) digits (omega arith) enough,
        ap some whole,
      ),
      λ minus digits.
          ground (
            arith,
            minus,
            decimal_lem m (p + 1) 0 fuel (d ∷ ds) digits (omega arith) enough,
            whole,
          ),
    )

abbrev pub IsHex : ℕ → ℕ → Type 0
IsHex d c = hex_digit c ≡ some d

abbrev pub IsNoHex : ℕ → Type 0
IsNoHex c = hex_digit c ≡ none

hex_digit-nonzero : (c d : ℕ) → hex_digit c ≡ some d → (c == 0) ≡ false
unfolding hex_digit
hex_digit-nonzero c d e = ground arith

htoi_from :
    (m : Memory) (p n fuel : ℕ) (ds : List ℕ)
    → Spells IsHex IsNoHex m p ds
    → n < 2 ^ 32
    → length ds < fuel
    → htoi fuel m p n ≡ some (u32 (n * 16 ^ length ds + value 16 ds))
unfolding htoi
htoi_from m p n zero ds digits small enough = absurd (omega arith)
htoi_from m p n (suc fuel) [] digits small enough =
    let same : n ≡ u32 (n * 1 + 0) = omega arith in ground (arith, digits, ap some same)
htoi_from m p n (suc fuel) (d ∷ ds) digits small enough =
    let ih = htoi_from m (p + 1) (u32 (n * 16 + d)) fuel ds digits.1 (omega arith) (omega arith) in
    let letter : (m p == 0) ≡ false = hex_digit-nonzero (m p) d digits.0 in
    rw letter (rw digits.0 (ih ∙ ap some (step 16 n d (length ds) (value 16 ds))))

-- `htoi` reads the hexadecimal digits up to the first other character and returns their number modulo
-- 2^32, once it may make one round more than there are digits.
pub htoi_lem :
    (m : Memory) (p fuel : ℕ) (ds : List ℕ)
    → Spells IsHex IsNoHex m p ds
    → length ds < fuel
    → htoi fuel m p 0 ≡ some (u32 (value 16 ds))
htoi_lem m p fuel ds digits enough =
    htoi_from m p 0 fuel ds digits (omega arith) enough
    ∙ ap (λ (t : ℕ). some (u32 t)) (whole (16 ^ length ds) (value 16 ds))
  where
    whole : (b v : ℕ) → 0 * b + v ≡ v
    whole b v = omega arith
