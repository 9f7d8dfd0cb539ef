-- ===== src/Prelude/Words.antt =====
-- The widths of the 32-bit build: `size_t` and `uint32_t` have 32 bits.
use Prim.Native.Nat.{ℕ, ◌+◌, ◌-◌, ◌*◌, ◌/◌, ◌%◌, ◌^◌, bit_and}

abbrev pub u8 : ℕ → ℕ
u8 n = n % 2 ^ 8

abbrev pub u16 : ℕ → ℕ
u16 n = n % 2 ^ 16

abbrev pub u32 : ℕ → ℕ
u32 n = n % 2 ^ 32

-- `a - b` on `uint32_t`.
abbrev pub sub32 : ℕ → ℕ → ℕ
sub32 a b = (a + 2 ^ 32 - b) % 2 ^ 32

-- `x << k` before the cast, and `x >> k`.
infixl 75 ◌<<<◌ ◌>>>◌
abbrev pub ◌<<<◌ : ℕ → ℕ → ℕ
x <<< k = x * 2 ^ k

abbrev pub ◌>>>◌ : ℕ → ℕ → ℕ
x >>> k = x / 2 ^ k

-- The macro `ALIGN(value, align)` of common.h at an `align` that the code writes as a power of two:
-- `value + (-value & (align - 1))`.
unfoldable pub align_up : ℕ → ℕ → ℕ
align_up v a = u32 (v + bit_and (sub32 0 v) (a - 1))

abbrev pub page_size : ℕ
page_size = 4096
