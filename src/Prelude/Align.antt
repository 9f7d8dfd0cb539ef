-- ===== src/Prelude/Align.antt =====
-- The macro `ALIGN` of kernel/include/common.h at the alignments that the kernel passes.
use Prim.Native.Nat.{ℕ, ◌+◌, ◌*◌, ◌/◌, ◌^◌, ◌≤◌, ◌<◌}
use mathlib.Core.Path.{◌≡◌}
use native.Mathlib.Omega.{arith}
use nocturne_os_base.Prelude.Words.{align_up, sub32}
use nocturne_os_base.Prelude.Bits.{bit_and_mask, bit_and-zero}

-- The next multiple of the page size.
pub align_up_page : (v : ℕ) → v + 4096 ≤ 2 ^ 32 → align_up v 4096 ≡ (v + 4095) / 4096 * 4096
unfolding align_up
align_up_page v h = omega (arith, bit_and_mask 12 (sub32 0 v))

pub align_up_256 : (v : ℕ) → v + 256 ≤ 2 ^ 32 → align_up v 256 ≡ (v + 255) / 256 * 256
unfolding align_up
align_up_256 v h = omega (arith, bit_and_mask 8 (sub32 0 v))

pub align_up_one : (v : ℕ) → v < 2 ^ 32 → align_up v 1 ≡ v
unfolding align_up
align_up_one v h = omega (arith, bit_and-zero (sub32 0 v))
