-- ===== src/Common/Bits/Bounds.antt =====
-- How large `&` and `|` can be.
use Prim.Native.Nat.{ℕ, zero, suc, ◌/◌, ◌^◌, ◌<◌, bit_and, bit_or, bit_and-bitwise}
use mathlib.Core.Path.{◌≡◌}
use native.Mathlib.Nat.{pow-suc}
use native.Mathlib.Omega.{arith}
use space_baremetal_skeleton.Common.Bits.{zero_of_lt_one, bit_and_halves, bit_or_halves}

bit_and_none : (b : ℕ) → bit_and 0 b ≡ 0
bit_and_none b = simp bit_and-bitwise

pub bit_and-lt : (k a b : ℕ) → a < 2 ^ k → bit_and a b < 2 ^ k
bit_and-lt zero a b h = rw (zero_of_lt_one a h, bit_and_none b) (omega arith)
bit_and-lt (suc k) a b h = omega (
  arith,
  pow-suc 2 k,
  bit_and_halves a b,
  bit_and-lt k (a / 2) (b / 2) (omega (arith, pow-suc 2 k)),
)

pub bit_or-lt : (k a b : ℕ) → a < 2 ^ k → b < 2 ^ k → bit_or a b < 2 ^ k
bit_or-lt zero a b h g = rw (zero_of_lt_one a h, zero_of_lt_one b g) (omega arith)
bit_or-lt (suc k) a b h g = omega (
  arith,
  pow-suc 2 k,
  bit_or_halves a b,
  bit_or-lt k (a / 2) (b / 2) (omega (arith, pow-suc 2 k)) (omega (arith, pow-suc 2 k)),
)
