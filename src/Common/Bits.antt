-- ===== src/Common/Bits.antt =====
-- Laws of `&`, `|` and `^` on numbers of any width, from one equation for the lowest digit.
pub mod Bounds
use Prim.Native.Nat.{
  ℕ, zero, suc, ◌+◌, ◌*◌, ◌/◌, ◌%◌, ◌^◌, ◌≤◌, ◌<◌, min, max, bit_and, bit_or, bit_xor, digits,
  bitwise, bit_and-bitwise, bit_or-bitwise, bit_xor-bitwise, differ,
}
use mathlib.Core.Path.{◌≡◌, refl, sym, ap, ◌∙◌}
use native.Mathlib.Nat.{le_refl, pow-suc}
use native.Mathlib.Omega.{arith}

module _ (z : ℕ → ℕ) (f : ℕ → ℕ → ℕ) where
  -- Fuel above the first number does not matter.
  digits_enough : (n m a b : ℕ) → a ≤ n → a ≤ m → digits z f n a b ≡ digits z f m a b
  digits_enough zero zero a b p q = refl
  digits_enough zero (suc m) zero b p q = refl
  digits_enough zero (suc m) (suc a) b p q = absurd (omega arith)
  digits_enough (suc n) zero zero b p q = refl
  digits_enough (suc n) zero (suc a) b p q = absurd (omega arith)
  digits_enough (suc n) (suc m) zero b p q = refl
  digits_enough (suc n) (suc m) (suc a) b p q =
      rw (digits_enough n m (suc a / 2) (b / 2) (omega arith) (omega arith))

  bitwise-halves :
      (a b : ℕ)
      → bitwise z f (suc a) b ≡ bitwise z f (suc a / 2) (b / 2) * 2 + f (suc a % 2) (b % 2)
  bitwise-halves a b =
      omega (arith, digits_enough a (suc a / 2) (suc a / 2) (b / 2) (omega arith) (le_refl _))

differ_digits : (a b : ℕ) → differ (a % 2) (b % 2) ≡ (a + b) % 2
differ_digits a b = by_digits (a % 2) (b % 2) (omega arith) (omega arith) ∙ omega arith
  where
    by_digits : (x y : ℕ) → x < 2 → y < 2 → differ x y ≡ (x + y) % 2
    by_digits zero zero h k = refl
    by_digits zero (suc zero) h k = refl
    by_digits zero (suc (suc y)) h k = absurd (omega arith)
    by_digits (suc zero) zero h k = refl
    by_digits (suc zero) (suc zero) h k = refl
    by_digits (suc zero) (suc (suc y)) h k = absurd (omega arith)
    by_digits (suc (suc x)) y h k = absurd (omega arith)

pub bit_xor_halves : (a b : ℕ) → bit_xor a b ≡ bit_xor (a / 2) (b / 2) * 2 + (a + b) % 2
bit_xor_halves zero b = simp bit_xor-bitwise (omega arith)
bit_xor_halves (suc a) b =
    rw (← differ_digits (suc a) b) (simp bit_xor-bitwise (bitwise-halves (λ y. y) differ a b))

pub zero_of_lt_one : (n : ℕ) → n < 2 ^ 0 → n ≡ 0
zero_of_lt_one n l = omega arith

-- The laws go by induction on a width `k` that holds both numbers.
pub bit_xor-lt : (k a b : ℕ) → a < 2 ^ k → b < 2 ^ k → bit_xor a b < 2 ^ k
bit_xor-lt zero a b h g = rw (zero_of_lt_one a h, zero_of_lt_one b g) (omega arith)
bit_xor-lt (suc k) a b h g = omega (
  arith,
  pow-suc 2 k,
  bit_xor_halves a b,
  bit_xor-lt k (a / 2) (b / 2) (omega (arith, pow-suc 2 k)) (omega (arith, pow-suc 2 k)),
)

bit_xor_self_within : (k a b : ℕ) → a < 2 ^ k → b < 2 ^ k → bit_xor (bit_xor a b) b ≡ a
bit_xor_self_within zero a b h g = rw (zero_of_lt_one a h, zero_of_lt_one b g)
bit_xor_self_within (suc k) a b h g = omega (
  arith,
  pow-suc 2 k,
  bit_xor_halves (bit_xor a b) b,
  ap (λ t. bit_xor t (b / 2)) half,
  bit_xor_halves a b,
  bit_xor_self_within k (a / 2) (b / 2) (omega (arith, pow-suc 2 k)) (omega (arith, pow-suc 2 k)),
)
  where
    half : bit_xor a b / 2 ≡ bit_xor (a / 2) (b / 2)
    half = omega (arith, bit_xor_halves a b)

-- `^` with a fixed word is undone by itself, so it loses nothing.
pub bit_xor-injective :
    (k a b p : ℕ) → a < 2 ^ k → b < 2 ^ k → p < 2 ^ k → bit_xor a p ≡ bit_xor b p → a ≡ b
bit_xor-injective k a b p ha hb hp e =
    sym (bit_xor_self_within k a p ha hp)
    ∙ ap (λ t. bit_xor t p) e
    ∙ bit_xor_self_within k b p hb hp

pub bit_xor_comm : (k a b : ℕ) → a < 2 ^ k → b < 2 ^ k → bit_xor a b ≡ bit_xor b a
bit_xor_comm zero a b h g = rw (zero_of_lt_one a h, zero_of_lt_one b g)
bit_xor_comm (suc k) a b h g = omega (
  arith,
  bit_xor_halves a b,
  bit_xor_halves b a,
  bit_xor_comm k (a / 2) (b / 2) (omega (arith, pow-suc 2 k)) (omega (arith, pow-suc 2 k)),
)

-- The top bit of a word survives `^` with a number that lacks it.
pub bit_xor_top : (k a b : ℕ) → a < 2 ^ k → 2 ^ k ≤ b → b < 2 ^ suc k → 2 ^ k ≤ bit_xor a b
bit_xor_top zero a b h g l = omega (arith, bit_xor_halves a b)
bit_xor_top (suc k) a b h g l = omega (
  arith,
  pow-suc 2 k,
  pow-suc 2 (suc k),
  bit_xor_halves a b,
  bit_xor_top k (a / 2) (b / 2) (omega (arith, pow-suc 2 k)) (omega (arith, pow-suc 2 k))
      (omega (arith, pow-suc 2 k, pow-suc 2 (suc k))),
)

pub bit_and_halves : (a b : ℕ) → bit_and a b ≡ bit_and (a / 2) (b / 2) * 2 + min (a % 2) (b % 2)
bit_and_halves zero b = simp bit_and-bitwise (omega arith)
bit_and_halves (suc a) b = simp bit_and-bitwise (bitwise-halves (λ y. 0) min a b)

bit_and-zero_within : (k a : ℕ) → a ≤ k → bit_and a 0 ≡ 0
bit_and-zero_within zero a h = rw (zero_of_le a h)
  where
    zero_of_le : (n : ℕ) → n ≤ 0 → n ≡ 0
    zero_of_le n l = omega arith
bit_and-zero_within (suc k) zero h = refl
bit_and-zero_within (suc k) (suc a) h =
    omega (arith, bit_and_halves (suc a) 0, bit_and-zero_within k (suc a / 2) (omega arith))

pub bit_and-zero : (a : ℕ) → bit_and a 0 ≡ 0
bit_and-zero a = bit_and-zero_within a a (le_refl a)

-- A mask of low bits is a remainder.
pub bit_and_one : (a : ℕ) → bit_and a 1 ≡ a % 2
bit_and_one a = omega (arith, bit_and_halves a 1, bit_and-zero (a / 2))

pub bit_and_fifteen : (a : ℕ) → bit_and a 15 ≡ a % 16
bit_and_fifteen a = omega (
  arith,
  bit_and_halves a 15,
  bit_and_halves (a / 2) 7,
  bit_and_halves (a / 2 / 2) 3,
  bit_and_one (a / 2 / 2 / 2),
)

pub bit_and_three : (a : ℕ) → bit_and a 3 ≡ a % 4
bit_and_three a = omega (arith, bit_and_halves a 3, bit_and_one (a / 2))

pub bit_and_seven : (a : ℕ) → bit_and a 7 ≡ a % 8
bit_and_seven a = omega (arith, bit_and_halves a 7, bit_and_three (a / 2))

pub bit_or_halves : (a b : ℕ) → bit_or a b ≡ bit_or (a / 2) (b / 2) * 2 + max (a % 2) (b % 2)
bit_or_halves zero b = simp bit_or-bitwise (omega arith)
bit_or_halves (suc a) b = simp bit_or-bitwise (bitwise-halves (λ y. y) max a b)

-- The binary digit at a place.
unfoldable pub digit : ℕ → ℕ → ℕ
digit zero v = v % 2
digit (suc k) v = digit k (v / 2)

pub digit-bit_or : (k a b : ℕ) → digit k (bit_or a b) ≡ max (digit k a) (digit k b)
unfolding digit
digit-bit_or zero a b = omega (arith, bit_or_halves a b)
digit-bit_or (suc k) a b = ap (digit k) half ∙ digit-bit_or k (a / 2) (b / 2)
  where
    half : bit_or a b / 2 ≡ bit_or (a / 2) (b / 2)
    half = omega (arith, bit_or_halves a b)

pub digit-bit_and : (k a b : ℕ) → digit k (bit_and a b) ≡ min (digit k a) (digit k b)
unfolding digit
digit-bit_and zero a b = omega (arith, bit_and_halves a b)
digit-bit_and (suc k) a b = ap (digit k) half ∙ digit-bit_and k (a / 2) (b / 2)
  where
    half : bit_and a b / 2 ≡ bit_and (a / 2) (b / 2)
    half = omega (arith, bit_and_halves a b)

pub digit-lt : (k v : ℕ) → digit k v < 2
unfolding digit
digit-lt zero v = omega arith
digit-lt (suc k) v = digit-lt k (v / 2)

pub digit-zero : (k : ℕ) → digit k 0 ≡ 0
unfolding digit
digit-zero zero = refl
digit-zero (suc k) = digit-zero k
