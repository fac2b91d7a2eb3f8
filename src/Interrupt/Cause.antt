-- ===== src/Interrupt/Cause.antt =====
-- The two tests of the trap handler on MCAUSE, as statements on numbers.
use space_baremetal_skeleton.Common.{
  ℕ, zero, suc, ◌*◌, ◌/◌, ◌%◌, ◌^◌, ◌≤◌, ◌<◌, ◌≡◌, ap, sym, ◌∙◌, true, false, not, bit_and, ◌==◌,
  ==-eq_true, ==-eq_false, arith,
}
use native.Mathlib.Nat.{pow-suc, mul_assoc}
use space_baremetal_skeleton.Common.Bits.{bit_and_halves, bit_and_one, bit_and_fifteen, digit}
use space_baremetal_skeleton.Interrupt.{is_interrupt, is_timer}

-- An exception and an interrupt, by the top bit of a 64-bit word.
abbrev pub IsException : ℕ → Type 0
IsException mcause = mcause < 2 ^ 63

abbrev pub IsInterrupt : ℕ → Type 0
IsInterrupt mcause = (2 ^ 63 ≤ mcause) × (mcause < 2 ^ 64)

bit_and_power : (k a : ℕ) → bit_and a (2 ^ k) ≡ digit k a * 2 ^ k
unfolding digit
bit_and_power zero a = omega (arith, bit_and_one a)
bit_and_power (suc k) a = omega (
  arith,
  pow-suc 2 k,
  bit_and_halves a (2 ^ suc k),
  ap (bit_and (a / 2)) half,
  bit_and_power k (a / 2),
  double k (digit k (a / 2)),
)
  where
    half : 2 ^ suc k / 2 ≡ 2 ^ k
    half = omega (arith, pow-suc 2 k)

    double : (k d : ℕ) → d * 2 ^ suc k ≡ d * 2 ^ k * 2
    double k d = ap (λ p. d * p) (pow-suc 2 k) ∙ sym (mul_assoc d (2 ^ k) 2)

digit_low : (k v : ℕ) → v < 2 ^ k → digit k v ≡ 0
unfolding digit
digit_low zero v h = omega arith
digit_low (suc k) v h = digit_low k (v / 2) (omega (arith, pow-suc 2 k))

digit_top : (k v : ℕ) → 2 ^ k ≤ v → v < 2 ^ suc k → digit k v ≡ 1
unfolding digit
digit_top zero v l h = omega arith
digit_top (suc k) v l h =
    digit_top k (v / 2) (omega (arith, pow-suc 2 k)) (omega (arith, pow-suc 2 k, pow-suc 2 (suc k)))

pub is_interrupt-true : (mcause : ℕ) → IsInterrupt mcause → is_interrupt mcause ≡ true
is_interrupt-true mcause (low, high) = ap not (
    ==-eq_false {a = bit_and mcause (2 ^ 63)} {b = 0}
      (λ e. omega (arith, e, bit_and_power 63 mcause, digit_top 63 mcause low high)))

pub is_interrupt-false : (mcause : ℕ) → IsException mcause → is_interrupt mcause ≡ false
is_interrupt-false mcause low = ap not (
    ==-eq_true {a = bit_and mcause (2 ^ 63)} {b = 0}
      (omega (arith, bit_and_power 63 mcause, digit_low 63 mcause low)))

bit_and_1023 : (a : ℕ) → bit_and a 1023 ≡ a % 1024
bit_and_1023 a = omega (
  arith,
  bit_and_halves a 1023,
  bit_and_halves (a / 2) 511,
  bit_and_halves (a / 2 / 2) 255,
  bit_and_halves (a / 2 / 2 / 2) 127,
  bit_and_halves (a / 2 / 2 / 2 / 2) 63,
  bit_and_halves (a / 2 / 2 / 2 / 2 / 2) 31,
  bit_and_fifteen (a / 2 / 2 / 2 / 2 / 2 / 2),
)

-- The cause is the remainder by 1024.
pub is_timer_remainder : (mcause : ℕ) → is_timer mcause ≡ (mcause % 1024 == 7)
is_timer_remainder mcause = ap (λ n. n == 7) (bit_and_1023 mcause)
