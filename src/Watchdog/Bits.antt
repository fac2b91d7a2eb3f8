-- ===== src/Watchdog/Bits.antt =====
-- The three notification bits, as binary digits of a 32-bit value.
use space_baremetal_skeleton.Common.{ℕ, zero, suc, ◌<◌, ◌≡◌, refl, ◌∙◌, true, arith, bit_or}
use space_baremetal_skeleton.Common.Bits.{
  bit_and_three, bit_and_seven, digit, digit-bit_or, digit-bit_and, digit-lt,
}
use space_baremetal_skeleton.Kernel.{clear_bits}
use space_baremetal_skeleton.States.{SystemState, safe}
use space_baremetal_skeleton.SafePolicy.{watchdog_expected_bits}
use space_baremetal_skeleton.Watchdog.{covers}

-- How many tasks the watchdog expects in a state: Heartbeat, MemScrub and, but for SAFE, FaultInject.
abbrev pub monitored : SystemState → ℕ
monitored safe = 2
monitored _ = 3

-- The bits received cover the expected ones exactly when each of the monitored digits is set.
pub covers-digit :
    (state : SystemState) (k v : ℕ)
    → covers v (watchdog_expected_bits state) ≡ true
    → k < monitored state
    → digit k v ≡ 1
unfolding watchdog_expected_bits digit
covers-digit safe zero v h lt = ground (arith, bit_and_three v)
covers-digit safe (suc zero) v h lt = ground (arith, bit_and_three v)
covers-digit safe (suc (suc k)) v h lt = absurd (omega arith)
covers-digit _ zero v h lt = ground (arith, bit_and_seven v)
covers-digit _ (suc zero) v h lt = ground (arith, bit_and_seven v)
covers-digit _ (suc (suc zero)) v h lt = ground (arith, bit_and_seven v)
covers-digit _ (suc (suc (suc k))) v h lt = absurd (omega arith)

-- All three digits are set.
abbrev pub AllSet : ℕ → Type 0
AllSet v = (digit 0 v ≡ 1) × (digit 1 v ≡ 1) × (digit 2 v ≡ 1)

pub AllSet-covers :
    (state : SystemState) (v : ℕ) → AllSet v → covers v (watchdog_expected_bits state) ≡ true
unfolding watchdog_expected_bits digit
AllSet-covers safe v h = ground (arith, bit_and_three v)
AllSet-covers _ v h = ground (arith, bit_and_seven v)

pub AllSet-bit_or : (a b : ℕ) → AllSet b → AllSet (bit_or a b)
AllSet-bit_or a b h = (
  omega (arith, digit-bit_or 0 a b, digit-lt 0 a, h.0),
  omega (arith, digit-bit_or 1 a b, digit-lt 1 a, h.1),
  omega (arith, digit-bit_or 2 a b, digit-lt 2 a, h.2),
)

-- Clearing no bits clears no digit.
pub digit-clear_none : (k v : ℕ) → k < 3 → digit k (clear_bits v 0) ≡ digit k v
digit-clear_none k v h = omega (arith, digit-bit_and k v 4294967295, digit-lt k v, full k h)
  where
    full : (k : ℕ) → k < 3 → digit k 4294967295 ≡ 1
    full zero h = unfold digit in refl
    full (suc zero) h = unfold digit in refl
    full (suc (suc zero)) h = unfold digit in refl
    full (suc (suc (suc k))) h = absurd (omega arith)

pub AllSet-clear_none : (v : ℕ) → AllSet v → AllSet (clear_bits v 0)
AllSet-clear_none v h = (
  digit-clear_none 0 v (omega arith) ∙ h.0,
  digit-clear_none 1 v (omega arith) ∙ h.1,
  digit-clear_none 2 v (omega arith) ∙ h.2,
)

pub AllSet-bit_or_left : (a b : ℕ) → AllSet a → AllSet (bit_or a b)
AllSet-bit_or_left a b h = (
  omega (arith, digit-bit_or 0 a b, digit-lt 0 b, h.0),
  omega (arith, digit-bit_or 1 a b, digit-lt 1 b, h.1),
  omega (arith, digit-bit_or 2 a b, digit-lt 2 b, h.2),
)
