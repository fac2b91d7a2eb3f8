-- ===== src/System/CycleTests.antt =====
-- The theorems on the watchdog's cycles and the state machine's turn at concrete runs.
use space_baremetal_skeleton.Common.{
  inr, ◌<◌, false, none, replicate, ℕ, ◌≡◌, refl, some, [], ◌∷◌, arith,
}
use space_baremetal_skeleton.Kernel.{plain_board, plain_board-Laws}
use space_baremetal_skeleton.States.{nominal}
use space_baremetal_skeleton.Firmware.{Firmware}
use space_baremetal_skeleton.StateMachine
use space_baremetal_skeleton.Samples.{running}
use space_baremetal_skeleton.Watchdog.Idle.{idle, length-idle, idle-All, idle-Passes}
use space_baremetal_skeleton.States.{degraded}
use space_baremetal_skeleton.Common.Bits.{digit-zero}
use space_baremetal_skeleton.Watchdog.{cycle}
use space_baremetal_skeleton.Watchdog.Cycle.{LeavesClear}
use space_baremetal_skeleton.System.Detection.{KeepsCalm, turn-detects}
use space_baremetal_skeleton.Common.{zero, suc, ◌^◌, Option, ap, sym, ◌∙◌, subst, bit_or}
use space_baremetal_skeleton.Common.Bits.{digit}
use space_baremetal_skeleton.Kernel.{Queue}
use space_baremetal_skeleton.States.{StateRequest}
use space_baremetal_skeleton.Watchdog.Bits.{AllSet, AllSet-bit_or_left, AllSet-clear_none}
use space_baremetal_skeleton.Watchdog.Stale.{collect-stale, woken}
use space_baremetal_skeleton.Watchdog.Alive.{Kick}
use space_baremetal_skeleton.System.Recovery.{AllAlive, cycle_all, turn-recovers_degraded}

-- The scrub task has stalled, as all the others.
turn-detects_example :
    (t : Firmware) × (c : ℕ) × (cycle plain_board (idle 3500) 0 running ≡ some (t, c))
    × ((StateMachine.turn plain_board t).state ≡ degraded)
turn-detects_example =
    turn-detects plain_board plain_board-Laws 1 0 (idle 3500) running degraded
      (record { capacity = 4; items = [] }) (omega arith) refl (digit-zero 1)
      (idle-All (LeavesClear 1) (λ s h. h) 3500) (omega arith) idle-Passes
      (omega (arith, length-idle 3500))
      (idle-All (KeepsCalm nominal (record { capacity = 4; items = [] })) (λ s h. h) 3500) refl refl
      (omega arith)

-- Heartbeat alone kicks; the two other bits stand from before.
abbrev heartbeat_kick : Kick
heartbeat_kick = record {
  others = λ s. record s { notification = plain_board.notify s.notification 1 };
  bit = 1;
}

abbrev empty_requests : Queue StateRequest
empty_requests = record { capacity = 4; items = [] }

digit_standing : (v : ℕ) → AllSet v → (i : ℕ) → i < 3 → digit i v ≡ 1
digit_standing v set zero h = set.0
digit_standing v set (suc zero) h = set.1
digit_standing v set (suc (suc zero)) h = set.2
digit_standing v set (suc (suc (suc i))) h = absurd (omega arith)

beating-AllAlive :
    (n : ℕ) (s : Firmware)
    → s.tick < 2 ^ 31
    → AllSet s.notification.value
    → AllAlive plain_board empty_requests (replicate n (heartbeat_kick ∷ [])) s
beating-AllAlive zero s small set = tt
beating-AllAlive (suc n) s small set = (
  (
    small,
    (refl, omega arith, omega arith, tt),
    λ i h. inr (digit_standing s.notification.value set i h),
    (λ s h. h, tt),
  ),
  λ u received got.
      let v = s.notification.value in
      let stale =
        collect-stale plain_board plain_board-Laws s.state 1 heartbeat_kick.others [] s.notification
          s small set refl in
      subst (AllAlive plain_board empty_requests (replicate n (heartbeat_kick ∷ [])))
        (ap (first_of s) (sym stale ∙ got))
        (beating-AllAlive n (woken heartbeat_kick.others v 1 s) small
          (AllSet-clear_none (bit_or v 1) (AllSet-bit_or_left v 1 set))),
)
  where
    first_of : Firmware → Option (Firmware × ℕ) → Firmware
    first_of s none = s
    first_of s (some (t, r)) = t

abbrev worse : Firmware
worse = record running { state = degraded; notification = record { value = 7; pending = false } }

turn-recovers_degraded_example :
    (t : Firmware) × (cycle_all plain_board (replicate 5 (heartbeat_kick ∷ [])) 0 worse
      ≡ some (t, 0))
    × ((StateMachine.turn plain_board t).state ≡ nominal)
turn-recovers_degraded_example =
    turn-recovers_degraded plain_board plain_board-Laws empty_requests
      (replicate 5 (heartbeat_kick ∷ [])) worse refl refl refl (omega arith) refl
      (beating-AllAlive 5 worse (omega arith)
        (unfold digit in (omega arith, omega arith, omega arith)))
