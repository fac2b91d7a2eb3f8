-- ===== src/Watchdog/Recovery.antt =====
-- `watchdog_evaluate_cycle`: recovery behind five good cycles, and escalation on a bad one.
use space_baremetal_skeleton.Common.{
  ℕ, zero, suc, ◌+◌, ◌<◌, ◌≡◌, ap, ◌∙◌, true, false, Option, none, some, arith,
}
use space_baremetal_skeleton.Kernel.{Board}
use space_baremetal_skeleton.States.{SystemState, boot, nominal, degraded, safe}
use space_baremetal_skeleton.Firmware.{Firmware}
use space_baremetal_skeleton.SystemState.{request_change}
use space_baremetal_skeleton.StateMachine.Transitions.{Transition, escalate}
use space_baremetal_skeleton.Watchdog.{covers, evaluate}

-- `n` cycles in DEGRADED, each with the bits received.
unfoldable pub degraded_cycles : Board → ℕ → ℕ → ℕ → Firmware × ℕ → Firmware × ℕ
degraded_cycles b received expected zero r = r
degraded_cycles b received expected (suc n) (s, cycles) =
    degraded_cycles b received expected n (evaluate b received expected degraded cycles s)

module _ (b : Board) (received expected : ℕ) (good : covers received expected ≡ true) where
  pub evaluate-counts :
      (cycles : ℕ) (s : Firmware)
      → cycles < 4
      → evaluate b received expected degraded cycles s ≡ (s, suc cycles)
  unfolding evaluate
  evaluate-counts cycles s h = rw good (ground arith)

  pub evaluate-recovers :
      (s : Firmware)
      → evaluate b received expected degraded 4 s ≡ ((request_change b nominal 0x03 s).0, 0)
  unfolding evaluate
  evaluate-recovers s = rw good

  degraded_cycles-counts :
      (n cycles : ℕ) (s : Firmware)
      → cycles + n < 5
      → degraded_cycles b received expected n (s, cycles) ≡ (s, cycles + n)
  unfolding degraded_cycles
  degraded_cycles-counts zero cycles s h = ap (λ c. (s, c)) (omega arith)
  degraded_cycles-counts (suc n) cycles s h =
      ap (degraded_cycles b received expected n) (evaluate-counts cycles s (omega arith))
      ∙ degraded_cycles-counts n (suc cycles) s (omega arith)
      ∙ ap (λ c. (s, c)) (omega arith)

  -- In DEGRADED, fewer than five good cycles only count; the fifth requests NOMINAL with reason 3, once,
  -- and starts the count again.
  pub degraded_cycles-recover :
      (s : Firmware)
      → ((n : ℕ) → n < 5 → degraded_cycles b received expected n (s, 0) ≡ (s, n))
        × (degraded_cycles b received expected 5 (s, 0) ≡ ((request_change b nominal 0x03 s).0, 0))
  unfolding degraded_cycles
  degraded_cycles-recover s = (
    λ n h. degraded_cycles-counts n 0 s (omega arith) ∙ ap (λ c. (s, c)) (omega arith),
    ap (degraded_cycles b received expected 4) (evaluate-counts 0 s (omega arith))
        ∙ ap (degraded_cycles b received expected 3) (evaluate-counts 1 s (omega arith))
        ∙ ap (degraded_cycles b received expected 2) (evaluate-counts 2 s (omega arith))
        ∙ ap (degraded_cycles b received expected 1) (evaluate-counts 3 s (omega arith))
        ∙ evaluate-recovers s,
  )

-- Where a missed cycle leads.
abbrev pub escalated : SystemState → Option SystemState
escalated boot = some degraded
escalated nominal = some degraded
escalated degraded = some safe
escalated safe = none

pub escalated-Transition :
    (state next : SystemState) → escalated state ≡ some next → Transition state 0x01 next
escalated-Transition boot next e = escalate (ground arith)
escalated-Transition nominal next e = escalate (ground arith)
escalated-Transition degraded next e = escalate (ground arith)
escalated-Transition safe next e = cc

-- A cycle with a bit missing requests the next worse state with reason 1, a transition that the state
-- machine grants; in SAFE it does nothing. The count of good cycles is left as it was.
pub evaluate-escalates :
    (b : Board) (received expected cycles : ℕ) (state : SystemState) (s : Firmware)
    → covers received expected ≡ false
    → ((next : SystemState)
        → escalated state ≡ some next
        → (evaluate b received expected state cycles s ≡ ((request_change b next 0x01 s).0, cycles))
          × Transition state 0x01 next)
      × (escalated state ≡ none → evaluate b received expected state cycles s ≡ (s, cycles))
unfolding evaluate
evaluate-escalates b received expected cycles state s bad =
    (λ next e. (requests state next e, escalated-Transition state next e), λ e. quiet state e)
  where
    requests :
        (state next : SystemState)
        → escalated state ≡ some next
        → evaluate b received expected state cycles s ≡ ((request_change b next 0x01 s).0, cycles)
    requests state next e = rw bad (ground arith)

    quiet :
        (state : SystemState)
        → escalated state ≡ none
        → evaluate b received expected state cycles s ≡ (s, cycles)
    quiet state e = rw bad (ground arith)
