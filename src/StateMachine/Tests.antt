-- ===== src/StateMachine/Tests.antt =====
-- The theorems on the state machine at concrete requests.
use space_baremetal_skeleton.Common.{◌≡◌, ◌↔◌, refl, inl, inr, true, false, some, arith}
use space_baremetal_skeleton.States.{nominal, degraded, safe, StateRequest}
use space_baremetal_skeleton.Firmware.{Firmware}
use space_baremetal_skeleton.Samples.{running}
use space_baremetal_skeleton.StateMachine.{apply_request, handle_request}
use space_baremetal_skeleton.StateMachine.Transitions.{
  Transition, escalate, recover, apply_request_iff, Switched, handle_request-Switched,
}

-- The watchdog asks to leave SAFE.
abbrev recovery : StateRequest
recovery = record { requested_state = nominal; reason_code = 0x03 }

-- The scrub task asks for DEGRADED.
abbrev upsets : StateRequest
upsets = record { requested_state = degraded; reason_code = 0x02 }

-- The scrub task would leave SAFE for DEGRADED, which is never granted.
abbrev in_safe : Firmware
in_safe = record running { state = safe }

not_down : ¬ Transition safe 0x02 degraded
not_down (escalate h) = absurd (omega arith)
not_down (recover e f g) = absurd (ground arith)

apply_request_iff_example :
    (((apply_request (some safe) (some recovery)).1 ≡ true) ↔ Transition safe 0x03 nominal)
    × ((apply_request (some safe) (some recovery)).1 ≡ true
        → (apply_request (some safe) (some recovery)).0 ≡ some nominal)
    × ((apply_request (some safe) (some recovery)).1 ≡ false
        → (apply_request (some safe) (some recovery)).0 ≡ some safe)
apply_request_iff_example = apply_request_iff safe nominal 0x03

handle_request-Switched_example : Switched recovery in_safe (handle_request recovery in_safe)
handle_request-Switched_example =
    handle_request-Switched in_safe recovery (recover refl (inr refl) (inl refl))
