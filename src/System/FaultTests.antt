-- ===== src/System/FaultTests.antt =====
-- The theorems on violations and upsets at concrete faults.
use space_baremetal_skeleton.Common.{ℕ, ◌<◌, ◌≡◌, refl, arith, []}
use space_baremetal_skeleton.Kernel.{Queue, plain_board, plain_board-Laws}
use space_baremetal_skeleton.States.{StateRequest}
use space_baremetal_skeleton.Firmware.{Firmware}
use space_baremetal_skeleton.StateMachine
use space_baremetal_skeleton.StateMachine.Transitions.{Switched}
use space_baremetal_skeleton.SystemState.Requests.{with_requests}
use space_baremetal_skeleton.MemoryProtection.{perm_write, region_overlaps, check_access}
use space_baremetal_skeleton.MemoryProtection.Access.{all_grant}
use space_baremetal_skeleton.MemoryScrub.Escalation.{repeat_seu, counted}
use space_baremetal_skeleton.Samples.{running}
use space_baremetal_skeleton.System.Faults.{
  asked_by_protection, asked_by_scrub, noted_violation, turn-violation, turn-fifth_seu,
}

abbrev requests : Queue StateRequest
requests = record { capacity = 4; items = [] }

-- Two violations have been counted; the third writes to the critical text.
abbrev twice_violated : Firmware
twice_violated = record running { violation_count = 2 }

turn-violation_example :
    Switched asked_by_protection (with_requests requests (noted_violation twice_violated)) (
      StateMachine.turn plain_board
        (check_access plain_board 0x80000104 1 perm_write twice_violated).0)
unfolding all_grant region_overlaps
turn-violation_example =
    turn-violation plain_board plain_board-Laws requests twice_violated (omega arith) refl refl
      (omega arith) 0x80000104 1 perm_write refl (omega arith) (omega arith)

turn-fifth_seu_example :
    ((n : ℕ) → n < 5 → repeat_seu plain_board n running ≡ counted n running)
    × Switched asked_by_scrub
        (with_requests requests (record (counted 5 running) { seu_counter = 0 }))
        (StateMachine.turn plain_board (repeat_seu plain_board 5 running))
turn-fifth_seu_example =
    turn-fifth_seu plain_board plain_board-Laws requests running (omega arith) refl (omega arith)
      refl refl (omega arith)
