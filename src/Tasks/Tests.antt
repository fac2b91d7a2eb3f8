-- ===== src/Tasks/Tests.antt =====
-- The scrub task with two events in its queue.
use space_baremetal_skeleton.Common.{ℕ, ◌<◌, ◌≡◌, refl, true, false, some, List, [], ◌∷◌, arith}
use space_baremetal_skeleton.Kernel.{plain_board, plain_board-Laws}
use space_baremetal_skeleton.States.{safe}
use space_baremetal_skeleton.SafePolicy.{bit_heartbeat, bit_memscrub}
use space_baremetal_skeleton.MemoryScrub.{record_seu}
use space_baremetal_skeleton.Watchdog.{kick}
use space_baremetal_skeleton.Command.{handle}
use space_baremetal_skeleton.Firmware.{FaultEvent, Firmware, inject_fault}
use space_baremetal_skeleton.Samples.{running}
use space_baremetal_skeleton.Tasks.{heartbeat_turn, fault_inject_turn, drain, mem_scrub_turn}
use space_baremetal_skeleton.Tasks.Drain.{events, fix_all, drain-fix_all}
use space_baremetal_skeleton.Tasks.SafeProfile.{safe_profile}

abbrev two_events : List FaultEvent
two_events = record { index = 3; bit = 0 } ∷ record { index = 700; bit = 1 } ∷ []

abbrev waiting : Firmware
waiting = record running { fault_queue = some (events 5 two_events) }

drain-fix_all_example :
    (drain plain_board 3 false waiting ≡ some (fix_all plain_board 5 two_events waiting, true))
    × ((fix_all plain_board 5 two_events waiting).fault_queue ≡ some (events 5 []))
drain-fix_all_example =
    drain-fix_all plain_board plain_board-Laws 5 two_events 3 false waiting refl (omega arith)

abbrev surviving : Firmware
surviving = record running { state = safe }

safe_profile_example :
    (fault_inject_turn plain_board surviving ≡ surviving)
    × (heartbeat_turn plain_board surviving ≡ kick plain_board bit_heartbeat surviving)
    × ((handle plain_board inject_fault surviving).area ≡ surviving.area)
    × ((handle plain_board inject_fault surviving).fault_queue ≡ surviving.fault_queue)
    × ((record_seu plain_board surviving).state_queue ≡ surviving.state_queue)
    × ((capacity fuel : ℕ)
        → surviving.fault_queue ≡ some (events capacity [])
        → 0 < fuel
        → mem_scrub_turn plain_board fuel surviving
          ≡ some (kick plain_board bit_memscrub surviving))
safe_profile_example = safe_profile plain_board plain_board-Laws surviving refl
