-- ===== src/Tasks/SafeProfile.antt =====
-- The minimal-survival profile of SAFE, in the rounds of the tasks.
use space_baremetal_skeleton.Common.{ℕ, ◌<◌, ◌≡◌, false, some, []}
use space_baremetal_skeleton.Kernel.{Board, BoardLaws}
use space_baremetal_skeleton.States.{safe}
use space_baremetal_skeleton.Firmware.{Firmware, say, print, inject_fault}
use space_baremetal_skeleton.SafePolicy.{
  bit_heartbeat, bit_memscrub, allows_heartbeat_uart, allows_auto_fault_inject,
  allows_background_scrub, allows_manual_fault_inject, allows_seu_escalation,
}
use space_baremetal_skeleton.MemoryScrub.{record_seu}
use space_baremetal_skeleton.Watchdog.{kick}
use space_baremetal_skeleton.Command.{handle}
use space_baremetal_skeleton.Tasks.{heartbeat_turn, fault_inject_turn, scrub_unless, mem_scrub_turn}
use space_baremetal_skeleton.Tasks.Drain.{events, fix_all, drain-fix_all}

-- For a board that meets the kernel's laws, in SAFE: the injection task does nothing, the heartbeat
-- only kicks, the operator's injection leaves the area and the queue of events alone, an upset asks
-- for no state, and with no event in its queue the scrub task only kicks.
pub safe_profile :
    (b : Board) (laws : BoardLaws b) (s : Firmware)
    → s.state ≡ safe
    → (fault_inject_turn b s ≡ s)
      × (heartbeat_turn b s ≡ kick b bit_heartbeat s)
      × ((handle b inject_fault s).area ≡ s.area)
      × ((handle b inject_fault s).fault_queue ≡ s.fault_queue)
      × ((record_seu b s).state_queue ≡ s.state_queue)
      × ((capacity fuel : ℕ)
          → s.fault_queue ≡ some (events capacity [])
          → 0 < fuel
          → mem_scrub_turn b fuel s ≡ some (kick b bit_memscrub s))
unfolding fault_inject_turn heartbeat_turn handle record_seu mem_scrub_turn allows_heartbeat_uart
    allows_auto_fault_inject allows_background_scrub allows_manual_fault_inject
    allows_seu_escalation print say fix_all scrub_unless
safe_profile b laws s e = (
  rw e,
  rw e,
  rw e,
  rw e,
  rw e,
  λ capacity fuel has enough.
      rw ((drain-fix_all b laws capacity [] fuel false s has enough).0) (rw e),
)
