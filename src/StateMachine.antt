-- ===== src/StateMachine.antt =====
-- src/state_machine.c: which requests are granted, and the task that applies them.
pub mod Transitions
pub mod Requests
mod Tests
use space_baremetal_skeleton.Common.{
  ℕ, Bool, true, false, not, ◌&&◌, ◌||◌, Option, none, some, leb, ◌==◌, if◌then◌else◌, text, ◌++◌,
}
use space_baremetal_skeleton.Kernel.{Queue, Board}
use space_baremetal_skeleton.States.{
  SystemState, boot, nominal, degraded, safe, rank, same_state, StateRequest,
}
use space_baremetal_skeleton.EventLog.{record_state_change}
use space_baremetal_skeleton.Image.{boot_ok}
use space_baremetal_skeleton.Firmware.{Firmware, say}
use space_baremetal_skeleton.SystemState
use space_baremetal_skeleton.SafePolicy.{on_degraded_enter, on_enter, on_exit}

unfoldable pub allows_request : SystemState → StateRequest → Bool
allows_request current request =
    if leb (rank current) (rank requested)
    then true
    else same_state requested nominal
      && ((same_state current degraded || same_state current safe)
          && (request.reason_code == 0x03 || request.reason_code == 0x10))
  where
    requested : SystemState
    requested = request.requested_state

-- `state_machine_apply_request`; a null pointer is `none`. The first result is `*current` afterwards.
unfoldable pub apply_request : Option SystemState → Option StateRequest → Option SystemState × Bool
apply_request none request = (none, false)
apply_request (some current) none = (some current, false)
apply_request (some current) (some request) =
    if not (allows_request current request)
    then (some current, false)
    else if same_state current request.requested_state
    then (some current, false)
    else (some request.requested_state, true)

log_name : SystemState → Firmware → Firmware
log_name nominal s = say "NOMINAL\r\n" s
log_name degraded s = say "DEGRADED\r\n" s
log_name safe s = say "SAFE\r\n" s
log_name boot s = say "UNKNOWN\r\n" s

-- `state_machine_log_transition`
unfoldable pub log_transition : SystemState → Firmware → Firmware
unfolding log_name
log_transition state s = log_name state (say "[STATE] changed to " s)

-- The policy hooks behind a transition from `previous` to `current`.
unfoldable pub policy_hooks : SystemState → SystemState → Firmware → Firmware
policy_hooks previous current s =
    if same_state current degraded && not (same_state previous degraded)
    then on_degraded_enter s
    else if same_state current safe && not (same_state previous safe)
    then on_enter s
    else if same_state previous safe && not (same_state current safe)
    then on_exit s
    else s

-- What the task does with the result of `state_machine_apply_request`.
unfoldable pub applied : StateRequest → Option SystemState × Bool → Firmware → Firmware
applied request (some current, true) s =
    let previous = s.state in
    let switched = log_transition current (record s { state = current }) in
    policy_hooks previous current (record switched {
      log = record_state_change switched.tick previous current request.reason_code switched.log;
    })
applied request _ s = s

-- A request received from the queue, handled.
unfoldable pub handle_request : StateRequest → Firmware → Firmware
handle_request request s = applied request (apply_request (some s.state) (some request)) s

-- The entry into the first state, with its log entry.
first_state : SystemState → ℕ → Firmware → Firmware
first_state state reason s = record s { log = record_state_change s.tick boot state reason s.log }

-- The part of `vTaskStateMachine` before its loop.
unfoldable pub startup : Board → Firmware → Firmware
unfolding first_state
startup b s =
    let begun = SystemState.init b s in
    if boot_ok begun.integrity
    then first_state nominal 0 (say "[STATE] NOMINAL\r\n" (record begun { state = nominal }))
    else (on_degraded_enter (
        first_state degraded 0x05 (say "[STATE] DEGRADED\r\n" (record begun { state = degraded }))))

received_request : Option (StateRequest × Queue StateRequest) → Firmware → Firmware
received_request none s = s
received_request (some (request, q)) s = handle_request request (record s { state_queue = some q })

-- One turn of the loop: the receive with its timeout, and the request that came. Without a queue
-- the kernel's assertion stops the task, and nothing more happens.
unfoldable pub turn : Board → Firmware → Firmware
unfolding received_request
turn b s = elim s.state_queue [ none ↦ s | some q ↦ received_request (b.receive q) s ]
