-- ===== src/SystemState.antt =====
-- src/system_state.c: the state variable and the queue of requests.
pub mod Requests
use space_baremetal_skeleton.Common.{ℕ, Bool, true, false, Option, none, some}
use space_baremetal_skeleton.Kernel.{Queue, Board}
use space_baremetal_skeleton.States.{SystemState, boot, StateRequest}
use space_baremetal_skeleton.Firmware.{Firmware, say}

module _ (b : Board) where
  -- `system_state_init`
  unfoldable pub init : Firmware → Firmware
  init s = say "[STATE] BOOT\r\n" (record s { state_queue = b.create StateRequest 4; state = boot })

  sent_request : Option (Queue StateRequest) → Firmware → Firmware × Bool
  sent_request none s = (s, false)
  sent_request (some q) s = (record s { state_queue = some q }, true)

  request_to : Option (Queue StateRequest) → StateRequest → Firmware → Firmware × Bool
  unfolding sent_request
  request_to none request s = (s, false)
  request_to (some q) request s = sent_request (b.send q request) s

  -- `system_state_request_change`
  unfoldable pub request_change : SystemState → ℕ → Firmware → Firmware × Bool
  unfolding request_to
  request_change new_state reason s =
      request_to s.state_queue (record { requested_state = new_state; reason_code = reason }) s

-- `system_state_get`
abbrev pub get : Firmware → SystemState
get s = s.state
