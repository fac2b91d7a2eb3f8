-- ===== src/SystemState/Requests.antt =====
-- A request that the queue has room for.
use space_baremetal_skeleton.Common.{
  ℕ, ◌<◌, ◌≡◌, refl, true, Option, none, some, [], ◌∷◌, ◌++◌, length,
}
use space_baremetal_skeleton.Kernel.{Queue, Board, BoardLaws}
use space_baremetal_skeleton.States.{SystemState, StateRequest}
use space_baremetal_skeleton.Firmware.{Firmware}
use space_baremetal_skeleton.SystemState.{request_change, request_to, sent_request}

-- The firmware with a queue of requests.
abbrev pub with_requests : Queue StateRequest → Firmware → Firmware
with_requests q s = record s { state_queue = some q }

-- The queue with a request behind the others.
unfoldable pub queued : StateRequest → Queue StateRequest → Queue StateRequest
queued request q = record q { items = q.items ++ (request ∷ []) }

pub request_change-queued :
    (b : Board) (laws : BoardLaws b) (request : StateRequest) (q : Queue StateRequest)
    (s : Firmware)
    → s.state_queue ≡ some q
    → length q.items < q.capacity
    → request_change b request.requested_state request.reason_code s
      ≡ (with_requests (queued request q) s, true)
unfolding request_change request_to sent_request queued
request_change-queued b laws request q s has room = rw (has, laws.send_room q request room)

-- What holds of the firmware and of it with the request sent holds behind the call.
pub request_change-keeps :
    (b : Board) (P : Firmware → Type 0) (state : SystemState) (reason : ℕ) (s : Firmware)
    → P s
    → ((q p : Queue StateRequest)
        → s.state_queue ≡ some q
        → b.send q (record { requested_state = state; reason_code = reason }) ≡ some p
        → P (with_requests p s))
    → P (request_change b state reason s).0
unfolding request_change request_to sent_request
request_change-keeps b P state reason s kept sent = by_queue s.state_queue refl
  where
    request : StateRequest
    request = record { requested_state = state; reason_code = reason }

    by_send :
        (q : Queue StateRequest) (o : Option (Queue StateRequest))
        → s.state_queue ≡ some q
        → b.send q request ≡ o
        → P (sent_request b o s).0
    by_send q none has e = kept
    by_send q (some p) has e = sent q p has e

    by_queue :
        (o : Option (Queue StateRequest)) → s.state_queue ≡ o → P (request_to b o request s).0
    by_queue none has = kept
    by_queue (some q) has = by_send q (b.send q request) has refl
