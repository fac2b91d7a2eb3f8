-- ===== src/StateMachine/Requests.antt =====
-- From a request of a state to the turn of the state machine that handles it.
use space_baremetal_skeleton.Common.{
  ◌⊎◌, inl, inr, refl, Option, none, ◌<◌, ◌≡◌, ap, ◌∙◌, some, [], ◌∷◌, ◌++◌,
}
use space_baremetal_skeleton.Kernel.{Queue, Board, BoardLaws}
use space_baremetal_skeleton.States.{StateRequest}
use space_baremetal_skeleton.Firmware.{Firmware}
use space_baremetal_skeleton.SystemState.{request_change}
use space_baremetal_skeleton.SystemState.Requests.{with_requests, queued, request_change-queued}
use space_baremetal_skeleton.StateMachine.{turn, received_request, handle_request}

turn-received :
    (b : Board) (q rest : Queue StateRequest) (request : StateRequest) (s : Firmware)
    → b.receive q ≡ some (request, rest)
    → turn b (with_requests q s) ≡ handle_request request (with_requests rest s)
unfolding turn received_request
turn-received b q rest request s got = rw got

-- A state that is requested while the queue of requests is empty is what the state machine's next turn
-- handles, on a firmware that differs from the one before in nothing but its empty queue.
pub turn-request_change :
    (b : Board) (laws : BoardLaws b) (request : StateRequest) (q : Queue StateRequest)
    (s : Firmware)
    → s.state_queue ≡ some q
    → q.items ≡ []
    → 0 < q.capacity
    → turn b (request_change b request.requested_state request.reason_code s).0
      ≡ handle_request request (with_requests (record q { items = [] }) s)
unfolding queued
turn-request_change b laws request q s has empty room =
    ap (λ r. turn b r.0) (request_change-queued b laws request q s has (rw empty room))
    ∙ turn-received b (queued request q) (record q { items = [] }) request s
        (laws.receive_first (queued request q) request [] (ap (λ l. l ++ (request ∷ [])) empty))

-- What holds of the firmware and of it with a received request handled holds behind a turn.
pub turn-keeps :
    (b : Board) (P : Firmware → Type 0) (s : Firmware)
    → P s
    → ((q p : Queue StateRequest) (request : StateRequest)
        → s.state_queue ≡ some q
        → b.receive q ≡ some (request, p)
        → P (handle_request request (with_requests p s)))
    → P (turn b s)
unfolding turn received_request
turn-keeps b P s kept handled = by_queue s.state_queue refl
  where
    by_receive :
        (q : Queue StateRequest) (o : Option (StateRequest × Queue StateRequest))
        → s.state_queue ≡ some q
        → b.receive q ≡ o
        → P (received_request o s)
    by_receive q none has e = kept
    by_receive q (some (request, p)) has e = handled q p request has e

    by_queue :
        (o : Option (Queue StateRequest))
        → s.state_queue ≡ o
        → P (elim o [ none ↦ s | some q ↦ received_request (b.receive q) s ])
    by_queue none has = kept
    by_queue (some q) has = by_receive q (b.receive q) has refl

-- A turn of the state machine does nothing, or handles a request that it received.
pub turn-cases :
    (b : Board) (s : Firmware)
    → (turn b s ≡ s)
      ⊎ ((request : StateRequest) × (q : Queue StateRequest) × (turn b s
            ≡ handle_request request (with_requests q s)))
turn-cases b s =
    turn-keeps b
      (λ t.
        (t ≡ s)
        ⊎ ((request : StateRequest) × (q : Queue StateRequest) × (t
              ≡ handle_request request (with_requests q s))))
      s (inl refl) (λ q p request has e. inr (request, p, refl))
