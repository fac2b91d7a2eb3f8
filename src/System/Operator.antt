-- ===== src/System/Operator.antt =====
-- From the operator's key to the state.
use space_baremetal_skeleton.Common.{arith, ◌<◌, ◌≡◌, ap, sym, ◌∙◌, subst, Option, none, some, []}
use space_baremetal_skeleton.Kernel.{Queue, Board, BoardLaws}
use space_baremetal_skeleton.States.{SystemState, nominal, degraded, safe, StateRequest}
use space_baremetal_skeleton.EventLog.{record_operator}
use space_baremetal_skeleton.Firmware.{Command, go_nominal, go_degraded, go_safe, Firmware}
use space_baremetal_skeleton.SystemState.{request_change}
use space_baremetal_skeleton.StateMachine
use space_baremetal_skeleton.StateMachine.{handle_request}
use space_baremetal_skeleton.StateMachine.Transitions.{
  Transition, Switched, handle_request-Switched, handle_request-refused,
}
use space_baremetal_skeleton.SystemState.Requests.{with_requests}
use space_baremetal_skeleton.StateMachine.Requests.{turn-request_change}
use space_baremetal_skeleton.Command.{handle, input_turn, handler_turn}
use space_baremetal_skeleton.Command.Typed.{letter, with_commands, handler_turn-input_turn}

-- The state that a command asks for.
abbrev pub target : Command → Option SystemState
target go_nominal = some nominal
target go_degraded = some degraded
target go_safe = some safe
target _ = none

-- The operator's request of a state.
abbrev pub asked_by_operator : SystemState → StateRequest
asked_by_operator state = record { requested_state = state; reason_code = 0x10 }

-- The firmware with both queues empty again and the key logged.
abbrev pub noted : Command → Queue Command → Queue StateRequest → Firmware → Firmware
noted cmd q rq s =
    with_requests (record rq { items = [] })
      (record (with_commands (record q { items = [] }) s) {
        log = record_operator s.tick (letter cmd) s.log;
      })

handle-requests :
    (b : Board) (cmd : Command) (state : SystemState) (s : Firmware)
    → target cmd ≡ some state
    → handle b cmd s
      ≡ (request_change b state 0x10
          (record s { log = record_operator s.tick (letter cmd) s.log })).0
unfolding handle
handle-requests b cmd state s e = ground arith

-- For a board that meets the kernel's laws, a state's key typed while the queues of commands and of
-- requests are empty and have room: after a turn of the handler and one of the state machine the
-- request has been carried out with the operator's entry in the log, when the diagram has the
-- transition, and nothing else has changed when it has not.
pub turn-typed :
    (b : Board) (laws : BoardLaws b) (cmd : Command) (state : SystemState) (q : Queue Command)
    (rq : Queue StateRequest) (s : Firmware)
    → target cmd ≡ some state
    → s.command_queue ≡ some q
    → q.items ≡ []
    → 0 < q.capacity
    → s.state_queue ≡ some rq
    → rq.items ≡ []
    → 0 < rq.capacity
    → let t = StateMachine.turn b (handler_turn b (input_turn b (some (letter cmd)) s)) in
      (Transition s.state 0x10 state → Switched (asked_by_operator state) (noted cmd q rq s) t)
      × (¬ Transition s.state 0x10 state → t ≡ noted cmd q rq s)
turn-typed b laws cmd state q rq s e has empty room has_requests no_request room_requests =
    let arrived =
      ap (StateMachine.turn b)
        (handler_turn-input_turn b laws cmd q s has empty room ∙ handle-requests b cmd state _ e)
      ∙ turn-request_change b laws (asked_by_operator state) rq _ has_requests no_request
          room_requests in
    (
      λ way.
          subst (Switched (asked_by_operator state) (noted cmd q rq s)) (sym arrived)
            (handle_request-Switched (noted cmd q rq s) (asked_by_operator state) way),
      λ no_way.
          arrived ∙ handle_request-refused (noted cmd q rq s) (asked_by_operator state) no_way,
    )
