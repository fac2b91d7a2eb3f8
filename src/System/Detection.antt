-- ===== src/System/Detection.antt =====
-- A task that never kicks: the watchdog's cycle, and the turn of the state machine behind it.
use space_baremetal_skeleton.Common.{
  ℕ, ◌^◌, ◌≤◌, ◌<◌, ◌≡◌, refl, ap, sym, ◌∙◌, subst, Option, some, List, [], length,
}
use space_baremetal_skeleton.Common.Bits.{digit}
use space_baremetal_skeleton.Kernel.{Queue, Board, BoardLaws}
use space_baremetal_skeleton.States.{SystemState, StateRequest}
use space_baremetal_skeleton.Firmware.{Firmware}
use space_baremetal_skeleton.SystemState.Requests.{with_requests}
use space_baremetal_skeleton.StateMachine
use space_baremetal_skeleton.StateMachine.{handle_request}
use space_baremetal_skeleton.StateMachine.Transitions.{Transition, handle_request-Switched}
use space_baremetal_skeleton.StateMachine.Requests.{turn-request_change}
use space_baremetal_skeleton.Watchdog.{Others, waited, cycle}
use space_baremetal_skeleton.Watchdog.Bits.{monitored}
use space_baremetal_skeleton.Watchdog.Recovery.{escalated, escalated-Transition}
use space_baremetal_skeleton.Watchdog.Cycle.{All, LeavesClear, Escalates, collected}
use space_baremetal_skeleton.Watchdog.Ends.{Passes, cycle-detects}
use space_baremetal_skeleton.Watchdog.Keeps.{Holds, collect-Holds}

-- The state and the queue of requests that a cycle starts with.
abbrev pub Calm : SystemState → Queue StateRequest → Firmware → Type 0
Calm state rq s = (s.state ≡ state) × (s.state_queue ≡ some rq)

-- The others change no state and ask for none.
abbrev pub KeepsCalm : SystemState → Queue StateRequest → Others → Type 0
KeepsCalm state rq o = (s : Firmware) → Calm state rq s → Calm state rq (o s)

pub waited-Calm :
    (b : Board) (state : SystemState) (rq : Queue StateRequest) (s : Firmware)
    → Calm state rq s
    → Calm state rq (waited b s).0
unfolding waited
waited-Calm b state rq s h = h

-- The state machine's turn behind a missed cycle, by the state in which the collecting ended.
turn-Escalates :
    (b : Board) (laws : BoardLaws b) (state next : SystemState) (missing : ℕ)
    (rq : Queue StateRequest) (u t : Firmware)
    → escalated state ≡ some next
    → rq.items ≡ []
    → 0 < rq.capacity
    → Calm state rq u
    → Escalates b state next missing u t
    → (StateMachine.turn b t).state ≡ next
turn-Escalates b laws state next missing rq u t e empty room calm
      (v, requested, logged, same, queue) =
    let request : StateRequest = record { requested_state = next; reason_code = 0x01 } in
    let w = with_requests (record rq { items = [] }) v in
    let way : Transition w.state 0x01 next =
      subst (λ x. Transition x 0x01 next) (sym (same ∙ calm.0))
        (escalated-Transition state next e) in
    ap (λ x. (StateMachine.turn b x).state) requested
    ∙ ap (λ x. x.state) (turn-request_change b laws request rq v (queue ∙ calm.1) empty room)
    ∙ (handle_request-Switched w request way).state

pub held :
    (P : Firmware → Type 0) (got : Option (Firmware × ℕ)) (u : Firmware) (received : ℕ)
    → got ≡ some (u, received)
    → Holds P got
    → P u
held P got u received e h = subst (Holds P) e h

-- For a board that meets the kernel's laws and outside SAFE: a monitored task that has never set
-- its bit and does not set it during the cycle brings the next worse state into force by the state
-- machine's turn behind the cycle, which ends; this is when 3500 waits each let at least one and at
-- most 2 ^ 30 ticks pass from a tick count below 2 ^ 31, the others neither change the state nor
-- ask for one, and the queue of requests is empty with room.
pub turn-detects :
    (b : Board) (laws : BoardLaws b) (k cycles : ℕ) (others : List Others) (s : Firmware)
    (next : SystemState) (rq : Queue StateRequest)
    → k < monitored s.state
    → escalated s.state ≡ some next
    → digit k s.notification.value ≡ 0
    → All (LeavesClear k) others
    → s.tick < 2 ^ 31
    → All Passes others
    → 3500 ≤ length others
    → All (KeepsCalm s.state rq) others
    → s.state_queue ≡ some rq
    → rq.items ≡ []
    → 0 < rq.capacity
    → (t : Firmware) × (c : ℕ) × (cycle b others cycles s ≡ some (t, c))
      × ((StateMachine.turn b t).state ≡ next)
turn-detects b laws k cycles others s next rq lt e clear leaves small passes enough calm has empty
      room =
    let (t, c, ended, (u, received, got, judged)) =
      cycle-detects b laws k cycles others s next lt e clear leaves small passes enough in
    (
      t,
      c,
      ended,
      turn-Escalates b laws s.state next _ rq u t e empty room
          (held (Calm s.state rq) (collected b others s) u received got (
            collect-Holds b (Calm s.state rq) (waited-Calm b s.state rq) _ _ others 0 s calm
              (refl, has)))
          judged,
    )
