-- ===== src/System/Safety.antt =====
-- What holds in every order of the tasks' rounds.
use space_baremetal_skeleton.Common.{
  ℕ, ◌≡◌, ◌⊎◌, refl, ap, sym, ◌∙◌, subst, Bool, true, false, arith, length, inl, inr, if◌then◌else◌,
}
use space_baremetal_skeleton.Kernel.{Board, Queue}
use space_baremetal_skeleton.States.{safe, StateRequest, same_state}
use space_baremetal_skeleton.EventLog.{EventLog, record_state_change, record_safe_policy}
use space_baremetal_skeleton.EventLog.Ring.{IsValid, write_entry-IsValid}
use space_baremetal_skeleton.Firmware.{Firmware}
use space_baremetal_skeleton.StateMachine
use space_baremetal_skeleton.StateMachine.{handle_request}
use space_baremetal_skeleton.StateMachine.Transitions.{Transition, Switched, handle_request-cases}
use space_baremetal_skeleton.StateMachine.Requests.{turn-cases}
use space_baremetal_skeleton.SystemState.Requests.{with_requests}
use space_baremetal_skeleton.MemoryScrub.Access.{IsAccessible-same}
use space_baremetal_skeleton.System.{
  Step, time, state_machine, heartbeat, fault_inject, mem_scrub, command_input, command_handler,
  watchdog_wait, watchdog_judge, Reach, here, next,
}
use space_baremetal_skeleton.System.Frame.{Frame, Quiet, Quiet-Frame}
use space_baremetal_skeleton.System.Invariant.{IsSound, IsSound-Frame, kick_access-same}
use space_baremetal_skeleton.System.Turns.{
  heartbeat_turn-Frame, fault_inject_turn-Frame, mem_scrub_turn-Frame, input_turn-Frame,
  handler_turn-Frame, waited-Frame, finish_cycle-Frame,
}

time-Quiet : (now : ℕ) (s : Firmware) → Quiet s (record s { tick = now })
time-Quiet now s = ground arith

-- A round leaves the frame, or it is a turn of the state machine.
pub Step-Frame :
    (b : Board) {s t : Firmware}
    → IsSound b s
    → Step b s t
    → Frame s t ⊎ (t ≡ StateMachine.turn b s)
Step-Frame b {s} i (time now fits e) =
    inl (subst (Frame s) (sym e) (Quiet-Frame (time-Quiet now s)))
Step-Frame b {s} i (state_machine e) = inr e
Step-Frame b {s} i (heartbeat e) = inl (subst (Frame s) (sym e) (heartbeat_turn-Frame b s i))
Step-Frame b {s} i (fault_inject e) = inl (subst (Frame s) (sym e) (fault_inject_turn-Frame b s i))
Step-Frame b {s} {t} i (mem_scrub fuel e) = inl (mem_scrub_turn-Frame b fuel s t i e)
Step-Frame b {s} i (command_input byte e) =
    inl (subst (Frame s) (sym e) (input_turn-Frame b byte s))
Step-Frame b {s} i (command_handler e) = inl (subst (Frame s) (sym e) (handler_turn-Frame b s i))
Step-Frame b {s} i (watchdog_wait e) = inl (subst (Frame s) (sym e) (waited-Frame b s))
Step-Frame b {s} i (watchdog_judge state received cycles e) =
    inl (subst (Frame s) (sym e) (finish_cycle-Frame b state _ received cycles s))

-- What a turn of the state machine does: nothing but a receive, or a granted request.
pub turn-Switched :
    (b : Board) (s : Firmware)
    → Quiet s (StateMachine.turn b s)
      ⊎ ((request : StateRequest) × (q : Queue StateRequest) × Transition s.state
            request.reason_code request.requested_state
          × Switched request (with_requests q s) (StateMachine.turn b s))
turn-Switched b s = elim (turn-cases b s) [
  | inl idle ↦ inl (subst (Quiet s) (sym idle) (ground arith))
  | inr (request, q, e) ↦ elim (handle_request-cases (with_requests q s) request) [
    | inr refused ↦ inl (subst (Quiet s) (sym (e ∙ refused)) (ground arith))
    | inl (way, switched) ↦
        inr (request, q, way, subst (Switched request (with_requests q s)) (sym e) switched)
  ]
]

IsValid-if :
    (p q : Bool) (l m n : EventLog)
    → IsValid l
    → IsValid m
    → IsValid n
    → IsValid (if p then l else if q then m else n)
IsValid-if true q l m n hl hm hn = hl
IsValid-if false true l m n hl hm hn = hm
IsValid-if false false l m n hl hm hn = hn

Switched-log :
    (request : StateRequest) (s t : Firmware) → Switched request s t → IsValid s.log → IsValid t.log
unfolding record_state_change record_safe_policy
Switched-log request s t w v =
    let noted = write_entry-IsValid s.log _ v in
    rw w.log (
      IsValid-if (same_state request.requested_state safe) (same_state s.state safe) _ _ _
        (write_entry-IsValid _ _ noted) (write_entry-IsValid _ _ noted) noted)

Switched-IsSound :
    (b : Board) (request : StateRequest) (s t : Firmware)
    → Switched request s t
    → IsSound b s
    → IsSound b t
Switched-IsSound b request s t w i = record {
  log = Switched-log request s t w i.log;
  size = ap length w.area ∙ i.size;
  bytes = λ k. rw w.area (i.bytes k);
  seu_counter = rw w.seu_counter i.seu_counter;
  area_access = IsAccessible-same b s t w.regions w.region_count i.area_access;
  kick_access = kick_access-same b s t w.regions w.region_count i.kick_access;
}

-- One round keeps the invariant and the count of violations.
Step-IsSound :
    (b : Board) (s t : Firmware)
    → IsSound b s
    → Step b s t
    → IsSound b t × (t.violation_count ≡ s.violation_count)
Step-IsSound b s t i st = elim (Step-Frame b i st) [
  | inl f ↦ (IsSound-Frame b f i, f.violation_count)
  | inr e ↦ elim (turn-Switched b s) [
    | inl q ↦
        let f = Quiet-Frame q in
        (
          subst (IsSound b) (sym e) (IsSound-Frame b f i),
          ap (λ u. u.violation_count) e ∙ f.violation_count,
        )
    | inr (request, q, way, w) ↦ (
      subst (IsSound b) (sym e) (
          Switched-IsSound b request (with_requests q s) _ w
            (IsSound-Frame b (Quiet-Frame (requests-Quiet q s)) i)),
      ap (λ u. u.violation_count) e ∙ w.violation_count,
    )
  ]
]
  where
    requests-Quiet : (q : Queue StateRequest) (s : Firmware) → Quiet s (with_requests q s)
    requests-Quiet q s = ground arith

-- In every order of the tasks' rounds the soundness of the firmware stays (a valid flight log, 512
-- bytes in the protected area, an SEU counter below 5, a table of regions that lets the scrub and
-- the kick pass), and no violation is counted.
pub Reach-IsSound :
    (b : Board) (s t : Firmware)
    → IsSound b s
    → Reach b s t
    → IsSound b t × (t.violation_count ≡ s.violation_count)
Reach-IsSound b s t i here = (i, refl)
Reach-IsSound b s t i (next {t = u} r st) =
    let before = Reach-IsSound b s u i r in
    let after = Step-IsSound b u t before.0 st in (after.0, after.1 ∙ before.1)

-- From a sound firmware, a round of any task leaves the state as it was or changes it along a
-- transition of the documented diagram.
pub Step-Transition :
    (b : Board) (s t : Firmware)
    → IsSound b s
    → Step b s t
    → (t.state ≡ s.state) ⊎ ((reason : ℕ) × Transition s.state reason t.state)
Step-Transition b s t i st = elim (Step-Frame b i st) [
  | inl f ↦ inl f.state
  | inr e ↦ elim (turn-Switched b s) [
    | inl q ↦ inl (ap (λ u. u.state) e ∙ q.state)
    | inr (request, q, way, w) ↦ inr (
      request.reason_code,
      subst (Transition s.state request.reason_code) (sym (ap (λ u. u.state) e ∙ w.state)) way,
    )
  ]
]
