-- ===== src/System/Faults.antt =====
-- From the third violation, or the fifth upset, to DEGRADED.
use space_baremetal_skeleton.Common.{
  ℕ, ◌+◌, ◌^◌, ◌<◌, ◌≤◌, ◌≡◌, refl, ap, sym, ◌∙◌, subst, Bool-cases, inl, inr, true, false, arith,
  leb, ◌==◌, if◌then◌else◌, some, List, [],
}
use space_baremetal_skeleton.Common.Words.{u32}
use space_baremetal_skeleton.Kernel.{Queue, Board, BoardLaws}
use space_baremetal_skeleton.States.{degraded, safe, rank, StateRequest}
use space_baremetal_skeleton.EventLog.{record_mem_prot_threshold}
use space_baremetal_skeleton.Firmware.{Firmware, Region, print}
use space_baremetal_skeleton.SystemState.{request_change}
use space_baremetal_skeleton.SystemState.Requests.{with_requests}
use space_baremetal_skeleton.StateMachine
use space_baremetal_skeleton.StateMachine.{handle_request}
use space_baremetal_skeleton.StateMachine.Transitions.{
  Transition, escalate, Switched, handle_request-Switched,
}
use space_baremetal_skeleton.StateMachine.Requests.{turn-request_change}
use space_baremetal_skeleton.MemoryProtection.{record_violation, report_violation, check_access}
use space_baremetal_skeleton.MemoryProtection.Access.{permits, check_access-permits}
use space_baremetal_skeleton.MemoryScrub.Escalation.{repeat_seu, counted, repeat_seu-escalates}

-- The protection's request, and the scrub's.
abbrev pub asked_by_protection : StateRequest
asked_by_protection = record { requested_state = degraded; reason_code = 0x04 }

abbrev pub asked_by_scrub : StateRequest
asked_by_scrub = record { requested_state = degraded; reason_code = 0x02 }

-- A state requested while its queue is empty is, when the diagram has the transition, what the state
-- machine's next turn brings into force.
turn-asked :
    (b : Board) (laws : BoardLaws b) (request : StateRequest) (rq : Queue StateRequest)
    (s : Firmware)
    → s.state_queue ≡ some rq
    → rq.items ≡ []
    → 0 < rq.capacity
    → Transition s.state request.reason_code request.requested_state
    → Switched request
        (with_requests (record rq { items = [] }) s)
        (StateMachine.turn b (request_change b request.requested_state request.reason_code s).0)
turn-asked b laws request rq s has empty room way =
    let quiet = with_requests (record rq { items = [] }) s in
    subst (Switched request quiet) (sym (turn-request_change b laws request rq s has empty room))
      (handle_request-Switched quiet request way)

-- The firmware with a violation counted, and logged if it is the third.
abbrev pub noted_violation : Firmware → Firmware
noted_violation s = record s {
  violation_count = s.violation_count + 1;
  log =
      if s.violation_count + 1 == 3
      then record_mem_prot_threshold s.tick (s.violation_count + 1) s.log
      else s.log;
}

record_violation-requests :
    (b : Board) (s : Firmware)
    → 2 ≤ s.violation_count
    → s.violation_count + 1 < 2 ^ 32
    → record_violation b s ≡ (request_change b degraded 0x04 (noted_violation s)).0
unfolding record_violation
record_violation-requests b s reached range =
    let exact : u32 (s.violation_count + 1) ≡ s.violation_count + 1 = omega arith in
    let enough : leb 3 (s.violation_count + 1) ≡ true = ground arith in
    elim (Bool-cases (s.violation_count + 1 == 3)) [
      | inl third ↦ rw (exact, third, enough) refl
      | inr later ↦ rw (exact, later, enough) refl
    ]

-- What is on the console has no part in a transition.
Switched-out :
    (request : StateRequest) (rq : Queue StateRequest) (s t : Firmware) (bytes : List ℕ)
    → Switched request (with_requests rq (noted_violation (record s { out = bytes }))) t
    → Switched request (with_requests rq (noted_violation s)) t
Switched-out request rq s t bytes w = ground arith

module _ (b : Board) (laws : BoardLaws b) (rq : Queue StateRequest) (s : Firmware)
    (low : rank s.state < 2) (has : s.state_queue ≡ some rq) (empty : rq.items ≡ [])
    (room : 0 < rq.capacity) where
  turn-recorded :
      (t : Firmware) (bytes : List ℕ)
      → t ≡ record s { out = bytes }
      → 2 ≤ s.violation_count
      → s.violation_count + 1 < 2 ^ 32
      → Switched asked_by_protection
          (with_requests (record rq { items = [] }) (noted_violation s))
          (StateMachine.turn b (record_violation b t))
  turn-recorded t bytes e reached range =
      let told : Firmware = record s { out = bytes } in
      Switched-out asked_by_protection (record rq { items = [] }) s _ bytes
        (subst
          (λ u.
            Switched asked_by_protection
              (with_requests (record rq { items = [] }) (noted_violation told))
              (StateMachine.turn b u))
          (sym (ap (record_violation b) e ∙ record_violation-requests b told reached range))
          (turn-asked b laws asked_by_protection rq (noted_violation told) has empty room
            (escalate low)))

  turn-report_violation :
      (address size : ℕ) (access : List ℕ) (region : Region)
      → 2 ≤ s.violation_count
      → s.violation_count + 1 < 2 ^ 32
      → Switched asked_by_protection
          (with_requests (record rq { items = [] }) (noted_violation s))
          (StateMachine.turn b (report_violation b address size access region s))
  unfolding report_violation print
  turn-report_violation address size access region reached range =
      turn-recorded _ _ refl reached range

  -- For a board that meets the kernel's laws, in BOOT or NOMINAL with two violations or more, fewer
  -- than 2 ^ 32 - 1, counted and the queue of requests empty with room: an access that some region
  -- in its way does not grant brings DEGRADED into force for reason 4 by the state machine's next
  -- turn; the violation is counted, the third is logged before the transition is, and automatic
  -- injection is off.
  pub turn-violation :
      (address size access : ℕ)
      → permits s address size access ≡ false
      → 2 ≤ s.violation_count
      → s.violation_count + 1 < 2 ^ 32
      → Switched asked_by_protection
          (with_requests (record rq { items = [] }) (noted_violation s))
          (StateMachine.turn b (check_access b address size access s).0)
  turn-violation address size access refused reached range =
      rw (check_access-permits b address size access s, refused)
        (turn-report_violation address size _ _ reached range)

-- The counter has no part in a request.
request_change-seu_counter :
    (b : Board) (request : StateRequest) (s : Firmware) (n : ℕ)
    → record (request_change b request.requested_state request.reason_code s).0 { seu_counter = n }
      ≡ (request_change b request.requested_state request.reason_code
          (record s { seu_counter = n })).0
unfolding request_change
request_change-seu_counter b request s n = ground arith

-- For a board that meets the kernel's laws, in BOOT or NOMINAL with the SEU counter at 0, the total
-- below 2 ^ 32 and the queue of requests empty with room: fewer than five upsets only count, and
-- the fifth, which starts the counter again, brings DEGRADED into force for reason 2 by the state
-- machine's next turn, with the transition logged and automatic injection off.
pub turn-fifth_seu :
    (b : Board) (laws : BoardLaws b) (rq : Queue StateRequest) (s : Firmware)
    → rank s.state < 2
    → s.seu_counter ≡ 0
    → s.seu_total < 2 ^ 32
    → s.state_queue ≡ some rq
    → rq.items ≡ []
    → 0 < rq.capacity
    → ((n : ℕ) → n < 5 → repeat_seu b n s ≡ counted n s)
      × Switched asked_by_scrub
          (with_requests (record rq { items = [] }) (record (counted 5 s) { seu_counter = 0 }))
          (StateMachine.turn b (repeat_seu b 5 s))
turn-fifth_seu b laws rq s low none_yet range has empty room =
    let (few, fifth) =
      repeat_seu-escalates b s (λ e. let top : rank s.state ≡ rank safe = ap rank e in omega arith)
        none_yet range in
    let settled = record (counted 5 s) { seu_counter = 0 } in
    (
      few,
      subst
          (λ t.
            Switched asked_by_scrub (with_requests (record rq { items = [] }) settled)
              (StateMachine.turn b t))
          (sym (fifth ∙ request_change-seu_counter b asked_by_scrub (counted 5 s) 0))
          (turn-asked b laws asked_by_scrub rq settled has empty room (escalate low)),
    )
