-- ===== src/StateMachine/Transitions.antt =====
-- The transitions that the state machine grants, as a relation, and what the task does with a request.
use space_baremetal_skeleton.Common.{
  sym, ◌∙◌, ℕ, ◌<◌, ◌≡◌, ◌≢◌, ◌↔◌, ◌⊎◌, inl, inr, refl, true, false, ◌||◌, Option, none, some,
  arith, Bool-cases, if◌then◌else◌,
}
use space_baremetal_skeleton.States.{
  SystemState, nominal, degraded, safe, rank, same_state, StateRequest,
}
use space_baremetal_skeleton.EventLog.{record_state_change, record_safe_policy}
use space_baremetal_skeleton.Firmware.{Firmware, say, print}
use space_baremetal_skeleton.SafePolicy.{on_degraded_enter, on_enter, on_exit, set_enabled}
use space_baremetal_skeleton.StateMachine.{
  allows_request, apply_request, log_transition, policy_hooks, applied, handle_request,
}

-- The documented diagram: up, for any reason, or back to NOMINAL for the watchdog's reason or the
-- operator's.
pub data Transition (from : SystemState) (reason : ℕ) (to : SystemState) : Type 0 where
  escalate : rank from < rank to → Transition from reason to
  recover :
      to ≡ nominal
      → (from ≡ degraded) ⊎ (from ≡ safe)
      → (reason ≡ 0x03) ⊎ (reason ≡ 0x10)
      → Transition from reason to

granted-Transition :
    (c r : SystemState) (reason : ℕ)
    → (apply_request (some c) (some (record { requested_state = r; reason_code = reason }))).1
      ≡ true
    → Transition c reason r
unfolding apply_request allows_request
granted-Transition c r reason h = grind (arith, escalate, recover)

Transition-granted :
    (c r : SystemState) (reason : ℕ)
    → Transition c reason r
    → (apply_request (some c) (some (record { requested_state = r; reason_code = reason }))).1
      ≡ true
unfolding apply_request allows_request
Transition-granted c r reason (escalate h) = ground arith
Transition-granted c r reason (recover e f g) = ground arith

-- `state_machine_apply_request` grants exactly the transitions of the diagram; a granted request
-- becomes the state, any other leaves the state as it was.
pub apply_request_iff :
    (c r : SystemState) (reason : ℕ)
    → let result =
        apply_request (some c) (some (record { requested_state = r; reason_code = reason })) in
      ((result.1 ≡ true) ↔ Transition c reason r)
      × (result.1 ≡ true → result.0 ≡ some r)
      × (result.1 ≡ false → result.0 ≡ some c)
unfolding apply_request
apply_request_iff c r reason =
    ((granted-Transition c r reason, Transition-granted c r reason), ground arith, ground arith)

-- A null pointer is refused and the state kept.
pub apply_request_null :
    (c : Option SystemState) (request : Option StateRequest)
    → (c ≡ none) ⊎ (request ≡ none)
    → apply_request c request ≡ (c, false)
unfolding apply_request
apply_request_null none request h = refl
apply_request_null (some c) none h = refl
apply_request_null (some c) (some request) h = ground arith

-- What the task leaves of the rest when it handles a request that it grants.
pub record Switched (request : StateRequest) (s t : Firmware) : Type 0 where
  pub state : t.state ≡ request.requested_state
  pub log : t.log ≡ (
      let noted =
        record_state_change s.tick s.state request.requested_state request.reason_code s.log in
      if same_state request.requested_state safe
      then record_safe_policy s.tick true noted
      else if same_state s.state safe
      then record_safe_policy s.tick false noted
      else noted)
  pub inject_enabled : t.inject_enabled ≡ (
      if same_state request.requested_state degraded || same_state request.requested_state safe
      then false
      else s.inject_enabled)
  pub area : t.area ≡ s.area
  pub regions : t.regions ≡ s.regions
  pub region_count : t.region_count ≡ s.region_count
  pub state_queue : t.state_queue ≡ s.state_queue
  pub seu_counter : t.seu_counter ≡ s.seu_counter
  pub violation_count : t.violation_count ≡ s.violation_count

-- The pair that comes back, with its parts known.
apply_request-true :
    (c : SystemState) (request : StateRequest)
    → (apply_request (some c) (some request)).1 ≡ true
    → (apply_request (some c) (some request) ≡ (some request.requested_state, true))
      × (c ≢ request.requested_state)
unfolding apply_request
apply_request-true c request h = (ground arith, ground arith)

apply_request-false :
    (c : SystemState) (request : StateRequest)
    → (apply_request (some c) (some request)).1 ≡ false
    → apply_request (some c) (some request) ≡ (some c, false)
unfolding apply_request
apply_request-false c request h = ground arith

way : {c r : SystemState} {reason : ℕ} → Transition c reason r → (rank c < rank r) ⊎ (r ≡ nominal)
way (escalate h) = inl h
way (recover e f g) = inr e

applied-Switched :
    (s : Firmware) (request : StateRequest)
    → s.state ≢ request.requested_state
    → (rank s.state < rank request.requested_state) ⊎ (request.requested_state ≡ nominal)
    → Switched request s (applied request (some request.requested_state, true) s)
unfolding applied policy_hooks log_transition on_degraded_enter on_enter on_exit set_enabled say
    print
applied-Switched s request differ up = ground arith

-- A granted request becomes the state; the transition is logged, entering SAFE and leaving it are logged
-- behind it; entering DEGRADED or SAFE turns the automatic injection off.
pub handle_request-Switched :
    (s : Firmware) (request : StateRequest)
    → Transition s.state request.reason_code request.requested_state
    → Switched request s (handle_request request s)
unfolding handle_request
handle_request-Switched s request granted =
    let pair =
      apply_request-true s.state request
        (Transition-granted s.state request.requested_state request.reason_code granted) in
    rw pair.0 (applied-Switched s request pair.1 (way granted))

-- A request that the diagram lacks changes nothing at all.
pub handle_request-refused :
    (s : Firmware) (request : StateRequest)
    → ¬ Transition s.state request.reason_code request.requested_state
    → handle_request request s ≡ s
unfolding handle_request applied
handle_request-refused s request h =
    elim (Bool-cases (apply_request (some s.state) (some request)).1) [
      | inl granted ↦
          absurd
            (h (granted-Transition s.state request.requested_state request.reason_code granted))
      | inr refused ↦ rw (apply_request-false s.state request refused)
    ]

-- A request is granted or refused.
pub handle_request-cases :
    (s : Firmware) (request : StateRequest)
    → (Transition s.state request.reason_code request.requested_state
        × Switched request s (handle_request request s))
      ⊎ (handle_request request s ≡ s)
handle_request-cases s request =
    let exact = apply_request_iff s.state request.requested_state request.reason_code in
    elim (Bool-cases (apply_request (some s.state) (some request)).1) [
      | inl granted ↦
          let way = exact.0.0 granted in inl (way, handle_request-Switched s request way)
      | inr refused ↦
          inr (
            handle_request-refused s request
              (λ way. true_not_false (sym (exact.0.1 way) ∙ refused)))
    ]
  where
    true_not_false : ¬ (true ≡ false)
    true_not_false e = cc
