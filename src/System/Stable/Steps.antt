-- ===== src/System/Stable/Steps.antt =====
-- The judgement of the watchdog and the state machine's turn, and then every round of every task.
use space_baremetal_skeleton.Common.{
  ℕ, ◌+◌, ◌<◌, ◌^◌, sym, subst, Bool, true, false, ltb, leb, Option, none, some, arith,
  if◌then◌else◌,
}
use space_baremetal_skeleton.Common.Words.{u32}
use space_baremetal_skeleton.Common.Bits.Bounds.{bit_and-lt}
use space_baremetal_skeleton.Kernel.{Board}
use space_baremetal_skeleton.States.{
  SystemState, boot, nominal, degraded, safe, rank, same_state, StateRequest,
}
use space_baremetal_skeleton.EventLog.{
  record_state_change, record_safe_policy, record_watchdog_timeout,
}
use space_baremetal_skeleton.Firmware.{Firmware, say}
use space_baremetal_skeleton.SystemState.{request_change}
use space_baremetal_skeleton.SafePolicy.{
  set_enabled, on_degraded_enter, on_enter, on_exit, watchdog_expected_bits,
}
use space_baremetal_skeleton.StateMachine.{log_transition, policy_hooks, applied, handle_request}
use space_baremetal_skeleton.StateMachine.Requests.{turn-keeps}
use space_baremetal_skeleton.Watchdog.{
  recovery_threshold, waited, finish_cycle, evaluate, print_missing_bits, covers, missing_bits,
}
use space_baremetal_skeleton.System.{
  Step, time, state_machine, heartbeat, fault_inject, mem_scrub, command_input, command_handler,
  watchdog_wait, watchdog_judge, Reach, here, next,
}
use space_baremetal_skeleton.System.Stable.{
  IsRequest, Stable, kept_if, kept_if_first, print-kept, request_change-kept,
}
use space_baremetal_skeleton.System.Stable.Turns.{
  heartbeat_turn-kept, fault_inject_turn-kept, mem_scrub_turn-kept, input_turn-kept,
  handler_turn-kept,
}

missing_fits :
    (state : SystemState) (received : ℕ)
    → missing_bits received (watchdog_expected_bits state) < 2 ^ 32
unfolding watchdog_expected_bits
missing_fits state received = bit_and-lt 32 _ _ (ground arith)

module _ (b : Board) (P : Firmware → Type 0) (k : Stable b P) where
  evaluate-kept :
      (received expected : ℕ) (state : SystemState) (cycles : ℕ) (s : Firmware)
      → P s
      → P (evaluate b received expected state cycles s).0
  unfolding evaluate
  evaluate-kept received expected state cycles s h =
      let asked : (wanted : SystemState) (reason : ℕ)
          → reason < 2 ^ 32
          → P (request_change b wanted reason s).0 =
        λ wanted reason small. request_change-kept b P k wanted reason s small h in
      let good =
        kept_if_first P (same_state state degraded)
          (if leb recovery_threshold (u32 (cycles + 1))
            then ((request_change b nominal 3 s).0, 0)
            else (s, u32 (cycles + 1)))
          (s, 0)
          (kept_if_first P (leb recovery_threshold (u32 (cycles + 1))) _ (s, u32 (cycles + 1))
            (asked nominal 3 (omega arith)) h)
          h in
      let bad =
        kept_if_first P (ltb (rank state) (rank degraded))
          ((request_change b degraded 1 s).0, cycles)
          (if same_state state degraded
            then ((request_change b safe 1 s).0, cycles)
            else (s, cycles))
          (asked degraded 1 (omega arith))
          (kept_if_first P (same_state state degraded) _ (s, cycles) (asked safe 1 (omega arith))
            h) in
      kept_if_first P (covers received expected) _ _ good bad

  finish_cycle-kept :
      (state : SystemState) (received cycles : ℕ) (s : Firmware)
      → P s
      → P (finish_cycle b state (watchdog_expected_bits state) received cycles s).0
  unfolding finish_cycle print_missing_bits record_watchdog_timeout
  finish_cycle-kept state received cycles s h =
      let expected = watchdog_expected_bits state in
      evaluate-kept received expected state cycles _ (
        kept_if P (covers received expected) s _ h (
          k.log _ _
            (omega arith, omega arith, omega arith, omega arith, missing_fits state received)
            (print-kept b P k _ s h)))

  on_enter-kept : (s : Firmware) → P s → P (on_enter s)
  unfolding on_enter record_safe_policy set_enabled say
  on_enter-kept s h = print-kept b P k _ _ (
      print-kept b P k _ _ (
        k.enabled false _
          (k.log _ s (omega arith, omega arith, omega arith, omega arith, omega arith) h)))

  on_exit-kept : (s : Firmware) → P s → P (on_exit s)
  unfolding on_exit record_safe_policy say
  on_exit-kept s h = print-kept b P k _ _ (
      print-kept b P k _ _
        (k.log _ s (omega arith, omega arith, omega arith, omega arith, omega arith) h))

  pub on_degraded_enter-kept : (s : Firmware) → P s → P (on_degraded_enter s)
  unfolding on_degraded_enter set_enabled say
  on_degraded_enter-kept s h = print-kept b P k _ _ (print-kept b P k _ _ (k.enabled false s h))

  policy_hooks-kept :
      (previous current : SystemState) (s : Firmware) → P s → P (policy_hooks previous current s)
  unfolding policy_hooks
  policy_hooks-kept previous current s h =
      kept_if P _ _ _ (on_degraded_enter-kept s h)
        (kept_if P _ _ _ (on_enter-kept s h) (kept_if P _ _ _ (on_exit-kept s h) h))

  log_transition-kept : (state : SystemState) (s : Firmware) → P s → P (log_transition state s)
  unfolding log_transition say
  log_transition-kept boot s h = print-kept b P k _ _ (print-kept b P k _ s h)
  log_transition-kept nominal s h = print-kept b P k _ _ (print-kept b P k _ s h)
  log_transition-kept degraded s h = print-kept b P k _ _ (print-kept b P k _ s h)
  log_transition-kept safe s h = print-kept b P k _ _ (print-kept b P k _ s h)

  applied-kept :
      (request : StateRequest) (r : Option SystemState × Bool) (s : Firmware)
      → IsRequest request
      → P s
      → P (applied request r s)
  unfolding applied record_state_change
  applied-kept request (none, changed) s small h = h
  applied-kept request (some current, false) s small h = h
  applied-kept request (some current, true) s small h = policy_hooks-kept s.state current _ (
      k.log _ _ (omega arith, omega arith, omega arith, omega arith, small)
        (log_transition-kept current (record s { state = current }) (k.state current s h)))

  handle_request-kept :
      (request : StateRequest) (s : Firmware)
      → IsRequest request
      → P s
      → P (handle_request request s)
  unfolding handle_request
  handle_request-kept request s small h = applied-kept request _ s small h

  pub Step-kept : (s t : Firmware) → P s → Step b s t → P t
  unfolding waited
  Step-kept s t h (time now fits e) = subst P (sym e) (k.tick now s fits h)
  Step-kept s t h (state_machine e) = subst P (sym e) (
      turn-keeps b P s h (λ q p request has e.
        let (given, small) = k.request_received q p request s has e h in
        handle_request-kept request _ small given))
  Step-kept s t h (heartbeat e) = subst P (sym e) (heartbeat_turn-kept b P k s h)
  Step-kept s t h (fault_inject e) = subst P (sym e) (fault_inject_turn-kept b P k s h)
  Step-kept s t h (mem_scrub fuel e) = mem_scrub_turn-kept b P k fuel s t h e
  Step-kept s t h (command_input byte e) = subst P (sym e) (input_turn-kept b P k byte s h)
  Step-kept s t h (command_handler e) = subst P (sym e) (handler_turn-kept b P k s h)
  Step-kept s t h (watchdog_wait e) = subst P (sym e) (k.waited s h)
  Step-kept s t h (watchdog_judge state received cycles e) =
      subst P (sym e) (finish_cycle-kept state received cycles s h)

  pub Reach-kept : (s t : Firmware) → P s → Reach b s t → P t
  Reach-kept s t h here = h
  Reach-kept s t h (next {t = u} r st) = Step-kept u t (Reach-kept s u h r) st
