-- ===== src/System/Turns.antt =====
-- The rounds of every task but the state machine.
use space_baremetal_skeleton.Common.{
  ℕ, zero, suc, ◌≡◌, refl, sym, subst, Bool, true, false, not, ◌&&◌, Option, none, some, List,
  arith, if◌then◌else◌, inl, inr,
}
use space_baremetal_skeleton.Kernel.{Board, Queue}
use space_baremetal_skeleton.States.{SystemState}
use space_baremetal_skeleton.EventLog.{record_operator, record_watchdog_timeout}
use space_baremetal_skeleton.EventLog.Ring.{write_entry-IsValid}
use space_baremetal_skeleton.Firmware.{
  FaultEvent, Firmware, print, say, Command, status, go_nominal, go_degraded, go_safe, inject_fault,
  force_scrub, print_violations, print_seu_count, toggle_fault_inject, dump_event_log,
}
use space_baremetal_skeleton.SystemState.{request_change}
use space_baremetal_skeleton.SafePolicy.{
  bit_heartbeat, bit_memscrub, bit_faultinject, allows_heartbeat_uart, allows_auto_fault_inject,
  allows_background_scrub, allows_manual_fault_inject, set_enabled,
}
use space_baremetal_skeleton.FaultInject.{inject_random_fault}
use space_baremetal_skeleton.MemoryScrub.{scrub}
use space_baremetal_skeleton.Watchdog.{
  kick, waited, finish_cycle, evaluate, print_missing_bits, covers, missing_bits,
}
use space_baremetal_skeleton.Command.{
  input_turn, dispatch_char, command_send, print_help, handle, handler_turn,
}
use space_baremetal_skeleton.Command.Typed.{with_commands}
use space_baremetal_skeleton.Command.Keeps.{handler_turn-cases}
use space_baremetal_skeleton.Tasks.Drain.{drain_one-some, mem_scrub_turn-some}
use space_baremetal_skeleton.Tasks.{
  heartbeat_turn, fault_inject_turn, mem_scrub_turn, drain_one, drain,
}
use space_baremetal_skeleton.System.Frame.{
  Frame, Frame-refl, Frame-trans, Quiet, Quiet-Frame, log-Frame, Frame-if, print-Quiet,
  request_change-Quiet,
}
use space_baremetal_skeleton.System.Scrub.{
  scrub-Frame, inject_random_fault-Frame, fix_event-Frame, kick-Frame,
}
use space_baremetal_skeleton.System.Invariant.{IsSound, IsSound-Frame}

module _ (b : Board) where
  -- A frame that holds of a sound firmware, behind another.
  then_Frame : {s t u : Firmware} → Frame s t → (IsSound b t → Frame t u) → IsSound b s → Frame s u
  then_Frame p q i = Frame-trans p (q (IsSound-Frame b p i))

  say_if-Frame :
      (p : Bool) (bytes : List ℕ) (s : Firmware) → Frame s (if p then print bytes s else s)
  say_if-Frame p bytes s =
      Frame-if p (print bytes s) s (Quiet-Frame (print-Quiet bytes s)) (Frame-refl s)

  pub heartbeat_turn-Frame : (s : Firmware) → IsSound b s → Frame s (heartbeat_turn b s)
  unfolding heartbeat_turn say
  heartbeat_turn-Frame s i =
      then_Frame (say_if-Frame (allows_heartbeat_uart s.state) _ s)
        (λ j. kick-Frame b bit_heartbeat _ j.kick_access) i

  pub fault_inject_turn-Frame : (s : Firmware) → IsSound b s → Frame s (fault_inject_turn b s)
  unfolding fault_inject_turn
  fault_inject_turn-Frame s i =
      let kicked = kick b bit_faultinject s in
      let kick_ok = kick-Frame b bit_faultinject s i.kick_access in
      Frame-if (allows_auto_fault_inject s.state) _ s
        (Frame-if kicked.inject_enabled (inject_random_fault b kicked) kicked
          (Frame-trans kick_ok (inject_random_fault-Frame b kicked)) kick_ok)
        (Frame-refl s)

  received-Quiet :
      (q : Option (Queue FaultEvent)) (s : Firmware) → Quiet s (record s { fault_queue = q })
  received-Quiet q s = ground arith

  -- One event out of the queue.
  drain_one-Frame : (s t : Firmware) → IsSound b s → drain_one b s ≡ some t → Frame s t
  drain_one-Frame s t i e =
      let (event, q, result) = drain_one-some b s t e in
      subst (Frame s) (sym result) (
        then_Frame (Quiet-Frame (received-Quiet (some q) s))
          (λ j. fix_event-Frame b event _ j.area_access j.bytes) i)

  drain-Frame :
      (fuel : ℕ) (had : Bool) (s t : Firmware) (h : Bool)
      → IsSound b s
      → drain b fuel had s ≡ some (t, h)
      → Frame s t
  unfolding drain
  drain-Frame zero had s t h i e = cc
  drain-Frame (suc fuel) had s t h i e =
      by_one (drain_one b s) refl
        (λ next one. drain-Frame fuel true next t h (IsSound-Frame b one i)) e
    where
      by_one :
          (o : Option Firmware)
          → drain_one b s ≡ o
          → ((next : Firmware) → Frame s next → drain b fuel true next ≡ some (t, h) → Frame next t)
          → (let r : Option (Firmware × Bool) = elim o [
            | none ↦ some (s, had)
            | some next ↦ drain b fuel true next
          ] in
              r ≡ some (t, h))
          → Frame s t
      by_one none one rest e = let same : s ≡ t = cc in subst (Frame s) same (Frame-refl s)
      by_one (some next) one rest e =
          let once = drain_one-Frame s next i one in Frame-trans once (rest next once e)

  pub mem_scrub_turn-Frame :
      (fuel : ℕ) (s t : Firmware) → IsSound b s → mem_scrub_turn b fuel s ≡ some t → Frame s t
  mem_scrub_turn-Frame fuel s t i e =
      let (u, had, drained, result) = mem_scrub_turn-some b fuel s t e in
      let first = drain-Frame fuel false s u had i drained in
      subst (Frame s) (sym result) (
        then_Frame first
          (λ j.
            then_Frame
              (Frame-if (not had && allows_background_scrub u.state) (scrub b u) u
                (scrub-Frame b u j.area_access) (Frame-refl u))
              (λ k. kick-Frame b bit_memscrub _ k.kick_access) j)
          i)

  input_turn-Quiet : (byte : Option ℕ) (s : Firmware) → Quiet s (input_turn b byte s)
  unfolding input_turn dispatch_char command_send print_help print say
  input_turn-Quiet byte s = ground arith

  pub input_turn-Frame : (byte : Option ℕ) (s : Firmware) → Frame s (input_turn b byte s)
  input_turn-Frame byte s = Quiet-Frame (input_turn-Quiet byte s)

  operator-Frame :
      (key : ℕ) (state : SystemState) (s : Firmware)
      → Frame s
          (request_change b state 0x10 (record s { log = record_operator s.tick key s.log })).0
  unfolding record_operator
  operator-Frame key state s =
      Frame-trans (log-Frame s _ (λ v. write_entry-IsValid s.log _ v))
        (Quiet-Frame (request_change-Quiet b state 0x10 _))

  toggled-Quiet : (s : Firmware) → Quiet s (handle b toggle_fault_inject s)
  unfolding handle set_enabled print
  toggled-Quiet s = ground arith

  pub handle-Frame : (cmd : Command) (s : Firmware) → IsSound b s → Frame s (handle b cmd s)
  unfolding handle say
  handle-Frame status s i = Quiet-Frame (print-Quiet _ s)
  handle-Frame go_nominal s i = operator-Frame b'n' _ s
  handle-Frame go_degraded s i = operator-Frame b'd' _ s
  handle-Frame go_safe s i = operator-Frame b'a' _ s
  handle-Frame inject_fault s i =
      Frame-if (not (allows_manual_fault_inject s.state)) _ _ (Quiet-Frame (print-Quiet _ s))
        (inject_random_fault-Frame b s)
  handle-Frame force_scrub s i = scrub-Frame b s i.area_access
  handle-Frame print_violations s i = Quiet-Frame (print-Quiet _ s)
  handle-Frame print_seu_count s i = Quiet-Frame (print-Quiet _ s)
  handle-Frame toggle_fault_inject s i = Quiet-Frame (toggled-Quiet s)
  handle-Frame dump_event_log s i = Quiet-Frame (print-Quiet _ s)

  with_commands-Quiet : (q : Queue Command) (s : Firmware) → Quiet s (with_commands q s)
  with_commands-Quiet q s = ground arith

  pub handler_turn-Frame : (s : Firmware) → IsSound b s → Frame s (handler_turn b s)
  handler_turn-Frame s i = elim (handler_turn-cases b s) [
    | inl idle ↦ subst (Frame s) (sym idle) (Frame-refl s)
    | inr (cmd, q, e) ↦
        subst (Frame s) (sym e)
          (then_Frame (Quiet-Frame (with_commands-Quiet q s)) (λ j. handle-Frame cmd _ j) i)
  ]

  waited-Quiet : (s : Firmware) → Quiet s (waited b s).0
  unfolding waited
  waited-Quiet s = ground arith

  pub waited-Frame : (s : Firmware) → Frame s (waited b s).0
  waited-Frame s = Quiet-Frame (waited-Quiet s)

  evaluate-Quiet :
      (received expected : ℕ) (state : SystemState) (cycles : ℕ) (s : Firmware)
      → Quiet s (evaluate b received expected state cycles s).0
  unfolding evaluate request_change
  evaluate-Quiet received expected state cycles s = ground arith

  reported-Frame :
      (state : SystemState) (missing : ℕ) (s u : Firmware)
      → Quiet s u
      → Frame s (record u { log = record_watchdog_timeout u.tick missing state u.log })
  unfolding record_watchdog_timeout
  reported-Frame state missing s u q =
      Frame-trans (Quiet-Frame q) (log-Frame u _ (λ v. write_entry-IsValid u.log _ v))

  told-Quiet :
      (received expected : ℕ) (s : Firmware) → Quiet s (print_missing_bits received expected s)
  unfolding print_missing_bits
  told-Quiet received expected s = print-Quiet _ s

  pub finish_cycle-Frame :
      (state : SystemState) (expected received cycles : ℕ) (s : Firmware)
      → Frame s (finish_cycle b state expected received cycles s).0
  unfolding finish_cycle
  finish_cycle-Frame state expected received cycles s =
      Frame-trans
        (Frame-if (covers received expected) s _ (Frame-refl s) (
          reported-Frame state (missing_bits received expected) s _
            (told-Quiet received expected s)))
        (Quiet-Frame (evaluate-Quiet received expected state cycles _))
