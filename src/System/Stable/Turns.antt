-- ===== src/System/Stable/Turns.antt =====
-- The tasks' rounds keep what every primitive change keeps.
use space_baremetal_skeleton.Common.{
  ℕ, zero, suc, ◌≡◌, refl, sym, subst, Bool, true, false, Option, none, some, List, arith,
}
use space_baremetal_skeleton.Kernel.{Board}
use space_baremetal_skeleton.States.{SystemState}
use space_baremetal_skeleton.EventLog.{record_operator}
use space_baremetal_skeleton.Firmware.{
  Firmware, say, Command, status, go_nominal, go_degraded, go_safe, inject_fault, force_scrub,
  print_violations, print_seu_count, toggle_fault_inject, dump_event_log,
}
use space_baremetal_skeleton.SystemState.{request_change}
use space_baremetal_skeleton.SafePolicy.{bit_heartbeat, bit_memscrub, bit_faultinject, set_enabled}
use space_baremetal_skeleton.FaultInject.{fault_at, flip, inject_random_fault}
use space_baremetal_skeleton.FaultInject.Keeps.{inject_random_fault-keeps}
use space_baremetal_skeleton.Command.{input_turn, handle, handler_turn}
use space_baremetal_skeleton.Command.Keeps.{input_turn-keeps, handler_turn-keeps}
use space_baremetal_skeleton.Tasks.Drain.{drain_one-received, mem_scrub_turn-some}
use space_baremetal_skeleton.Tasks.{
  heartbeat_turn, fault_inject_turn, mem_scrub_turn, drain_one, drain,
}
use space_baremetal_skeleton.System.Stable.{
  Stable, kept_if, print-kept, request_change-kept, kick-kept,
}
use space_baremetal_skeleton.System.Stable.Scrub.{fix_event-kept, scrub-kept}

module _ (b : Board) (P : Firmware → Type 0) (k : Stable b P) where
  pub heartbeat_turn-kept : (s : Firmware) → P s → P (heartbeat_turn b s)
  unfolding heartbeat_turn say
  heartbeat_turn-kept s h =
      kick-kept b P k bit_heartbeat _ (omega arith) (kept_if P _ _ _ (print-kept b P k _ s h) h)

  inject_random_fault-kept : (s : Firmware) → P s → P (inject_random_fault b s)
  unfolding flip
  inject_random_fault-kept s h =
      let hit : (out : List ℕ) → P (record s { area = flip (fault_at s.tick) s.area; out = out }) =
        λ out. k.out out _ (k.area _ _ s (omega arith) h) in
      inject_random_fault-keeps b P s hit (λ out q p has e.
        k.fault_sent q p (fault_at s.tick) _ (omega arith, omega arith) has e (hit out))

  pub fault_inject_turn-kept : (s : Firmware) → P s → P (fault_inject_turn b s)
  unfolding fault_inject_turn
  fault_inject_turn-kept s h =
      let kicked = kick-kept b P k bit_faultinject s (omega arith) h in
      kept_if P _ _ _ (kept_if P _ _ _ (inject_random_fault-kept _ kicked) kicked) h

  drain_one-kept : (s t : Firmware) → P s → drain_one b s ≡ some t → P t
  drain_one-kept s t h e =
      let (q, p, event, has, given, same) = drain_one-received b s t e in
      subst P (sym same) (fix_event-kept b P k event _ (k.fault_received q p event s has given h))

  drain-kept :
      (fuel : ℕ) (had : Bool) (s t : Firmware) (after : Bool)
      → P s
      → drain b fuel had s ≡ some (t, after)
      → P t
  unfolding drain
  drain-kept zero had s t after h e = cc
  drain-kept (suc fuel) had s t after h e =
      by_one (drain_one b s) refl
        (λ u one. drain-kept fuel true u t after (drain_one-kept s u h one)) e
    where
      by_one :
          (o : Option Firmware)
          → drain_one b s ≡ o
          → ((u : Firmware) → drain_one b s ≡ some u → drain b fuel true u ≡ some (t, after) → P t)
          → (let r : Option (Firmware × Bool) = elim o [
            | none ↦ some (s, had)
            | some u ↦ drain b fuel true u
          ] in
              r ≡ some (t, after))
          → P t
      by_one none one rest e = let same : s ≡ t = cc in subst P same h
      by_one (some u) one rest e = rest u one e

  pub mem_scrub_turn-kept :
      (fuel : ℕ) (s t : Firmware) → P s → mem_scrub_turn b fuel s ≡ some t → P t
  mem_scrub_turn-kept fuel s t h e =
      let (u, had, drained, result) = mem_scrub_turn-some b fuel s t e in
      let first = drain-kept fuel false s u had h drained in
      subst P (sym result) (
        kick-kept b P k bit_memscrub _ (omega arith)
          (kept_if P _ _ _ (scrub-kept b P k u first) first))

  pub input_turn-kept : (byte : Option ℕ) (s : Firmware) → P s → P (input_turn b byte s)
  input_turn-kept byte s h =
      input_turn-keeps b P byte s (λ bytes t kept. print-kept b P k bytes t kept) h
        (λ q p cmd has e. k.command_sent q p cmd s has e h)

  operator-kept :
      (key : ℕ) (state : SystemState) (s : Firmware)
      → P s
      → P (request_change b state 0x10 (record s { log = record_operator s.tick key s.log })).0
  unfolding record_operator
  operator-kept key state s h =
      request_change-kept b P k state 16 _ (omega arith)
        (k.log _ s (omega arith, omega arith, omega arith, omega arith, omega arith) h)

  handle-kept : (cmd : Command) (s : Firmware) → P s → P (handle b cmd s)
  unfolding handle say set_enabled
  handle-kept status s h = print-kept b P k _ s h
  handle-kept go_nominal s h = operator-kept b'n' _ s h
  handle-kept go_degraded s h = operator-kept b'd' _ s h
  handle-kept go_safe s h = operator-kept b'a' _ s h
  handle-kept inject_fault s h =
      kept_if P _ _ _ (print-kept b P k _ s h) (inject_random_fault-kept s h)
  handle-kept force_scrub s h = scrub-kept b P k s h
  handle-kept print_violations s h = print-kept b P k _ s h
  handle-kept print_seu_count s h = print-kept b P k _ s h
  handle-kept toggle_fault_inject s h = print-kept b P k _ _ (k.enabled _ s h)
  handle-kept dump_event_log s h = print-kept b P k _ s h

  pub handler_turn-kept : (s : Firmware) → P s → P (handler_turn b s)
  handler_turn-kept s h =
      handler_turn-keeps b P s h
        (λ q p cmd has e. handle-kept cmd _ (k.command_received q p cmd s has e h))
