-- ===== src/System/Stable.antt =====
-- Predicates of the statics that every primitive change keeps, and the routines that make these changes.
pub mod Scrub
pub mod Turns
pub mod Steps
use space_baremetal_skeleton.Common.{
  ℕ, zero, suc, ◌+◌, ◌%◌, ◌/◌, ◌^◌, ◌<◌, ◌≡◌, refl, Bool, true, false, not, ◌||◌, ◌==◌, bit_and,
  leb, ltb, Option, none, some, List, arith, set, if◌then◌else◌, Bool-cases, inl, inr,
}
use native.Mathlib.Decide.{dec_lt}
use space_baremetal_skeleton.Common.Words.{u8, u32}
use space_baremetal_skeleton.Kernel.{Board, Queue}
use space_baremetal_skeleton.States.{SystemState, degraded, StateRequest}
use space_baremetal_skeleton.EventLog.{
  Entry, write_entry, record_mem_prot_threshold, record_seu_corrected,
}
use space_baremetal_skeleton.Firmware.{FaultEvent, Command, Region, Firmware, print, say}
use space_baremetal_skeleton.SystemState.{request_change}
use space_baremetal_skeleton.SystemState.Requests.{with_requests, request_change-keeps}
use space_baremetal_skeleton.MemoryProtection.{
  perm_exec, record_violation, report_violation, check_access,
}
use space_baremetal_skeleton.MemoryProtection.Access.{permits, check_access-permits}
use space_baremetal_skeleton.SafePolicy.{allows_seu_escalation}
use space_baremetal_skeleton.MemoryScrub.{
  golden_read, scrub_read, scrub_write, record_seu, fix_in_range, fix_event, scrub_byte, scrub_from,
  scrub, corrected_byte,
}
use space_baremetal_skeleton.MemoryScrub.Bytes.{golden_read-lt}
use space_baremetal_skeleton.Command.Typed.{with_commands}
use space_baremetal_skeleton.FaultInject.Keeps.{with_faults}
use space_baremetal_skeleton.Watchdog.{kick, kick_impl}

-- The ranges of the C types of what is written: the fields of an entry, a fault event in the area, a reason.
abbrev pub IsEntry : Entry → Type 0
IsEntry e =
    (e.kind < 256) × (e.arg_a < 256) × (e.arg_b < 256) × (e.tick < 2 ^ 32) × (e.payload < 2 ^ 32)

abbrev pub IsEvent : FaultEvent → Type 0
IsEvent event = (event.index < 512) × (event.bit < 8)

abbrev pub IsRequest : StateRequest → Type 0
IsRequest request = request.reason_code < 2 ^ 32

-- What keeps a predicate: each change of one static that the tasks' rounds are made of.
pub record Stable (b : Board) (P : Firmware → Type 0) : Type 0 where
  pub out : (bytes : List ℕ) (s : Firmware) → P s → P (record s { out = bytes })
  pub tick : (now : ℕ) (s : Firmware) → now < 2 ^ 64 → P s → P (record s { tick = now })
  pub log :
      (e : Entry) (s : Firmware) → IsEntry e → P s → P (record s { log = write_entry e s.log })
  pub violation : (n : ℕ) (s : Firmware) → n < 2 ^ 32 → P s → P (record s { violation_count = n })
  pub state : (state : SystemState) (s : Firmware) → P s → P (record s { state = state })
  pub enabled : (on : Bool) (s : Firmware) → P s → P (record s { inject_enabled = on })
  pub area : (i v : ℕ) (s : Firmware) → v < 256 → P s → P (record s { area = set s.area i v })
  pub seu_counter : (n : ℕ) (s : Firmware) → n < 2 ^ 32 → P s → P (record s { seu_counter = n })
  pub seu_total : (n : ℕ) (s : Firmware) → n < 2 ^ 32 → P s → P (record s { seu_total = n })
  pub kicked :
      (bit : ℕ) (s : Firmware)
      → bit < 8
      → P s
      → P (record s { notification = b.notify s.notification bit })
  pub waited :
      (s : Firmware) → P s → P (record s { notification = (b.notify_wait 0 0 s.notification).0 })
  pub request_sent :
      (q p : Queue StateRequest) (request : StateRequest) (s : Firmware)
      → IsRequest request
      → s.state_queue ≡ some q
      → b.send q request ≡ some p
      → P s
      → P (with_requests p s)
  pub request_received :
      (q p : Queue StateRequest) (request : StateRequest) (s : Firmware)
      → s.state_queue ≡ some q
      → b.receive q ≡ some (request, p)
      → P s
      → P (with_requests p s) × IsRequest request
  pub fault_sent :
      (q p : Queue FaultEvent) (event : FaultEvent) (s : Firmware)
      → IsEvent event
      → s.fault_queue ≡ some q
      → b.send q event ≡ some p
      → P s
      → P (with_faults p s)
  pub fault_received :
      (q p : Queue FaultEvent) (event : FaultEvent) (s : Firmware)
      → s.fault_queue ≡ some q
      → b.receive q ≡ some (event, p)
      → P s
      → P (with_faults p s)
  pub command_sent :
      (q p : Queue Command) (cmd : Command) (s : Firmware)
      → s.command_queue ≡ some q
      → b.send q cmd ≡ some p
      → P s
      → P (with_commands p s)
  pub command_received :
      (q p : Queue Command) (cmd : Command) (s : Firmware)
      → s.command_queue ≡ some q
      → b.receive q ≡ some (cmd, p)
      → P s
      → P (with_commands p s)

-- Both branches of a test; the second is for results that carry a value.
pub kept_if :
    (P : Firmware → Type 0) (c : Bool) (s t : Firmware) → P s → P t → P (if c then s else t)
kept_if P true s t h k = h
kept_if P false s t h k = k

pub kept_if_first :
    {A : Type 0} (P : Firmware → Type 0) (c : Bool) (r q : Firmware × A)
    → P r.0
    → P q.0
    → P (if c then r else q).0
kept_if_first P true r q h k = h
kept_if_first P false r q h k = k

module _ (b : Board) (P : Firmware → Type 0) (k : Stable b P) where
  pub print-kept : (bytes : List ℕ) (s : Firmware) → P s → P (print bytes s)
  unfolding print
  print-kept bytes s h = k.out _ s h

  pub request_change-kept :
      (state : SystemState) (reason : ℕ) (s : Firmware)
      → reason < 2 ^ 32
      → P s
      → P (request_change b state reason s).0
  request_change-kept state reason s small h =
      request_change-keeps b P state reason s h (λ q p has e.
        k.request_sent q p (record { requested_state = state; reason_code = reason }) s small has e
          h)

  record_violation-kept : (s : Firmware) → P s → P (record_violation b s)
  unfolding record_violation record_mem_prot_threshold
  record_violation-kept s h =
      let counted : Firmware = record s { violation_count = u32 (s.violation_count + 1) } in
      let counted_kept : P counted = k.violation _ s (omega arith) h in
      let logged_kept : P (
          if counted.violation_count == 3
          then record counted {
            log = record_mem_prot_threshold counted.tick counted.violation_count counted.log;
          }
          else counted) =
        kept_if P (counted.violation_count == 3) _ counted
          (k.log _ counted (omega arith, omega arith, omega arith, omega arith, omega arith)
            counted_kept)
          counted_kept in
      kept_if P _ _ _ (request_change-kept degraded 4 _ (omega arith) logged_kept) logged_kept

  report_violation-kept :
      (address size : ℕ) (access : List ℕ) (region : Region) (s : Firmware)
      → P s
      → P (report_violation b address size access region s)
  unfolding report_violation
  report_violation-kept address size access region s h = record_violation-kept _ (print-kept _ s h)

  pub check_access-kept :
      (address size access : ℕ) (s : Firmware) → P s → P (check_access b address size access s).0
  check_access-kept address size access s h = rw (check_access-permits b address size access s) (
      kept_if_first P (permits s address size access) _ _ h
        (report_violation-kept address size _ _ s h))

  pub kick-kept : (bit : ℕ) (s : Firmware) → bit < 8 → P s → P (kick b bit s)
  unfolding kick kick_impl say
  kick-kept bit s small h =
      let checked = check_access-kept b.kick_address 1 perm_exec s h in
      kept_if P _ _ _ (print-kept _ _ checked)
        (kept_if P _ _ _ (k.kicked bit _ small checked) checked)
