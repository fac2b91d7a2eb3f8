-- ===== src/MemoryScrub/Frame.antt =====
-- The correction of an event leaves the queue of events alone.
use space_baremetal_skeleton.Common.{ℕ, ◌≡◌, some, List, arith, Bool-cases, inl, inr, ◌^◌}
use space_baremetal_skeleton.Common.Words.{u8}
use space_baremetal_skeleton.Kernel.{Board}
use space_baremetal_skeleton.Firmware.{FaultEvent, Region, Firmware, print, say}
use space_baremetal_skeleton.SystemState.{request_change}
use space_baremetal_skeleton.MemoryProtection.{record_violation, report_violation, check_access}
use space_baremetal_skeleton.MemoryProtection.Access.{permits, check_access-permits}
use space_baremetal_skeleton.MemoryScrub.{
  golden_read, address_of, corrected_byte, scrub_read, scrub_write, record_seu, fix_told,
  fix_in_range, fix_event,
}

report_violation_queue :
    (b : Board) (address size : ℕ) (access : List ℕ) (region : Region) (s : Firmware)
    → (report_violation b address size access region s).fault_queue ≡ s.fault_queue
unfolding report_violation record_violation print request_change
report_violation_queue b address size access region s = ground arith

check_access_queue :
    (b : Board) (address size access : ℕ) (s : Firmware)
    → (check_access b address size access s).0.fault_queue ≡ s.fault_queue
check_access_queue b address size access s =
    rw (check_access-permits b address size access s)
      (elim (Bool-cases (permits s address size access)) [
        | inl yes_ ↦ rw yes_
        | inr no_ ↦ rw no_ (report_violation_queue b address size _ _ s)
      ])

scrub_read_queue :
    (b : Board) (i : ℕ) (s : Firmware) → (scrub_read b i s).0.fault_queue ≡ s.fault_queue
unfolding scrub_read
scrub_read_queue b i s = check_access_queue b (address_of b i) 1 _ s

scrub_write_queue :
    (b : Board) (i v : ℕ) (s : Firmware) → (scrub_write b i v s).0.fault_queue ≡ s.fault_queue
unfolding scrub_write
scrub_write_queue b i v s = ground (arith, check_access_queue b (address_of b i) 1 2 s)

fix_in_range_queue :
    (b : Board) (event : FaultEvent) (s : Firmware)
    → (fix_in_range b event s).0.fault_queue ≡ s.fault_queue
unfolding fix_in_range fix_told say print record_seu request_change
fix_in_range_queue b event s =
    let read = (scrub_read b event.index s).0 in
    let actual = (scrub_read b event.index s).1 in
    let value = corrected_byte actual (golden_read event.index) (u8 (2 ^ event.bit)) in
    let written = (scrub_write b event.index value read).0 in
    ground (arith, scrub_read_queue b event.index s, scrub_write_queue b event.index value read)

pub fix_event_queue :
    (b : Board) (event : FaultEvent) (s : Firmware)
    → (fix_event b (some event) s).0.fault_queue ≡ s.fault_queue
unfolding fix_event
fix_event_queue b event s = ground (arith, fix_in_range_queue b event s)
