-- ===== src/MemoryProtection/Violations.antt =====
-- What a refused access leaves behind: the count, the log entry at the threshold, the requests.
use space_baremetal_skeleton.Common.{
  ℕ, ◌+◌, ◌≡◌, refl, false, List, arith, leb, ◌==◌, if◌then◌else◌,
}
use space_baremetal_skeleton.Common.Words.{u32}
use space_baremetal_skeleton.Kernel.{Board}
use space_baremetal_skeleton.States.{SystemState, degraded}
use space_baremetal_skeleton.EventLog.{record_mem_prot_threshold}
use space_baremetal_skeleton.Firmware.{Region, Firmware, print}
use space_baremetal_skeleton.SystemState.{request_change}
use space_baremetal_skeleton.MemoryProtection.{
  record_violation, report_violation, check_access, access_type_name,
}
use space_baremetal_skeleton.MemoryProtection.Access.{permits, refusing, check_access-permits}

-- A request touches the queue of requests alone.
pub request_change_frame :
    (b : Board) (state : SystemState) (reason : ℕ) (s : Firmware)
    → (request_change b state reason s).0
      ≡ record s { state_queue = (request_change b state reason s).0.state_queue }
unfolding request_change
request_change_frame b state reason s = ground arith

-- What a violation does: it is counted, the third is logged, from the third on DEGRADED is requested,
-- and all else but the console stays.
pub record Violated (b : Board) (s t : Firmware) : Type 0 where
  pub counted : t.violation_count ≡ u32 (s.violation_count + 1)
  pub logged : t.log ≡ (
      if u32 (s.violation_count + 1) == 3 then record_mem_prot_threshold s.tick 3 s.log else s.log)
  pub requested : t.state_queue ≡ (
      if leb 3 (u32 (s.violation_count + 1))
      then (request_change b degraded 0x04 s).0.state_queue
      else s.state_queue)
  pub same_state : t.state ≡ s.state
  pub same_area : t.area ≡ s.area
  pub same_regions : t.regions ≡ s.regions
  pub same_region_count : t.region_count ≡ s.region_count
  pub same_notification : t.notification ≡ s.notification

report_violation-Violated :
    (b : Board) (address size : ℕ) (access : List ℕ) (region : Region) (s : Firmware)
    → Violated b s (report_violation b address size access region s)
unfolding report_violation record_violation print request_change
report_violation-Violated b address size access region s = ground arith

-- An access that some region in its way does not grant is refused: it is counted, logged at the third,
-- reported as a request of DEGRADED with reason 4 from the third on, and changes neither the state, nor
-- the protected area, nor the table of regions.
pub check_access-Violated :
    (b : Board) (address size access : ℕ) (s : Firmware)
    → permits s address size access ≡ false
    → ((check_access b address size access s).1 ≡ false)
      × Violated b s (check_access b address size access s).0
check_access-Violated b address size access s h =
    rw (check_access-permits b address size access s, h)
      (
        refl,
        report_violation-Violated b address size (access_type_name access)
            (refusing s.region_count 0 s.regions address size access) s,
      )
