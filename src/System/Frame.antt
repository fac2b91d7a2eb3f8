-- ===== src/System/Frame.antt =====
-- What every task but the state machine leaves alone, and the routines that change little.
use space_baremetal_skeleton.Common.{
  ℕ, ◌<◌, ◌≡◌, refl, ◌∙◌, ap, List, arith, length, get_or, Bool, true, false, if◌then◌else◌,
}
use space_baremetal_skeleton.Kernel.{Board}
use space_baremetal_skeleton.States.{SystemState}
use space_baremetal_skeleton.EventLog.{EventLog, Entry, write_entry}
use space_baremetal_skeleton.EventLog.Ring.{IsValid, write_entry-IsValid}
use space_baremetal_skeleton.Firmware.{Firmware, print}
use space_baremetal_skeleton.SystemState.{request_change}

-- The state, the table of regions and the count of violations stay; the log stays valid, the area a list of
-- bytes of its length, and the SEU counter below its threshold.
pub record Frame (s t : Firmware) : Type 0 where
  pub state : t.state ≡ s.state
  pub regions : t.regions ≡ s.regions
  pub region_count : t.region_count ≡ s.region_count
  pub violation_count : t.violation_count ≡ s.violation_count
  pub log : IsValid s.log → IsValid t.log
  pub size : length t.area ≡ length s.area
  pub bytes : ((i : ℕ) → get_or s.area i 0 < 256) → (i : ℕ) → get_or t.area i 0 < 256
  pub seu_counter : s.seu_counter < 5 → t.seu_counter < 5

pub Frame-refl : (s : Firmware) → Frame s s
Frame-refl s = record {
  state = refl;
  regions = refl;
  region_count = refl;
  violation_count = refl;
  log = λ v. v;
  size = refl;
  bytes = λ h. h;
  seu_counter = λ h. h;
}

pub Frame-trans : {s t u : Firmware} → Frame s t → Frame t u → Frame s u
Frame-trans p q = record {
  state = q.state ∙ p.state;
  regions = q.regions ∙ p.regions;
  region_count = q.region_count ∙ p.region_count;
  violation_count = q.violation_count ∙ p.violation_count;
  log = λ v. q.log (p.log v);
  size = q.size ∙ p.size;
  bytes = λ h. q.bytes (p.bytes h);
  seu_counter = λ h. q.seu_counter (p.seu_counter h);
}

-- Nothing of what a frame speaks of changes.
pub record Quiet (s t : Firmware) : Type 0 where
  pub state : t.state ≡ s.state
  pub regions : t.regions ≡ s.regions
  pub region_count : t.region_count ≡ s.region_count
  pub violation_count : t.violation_count ≡ s.violation_count
  pub log : t.log ≡ s.log
  pub area : t.area ≡ s.area
  pub seu_counter : t.seu_counter ≡ s.seu_counter

pub Quiet-Frame : {s t : Firmware} → Quiet s t → Frame s t
Quiet-Frame q = record {
  state = q.state;
  regions = q.regions;
  region_count = q.region_count;
  violation_count = q.violation_count;
  log = λ v. rw q.log v;
  size = ap length q.area;
  bytes = λ h i. rw q.area (h i);
  seu_counter = λ h. rw q.seu_counter h;
}

-- Only the log changes, and stays valid.
pub log-Frame :
    (s : Firmware) (log : EventLog)
    → (IsValid s.log → IsValid log)
    → Frame s (record s { log = log })
log-Frame s log h = record {
  state = refl;
  regions = refl;
  region_count = refl;
  violation_count = refl;
  log = h;
  size = refl;
  bytes = λ h. h;
  seu_counter = λ h. h;
}

pub entry-Frame : (s : Firmware) (e : Entry) → Frame s (record s { log = write_entry e s.log })
entry-Frame s e = log-Frame s (write_entry e s.log) (write_entry-IsValid s.log e)

pub print-Quiet : (bytes : List ℕ) (s : Firmware) → Quiet s (print bytes s)
unfolding print
print-Quiet bytes s = ground arith

pub request_change-Quiet :
    (b : Board) (state : SystemState) (reason : ℕ) (s : Firmware)
    → Quiet s (request_change b state reason s).0
unfolding request_change
request_change-Quiet b state reason s = ground arith

pub Frame-if :
    {s : Firmware} (p : Bool) (t u : Firmware)
    → Frame s t
    → Frame s u
    → Frame s (if p then t else u)
Frame-if true t u ht hu = ht
Frame-if false t u ht hu = hu
