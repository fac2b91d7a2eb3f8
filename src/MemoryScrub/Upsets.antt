-- ===== src/MemoryScrub/Upsets.antt =====
-- The targeted correction of one flipped bit.
use space_baremetal_skeleton.Common.{
  ℕ, ◌⊎◌, ◌≤◌, ◌+◌, ◌^◌, ◌<◌, ◌≡◌, refl, Bool, true, false, not, some, List, arith, ◌==◌,
  if◌then◌else◌, get_or, Bool-cases, inl, inr, bit_and, leb, ◌&&◌, text, ◌++◌,
}
use space_baremetal_skeleton.Common.Words.{u32}
use space_baremetal_skeleton.Kernel.{Board}
use space_baremetal_skeleton.States.{degraded, safe, same_state}
use space_baremetal_skeleton.SystemState.{request_change}
use space_baremetal_skeleton.SafePolicy.{allows_seu_escalation}
use space_baremetal_skeleton.Uart.{crlf}
use space_baremetal_skeleton.EventLog.{EventLog, record_seu_corrected}
use space_baremetal_skeleton.Firmware.{FaultEvent, Firmware, print}
use space_baremetal_skeleton.FaultInject.{flip, em_dash}
use space_baremetal_skeleton.MemoryScrub.{
  golden_read, corrected_byte, record_seu, fix_in_range, fix_event, fix_told,
}
use space_baremetal_skeleton.MemoryScrub.Bytes.{mask_small, corrected_byte-flips, golden_read-lt}
use space_baremetal_skeleton.MemoryScrub.Access.{
  IsAccessible, scrub_read_lem, scrub_write_lem, record_seu-SameButCounts, record_seu-total,
  record_seu-counter,
}

-- Whether a byte of the area has the bit that the golden copy has.
abbrev pub bit_intact : FaultEvent → List ℕ → Bool
bit_intact event area =
    bit_and (get_or area event.index 0) (2 ^ event.bit)
    == bit_and (golden_read event.index) (2 ^ event.bit)

-- Whether one more upset asks for DEGRADED, and the counter behind it: outside SAFE it goes up, and starts
-- again at 5.
abbrev pub escalates_now : Firmware → Bool
escalates_now s = not (same_state s.state safe) && leb 5 (u32 (s.seu_counter + 1))

abbrev pub counter_after : Firmware → ℕ
counter_after s =
    if same_state s.state safe
    then s.seu_counter
    else if leb 5 (u32 (s.seu_counter + 1))
    then 0
    else u32 (s.seu_counter + 1)

-- What a call of `memory_scrub_fix_event` in range does, for each of the statics.
pub record Fixed (b : Board) (event : FaultEvent) (s : Firmware) (r : Firmware × Bool)
    : Type 0 where
  pub result : r.1 ≡ not (bit_intact event s.area)
  pub area : r.0.area ≡ (if bit_intact event s.area then s.area else flip event s.area)
  pub log : r.0.log ≡ (
      if bit_intact event s.area
      then s.log
      else record_seu_corrected s.tick event.index event.bit s.log)
  pub seu_total :
      r.0.seu_total ≡ (if bit_intact event s.area then s.seu_total else u32 (s.seu_total + 1))
  pub state : r.0.state ≡ s.state
  pub violation_count : r.0.violation_count ≡ s.violation_count
  pub regions : r.0.regions ≡ s.regions
  pub region_count : r.0.region_count ≡ s.region_count
  pub seu_counter :
      r.0.seu_counter ≡ (if bit_intact event s.area then s.seu_counter else counter_after s)
  pub counter_in : s.seu_counter < 5 → r.0.seu_counter < 5
  pub state_queue : r.0.state_queue ≡ (
      if not (bit_intact event s.area) && escalates_now s
      then (request_change b degraded 0x02 s).0.state_queue
      else s.state_queue)
  -- Every other static is as it was.
  pub others : r.0 ≡ record s {
    out = r.0.out;
    area = r.0.area;
    log = r.0.log;
    seu_total = r.0.seu_total;
    seu_counter = r.0.seu_counter;
    state_queue = r.0.state_queue;
  }

record_seu-counter_after :
    (b : Board) (s : Firmware) → (record_seu b s).seu_counter ≡ counter_after s
unfolding record_seu request_change allows_seu_escalation
record_seu-counter_after b s = ground arith

record_seu-state_queue :
    (b : Board) (s : Firmware) (out area : List ℕ) (log : EventLog)
    → (record_seu b (record s { out = out; area = area; log = log })).state_queue ≡ (
        if escalates_now s then (request_change b degraded 0x02 s).0.state_queue else s.state_queue)
unfolding record_seu request_change allows_seu_escalation
record_seu-state_queue b s out area log = ground arith

record_seu-others :
    (b : Board) (s : Firmware) (out area : List ℕ) (log : EventLog)
    → let t = record_seu b (record s { out = out; area = area; log = log }) in
      t ≡ record s {
        out = t.out;
        area = t.area;
        log = t.log;
        seu_total = t.seu_total;
        seu_counter = t.seu_counter;
        state_queue = t.state_queue;
      }
unfolding record_seu request_change
record_seu-others b s out area log = ground arith

-- The two outcomes in range, with the callees shut.
fix_in_range-intact :
    (b : Board) (event : FaultEvent) (s : Firmware)
    → IsAccessible b s
    → event.index < 512
    → event.bit < 8
    → bit_intact event s.area ≡ true
    → fix_in_range b event s ≡ (
      fix_told b
          (text "Memory scrub: targeted check @ byte ")
          event
          (text " " ++ (em_dash ++ text " ok\r\n"))
          s,
      false,
    )
unfolding fix_in_range
fix_in_range-intact b event s acc hi hb intact =
    rw (mask_small event.bit hb, scrub_read_lem b event.index s (acc event.index hi).0, intact)

-- The state in which the corrected upset is counted.
corrected : Board → FaultEvent → Firmware → Firmware
corrected b event s =
    let told =
      fix_told b (text "Memory scrub: SEU corrected @ byte ") event crlf
        (record s { area = flip event s.area }) in
    record told { log = record_seu_corrected told.tick event.index event.bit told.log }

fix_in_range-upset :
    (b : Board) (event : FaultEvent) (s : Firmware)
    → IsAccessible b s
    → event.index < 512
    → event.bit < 8
    → get_or s.area event.index 0 < 256
    → bit_intact event s.area ≡ false
    → fix_in_range b event s ≡ (record_seu b (corrected b event s), true)
unfolding fix_in_range corrected flip
fix_in_range-upset b event s acc hi hb byte upset = rw (
  mask_small event.bit hb,
  scrub_read_lem b event.index s (acc event.index hi).0,
  upset,
  scrub_write_lem b event.index
      (corrected_byte (get_or s.area event.index 0) (golden_read event.index) (2 ^ event.bit)) s
      (acc event.index hi).1,
  corrected_byte-flips event.bit (get_or s.area event.index 0) (golden_read event.index) hb byte
      (golden_read-lt event.index) (ground (arith, upset)),
)

fix_event_in_range :
    (b : Board) (event : FaultEvent) (s : Firmware)
    → event.index < 512
    → event.bit < 8
    → fix_event b (some event) s ≡ fix_in_range b event s
unfolding fix_event
fix_event_in_range b event s hi hb = ground arith

Fixed-intact :
    (b : Board) (event : FaultEvent) (s : Firmware)
    → bit_intact event s.area ≡ true
    → Fixed b event s (
      fix_told b
          (text "Memory scrub: targeted check @ byte ")
          event
          (text " " ++ (em_dash ++ text " ok\r\n"))
          s,
      false,
    )
unfolding fix_told print
Fixed-intact b event s intact = record {
  result = rw intact;
  area = rw intact;
  log = rw intact;
  seu_total = rw intact;
  state = refl;
  violation_count = refl;
  regions = refl;
  region_count = refl;
  seu_counter = rw intact refl;
  counter_in = λ h. h;
  state_queue = rw intact refl;
  others = refl;
}

Fixed-upset :
    (b : Board) (event : FaultEvent) (s : Firmware)
    → bit_intact event s.area ≡ false
    → Fixed b event s (record_seu b (corrected b event s), true)
unfolding corrected fix_told print
Fixed-upset b event s upset =
    let kept = record_seu-SameButCounts b (corrected b event s) in
    record {
      result = rw upset;
      area = rw upset kept.area;
      log = rw upset kept.log;
      seu_total = rw upset (record_seu-total b (corrected b event s));
      state = kept.state;
      violation_count = kept.violation_count;
      regions = kept.regions;
      region_count = kept.region_count;
      seu_counter = rw upset (record_seu-counter_after b (corrected b event s));
      counter_in = record_seu-counter b (corrected b event s);
      state_queue = rw upset (record_seu-state_queue b s _ _ _);
      others = record_seu-others b s _ _ _;
    }

-- A fault event out of range is refused, and changes nothing.
pub fix_event-out :
    (b : Board) (event : FaultEvent) (s : Firmware)
    → (512 ≤ event.index) ⊎ (8 ≤ event.bit)
    → fix_event b (some event) s ≡ (s, false)
unfolding fix_event
fix_event-out b event s h = ground arith

-- With the area accessible, an event's byte and bit in range and the stored byte below 256, the
-- event is refused when the byte's bit is the golden one, with nothing but the console changed.
-- Otherwise that bit alone is flipped back, the correction is logged, the total counts it modulo 2
-- ^ 32, and the SEU counter stays in SAFE and elsewhere goes up modulo 2 ^ 32, except that at 5 and
-- above it becomes 0 and DEGRADED is requested for reason 2; every other static but the console
-- stays. A counter below 5 stays below 5.
pub fix_event-Fixed :
    (b : Board) (event : FaultEvent) (s : Firmware)
    → IsAccessible b s
    → event.index < 512
    → event.bit < 8
    → get_or s.area event.index 0 < 256
    → Fixed b event s (fix_event b (some event) s)
fix_event-Fixed b event s acc hi hb byte = elim (Bool-cases (bit_intact event s.area)) [
  | inl intact ↦
      rw (fix_event_in_range b event s hi hb, fix_in_range-intact b event s acc hi hb intact)
        (Fixed-intact b event s intact)
  | inr upset ↦
      rw (fix_event_in_range b event s hi hb, fix_in_range-upset b event s acc hi hb byte upset)
        (Fixed-upset b event s upset)
]
