-- ===== src/System/Scrub.antt =====
-- The routines of the scrub, the fault injection and the kick, where the table of regions lets them pass.
use space_baremetal_skeleton.Common.{
  ℕ, zero, suc, ◌+◌, ◌≤◌, ◌<◌, ◌≡◌, refl, ap, sym, ◌∙◌, Bool, true, some, List, arith, ◌==◌, length,
  get_or, set, length-set, get_or-set_self, get_or-set_ne, set-outside, Bool-cases, inl, inr,
}
use native.Mathlib.Decide.{ℕ_discrete, dec_lt}
use space_baremetal_skeleton.Kernel.{Board}
use space_baremetal_skeleton.EventLog.{record_seu_corrected}
use space_baremetal_skeleton.EventLog.Ring.{write_entry-IsValid}
use space_baremetal_skeleton.Firmware.{FaultEvent, Firmware, print, say}
use space_baremetal_skeleton.MemoryProtection.{perm_exec}
use space_baremetal_skeleton.MemoryProtection.Access.{permits, check_access-permits}
use space_baremetal_skeleton.FaultInject.{flip, fault_at, inject_random_fault}
use space_baremetal_skeleton.MemoryScrub.{
  golden_read, record_seu, scrub_byte, scrub_from, scrub, fix_event,
}
use space_baremetal_skeleton.MemoryScrub.Bytes.{golden_read-lt}
use space_baremetal_skeleton.MemoryScrub.Access.{
  IsAccessible, IsAccessible-same, record_seu-SameButCounts, record_seu-counter, scrub_byte_lem,
}
use space_baremetal_skeleton.MemoryScrub.Upsets.{bit_intact, Fixed, fix_event-Fixed, fix_event-out}
use space_baremetal_skeleton.Watchdog.{kick, kick_impl}
use space_baremetal_skeleton.System.Frame.{Frame, Frame-refl, Frame-trans, Quiet, Quiet-Frame}

-- A write of a byte keeps a list of bytes one.
set-bytes :
    (xs : List ℕ) (k v : ℕ)
    → v < 256
    → ((i : ℕ) → get_or xs i 0 < 256)
    → (i : ℕ) → get_or (set xs k v) i 0 < 256
set-bytes xs k v small h i = elim (ℕ_discrete k i) [
  | no other ↦ rw (get_or-set_ne xs k i v 0 other) (h i)
  | yes same ↦ elim (dec_lt k (length xs)) [
    | yes inside ↦
        rw (ap (λ j. get_or (set xs k v) j 0) (sym same) ∙ get_or-set_self xs k v 0 inside) small
    | no past ↦ rw (set-outside xs k v (omega arith)) (h i)
  ]
]

area-Frame : (s : Firmware) (k v : ℕ) → v < 256 → Frame s (record s { area = set s.area k v })
area-Frame s k v small = record {
  state = refl;
  regions = refl;
  region_count = refl;
  violation_count = refl;
  log = λ h. h;
  size = length-set s.area k v;
  bytes = set-bytes s.area k v small;
  seu_counter = λ h. h;
}

record_seu-Frame : (b : Board) (s : Firmware) → Frame s (record_seu b s)
record_seu-Frame b s =
    let kept = record_seu-SameButCounts b s in
    record {
      state = kept.state;
      regions = kept.regions;
      region_count = kept.region_count;
      violation_count = kept.violation_count;
      log = λ v. rw kept.log v;
      size = ap length kept.area;
      bytes = λ h i. rw kept.area (h i);
      seu_counter = record_seu-counter b s;
    }

scrub_byte-Frame :
    (b : Board) (i : ℕ) (s : Firmware) (e : ℕ)
    → IsAccessible b s
    → i < 512
    → Frame s (scrub_byte b i (s, e)).0
scrub_byte-Frame b i s e acc h = elim (Bool-cases (get_or s.area i 0 == golden_read i)) [
  | inl same ↦ rw (scrub_byte_lem b i s e (acc i h), same) (Frame-refl s)
  | inr upset ↦
      rw (scrub_byte_lem b i s e (acc i h), upset)
        (Frame-trans (area-Frame s i (golden_read i) (golden_read-lt i)) (record_seu-Frame b _))
]

-- Access lasts along a frame.
pub IsAccessible-Frame :
    (b : Board) {s t : Firmware} → Frame s t → IsAccessible b s → IsAccessible b t
IsAccessible-Frame b {s} {t} f = IsAccessible-same b s t f.regions f.region_count

scrub_from-Frame :
    (b : Board) (n i : ℕ) (r : Firmware × ℕ)
    → IsAccessible b r.0
    → i + n ≤ 512
    → Frame r.0 (scrub_from b n i r).0
unfolding scrub_from
scrub_from-Frame b zero i r acc h = Frame-refl r.0
scrub_from-Frame b (suc n) i (s, e) acc h =
    let once = scrub_byte-Frame b i s e acc (omega arith) in
    Frame-trans once (
      scrub_from-Frame b n (i + 1) (scrub_byte b i (s, e)) (IsAccessible-Frame b once acc)
        (omega arith))

scrub-Quiet : (b : Board) (s : Firmware) → Quiet (scrub_from b 512 0 (s, 0)).0 (scrub b s)
unfolding scrub say print
scrub-Quiet b s = ground arith

pub scrub-Frame : (b : Board) (s : Firmware) → IsAccessible b s → Frame s (scrub b s)
scrub-Frame b s acc =
    Frame-trans (scrub_from-Frame b 512 0 (s, 0) acc (omega arith)) (Quiet-Frame (scrub-Quiet b s))

flip-bytes :
    (event : FaultEvent) (area : List ℕ)
    → ((i : ℕ) → get_or area i 0 < 256)
    → (i : ℕ) → get_or (flip event area) i 0 < 256
unfolding flip
flip-bytes event area h = set-bytes area event.index _ (omega arith) h

length-flip : (event : FaultEvent) (area : List ℕ) → length (flip event area) ≡ length area
unfolding flip
length-flip event area = length-set area event.index _

flip-Frame : (s : Firmware) (event : FaultEvent) → Frame s (record s { area = flip event s.area })
flip-Frame s event = record {
  state = refl;
  regions = refl;
  region_count = refl;
  violation_count = refl;
  log = λ h. h;
  size = length-flip event s.area;
  bytes = flip-bytes event s.area;
  seu_counter = λ h. h;
}

-- Behind the flip, the injection prints and sends.
inject_random_fault-Quiet :
    (b : Board) (s : Firmware)
    → Quiet (record s { area = flip (fault_at s.tick) s.area }) (inject_random_fault b s)
unfolding inject_random_fault print say
inject_random_fault-Quiet b s = ground arith

pub inject_random_fault-Frame : (b : Board) (s : Firmware) → Frame s (inject_random_fault b s)
inject_random_fault-Frame b s =
    Frame-trans (flip-Frame s (fault_at s.tick)) (Quiet-Frame (inject_random_fault-Quiet b s))

Fixed-Frame :
    (b : Board) (event : FaultEvent) (s : Firmware) (r : Firmware × Bool)
    → Fixed b event s r
    → Frame s r.0
unfolding record_seu_corrected
Fixed-Frame b event s r f = record {
  state = f.state;
  regions = f.regions;
  region_count = f.region_count;
  violation_count = f.violation_count;
  log = λ v. elim (Bool-cases (bit_intact event s.area)) [
    | inl intact ↦ rw (f.log, intact) v
    | inr upset ↦ rw (f.log, upset) (write_entry-IsValid s.log _ v)
  ];
  size = elim (Bool-cases (bit_intact event s.area)) [
    | inl intact ↦ rw (f.area, intact)
    | inr upset ↦ rw (f.area, upset) (length-flip event s.area)
  ];
  bytes = λ h i. elim (Bool-cases (bit_intact event s.area)) [
    | inl intact ↦ rw (f.area, intact) (h i)
    | inr upset ↦ rw (f.area, upset) (flip-bytes event s.area h i)
  ];
  seu_counter = f.counter_in;
}

pub fix_event-Frame :
    (b : Board) (event : FaultEvent) (s : Firmware)
    → IsAccessible b s
    → ((i : ℕ) → get_or s.area i 0 < 256)
    → Frame s (fix_event b (some event) s).0
fix_event-Frame b event s acc bytes = elim (dec_lt event.index 512) [
  | no far ↦ rw (fix_event-out b event s (inl (omega arith))) (Frame-refl s)
  | yes near ↦ elim (dec_lt event.bit 8) [
    | no high ↦ rw (fix_event-out b event s (inr (omega arith))) (Frame-refl s)
    | yes low ↦ Fixed-Frame b event s _ (fix_event-Fixed b event s acc near low (bytes event.index))
  ]
]

-- A kick that the table of regions lets pass only notifies.
kick_impl-Quiet : (b : Board) (bit : ℕ) (s : Firmware) → Quiet s (kick_impl b bit s)
unfolding kick_impl
kick_impl-Quiet b bit s = ground arith

pub kick_lem :
    (b : Board) (bit : ℕ) (s : Firmware)
    → permits s b.kick_address 1 perm_exec ≡ true
    → kick b bit s ≡ kick_impl b bit s
unfolding kick
kick_lem b bit s h = rw (check_access-permits b b.kick_address 1 perm_exec s, h)

pub kick-Frame :
    (b : Board) (bit : ℕ) (s : Firmware)
    → permits s b.kick_address 1 perm_exec ≡ true
    → Frame s (kick b bit s)
kick-Frame b bit s h = rw (kick_lem b bit s h) (Quiet-Frame (kick_impl-Quiet b bit s))
