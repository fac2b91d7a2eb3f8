-- ===== src/System/Repair.antt =====
-- An upset that the fault injection makes, and the round of the scrub task behind it.
use space_baremetal_skeleton.Common.{
  ℕ, ◌+◌, ◌<◌, ◌≡◌, refl, ap, ap₂, ◌∙◌, Bool, true, false, some, [], ◌∷◌, arith, if◌then◌else◌,
}
use space_baremetal_skeleton.Common.Words.{u32}
use space_baremetal_skeleton.Kernel.{Board, BoardLaws}
use space_baremetal_skeleton.States.{nominal}
use space_baremetal_skeleton.EventLog.{record_seu_corrected}
use space_baremetal_skeleton.Firmware.{FaultEvent, Firmware, print, say}
use space_baremetal_skeleton.MemoryProtection.{perm_exec}
use space_baremetal_skeleton.MemoryProtection.Access.{permits}
use space_baremetal_skeleton.SafePolicy.{bit_faultinject, bit_memscrub, allows_auto_fault_inject}
use space_baremetal_skeleton.FaultInject.{fault_at, flip, inject_random_fault}
use space_baremetal_skeleton.MemoryScrub.{golden_copy, fix_event}
use space_baremetal_skeleton.MemoryScrub.Frame.{fix_event_queue}
use space_baremetal_skeleton.MemoryScrub.Access.{IsAccessible-same}
use space_baremetal_skeleton.MemoryScrub.Mend.{Repaired, fix_event-Repaired}
use space_baremetal_skeleton.Watchdog.{kick, kick_impl}
use space_baremetal_skeleton.Tasks.{fault_inject_turn, mem_scrub_turn}
use space_baremetal_skeleton.Tasks.Drain.{events, fix_all, drain-fix_all}
use space_baremetal_skeleton.System.Scrub.{kick_lem}
use space_baremetal_skeleton.System.Invariant.{IsSound, kick_access-same}

-- What a kick leaves alone.
record Kept (s t : Firmware) : Type 0 where
  area : t.area ≡ s.area
  log : t.log ≡ s.log
  tick : t.tick ≡ s.tick
  fault_queue : t.fault_queue ≡ s.fault_queue
  inject_enabled : t.inject_enabled ≡ s.inject_enabled
  seu_total : t.seu_total ≡ s.seu_total
  regions : t.regions ≡ s.regions
  region_count : t.region_count ≡ s.region_count

kick-Kept :
    (b : Board) (bit : ℕ) (s : Firmware)
    → permits s b.kick_address 1 perm_exec ≡ true
    → Kept s (kick b bit s)
kick-Kept b bit s h = rw (kick_lem b bit s h) (unfold kick_impl in ground arith)

-- What an injection leaves, when the queue of events is empty and has room.
record Injected (capacity : ℕ) (s t : Firmware) : Type 0 where
  area : t.area ≡ flip (fault_at s.tick) s.area
  log : t.log ≡ s.log
  tick : t.tick ≡ s.tick
  fault_queue : t.fault_queue ≡ some (events capacity (fault_at s.tick ∷ []))
  seu_total : t.seu_total ≡ s.seu_total
  regions : t.regions ≡ s.regions
  region_count : t.region_count ≡ s.region_count

inject_random_fault-Injected :
    (b : Board) (laws : BoardLaws b) (capacity : ℕ) (s : Firmware)
    → s.fault_queue ≡ some (events capacity [])
    → 0 < capacity
    → Injected capacity s (inject_random_fault b s)
unfolding inject_random_fault say print
inject_random_fault-Injected b laws capacity s has room =
    rw (has, laws.send_room (events capacity []) (fault_at s.tick) room)
      (record {
        area = refl;
        log = refl;
        tick = refl;
        fault_queue = refl;
        seu_total = refl;
        regions = refl;
        region_count = refl;
      })

both :
    {A : Type 0} (p q : Bool) (x y z : A)
    → p ≡ true
    → q ≡ true
    → (if p then (if q then x else y) else z) ≡ x
both p q x y z e f = rw (e, f)

-- In NOMINAL with the injection on, the task's round kicks and injects.
fault_inject_turn-inject :
    (b : Board) (s : Firmware)
    → s.state ≡ nominal
    → (kick b bit_faultinject s).inject_enabled ≡ true
    → fault_inject_turn b s ≡ inject_random_fault b (kick b bit_faultinject s)
unfolding fault_inject_turn
fault_inject_turn-inject b s state enabled =
    both (allows_auto_fault_inject s.state) (kick b bit_faultinject s).inject_enabled _ _ _
      (ap allows_auto_fault_inject state ∙ unfold allows_auto_fault_inject in refl) enabled

fault_inject_turn-Injected :
    (b : Board) (laws : BoardLaws b) (capacity : ℕ) (s : Firmware)
    → s.state ≡ nominal
    → s.inject_enabled ≡ true
    → permits s b.kick_address 1 perm_exec ≡ true
    → s.fault_queue ≡ some (events capacity [])
    → 0 < capacity
    → Injected capacity s (fault_inject_turn b s)
fault_inject_turn-Injected b laws capacity s state enabled allowed has room =
    let kept = kick-Kept b bit_faultinject s allowed in
    let hit =
      inject_random_fault-Injected b laws capacity (kick b bit_faultinject s)
        (kept.fault_queue ∙ has) room in
    rw (fault_inject_turn-inject b s state (kept.inject_enabled ∙ enabled)) (record {
      area = hit.area ∙ ap₂ (λ k a. flip (fault_at k) a) kept.tick kept.area;
      log = hit.log ∙ kept.log;
      tick = hit.tick ∙ kept.tick;
      fault_queue = hit.fault_queue ∙ ap (λ k. some (events capacity (fault_at k ∷ []))) kept.tick;
      seu_total = hit.seu_total ∙ kept.seu_total;
      regions = hit.regions ∙ kept.regions;
      region_count = hit.region_count ∙ kept.region_count;
    })

-- What a round of the scrub task does to one event.
mem_scrub_turn-one :
    (b : Board) (laws : BoardLaws b) (capacity fuel : ℕ) (event : FaultEvent) (s : Firmware)
    → s.fault_queue ≡ some (events capacity (event ∷ []))
    → 1 < fuel
    → mem_scrub_turn b fuel s
      ≡ some (
          kick b bit_memscrub
            (fix_event b (some event) (record s { fault_queue = some (events capacity []) })).0)
unfolding mem_scrub_turn fix_all
mem_scrub_turn-one b laws capacity fuel event s has enough =
    rw ((drain-fix_all b laws capacity (event ∷ []) fuel false s has enough).0)

-- What both rounds leave.
pub record Mended (capacity : ℕ) (s t : Firmware) : Type 0 where
  pub area : t.area ≡ golden_copy
  pub log : t.log ≡ record_seu_corrected s.tick (fault_at s.tick).index (fault_at s.tick).bit s.log
  pub seu_total : t.seu_total ≡ u32 (s.seu_total + 1)
  pub fault_queue : t.fault_queue ≡ some (events capacity [])

-- For a board that meets the kernel's laws, from a sound firmware in NOMINAL with the injection on,
-- an intact area and an empty queue of events with room: the round of the injection task and then
-- one of the scrub task, with at least two rounds of fuel, end and restore the golden copy, log the
-- bit that was hit, count one upset and leave the queue empty.
pub turns-mend :
    (b : Board) (laws : BoardLaws b) (capacity fuel : ℕ) (s : Firmware)
    → IsSound b s
    → s.state ≡ nominal
    → s.inject_enabled ≡ true
    → s.area ≡ golden_copy
    → s.fault_queue ≡ some (events capacity [])
    → 0 < capacity
    → 1 < fuel
    → (t : Firmware) × (mem_scrub_turn b fuel (fault_inject_turn b s) ≡ some t)
      × Mended capacity s t
turns-mend b laws capacity fuel s sound state enabled golden has room enough = (
  kick b bit_memscrub corrected,
  mem_scrub_turn-one b laws capacity fuel event hit injected.fault_queue enough,
  record {
    area = kept.area ∙ fixed.area;
    log =
        kept.log
        ∙ fixed.log
        ∙ ap₂ (λ k l. record_seu_corrected k event.index event.bit l) injected.tick injected.log;
    seu_total = kept.seu_total ∙ fixed.seu_total ∙ ap (λ n. u32 (n + 1)) injected.seu_total;
    fault_queue = kept.fault_queue ∙ fix_event_queue b event popped;
  },
)
  where
    event : FaultEvent
    event = fault_at s.tick

    hit : Firmware
    hit = fault_inject_turn b s

    injected : Injected capacity s hit
    injected = fault_inject_turn-Injected b laws capacity s state enabled sound.kick_access has room

    popped : Firmware
    popped = record hit { fault_queue = some (events capacity []) }

    fixed : Repaired event popped (fix_event b (some event) popped)
    fixed =
        fix_event-Repaired b event popped
          (IsAccessible-same b s popped injected.regions injected.region_count sound.area_access)
          (omega arith) (omega arith) (injected.area ∙ ap (flip event) golden)

    corrected : Firmware
    corrected = (fix_event b (some event) popped).0

    kept : Kept corrected (kick b bit_memscrub corrected)
    kept = kick-Kept b bit_memscrub corrected (
        kick_access-same b s corrected (fixed.regions ∙ injected.regions)
          (fixed.region_count ∙ injected.region_count) sound.kick_access)
