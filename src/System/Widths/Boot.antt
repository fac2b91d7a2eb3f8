-- ===== src/System/Widths/Boot.antt =====
-- The boot brings every static into the range of its C type.
use space_baremetal_skeleton.Common.{
  ℕ, zero, suc, ◌^◌, ◌<◌, ◌≡◌, refl, sym, ap, subst, Bool, true, false, none, some, List, length,
  get_or, replicate, length-replicate, length-set, arith, leb,
}
use native.Mathlib.Decide.{dec_lt}
use space_baremetal_skeleton.Kernel.{Board, BoardLaws, Queue}
use space_baremetal_skeleton.States.{boot, nominal, degraded}
use space_baremetal_skeleton.States.{StateRequest}
use space_baremetal_skeleton.EventLog
use space_baremetal_skeleton.EventLog.{
  Entry, EventLog, blank, zeroed, record_image_crc_fail, record_state_change, reset,
}
use space_baremetal_skeleton.Image.{Integrity, verify}
use space_baremetal_skeleton.Image.Bounds.{verify-lt}
use space_baremetal_skeleton.Firmware.{FaultEvent, Region, Firmware, print, say}
use space_baremetal_skeleton.SystemState
use space_baremetal_skeleton.MemoryProtection
use space_baremetal_skeleton.MemoryProtection.{
  no_region, protect_region, add_region, register_critical_text,
}
use space_baremetal_skeleton.MemoryScrub
use space_baremetal_skeleton.MemoryScrub.{golden_copy, golden_read}
use space_baremetal_skeleton.MemoryScrub.Bytes.{golden_read-lt}
use space_baremetal_skeleton.MemoryScrub.Correct.{length-golden_copy}
use space_baremetal_skeleton.StateMachine
use space_baremetal_skeleton.Watchdog
use space_baremetal_skeleton.Command
use space_baremetal_skeleton.FaultInject.{fault_queue_length, fault_queue_init, fault_inject_init}
use space_baremetal_skeleton.Tasks.{TaskConfig, Linked, check_image}
use space_baremetal_skeleton.Tasks.Loading.{loaded, main-scheduled}
use space_baremetal_skeleton.System.{Reach, power_on, start_tasks, power_up}
use space_baremetal_skeleton.System.Stable.{IsEvent, IsRequest, kept_if, print-kept}
use space_baremetal_skeleton.System.Stable.Steps.{on_degraded_enter-kept}
use space_baremetal_skeleton.System.Widths.{
  Every, IsRegion, IsTyped, IsQueue, IsAny, IsTyped-Stable, set-every, Reach-IsTyped,
}

get_or-replicate : {A : Type 0} (n i : ℕ) (v : A) → get_or (replicate n v) i v ≡ v
get_or-replicate zero i v = refl
get_or-replicate (suc n) zero v = refl
get_or-replicate (suc n) (suc i) v = get_or-replicate n i v

power_on-IsTyped : IsTyped power_on
unfolding power_on
power_on-IsTyped = record {
  tick = omega arith;
  log = ground arith;
  entries = λ i. rw (get_or-replicate 48 i blank) (ground arith);
  regions = refl;
  region_fields = λ i. rw (get_or-replicate 8 i no_region) (ground arith);
  region_count = omega arith;
  violation_count = omega arith;
  size = length-replicate {A = ℕ} 512 0;
  bytes = λ i. rw (get_or-replicate {A = ℕ} 512 i 0) (omega arith);
  seu_counter = omega arith;
  seu_total = omega arith;
  computed = omega arith;
  expected = omega arith;
  notification = omega arith;
  requests = λ q e. absurd (let r : none ≡ some q = e in cc);
  faults = λ q e. absurd (let r : none ≡ some q = e in cc);
  commands = λ q e. absurd (let r : none ≡ some q = e in cc);
}

module _ (b : Board) (laws : BoardLaws b) where
  created-IsQueue : {A : Type 0} (IsItem : A → Type 0) (n : ℕ) → IsQueue IsItem n (b.create A n)
  created-IsQueue IsItem n q e =
      let (places, empty) = laws.create_empty _ n q e in
      record {
        places = places;
        within = omega (arith, ap length empty);
        items = subst (Every IsItem) (sym empty) tt;
      }

  said : (bytes : List ℕ) (s : Firmware) → IsTyped s → IsTyped (print bytes s)
  said bytes s i = print-kept b IsTyped (IsTyped-Stable b laws) bytes s i

  queues-IsTyped : (s : Firmware) → IsTyped s → IsTyped (Command.init b (fault_queue_init b s).0)
  unfolding Command.init fault_queue_init
  queues-IsTyped s i =
      let faults = created-IsQueue IsEvent fault_queue_length in
      let commands = created-IsQueue IsAny 8 in ground arith

  integrity-IsTyped :
      (n : Integrity) (s : Firmware)
      → n.computed < 2 ^ 32
      → n.expected < 2 ^ 32
      → IsTyped s
      → IsTyped (record s { integrity = n })
  integrity-IsTyped n s computed expected i = ground arith

  log_init-IsTyped :
      (s : Firmware) → IsTyped s → IsTyped (record s { log = EventLog.init s.tick s.log })
  unfolding EventLog.init reset
  log_init-IsTyped s i =
      let cleared : IsTyped (record s { log = reset s.log }) = ground arith in
      (IsTyped-Stable b laws).log _ (record s { log = reset s.log })
        (omega arith, omega arith, omega arith, omega arith, omega arith) cleared

  check_image-IsTyped :
      (l : Linked) (s : Firmware)
      → ((i : ℕ) → l.memory i < 256)
      → l.expected < 2 ^ 32
      → IsTyped s
      → IsTyped (check_image l s)
  unfolding check_image record_image_crc_fail
  check_image-IsTyped l s bytes small i =
      let checked = verify l.expected l.memory l.image_start l.slot l.image_end in
      let (computed, expected) =
        verify-lt l.memory bytes l.expected l.image_start l.slot l.image_end small in
      let told = said checked.1 _ (integrity-IsTyped checked.0 s computed expected i) in
      kept_if IsTyped _ _ _
        ((IsTyped-Stable b laws).log _ _ (omega arith, omega arith, omega arith, computed, expected)
          told)
        told

  protect_region-IsTyped :
      (start end permissions : ℕ) (name : List ℕ) (s : Firmware)
      → IsRegion (record { start = start; end = end; permissions = permissions; name = name })
      → IsTyped s
      → IsTyped (protect_region start end permissions name s)
  unfolding protect_region add_region say
  protect_region-IsTyped start end permissions name s small i =
      said _ _ (elim (dec_lt s.region_count 8) [
        | yes room ↦
            let free : leb 8 s.region_count ≡ false = ground arith in
            let region : Region = record {
              start = start;
              end = end;
              permissions = permissions;
              name = name;
            } in
            let kept = length-set s.regions s.region_count region in
            let fields =
              set-every IsRegion s.regions no_region region s.region_count small i.region_fields in
            rw free (ground arith)
        | no full ↦
            let full_table : leb 8 s.region_count ≡ true = ground arith in
            rw full_table (said _ s i)
      ])

  register_critical_text-IsTyped :
      (s : Firmware)
      → b.critical_start < 2 ^ 64
      → b.critical_end < 2 ^ 64
      → IsTyped s
      → IsTyped (register_critical_text b s)
  unfolding register_critical_text
  register_critical_text-IsTyped s from to i =
      kept_if IsTyped _ _ _ i (protect_region-IsTyped _ _ _ _ s (from, to, omega arith) i)

  protection-IsTyped : (s : Firmware) → IsTyped s → IsTyped (MemoryProtection.init s)
  unfolding MemoryProtection.init say
  protection-IsTyped s i =
      said _ _
        (let r : IsTyped (record s { region_count = 0; violation_count = 0 }) = ground arith in r)

  loaded-IsTyped :
      (l : Linked) (s : Firmware)
      → ((i : ℕ) → l.memory i < 256)
      → l.expected < 2 ^ 32
      → b.critical_start < 2 ^ 64
      → b.critical_end < 2 ^ 64
      → IsTyped s
      → IsTyped (loaded b l s)
  unfolding loaded fault_inject_init say
  loaded-IsTyped l s bytes small from to i =
      let checked = check_image-IsTyped l _ bytes small (log_init-IsTyped _ (queues-IsTyped s i)) in
      said _ _ (
        said _ _
          (said _ _ (register_critical_text-IsTyped _ from to (protection-IsTyped _ checked))))

  state_init-IsTyped : (s : Firmware) → IsTyped s → IsTyped (SystemState.init b s)
  unfolding SystemState.init say
  state_init-IsTyped s i =
      let requests = created-IsQueue IsRequest 4 in
      said _ _ (
        let r : IsTyped (record s { state_queue = b.create StateRequest 4; state = boot }) =
          ground arith in
        r)

  startup-IsTyped : (s : Firmware) → IsTyped s → IsTyped (StateMachine.startup b s)
  unfolding StateMachine.startup record_state_change say
  startup-IsTyped s i =
      let k = IsTyped-Stable b laws in
      let begun = state_init-IsTyped s i in
      kept_if IsTyped _ _ _
        (k.log _ _ (omega arith, omega arith, omega arith, omega arith, omega arith)
          (said _ _ (k.state nominal _ begun)))
        (on_degraded_enter-kept b IsTyped k _ (
          k.log _ _ (omega arith, omega arith, omega arith, omega arith, omega arith)
            (said _ _ (k.state degraded _ begun))))

  scrub_init-IsTyped :
      (s : Firmware) → b.scrub_base < 2 ^ 64 → IsTyped s → IsTyped (MemoryScrub.init b s)
  unfolding MemoryScrub.init say golden_read
  scrub_init-IsTyped s base i =
      let size = length-golden_copy in
      let bytes : (j : ℕ) → get_or golden_copy j 0 < 256 = λ j. golden_read-lt j in
      said _ _ (
        protect_region-IsTyped _ _ _ _ _ (base, omega arith, omega arith)
          (let r : IsTyped (record s { seu_counter = 0; seu_total = 0; area = golden_copy }) =
              ground arith in
            r))

  start_tasks-IsTyped :
      (s : Firmware) → b.scrub_base < 2 ^ 64 → IsTyped s → IsTyped (start_tasks b s)
  unfolding start_tasks Command.input_startup Watchdog.startup say
  start_tasks-IsTyped s base i =
      let ready : IsTyped (record s { watchdog_ready = true }) = ground arith in
      said _ _ (scrub_init-IsTyped _ base (startup-IsTyped _ ready))

-- For a board that meets the kernel's laws, when the queue of fault events and every task are
-- created, the image is made of bytes, its patched word is below 2 ^ 32 and the linker's addresses
-- of the critical text and of the protected area are below 2 ^ 64, the power-up ends, and in every
-- firmware that any order of the tasks' rounds reaches from there each static is in the range of
-- its C type, each array index in its array, and no queue holds more than its places; every region
-- of the table, every entry of the flight log and every queued request and event is in the range of
-- its type. The tick count has 64 bits.
pub power_up-IsTyped :
    (b : Board) (spawn : TaskConfig → Bool) (l : Linked) (q : Queue FaultEvent)
    → BoardLaws b
    → b.create FaultEvent 5 ≡ some q
    → ((config : TaskConfig) → spawn config ≡ true)
    → ((i : ℕ) → l.memory i < 256)
    → l.expected < 2 ^ 32
    → b.critical_start < 2 ^ 64
    → b.critical_end < 2 ^ 64
    → b.scrub_base < 2 ^ 64
    → (s : Firmware) × (power_up b spawn l ≡ some s) × ((t : Firmware) → Reach b s t → IsTyped t)
unfolding power_up
power_up-IsTyped b spawn l q laws made h bytes small from to base =
    let up =
      start_tasks-IsTyped b laws _ base
        (loaded-IsTyped b laws l power_on bytes small from to power_on-IsTyped) in
    (
      start_tasks b (loaded b l power_on),
      rw (main-scheduled b spawn l power_on q made h),
      λ t r. Reach-IsTyped b laws _ t up r,
    )
