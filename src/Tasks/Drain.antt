-- ===== src/Tasks/Drain.antt =====
-- The scrub task empties its queue of events, and corrects each of them in order.
use space_baremetal_skeleton.Common.{
  Option, false, not, ◌&&◌, if◌then◌else◌, ℕ, zero, suc, ◌<◌, ◌≡◌, refl, ap, ◌∙◌, Bool, true, none,
  some, List, [], ◌∷◌, arith, length,
}
use space_baremetal_skeleton.Kernel.{Queue, Board, BoardLaws}
use space_baremetal_skeleton.Firmware.{FaultEvent, Firmware}
use space_baremetal_skeleton.MemoryScrub.{fix_event, scrub}
use space_baremetal_skeleton.SafePolicy.{bit_memscrub, allows_background_scrub}
use space_baremetal_skeleton.Watchdog.{kick}
use space_baremetal_skeleton.MemoryScrub.Frame.{fix_event_queue}
use space_baremetal_skeleton.Tasks.{
  drained, drain_one, drain, scrub_unless, scrubbed, mem_scrub_turn,
}

-- A queue of events with a capacity and items.
abbrev pub events : ℕ → List FaultEvent → Queue FaultEvent
events capacity es = record { capacity = capacity; items = es }

-- The correction of each event in turn, with those behind it still in the queue.
unfoldable pub fix_all : Board → ℕ → List FaultEvent → Firmware → Firmware
fix_all b capacity [] s = s
fix_all b capacity (e ∷ es) s =
    fix_all b capacity es
      (fix_event b (some e) (record s { fault_queue = some (events capacity es) })).0

-- Whether an event has been received, by now or from the queue.
abbrev pub received_any : List FaultEvent → Bool → Bool
received_any [] had_event = had_event
received_any (e ∷ es) had_event = true

module _ (b : Board) (laws : BoardLaws b) (capacity : ℕ) where
  drain_one-empty :
      (s : Firmware) → s.fault_queue ≡ some (events capacity []) → drain_one b s ≡ none
  unfolding drain_one drained
  drain_one-empty s has = rw (has, laws.receive_empty (events capacity []) refl)

  drain_one-first :
      (e : FaultEvent) (es : List FaultEvent) (s : Firmware)
      → s.fault_queue ≡ some (events capacity (e ∷ es))
      → drain_one b s
        ≡ some (fix_event b (some e) (record s { fault_queue = some (events capacity es) })).0
  unfolding drain_one drained
  drain_one-first e es s has = rw (has, laws.receive_first (events capacity (e ∷ es)) e es refl)

  -- For a board that meets the laws, the loop of the scrub task ends when it has more rounds than the queue
  -- has events: it has then corrected each event in order, the queue is empty, and the flag says whether
  -- there was an event.
  pub drain-fix_all :
      (es : List FaultEvent) (fuel : ℕ) (had_event : Bool) (s : Firmware)
      → s.fault_queue ≡ some (events capacity es)
      → length es < fuel
      → (drain b fuel had_event s ≡ some (fix_all b capacity es s, received_any es had_event))
        × ((fix_all b capacity es s).fault_queue ≡ some (events capacity []))
  unfolding drain fix_all
  drain-fix_all es zero had_event s has enough = absurd (omega arith)
  drain-fix_all [] (suc fuel) had_event s has enough = (rw (drain, drain_one-empty s has), has)
  drain-fix_all (e ∷ es) (suc fuel) had_event s has enough =
      let next = (fix_event b (some e) (record s { fault_queue = some (events capacity es) })).0 in
      let rest = drain-fix_all es fuel true next (fix_event_queue b e _) (omega arith) in
      (
        rw (drain, drain_one-first e es s has)
            (rest.0 ∙ ap (λ r. some (fix_all b capacity es next, r)) (received es)),
        rest.1,
      )
    where
      received : (es : List FaultEvent) → received_any es true ≡ true
      received [] = refl
      received (e ∷ es) = refl

-- What holds behind a receive that gave an event, and its correction.
pub drain_one-received :
    (b : Board) (s t : Firmware)
    → drain_one b s ≡ some t
    → (q : Queue FaultEvent) × (p : Queue FaultEvent) × (event : FaultEvent) × (s.fault_queue
        ≡ some q)
      × (b.receive q ≡ some (event, p))
      × (t ≡ (fix_event b (some event) (record s { fault_queue = some p })).0)
unfolding drain_one drained
drain_one-received b s t = by_queue s.fault_queue refl
  where
    Received : Type 0
    Received =
        (q : Queue FaultEvent) × (p : Queue FaultEvent) × (event : FaultEvent) × (s.fault_queue
          ≡ some q)
        × (b.receive q ≡ some (event, p))
        × (t ≡ (fix_event b (some event) (record s { fault_queue = some p })).0)

    by_receive :
        (q : Queue FaultEvent) (o : Option (FaultEvent × Queue FaultEvent))
        → s.fault_queue ≡ some q
        → b.receive q ≡ o
        → drained b o s ≡ some t
        → Received
    by_receive q none has e r = cc
    by_receive q (some (event, p)) has e r = (q, p, event, has, e, cc)

    by_queue :
        (o : Option (Queue FaultEvent))
        → s.fault_queue ≡ o
        → elim o [ none ↦ none | some q ↦ drained b (b.receive q) s ] ≡ some t
        → Received
    by_queue none has r = cc
    by_queue (some q) has r = by_receive q (b.receive q) has refl r

-- A receive that gives an event corrects it.
pub drain_one-some :
    (b : Board) (s t : Firmware)
    → drain_one b s ≡ some t
    → (event : FaultEvent) × (q : Queue FaultEvent) × (t
        ≡ (fix_event b (some event) (record s { fault_queue = some q })).0)
drain_one-some b s t e =
    let (q, p, event, has, given, same) = drain_one-received b s t e in (event, p, same)

-- A round of the scrub task that ends drains the queue, scrubs if there was no event, and kicks.
pub mem_scrub_turn-some :
    (b : Board) (fuel : ℕ) (s t : Firmware)
    → mem_scrub_turn b fuel s ≡ some t
    → (u : Firmware) × (had_event : Bool) × (drain b fuel false s ≡ some (u, had_event))
      × (t
          ≡ kick b bit_memscrub
              (if not had_event && allows_background_scrub u.state then scrub b u else u))
unfolding mem_scrub_turn scrubbed scrub_unless
mem_scrub_turn-some b fuel s t = by_result (drain b fuel false s)
  where
    by_result :
        (o : Option (Firmware × Bool))
        → scrubbed b o ≡ some t
        → (u : Firmware) × (had_event : Bool) × (o ≡ some (u, had_event))
          × (t
              ≡ kick b bit_memscrub
                  (if not had_event && allows_background_scrub u.state then scrub b u else u))
    by_result none e = cc
    by_result (some (u, had_event)) e = (u, had_event, refl, cc)
