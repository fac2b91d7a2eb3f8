-- ===== src/EventLog/Race.antt =====
-- `event_log_store` of src/event_log.c between the tasks: no critical section surrounds it, so a task of
-- higher priority can run its own call between any two accesses to the shared statics.
pub mod Edits
pub mod Preempted
pub mod Validity
pub mod Interleaved
pub mod Schedule
mod Tests
use space_baremetal_skeleton.Common.{
  ℕ, ◌+◌, ◌%◌, true, false, Bool, List, [], ◌∷◌, ltb, if◌then◌else◌, get_or, set, take, drop, ◌≡◌,
  ◌<◌,
}
use space_baremetal_skeleton.Common.Words.{u16}
use space_baremetal_skeleton.EventLog.{Entry, blank, EventLog, capacity, write_entry}

-- The accesses of the body, in the order of the source: the head for the address of the slot, the five
-- fields, the head again with its store, and the count of the test and of the increment with its store.
pub data Point : Type 0 where
  take_slot put_kind put_arg_a put_arg_b put_tick put_data load_head put_head test_count load_count
        put_count :
      Point

abbrev pub body : List Point
body =
    take_slot ∷ put_kind ∷ put_arg_a ∷ put_arg_b ∷ put_tick ∷ put_data ∷ load_head ∷ put_head
    ∷ test_count ∷ load_count ∷ put_count ∷ []

-- What a call holds in its own registers: `entry`, the head that it read, its test, the count that it read.
pub record Locals : Type 0 where
  pub slot : ℕ
  pub head : ℕ
  pub room : Bool
  pub count : ℕ

abbrev pub unset : Locals
unset = record { slot = 0; head = 0; room = false; count = 0 }

-- A change of the slot's entry in place.
unfoldable pub edit : ℕ → (Entry → Entry) → EventLog → EventLog
edit slot change log = record log {
  entries = set log.entries slot (change (get_or log.entries slot blank));
}

-- One access of a call with the fields `e`. The tick is what xTaskGetTickCount returns at that point.
unfoldable pub access : Point → Entry → Locals × EventLog → Locals × EventLog
access take_slot e (l, log) = (record l { slot = log.head }, log)
access put_kind e (l, log) = (l, edit l.slot (λ old. record old { kind = e.kind }) log)
access put_arg_a e (l, log) = (l, edit l.slot (λ old. record old { arg_a = e.arg_a }) log)
access put_arg_b e (l, log) = (l, edit l.slot (λ old. record old { arg_b = e.arg_b }) log)
access put_tick e (l, log) = (l, edit l.slot (λ old. record old { tick = e.tick }) log)
access put_data e (l, log) = (l, edit l.slot (λ old. record old { payload = e.payload }) log)
access load_head e (l, log) = (record l { head = log.head }, log)
access put_head e (l, log) = (l, record log { head = u16 ((l.head + 1) % capacity) })
access test_count e (l, log) = (record l { room = ltb log.count capacity }, log)
access load_count e (l, log) = (record l { count = log.count }, log)
access put_count e (l, log) = (l, if l.room then record log { count = u16 (l.count + 1) } else log)

-- Accesses in a row.
unfoldable pub run : Entry → List Point → Locals × EventLog → Locals × EventLog
run e [] r = r
run e (p ∷ ps) r = run e ps (access p e r)

-- How many accesses are made before this one.
unfoldable pub position : Point → ℕ
position take_slot = 0
position put_kind = 1
position put_arg_a = 2
position put_arg_b = 3
position put_tick = 4
position put_data = 5
position load_head = 6
position put_head = 7
position test_count = 8
position load_count = 9
position put_count = 10

-- A call for `e` that a whole call for `f` preempts just before the access `p`.
unfoldable pub preempted : Point → Entry → Entry → EventLog → EventLog
preempted p e f log =
    let (l, before) = run e (take (position p) body) (unset, log) in
    (run e (drop (position p) body) (l, write_entry f before)).1
