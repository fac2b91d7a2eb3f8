-- ===== src/EventLog/Race/Validity.antt =====
-- Where a preemption leaves the flight log a valid ring.
use space_baremetal_skeleton.Common.{ℕ, ◌≤◌, ◌≢◌, ◌↔◌, arith, length-set}
use space_baremetal_skeleton.EventLog.{Entry, EventLog, write_entry}
use space_baremetal_skeleton.EventLog.Ring.{IsValid, write_entry-IsValid}
use space_baremetal_skeleton.EventLog.Race.{
  Point, take_slot, put_kind, put_arg_a, put_arg_b, put_tick, put_data, load_head, put_head,
  test_count, load_count, put_count, preempted,
}
use space_baremetal_skeleton.EventLog.Race.Edits.{advance}
use space_baremetal_skeleton.EventLog.Race.Preempted.{outcome, preempted-outcome}

-- The counts at which a preemption before an access keeps the ring valid.
abbrev pub IsSafeAt : Point → ℕ → Type 0
IsSafeAt put_head count = 46 ≤ count
IsSafeAt load_count count = count ≢ 47
IsSafeAt put_count count = 47 ≤ count
IsSafeAt p count = Unit

advance-IsValid : (log : EventLog) → IsValid log → IsValid (advance log)
advance-IsValid log v = ground arith

module _ (e f : Entry) (log : EventLog) (v : IsValid log) where
  outcome-safe : (p : Point) → IsSafeAt p log.count → IsValid (outcome p e f log)
  unfolding outcome write_entry
  outcome-safe take_slot h = write_entry-IsValid _ e (write_entry-IsValid log f v)
  outcome-safe put_kind h = advance-IsValid _ (write_entry-IsValid log _ v)
  outcome-safe put_arg_a h = advance-IsValid _ (write_entry-IsValid log _ v)
  outcome-safe put_arg_b h = advance-IsValid _ (write_entry-IsValid log _ v)
  outcome-safe put_tick h = advance-IsValid _ (write_entry-IsValid log _ v)
  outcome-safe put_data h = advance-IsValid _ (write_entry-IsValid log _ v)
  outcome-safe load_head h = advance-IsValid _ (write_entry-IsValid log _ v)
  outcome-safe put_head h = let size = length-set log.entries log.head f in ground arith
  outcome-safe test_count h = write_entry-IsValid _ f (write_entry-IsValid log e v)
  outcome-safe load_count h =
      let both = write_entry-IsValid _ f (write_entry-IsValid log e v) in ground arith
  outcome-safe put_count h =
      let both = write_entry-IsValid _ f (write_entry-IsValid log e v) in ground arith

  outcome-unsafe : (p : Point) → IsValid (outcome p e f log) → IsSafeAt p log.count
  unfolding outcome write_entry
  outcome-unsafe put_head w = ground arith
  outcome-unsafe load_count w = ground arith
  outcome-unsafe put_count w = ground arith
  outcome-unsafe p w = tt

  -- On a valid log, a call of the store that a whole other call preempts leaves a valid log, except
  -- that before the store of the head it does so exactly from a count of 46 on, before the second
  -- reading of the count exactly at counts other than 47, and before the store of the count exactly
  -- from a count of 47 on.
  pub preempted-IsValid_iff : (p : Point) → IsValid (preempted p e f log) ↔ IsSafeAt p log.count
  preempted-IsValid_iff p = rw (preempted-outcome e f log v p) (outcome-unsafe p, outcome-safe p)
