-- ===== src/EventLog/Race/Tests.antt =====
-- The theorems on preempted calls at concrete calls.
use space_baremetal_skeleton.Common.{◌≡◌, ◌↔◌, refl, arith, [], ◌∷◌, get_or}
use space_baremetal_skeleton.EventLog.{Entry, blank, zeroed, write_entry}
use space_baremetal_skeleton.EventLog.Ring.{IsValid}
use space_baremetal_skeleton.EventLog.Race.{
  take_slot, put_kind, put_tick, put_head, load_count, put_count, unset, body, preempted, run,
  access, edit, position, put_arg_a, put_arg_b, put_data, load_head, test_count,
}
use space_baremetal_skeleton.EventLog.Race.Preempted.{outcome, preempted-outcome}
use space_baremetal_skeleton.EventLog.Race.Validity.{IsSafeAt, preempted-IsValid_iff}
use space_baremetal_skeleton.EventLog.Race.Interleaved.{
  Shared, resumed, still, then_move, begin, go, InBounds, Moves-InBounds,
}

-- A corrected upset, and the operator's request.
abbrev upset : Entry
upset = record { kind = 3; arg_a = 7; arg_b = 2; tick = 1000; payload = 0 }

abbrev request : Entry
request = record { kind = 6; arg_a = 97; arg_b = 0; tick = 1001; payload = 0 }

zeroed-IsValid : IsValid zeroed
zeroed-IsValid = ground arith

-- The operator's call comes between the fields of the other: one entry with the fields of both is left of
-- the two, behind it a blank one, and the count is 2.
abbrev mixed : Entry
mixed = record { kind = 6; arg_a = 97; arg_b = 0; tick = 1000; payload = 0 }

mixed_and_blank :
    let log = preempted put_tick upset request zeroed in
    (get_or log.entries 0 blank ≡ mixed) × (get_or log.entries 1 upset ≡ blank) × (log.count ≡ 2)
unfolding preempted run access edit write_entry position
mixed_and_blank = (refl, refl, refl)

preempted-outcome_example :
    preempted put_head upset request zeroed ≡ outcome put_head upset request zeroed
preempted-outcome_example = preempted-outcome upset request zeroed zeroed-IsValid put_head

preempted-IsValid_iff_example :
    IsValid (preempted put_count upset request zeroed) ↔ IsSafeAt put_count zeroed.count
preempted-IsValid_iff_example = preempted-IsValid_iff upset request zeroed zeroed-IsValid put_count

abbrev idle : Shared
idle = record { calls = λ i. record { entry = upset; locals = unset; rest = [] }; log = zeroed }

idle-InBounds : InBounds idle
idle-InBounds = record {
  storage = refl;
  head = omega arith;
  count = omega arith;
  slots = λ i. omega arith;
}

-- One task has taken its slot.
abbrev one_taken : Shared
one_taken = record idle {
  calls =
      resumed 1
        (record {
          entry = upset;
          locals = unset;
          rest =
              put_kind ∷ put_arg_a ∷ put_arg_b ∷ put_tick ∷ put_data ∷ load_head ∷ put_head
              ∷ test_count ∷ load_count ∷ put_count ∷ [];
        })
        (resumed 1 (record { entry = upset; locals = unset; rest = body }) idle.calls);
}

Moves-InBounds_example : InBounds one_taken
unfolding access
Moves-InBounds_example =
    Moves-InBounds idle one_taken idle-InBounds
      (then_move (then_move still (begin 1 upset refl refl)) (go 1 take_slot _ refl refl))
