-- ===== src/EventLog/Race/Preempted.antt =====
-- A call of `event_log_store` that another whole call preempts, at each of its accesses.
use space_baremetal_skeleton.Common.{
  ℕ, zero, suc, ◌+◌, ◌≤◌, ◌≡◌, refl, sym, ap, ◌∙◌, List, arith, get_or, set, set-set, set-get_or,
  get_or-set_self, length-set, if◌then◌else◌, ltb, Bool, Bool-cases, inl, inr, true, false, drop,
  take,
}
use space_baremetal_skeleton.Common.Words.{u16}
use space_baremetal_skeleton.EventLog.{Entry, blank, EventLog, capacity, write_entry}
use space_baremetal_skeleton.EventLog.Ring.{IsValid, write_entry-IsValid}
use space_baremetal_skeleton.EventLog.Race.{
  edit, access, run, body, unset, Locals, Point, take_slot, put_kind, put_arg_a, put_arg_b,
  put_tick, put_data, load_head, put_head, test_count, load_count, put_count, position, preempted,
}
use space_baremetal_skeleton.EventLog.Race.Edits.{
  edit-edit, advance, merged, HasSlot, run-Completes, run-body,
}

-- The count behind one more entry.
abbrev pub grown : ℕ → ℕ
grown count = if ltb count capacity then u16 (count + 1) else count

-- A write at the head covers a change there.
write_entry-edit :
    (f : Entry) (change : Entry → Entry) (log : EventLog)
    → write_entry f (edit log.head change log) ≡ write_entry f log
unfolding edit write_entry
write_entry-edit f change log =
    rw (set-set log.entries log.head (change (get_or log.entries log.head blank)) f) refl

-- A change of the slot that was written last.
edit-write_entry :
    (f : Entry) (change : Entry → Entry) (log : EventLog)
    → IsValid log
    → edit log.head change (write_entry f log) ≡ write_entry (change f) log
unfolding edit write_entry
edit-write_entry f change log v =
    rw
      (
        get_or-set_self log.entries log.head f blank (omega (arith, v.storage, v.head_in)),
        set-set log.entries log.head f (change f),
      )
      refl

write_entry-HasSlot :
    (f : Entry) (log : EventLog) → IsValid log → HasSlot log.head (write_entry f log)
unfolding write_entry
write_entry-HasSlot f log v = omega (arith, v.storage, v.head_in, length-set log.entries log.head f)

-- Two logs that differ in their counts alone.
if-count :
    (c : Bool) (es : List Entry) (h m n : ℕ)
    → (let log : ℕ → EventLog = λ count. record { entries = es; head = h; count = count } in
        (if c then log m else log n) ≡ log (if c then m else n))
if-count true es h m n = refl
if-count false es h m n = refl

-- The change that each field's access makes, and the log behind the first `k` of them.
stage : Entry → ℕ → Entry → Entry
stage e zero old = record old { kind = e.kind }
stage e (suc zero) old = record old { arg_a = e.arg_a }
stage e (suc (suc zero)) old = record old { arg_b = e.arg_b }
stage e (suc (suc (suc zero))) old = record old { tick = e.tick }
stage e (suc (suc (suc (suc k)))) old = record old { payload = e.payload }

stages : Entry → ℕ → Entry → Entry
stages e zero old = old
stages e (suc k) old = stage e k (stages e k old)

put : Entry → ℕ → EventLog → EventLog
put e zero log = log
put e (suc k) log = edit log.head (stage e k) (put e k log)

put-stages :
    (e : Entry) (k : ℕ) (log : EventLog)
    → IsValid log
    → put e k log ≡ edit log.head (stages e k) log
unfolding put stages edit
put-stages e zero log v =
    ap (λ es. record log { entries = es }) (sym (set-get_or log.entries log.head blank))
put-stages e (suc k) log v =
    ap (edit log.head (stage e k)) (put-stages e k log v)
    ∙ edit-edit log.head (stages e k) (stage e k) log (omega (arith, v.storage, v.head_in))

-- What is left when a call for `f` preempts a call for `e` before an access: the two writes in one order
-- or the other; one slot with the fields of both, and the next slot passed over; the first entry
-- overwritten but counted; or the two entries with another count.
unfoldable pub outcome : Point → Entry → Entry → EventLog → EventLog
outcome take_slot e f log = write_entry e (write_entry f log)
outcome put_head e f log = record (write_entry f log) { count = grown (grown log.count) }
outcome test_count e f log = write_entry f (write_entry e log)
outcome load_count e f log = record (write_entry f (write_entry e log)) {
  count = if ltb log.count capacity then u16 (grown log.count + 1) else grown log.count;
}
outcome put_count e f log = record (write_entry f (write_entry e log)) { count = grown log.count }
outcome p e f log = advance (write_entry (merged (position p) e f) log)

module _ (e f : Entry) (log : EventLog) (v : IsValid log) where
  taken : Locals
  taken = record unset { slot = log.head }

  covered : (k : ℕ) → write_entry f (put e k log) ≡ write_entry f log
  covered k = ap (write_entry f) (put-stages e k log v) ∙ write_entry-edit f (stages e k) log

  completes :
      (n : ℕ) (k : ℕ)
      → 1 ≤ n
      → n ≤ 6
      → (run e (drop n body) (taken, write_entry f (put e k log))).1
        ≡ advance (write_entry (merged n e f) log)
  unfolding taken
  completes n k a z =
      let room = write_entry-HasSlot f log v in
      ap (λ w. (run e (drop n body) (taken, w)).1) (covered k)
      ∙ run-Completes e taken n (write_entry f log) room a z
      ∙ ap advance (edit-write_entry f (merged n e) log v)

  -- The log with the entry in its slot, and head and count as they were.
  filled : EventLog
  filled = record log { entries = set log.entries log.head e }

  at_head : run e (take 6 body) (unset, log) ≡ (taken, filled)
  unfolding run access taken put stages stage edit filled
  at_head = ap (λ w. (taken, w)) (put-stages e 5 log v)

  -- The preemption behind `k` accesses more, from what the first six leave.
  late : ℕ → Locals × EventLog → EventLog
  late k r =
      let (l, before) = run e (take k (drop 6 body)) r in
      (run e (drop k (drop 6 body)) (l, write_entry f before)).1

  overwritten :
      late 1 (taken, filled) ≡ record (write_entry f log) { count = grown (grown log.count) }
  unfolding late run access taken filled write_entry
  overwritten = rw (set-set log.entries log.head e f) (if-count _ _ _ _ _)

  behind : late 2 (taken, filled) ≡ write_entry f (write_entry e log)
  unfolding late run access taken filled write_entry
  behind = if-count _ _ _ _ _

  tested : late 3 (taken, filled) ≡ record (write_entry f (write_entry e log)) {
    count = if ltb log.count capacity then u16 (grown log.count + 1) else grown log.count;
  }
  unfolding late run access taken filled write_entry
  tested = if-count _ _ _ _ _

  loaded :
      late 4 (taken, filled)
      ≡ record (write_entry f (write_entry e log)) { count = grown log.count }
  unfolding late run access taken filled write_entry
  loaded = elim (Bool-cases (ltb log.count capacity)) [
    | inl room ↦ rw room refl
    | inr full ↦ rw full refl
  ]

  -- On a valid log, a call of the store that a whole other call preempts before one of its accesses
  -- leaves what outcome says: the two entries in order, when that is before the first access or
  -- before the test of the count; one slot with the second call's entry and in it the fields that
  -- the first had still to write, the next slot counted but not written, when it is before a field
  -- or before the second reading of the head; the second entry alone, counted twice, before the
  -- store of the head; and otherwise the two entries in order, with a count of 49 when that is
  -- before the second reading of the count and exactly one place was free, and with one entry too
  -- few counted when it is before the store of the count and two places or more were free.
  pub preempted-outcome : (p : Point) → preempted p e f log ≡ outcome p e f log
  unfolding preempted outcome position run access taken put stage late
  preempted-outcome take_slot =
      run-body e (write_entry f log)
        (let w = write_entry-IsValid log f v in omega (arith, w.storage, w.head_in))
  preempted-outcome put_kind = completes 1 0 (omega arith) (omega arith)
  preempted-outcome put_arg_a = completes 2 1 (omega arith) (omega arith)
  preempted-outcome put_arg_b = completes 3 2 (omega arith) (omega arith)
  preempted-outcome put_tick = completes 4 3 (omega arith) (omega arith)
  preempted-outcome put_data = completes 5 4 (omega arith) (omega arith)
  preempted-outcome load_head = completes 6 5 (omega arith) (omega arith)
  preempted-outcome put_head = ap (late 1) at_head ∙ overwritten
  preempted-outcome test_count = ap (late 2) at_head ∙ behind
  preempted-outcome load_count = ap (late 3) at_head ∙ tested
  preempted-outcome put_count = ap (late 4) at_head ∙ loaded
