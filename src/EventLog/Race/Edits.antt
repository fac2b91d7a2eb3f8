-- ===== src/EventLog/Race/Edits.antt =====
-- Changes of a slot in place, one behind the other, and the call that nothing preempts.
use space_baremetal_skeleton.Common.{
  ℕ, ◌+◌, ◌%◌, ◌<◌, ◌≡◌, refl, sym, ap, ◌∙◌, arith, length, length-set, get_or, set-set, set-get_or,
  leb, ◌≤◌, zero, suc, get_or-set_self, if◌then◌else◌, ltb, Bool-cases, inl, inr, drop,
}
use space_baremetal_skeleton.Common.Words.{u16}
use space_baremetal_skeleton.EventLog.{Entry, blank, EventLog, capacity, write_entry}
use space_baremetal_skeleton.EventLog.Race.{edit, access, run, body, unset, Locals}

pub edit-edit :
    (slot : ℕ) (f g : Entry → Entry) (log : EventLog)
    → slot < length log.entries
    → edit slot g (edit slot f log) ≡ edit slot (λ old. g (f old)) log
unfolding edit
edit-edit slot f g log h =
    let once = f (get_or log.entries slot blank) in
    rw (get_or-set_self log.entries slot once blank h, set-set log.entries slot once (g once)) refl

-- What `event_log_store` does behind the fields.
abbrev pub advance : EventLog → EventLog
advance log = record log {
  head = u16 ((log.head + 1) % capacity);
  count = if ltb log.count capacity then u16 (log.count + 1) else log.count;
}

pub run-advance :
    (e : Entry) (l : Locals) (log : EventLog) → (run e (drop 6 body) (l, log)).1 ≡ advance log
unfolding run access
run-advance e l log = elim (Bool-cases (ltb log.count capacity)) [
  | inl room ↦ rw room refl
  | inr full ↦ rw full refl
]

-- The head's slot is in the storage, and stays so behind a change in it.
abbrev pub HasSlot : ℕ → EventLog → Type 0
HasSlot slot log = slot < length log.entries

pub edit-HasSlot :
    (slot : ℕ) (f : Entry → Entry) (log : EventLog)
    → HasSlot slot log
    → HasSlot slot (edit slot f log)
unfolding edit
edit-HasSlot slot f log h =
    omega (arith, length-set log.entries slot (f (get_or log.entries slot blank)))

-- The fields of `e` that the accesses from number `n` on write, on top of those of `f`.
unfoldable pub merged : ℕ → Entry → Entry → Entry
merged n e f = record {
  kind = if leb n 1 then e.kind else f.kind;
  arg_a = if leb n 2 then e.arg_a else f.arg_a;
  arg_b = if leb n 3 then e.arg_b else f.arg_b;
  tick = if leb n 4 then e.tick else f.tick;
  payload = if leb n 5 then e.payload else f.payload;
}

-- A call's accesses from number `n` on, with the slot that it has taken.
abbrev Completes : ℕ → Entry → Locals → EventLog → Type 0
Completes n e l log = (run e (drop n body) (l, log)).1 ≡ advance (edit l.slot (merged n e) log)

module _ (e : Entry) (l : Locals) where
  from_head : (log : EventLog) → Completes 6 e l log
  unfolding merged edit
  from_head log =
      run-advance e l log
      ∙ ap advance
          (ap (λ es. record log { entries = es }) (sym (set-get_or log.entries l.slot blank)))

  from_data : (log : EventLog) → Completes 5 e l log
  unfolding merged run access
  from_data log = run-advance e l (edit l.slot (λ old. record old { payload = e.payload }) log)

  -- One access more in front.
  earlier :
      (n m : ℕ) (change : Entry → Entry) (log : EventLog)
      → HasSlot l.slot log
      → ((w : EventLog) → HasSlot l.slot w → Completes m e l w)
      → (λ old. merged m e (change old)) ≡ merged n e
      → (run e (drop n body) (l, log)).1 ≡ (run e (drop m body) (l, edit l.slot change log)).1
      → Completes n e l log
  earlier n m change log h later same unrolled =
      unrolled
      ∙ later (edit l.slot change log) (edit-HasSlot l.slot change log h)
      ∙ ap advance (edit-edit l.slot change (merged m e) log h ∙ ap (λ c. edit l.slot c log) same)

  from_tick : (log : EventLog) → HasSlot l.slot log → Completes 4 e l log
  unfolding merged run access
  from_tick log h =
      earlier 4 5 (λ old. record old { tick = e.tick }) log h (λ w _. from_data w) refl refl

  from_arg_b : (log : EventLog) → HasSlot l.slot log → Completes 3 e l log
  unfolding merged run access
  from_arg_b log h = earlier 3 4 (λ old. record old { arg_b = e.arg_b }) log h from_tick refl refl

  from_arg_a : (log : EventLog) → HasSlot l.slot log → Completes 2 e l log
  unfolding merged run access
  from_arg_a log h = earlier 2 3 (λ old. record old { arg_a = e.arg_a }) log h from_arg_b refl refl

  from_kind : (log : EventLog) → HasSlot l.slot log → Completes 1 e l log
  unfolding merged run access
  from_kind log h = earlier 1 2 (λ old. record old { kind = e.kind }) log h from_arg_a refl refl

  pub run-Completes :
      (n : ℕ) (log : EventLog) → HasSlot l.slot log → 1 ≤ n → n ≤ 6 → Completes n e l log
  run-Completes zero log h a z = absurd (omega arith)
  run-Completes (suc zero) log h a z = from_kind log h
  run-Completes (suc (suc zero)) log h a z = from_arg_a log h
  run-Completes (suc (suc (suc zero))) log h a z = from_arg_b log h
  run-Completes (suc (suc (suc (suc zero)))) log h a z = from_tick log h
  run-Completes (suc (suc (suc (suc (suc zero))))) log h a z = from_data log
  run-Completes (suc (suc (suc (suc (suc (suc zero)))))) log h a z = from_head log
  run-Completes (suc (suc (suc (suc (suc (suc (suc n))))))) log h a z = absurd (omega arith)

-- A call that runs in one go writes its entry as `event_log_store` does.
pub run-body :
    (e : Entry) (log : EventLog)
    → HasSlot log.head log
    → (run e body (unset, log)).1 ≡ write_entry e log
unfolding run access write_entry merged edit
run-body e log h =
    run-Completes e (record unset { slot = log.head }) 1 log h (omega arith) (omega arith)
