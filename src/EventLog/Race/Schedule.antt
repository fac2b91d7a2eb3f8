-- ===== src/EventLog/Race/Schedule.antt =====
-- A preempted call is an order of the accesses of two tasks.
use space_baremetal_skeleton.Common.{
  ℕ, zero, suc, ◌≡◌, ◌≢◌, refl, sym, ap, ◌∙◌, arith, List, [], ◌∷◌, ◌++◌, take, drop,
}
use mathlib.Core.List.{append-nil}
use space_baremetal_skeleton.EventLog.{Entry, EventLog, write_entry}
use space_baremetal_skeleton.EventLog.Race.{
  Point, Locals, unset, body, access, run, position, preempted,
}
use space_baremetal_skeleton.EventLog.Race.Edits.{run-body}
use space_baremetal_skeleton.EventLog.Race.Interleaved.{
  Call, Shared, resumed, Move, begin, go, Moves, still, then_move, InBounds, Moves-InBounds,
}

-- What a task that works alone does: moves to a state with its call and the log as given, the other tasks as
-- they were.
record Alone (i : ℕ) (s : Shared) (c : Call) (log : EventLog) : Type 0 where
  left : Shared
  moves : Moves s left
  call : left.calls i ≡ c
  log_left : left.log ≡ log
  others : (j : ℕ) → j ≢ i → left.calls j ≡ s.calls j

resumed_self : (i : ℕ) (c : Call) (calls : ℕ → Call) → resumed i c calls i ≡ c
resumed_self i c calls = ground arith

resumed_other : (i j : ℕ) (c : Call) (calls : ℕ → Call) → j ≢ i → resumed i c calls j ≡ calls j
resumed_other i j c calls h = ground arith

before-Moves : {s t : Shared} (u : Shared) → Move s t → Moves t u → Moves s u
before-Moves u m still = then_move still m
before-Moves u m (then_move ms n) = then_move (before-Moves _ m ms) n

-- It makes the first of its accesses.
run-Alone :
    (i : ℕ) (ps qs : List Point) (e : Entry) (l : Locals) (s : Shared)
    → s.calls i ≡ record { entry = e; locals = l; rest = ps ++ qs }
    → let r = run e ps (l, s.log) in Alone i s (record { entry = e; locals = r.0; rest = qs }) r.1
unfolding run
run-Alone i [] qs e l s has = record {
  left = s;
  moves = still;
  call = has;
  log_left = refl;
  others = λ j h. refl;
}
run-Alone i (p ∷ ps) qs e l s has =
    let r = access p e (l, s.log) in
    let c : Call = record { entry = e; locals = r.0; rest = ps ++ qs } in
    let t : Shared = record { calls = resumed i c s.calls; log = r.1 } in
    let made : Call → Shared = λ x.
      let q = access p x.entry (x.locals, s.log) in
      record {
        calls = resumed i (record x { locals = q.0; rest = ps ++ qs }) s.calls;
        log = q.1;
      } in
    let later = run-Alone i ps qs e r.0 t (resumed_self i c s.calls) in
    record {
      left = later.left;
      moves =
          before-Moves later.left (go i p (ps ++ qs) (ap (λ x. x.rest) has) (ap made (sym has)))
            later.moves;
      call = later.call;
      log_left = later.log_left;
      others = λ j h. later.others j h ∙ resumed_other i j c s.calls h;
    }

-- A whole call of a task that is in none.
whole-Alone :
    (i : ℕ) (e : Entry) (s : Shared)
    → InBounds s
    → (s.calls i).rest ≡ []
    → Alone i s
        (record { entry = e; locals = (run e body (unset, s.log)).0; rest = [] })
        (write_entry e s.log)
whole-Alone i e s b idle =
    let c : Call = record { entry = e; locals = unset; rest = body } in
    let t : Shared = record s { calls = resumed i c s.calls } in
    let ran = run-Alone i body [] e unset t (resumed_self i c s.calls) in
    record {
      left = ran.left;
      moves = before-Moves ran.left (begin i e idle refl) ran.moves;
      call = ran.call;
      log_left = ran.log_left ∙ run-body e s.log (omega (arith, b.storage, b.head));
      others = λ j h. ran.others j h ∙ resumed_other i j c s.calls h;
    }

take-drop : {A : Type 0} (n : ℕ) (xs : List A) → take n xs ++ drop n xs ≡ xs
take-drop zero xs = refl
take-drop (suc n) [] = refl
take-drop (suc n) (x ∷ xs) = ap (λ ys. x ∷ ys) (take-drop n xs)

join-Moves : {s t u : Shared} → Moves s t → Moves t u → Moves s u
join-Moves ms still = ms
join-Moves ms (then_move ns n) = then_move (join-Moves ms ns) n

-- From statics in bounds and two different tasks that are in no call, for each access there is an
-- order of their accesses that ends both calls and leaves the log that the preempted call
-- describes.
pub preempted-Moves :
    (low high : ℕ) (e f : Entry) (p : Point) (s : Shared)
    → InBounds s
    → high ≢ low
    → (s.calls low).rest ≡ []
    → (s.calls high).rest ≡ []
    → (t : Shared) × Moves s t
      × (t.log ≡ preempted p e f s.log)
      × ((t.calls low).rest ≡ [])
      × ((t.calls high).rest ≡ [])
unfolding preempted
preempted-Moves low high e f p s b apart idle ready =
    let n = position p in
    let c : Call = record { entry = e; locals = unset; rest = body } in
    let with_rest : List Point → Call = λ ps. record c { rest = ps } in
    let begun : Shared = record s { calls = resumed low c s.calls } in
    let first =
      run-Alone low (take n body) (drop n body) e unset begun
        (resumed_self low c s.calls ∙ ap with_rest (sym (take-drop n body))) in
    let to_first = before-Moves first.left (begin low e idle refl) first.moves in
    let second = whole-Alone high f first.left (Moves-InBounds s first.left b to_first) (
      ap (λ x. x.rest) (first.others high apart ∙ resumed_other low high c s.calls apart)
      ∙ ready) in
    let held : Call = record {
      entry = e;
      locals = (run e (take n body) (unset, s.log)).0;
      rest = drop n body;
    } in
    let resting : List Point → Call = λ ps. record held { rest = ps } in
    let last = run-Alone low (drop n body) [] e (run e (take n body) (unset, s.log)).0 second.left (
      second.others low (λ q. apart (sym q))
      ∙ first.call
      ∙ ap resting (sym (append-nil (drop n body)))) in
    (
      last.left,
      join-Moves to_first (join-Moves second.moves last.moves),
      last.log_left
          ∙ ap (λ w. (run e (drop n body) (held.locals, w)).1)
              (second.log_left ∙ ap (write_entry f) first.log_left),
      ap (λ x. x.rest) last.call,
      ap (λ x. x.rest) (last.others high apart ∙ second.call),
    )
