-- ===== src/EventLog/Race/Interleaved.antt =====
-- Any number of calls of `event_log_store`, their accesses in any order.
use space_baremetal_skeleton.Common.{
  ℕ, ◌+◌, ◌^◌, ◌<◌, ◌≡◌, sym, subst, arith, Bool, true, false, List, [], ◌∷◌, length, get_or,
  length-set, if◌then◌else◌, ◌==◌, Bool-cases, inl, inr,
}
use space_baremetal_skeleton.Common.Words.{u16}
use space_baremetal_skeleton.EventLog.{Entry, EventLog, blank}
use space_baremetal_skeleton.EventLog.Race.{
  Point, take_slot, put_kind, put_arg_a, put_arg_b, put_tick, put_data, load_head, put_head,
  test_count, load_count, put_count, Locals, unset, body, edit, access,
}

-- A task in a call: what it writes, its registers, and the accesses that it has still to make.
pub record Call : Type 0 where
  pub entry : Entry
  pub locals : Locals
  pub rest : List Point

-- The tasks by number, and the statics that they share.
pub record Shared : Type 0 where
  pub calls : ℕ → Call
  pub log : EventLog

abbrev pub resumed : ℕ → Call → (ℕ → Call) → ℕ → Call
resumed i c calls j = if j == i then c else calls j

-- A task that is in no call begins one, or a task makes its next access.
pub data Move (s : Shared) (t : Shared) : Type 0 where
  begin :
      (i : ℕ) (e : Entry)
      → (s.calls i).rest ≡ []
      → t
        ≡ record s { calls = resumed i (record { entry = e; locals = unset; rest = body }) s.calls }
      → Move s t
  go :
      (i : ℕ) (p : Point) (ps : List Point)
      → (s.calls i).rest ≡ p ∷ ps
      → (let c = s.calls i in
          let r = access p c.entry (c.locals, s.log) in
          t
          ≡ record { calls = resumed i (record c { locals = r.0; rest = ps }) s.calls; log = r.1 })
      → Move s t

pub data Moves (s : Shared) : Shared → Type 0 where
  still : Moves s s
  then_move : {t u : Shared} → Moves s t → Move t u → Moves s u

-- The head and every slot that a call has taken lie in the storage, and the count fits its type.
pub record InBounds (s : Shared) : Type 0 where
  pub storage : length s.log.entries ≡ 48
  pub head : s.log.head < 48
  pub count : s.log.count < 2 ^ 16
  pub slots : (i : ℕ) → (s.calls i).locals.slot < 48

-- The bounds of the statics and of one call.
record Within (l : Locals) (log : EventLog) : Type 0 where
  storage : length log.entries ≡ 48
  head : log.head < 48
  count : log.count < 2 ^ 16
  slot : l.slot < 48

edit-Within :
    (l : Locals) (change : Entry → Entry) (log : EventLog)
    → Within l log
    → Within l (edit l.slot change log)
unfolding edit
edit-Within l change log w =
    let size = length-set log.entries l.slot (change (get_or log.entries l.slot blank)) in
    ground arith

Within-if :
    {l : Locals} (c : Bool) (a b : EventLog)
    → Within l a
    → Within l b
    → Within l (if c then a else b)
Within-if true a b v w = v
Within-if false a b v w = w

access-Within :
    (p : Point) (e : Entry) (l : Locals) (log : EventLog)
    → Within l log
    → let r = access p e (l, log) in Within r.0 r.1
unfolding access
access-Within take_slot e l log w = ground arith
access-Within put_kind e l log w = edit-Within l _ log w
access-Within put_arg_a e l log w = edit-Within l _ log w
access-Within put_arg_b e l log w = edit-Within l _ log w
access-Within put_tick e l log w = edit-Within l _ log w
access-Within put_data e l log w = edit-Within l _ log w
access-Within load_head e l log w = ground arith
access-Within put_head e l log w = ground arith
access-Within test_count e l log w = ground arith
access-Within load_count e l log w = ground arith
access-Within put_count e l log w =
    Within-if l.room (record log { count = u16 (l.count + 1) }) log (ground arith) w

resumed-slot :
    (i : ℕ) (c : Call) (calls : ℕ → Call)
    → c.locals.slot < 48
    → ((j : ℕ) → (calls j).locals.slot < 48)
    → (j : ℕ) → (resumed i c calls j).locals.slot < 48
resumed-slot i c calls h slots j = elim (Bool-cases (j == i)) [
  | inl same ↦ rw same h
  | inr other ↦ rw other (slots j)
]

Move-InBounds : (s t : Shared) → InBounds s → Move s t → InBounds t
Move-InBounds s t i (begin task e idle same) =
    let slots =
      resumed-slot task (record { entry = e; locals = unset; rest = body }) s.calls (omega arith)
        i.slots in
    rw same (ground arith)
Move-InBounds s t i (go task p ps has same) =
    let c = s.calls task in
    let w =
      access-Within p c.entry c.locals s.log
        (record { storage = i.storage; head = i.head; count = i.count; slot = i.slots task }) in
    let r = access p c.entry (c.locals, s.log) in
    subst InBounds (sym same) (record {
      storage = w.storage;
      head = w.head;
      count = w.count;
      slots = resumed-slot task (record c { locals = r.0; rest = ps }) s.calls w.slot i.slots;
    })

-- With any number of tasks in calls of the store and their accesses in any order, bounds that hold
-- stay: the storage keeps its 48 entries, the head and every slot that a call has taken are below
-- 48, and the count is below 2 ^ 16; so no call writes outside the storage.
pub Moves-InBounds : (s t : Shared) → InBounds s → Moves s t → InBounds t
Moves-InBounds s t i still = i
Moves-InBounds s t i (then_move {t = u} ms m) = Move-InBounds u t (Moves-InBounds s u i ms) m
