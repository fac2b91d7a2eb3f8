-- ===== src/EventLog/Ring.antt =====
-- The ring holds the last 48 entries, oldest first.
use space_baremetal_skeleton.Common.{
  ℕ, zero, suc, ◌+◌, ◌%◌, ◌≤◌, ◌<◌, ◌≡◌, refl, ap, sym, ◌∙◌, none, some, List, [], ◌∷◌, ◌++◌, arith,
  length, get_or, set, drop, ltb, leb, if◌then◌else◌, length-set, get_or-set_self, get_or-set_ne,
  get_elem?, Bool-cases, inl, inr,
}
use mathlib.Core.Path.{ap₂}
use space_baremetal_skeleton.EventLog.{
  Entry, EventLog, blank, capacity, write_entry, get_entry_chronological,
}

-- The representation invariant: the storage has its size, the indices stay in it, and before the ring
-- is full the head stands just behind the entries.
pub record IsValid (log : EventLog) : Type 0 where
  pub storage : length log.entries ≡ 48
  pub head_in : log.head < 48
  pub count_in : log.count ≤ 48
  pub filling : log.count < 48 → log.head ≡ log.count

abbrev pub start : EventLog → ℕ
start log = if ltb log.count capacity then 0 else log.head

-- The `n` entries from slot `i` on, going round at 48.
abbrev pub window : List Entry → ℕ → ℕ → List Entry
window es i zero = []
window es i (suc n) = get_or es i blank ∷ window es ((i + 1) % 48) n

-- What the log holds, oldest first.
abbrev pub contents : EventLog → List Entry
contents log = window log.entries (start log) log.count

-- A bounded history: the newest entry at the end, the oldest dropped when there are 48.
unfoldable pub remember : List Entry → Entry → List Entry
remember es e = (if ltb (length es) 48 then es else drop 1 es) ++ (e ∷ [])

length-window : (es : List Entry) (i n : ℕ) → length (window es i n) ≡ n
length-window es i zero = refl
length-window es i (suc n) = ap suc (length-window es ((i + 1) % 48) n)

-- A write just behind a window extends it.
window-set :
    (es : List Entry) (e : Entry) (n i j : ℕ)
    → length es ≡ 48
    → i < 48
    → n < 48
    → j ≡ (i + n) % 48
    → window (set es j e) i (suc n) ≡ window es i n ++ (e ∷ [])
window-set es e zero i j s hi hn q = rw (q ∙ here, get_or-set_self es i e blank (omega arith))
  where
    here : (i + 0) % 48 ≡ i
    here = omega arith
window-set es e (suc n) i j s hi hn q =
    ap₂ ◌∷◌ (get_or-set_ne es j i e blank (omega arith))
      (window-set es e n ((i + 1) % 48) j s (omega arith) (omega arith) (omega arith))

-- `event_log_store` keeps the representation invariant.
pub write_entry-IsValid : (log : EventLog) (e : Entry) → IsValid log → IsValid (write_entry e log)
unfolding write_entry
write_entry-IsValid log e v = ground (arith, length-set log.entries log.head e)

-- The two cases of the ring after a write: still filling, and full.
contents-write_entry_room :
    (log : EventLog) (e : Entry)
    → IsValid log
    → log.count < 48
    → contents (write_entry e log) ≡ contents log ++ (e ∷ [])
unfolding write_entry
contents-write_entry_room log e v h =
    ap₂ (window (set log.entries log.head e)) start_after count_after
    ∙ window-set log.entries e log.count 0 log.head v.storage (omega arith) h
        (omega (arith, v.filling h))
    ∙ ap (λ s. window log.entries s log.count ++ (e ∷ [])) start_before
  where
    start_before : 0 ≡ start log
    start_before = ground arith

    start_after : start (write_entry e log) ≡ 0
    start_after = ground (arith, v.filling h)

    count_after : (write_entry e log).count ≡ suc log.count
    count_after = ground arith

contents-write_entry_full :
    (log : EventLog) (e : Entry)
    → IsValid log
    → log.count ≡ 48
    → contents (write_entry e log) ≡ drop 1 (contents log) ++ (e ∷ [])
unfolding write_entry
contents-write_entry_full log e v h =
    ap₂ (window (set log.entries log.head e)) start_after count_after
    ∙ window-set log.entries e 47 ((log.head + 1) % 48) log.head v.storage (omega arith)
        (omega arith) (omega (arith, v.head_in))
    ∙ ap₂ (λ s n. drop 1 (window log.entries s n) ++ (e ∷ [])) start_before (sym h)
  where
    start_before : log.head ≡ start log
    start_before = ground arith

    start_after : start (write_entry e log) ≡ (log.head + 1) % 48
    start_after = ground arith

    count_after : (write_entry e log).count ≡ 48
    count_after = ground arith

pub length-contents : (log : EventLog) → length (contents log) ≡ log.count
length-contents log = length-window log.entries (start log) log.count

-- Writing an entry is remembering it: while there is room it comes behind the others, afterwards
-- the oldest goes.
pub contents-write_entry :
    (log : EventLog) (e : Entry)
    → IsValid log
    → contents (write_entry e log) ≡ remember (contents log) e
unfolding remember
contents-write_entry log e v = elim (Bool-cases (ltb log.count 48)) [
  | inl room ↦
      contents-write_entry_room log e v (ground arith)
      ∙ ap (λ b. (if b then contents log else drop 1 (contents log)) ++ (e ∷ []))
          (sym (ap (λ n. ltb n 48) (length-contents log) ∙ room))
  | inr full ↦
      contents-write_entry_full log e v (ground (arith, v.count_in))
      ∙ ap (λ b. (if b then contents log else drop 1 (contents log)) ++ (e ∷ []))
          (sym (ap (λ n. ltb n 48) (length-contents log) ∙ full))
]

get_elem?-window :
    (es : List Entry) (n i k : ℕ)
    → i < 48
    → k < n
    → get_elem? (window es i n) k ≡ some (get_or es ((i + k) % 48) blank)
get_elem?-window es zero i k h l = absurd (omega arith)
get_elem?-window es (suc n) i zero h l = ap (λ j. some (get_or es j blank)) (omega arith)
get_elem?-window es (suc n) i (suc k) h l =
    get_elem?-window es n ((i + 1) % 48) k (omega arith) (omega arith)
    ∙ ap (λ j. some (get_or es j blank)) (omega arith)

get_elem?-none : (es : List Entry) (k : ℕ) → length es ≤ k → get_elem? es k ≡ none
get_elem?-none [] k h = refl
get_elem?-none (x ∷ es) zero h = absurd (omega arith)
get_elem?-none (x ∷ es) (suc k) h = get_elem?-none es k (omega arith)

start-lt : (log : EventLog) → IsValid log → start log < 48
start-lt log v = ground arith

-- `event_log_get_entry_chronological` gives the entry at a position of the contents, oldest first, and
-- refuses exactly the positions behind the last.
pub get_entry_chronological-get_elem? :
    (index : ℕ) (log : EventLog)
    → IsValid log
    → get_entry_chronological index log ≡ get_elem? (contents log) index
unfolding get_entry_chronological
get_entry_chronological-get_elem? index log v = elim (Bool-cases (leb log.count index)) [
  | inl past ↦
      rw past (sym (get_elem?-none (contents log) index (ground (arith, length-contents log))))
  | inr inside ↦ rw inside (
      ap (λ j. some (get_or log.entries j blank)) (omega arith)
      ∙ sym (
          get_elem?-window log.entries log.count (start log) index (start-lt log v) (ground arith)))
]
