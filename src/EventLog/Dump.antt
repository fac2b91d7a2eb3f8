-- ===== src/EventLog/Dump.antt =====
-- `event_log_dump` prints every entry that the log holds, once, oldest first.
use space_baremetal_skeleton.Common.{
  ℕ, zero, suc, ◌+◌, ◌≤◌, ◌<◌, ◌≡◌, refl, ap, sym, ◌∙◌, some, List, [], ◌∷◌, ◌++◌, arith, length,
  drop, get_elem?, text,
}
use mathlib.Core.Path.{ap₂}
use space_baremetal_skeleton.EventLog.{
  Entry, EventLog, dump_entry, dump_from, dump, dump_found, dec, capacity,
}
use space_baremetal_skeleton.EventLog.Ring.{
  IsValid, contents, length-contents, get_entry_chronological-get_elem?,
}

-- The lines of some entries.
unfoldable pub dump_entries : List Entry → List ℕ
dump_entries [] = []
dump_entries (e ∷ es) = dump_entry e ++ dump_entries es

drop-cons :
    (es : List Entry) (i : ℕ)
    → i < length es
    → (e : Entry) × (get_elem? es i ≡ some e) × (drop i es ≡ e ∷ drop (suc i) es)
drop-cons [] i h = absurd (omega arith)
drop-cons (x ∷ es) zero h = (x, refl, refl)
drop-cons (x ∷ es) (suc i) h = drop-cons es i (omega arith)

drop-all : (es : List Entry) (i : ℕ) → length es ≤ i → drop i es ≡ []
drop-all [] zero h = refl
drop-all [] (suc i) h = refl
drop-all (x ∷ es) zero h = absurd (omega arith)
drop-all (x ∷ es) (suc i) h = drop-all es i (omega arith)

-- The loop prints the entries from its index on.
dump_from-contents :
    (n i : ℕ) (log : EventLog)
    → IsValid log
    → i + n ≡ length (contents log)
    → dump_from i n log ≡ dump_entries (drop i (contents log))
unfolding dump_from dump_entries
dump_from-contents zero i log v h = rw (drop-all (contents log) i (omega arith))
dump_from-contents (suc n) i log v h =
    let found = drop-cons (contents log) i (omega arith) in
    ap (λ o. dump_found o ++ dump_from (i + 1) n log)
      (get_entry_chronological-get_elem? i log v ∙ found.1)
    ∙ ap (λ l. dump_entry found.0 ++ l)
        (dump_from-contents n (i + 1) log v (omega arith)
          ∙ ap (λ j. dump_entries (drop j (contents log))) next)
    ∙ sym (ap dump_entries found.2)
  where
    next : i + 1 ≡ suc i
    next = omega arith

-- With a valid log, `event_log_dump` prints the header with the number of entries, and then one line
-- for each entry held, oldest first.
pub dump-contents :
    (log : EventLog)
    → IsValid log
    → dump log
      ≡ text "[REC] flight log ("
        ++ (dec (length (contents log))
            ++ (text "/"
                ++ (dec capacity ++ (text " entries)\r\n" ++ dump_entries (contents log)))))
unfolding dump
dump-contents log v =
    ap₂
      (λ n l.
        text "[REC] flight log ("
        ++ (dec n ++ (text "/" ++ (dec capacity ++ (text " entries)\r\n" ++ l)))))
      (sym (length-contents log))
      (dump_from-contents log.count 0 log v (omega (arith, length-contents log)))
