-- ===== src/EventLog/History.antt =====
-- Any sequence of recording calls after `event_log_init`: the log holds its last 48 entries.
use space_baremetal_skeleton.Common.{
  ℕ, zero, suc, ◌-◌, ◌≤◌, ◌≡◌, refl, ap, sym, ◌∙◌, true, false, List, [], ◌∷◌, ◌++◌, arith, Bool,
  if◌then◌else◌, length, drop, ltb, length-append, length-drop, Bool-cases, inl, inr,
}
use mathlib.Core.List.{map, append_assoc, append-nil}
use space_baremetal_skeleton.Common.Words.{u8, u32}
use space_baremetal_skeleton.States.{SystemState, rank}
use space_baremetal_skeleton.EventLog.{
  Entry, EventLog, zeroed, capacity, write_entry, init, record_state_change,
  record_watchdog_timeout, record_seu_corrected, record_mem_prot_threshold, record_safe_policy,
  record_operator, record_image_crc_fail,
}
use space_baremetal_skeleton.EventLog.Ring.{
  IsValid, contents, remember, write_entry-IsValid, contents-write_entry,
}

-- A call of one of the recording functions, at the tick count that it reads.
pub data Event : Type 0 where
  state_change : ℕ → SystemState → SystemState → ℕ → Event
  watchdog_timeout : ℕ → ℕ → SystemState → Event
  seu_corrected : ℕ → ℕ → ℕ → Event
  mem_prot_threshold : ℕ → ℕ → Event
  safe_policy : ℕ → Bool → Event
  operator : ℕ → ℕ → Event
  image_crc_fail : ℕ → ℕ → Event

abbrev pub perform : Event → EventLog → EventLog
perform (state_change now from to reason) = record_state_change now from to reason
perform (watchdog_timeout now missing state) = record_watchdog_timeout now missing state
perform (seu_corrected now byte bit) = record_seu_corrected now byte bit
perform (mem_prot_threshold now count) = record_mem_prot_threshold now count
perform (safe_policy now entering) = record_safe_policy now entering
perform (operator now key) = record_operator now key
perform (image_crc_fail expected computed) = record_image_crc_fail expected computed

-- What the entry of a call holds: type, two byte arguments, tick and a word, as the documentation
-- of the flight recorder lists them.
abbrev pub entry_of : Event → Entry
entry_of (state_change now from to reason) = record {
  kind = 1;
  arg_a = rank from;
  arg_b = rank to;
  tick = u32 now;
  payload = reason;
}
entry_of (watchdog_timeout now missing state) = record {
  kind = 2;
  arg_a = rank state;
  arg_b = 0;
  tick = u32 now;
  payload = missing;
}
entry_of (seu_corrected now byte bit) = record {
  kind = 3;
  arg_a = u8 byte;
  arg_b = bit;
  tick = u32 now;
  payload = 0;
}
entry_of (mem_prot_threshold now count) = record {
  kind = 4;
  arg_a = 0;
  arg_b = 0;
  tick = u32 now;
  payload = count;
}
entry_of (safe_policy now entering) = record {
  kind = 5;
  arg_a = if entering then 1 else 0;
  arg_b = 0;
  tick = u32 now;
  payload = 0;
}
entry_of (operator now key) = record {
  kind = 6;
  arg_a = u8 key;
  arg_b = 0;
  tick = u32 now;
  payload = 0;
}
entry_of (image_crc_fail expected computed) = record {
  kind = 7;
  arg_a = 0;
  arg_b = 0;
  tick = computed;
  payload = expected;
}

abbrev pub boot_entry : ℕ → Entry
boot_entry now = record { kind = 0; arg_a = 0; arg_b = 0; tick = u32 now; payload = 0 }

unfoldable pub perform_all : List Event → EventLog → EventLog
perform_all [] log = log
perform_all (e ∷ es) log = perform_all es (perform e log)

-- The last 48 of a history.
abbrev pub recent : List Entry → List Entry
recent es = drop (length es - capacity) es

rank_fits : (s : SystemState) → u8 (rank s) ≡ rank s
rank_fits SystemState.boot = refl
rank_fits _ = refl

-- Each recording function writes the documented entry.
perform-write_entry : (e : Event) (log : EventLog) → perform e log ≡ write_entry (entry_of e) log
unfolding record_state_change record_watchdog_timeout record_seu_corrected record_mem_prot_threshold
    record_safe_policy record_operator record_image_crc_fail
perform-write_entry (state_change now from to reason) log = rw (rank_fits from, rank_fits to)
perform-write_entry (watchdog_timeout now missing state) log = rw (rank_fits state)
perform-write_entry (seu_corrected now byte bit) log = refl
perform-write_entry (mem_prot_threshold now count) log = refl
perform-write_entry (safe_policy now entering) log = refl
perform-write_entry (operator now key) log = refl
perform-write_entry (image_crc_fail expected computed) log = refl

module _ {ℓ} {A : Type ℓ} where
  drop-nil : (n : ℕ) → drop {A = A} n [] ≡ []
  drop-nil zero = refl
  drop-nil (suc n) = refl

  drop-drop_one : (n : ℕ) (xs : List A) → drop 1 (drop n xs) ≡ drop (suc n) xs
  drop-drop_one zero xs = refl
  drop-drop_one (suc n) [] = refl
  drop-drop_one (suc n) (x ∷ xs) = drop-drop_one n xs

  drop-append : (n : ℕ) (xs ys : List A) → n ≤ length xs → drop n (xs ++ ys) ≡ drop n xs ++ ys
  drop-append zero xs ys h = refl
  drop-append (suc n) [] ys h = absurd (omega arith)
  drop-append (suc n) (x ∷ xs) ys h = drop-append n xs ys (omega arith)

-- Remembering one more entry keeps the last 48.
remember-recent : (es : List Entry) (e : Entry) → remember (recent es) e ≡ recent (es ++ (e ∷ []))
unfolding remember
remember-recent es e = elim (Bool-cases (ltb (length (recent es)) 48)) [
  | inl room ↦ rw room (
      ap (λ n. drop n es ++ (e ∷ [])) (still_empty room)
      ∙ ap (λ n. drop n (es ++ (e ∷ []))) (sym (none_dropped room)))
  | inr full ↦ rw full (
      ap (λ l. l ++ (e ∷ [])) (drop-drop_one (length es - 48) es)
      ∙ sym (drop-append (suc (length es - 48)) es (e ∷ []) (ground (arith, measured)))
      ∙ ap (λ n. drop n (es ++ (e ∷ []))) (one_more full))
]
  where
    measured : length (recent es) ≡ length es - (length es - 48)
    measured = length-drop (length es - 48) es

    still_empty : ltb (length (recent es)) 48 ≡ true → length es - 48 ≡ 0
    still_empty room = ground (arith, measured)

    none_dropped : ltb (length (recent es)) 48 ≡ true → length (es ++ (e ∷ [])) - 48 ≡ 0
    none_dropped room = ground (arith, measured, length-append es (e ∷ []))

    one_more :
        ltb (length (recent es)) 48 ≡ false → suc (length es - 48) ≡ length (es ++ (e ∷ [])) - 48
    one_more full = ground (arith, measured, length-append es (e ∷ []))

-- The same for a run of calls from a log that holds the end of a history.
perform_all-recent :
    (es : List Event) (log : EventLog) (past : List Entry)
    → IsValid log
    → contents log ≡ recent past
    → IsValid (perform_all es log)
      × (contents (perform_all es log) ≡ recent (past ++ map entry_of es))
unfolding perform_all
perform_all-recent [] log past v h = (v, h ∙ ap recent (sym (append-nil past)))
perform_all-recent (e ∷ es) log past v h =
    let written : perform e log ≡ write_entry (entry_of e) log = perform-write_entry e log in
    let (valid, held) =
      perform_all-recent es (perform e log) (past ++ (entry_of e ∷ []))
        (rw written (write_entry-IsValid log (entry_of e) v))
        (rw written (
          contents-write_entry log (entry_of e) v
          ∙ ap (λ l. remember l (entry_of e)) h
          ∙ remember-recent past (entry_of e))) in
    (valid, held ∙ ap recent (append_assoc past (entry_of e ∷ []) (map entry_of es)))

-- After `event_log_init` on the zeroed storage and any calls of the recording functions, the
-- invariant holds and the log holds exactly the last 48 of the boot entry and the entries of the
-- calls, oldest first.
pub perform_all-init :
    (now : ℕ) (es : List Event)
    → let log = perform_all es (init now zeroed) in
      IsValid log × (contents log ≡ recent (boot_entry now ∷ map entry_of es))
perform_all-init now es =
    perform_all-recent es (init now zeroed) (boot_entry now ∷ []) (unfold init in omega arith)
      (unfold init in refl)
