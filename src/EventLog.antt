-- ===== src/EventLog.antt =====
-- The flight recorder, src/event_log.c: a ring of 48 entries.
pub mod Ring
pub mod History
pub mod Dump
pub mod Race
mod Tests
use space_baremetal_skeleton.Common.{
  ℕ, zero, suc, ◌+◌, ◌%◌, Bool, true, false, Option, none, some, List, [], ◌∷◌, ◌++◌, ltb, leb,
  ◌==◌, if◌then◌else◌, length, get_or, set, replicate, text,
}
use space_baremetal_skeleton.Common.Words.{u8, u16, u32}
use space_baremetal_skeleton.States.{SystemState, rank}
use space_baremetal_skeleton.Uart.{put_hex, crlf, put_dec}

abbrev pub capacity : ℕ
capacity = 48

-- The enumerators of `EventLogType_t`, as the `uint8_t` that is stored.
abbrev pub boot_event : ℕ
boot_event = 0

abbrev pub state_change_event : ℕ
state_change_event = 1

abbrev pub watchdog_timeout_event : ℕ
watchdog_timeout_event = 2

abbrev pub seu_corrected_event : ℕ
seu_corrected_event = 3

abbrev pub mem_prot_threshold_event : ℕ
mem_prot_threshold_event = 4

abbrev pub safe_policy_event : ℕ
safe_policy_event = 5

abbrev pub operator_event : ℕ
operator_event = 6

abbrev pub image_crc_fail_event : ℕ
image_crc_fail_event = 7

-- `EventLogEntry_t`; the padding byte is never written or read.
pub record Entry : Type 0 where
  pub kind : ℕ
  pub arg_a : ℕ
  pub arg_b : ℕ
  pub tick : ℕ
  pub payload : ℕ

abbrev pub blank : Entry
blank = record { kind = 0; arg_a = 0; arg_b = 0; tick = 0; payload = 0 }

-- `event_log_entries`, `event_log_head` and `event_log_count_value`.
pub record EventLog : Type 0 where
  pub entries : List Entry
  pub head : ℕ
  pub count : ℕ

-- The storage as the program finds it: zeroed.
abbrev pub zeroed : EventLog
zeroed = record { entries = replicate capacity blank; head = 0; count = 0 }

-- The write that `event_log_store` and `event_log_record_image_crc_fail` share in shape.
unfoldable pub write_entry : Entry → EventLog → EventLog
write_entry e log = record {
  entries = set log.entries log.head e;
  head = u16 ((log.head + 1) % capacity);
  count = if ltb log.count capacity then u16 (log.count + 1) else log.count;
}

-- `event_log_store` at the tick count `now`.
unfoldable pub store : ℕ → ℕ → ℕ → ℕ → ℕ → EventLog → EventLog
unfolding write_entry
store now kind a b payload log =
    write_entry (record { kind = kind; arg_a = a; arg_b = b; tick = u32 now; payload = payload })
      log

unfoldable pub reset : EventLog → EventLog
reset log = record log { head = 0; count = 0 }

-- `event_log_init`
unfoldable pub init : ℕ → EventLog → EventLog
unfolding store reset
init now log = store now boot_event 0 0 0 (reset log)

unfoldable pub record_state_change : ℕ → SystemState → SystemState → ℕ → EventLog → EventLog
unfolding store
record_state_change now from to reason =
    store now state_change_event (u8 (rank from)) (u8 (rank to)) reason

unfoldable pub record_watchdog_timeout : ℕ → ℕ → SystemState → EventLog → EventLog
unfolding store
record_watchdog_timeout now missing_bits state =
    store now watchdog_timeout_event (u8 (rank state)) 0 missing_bits

unfoldable pub record_seu_corrected : ℕ → ℕ → ℕ → EventLog → EventLog
unfolding store
record_seu_corrected now byte_index bit = store now seu_corrected_event (u8 byte_index) bit 0

unfoldable pub record_mem_prot_threshold : ℕ → ℕ → EventLog → EventLog
unfolding store
record_mem_prot_threshold now violation_count =
    store now mem_prot_threshold_event 0 0 violation_count

unfoldable pub record_safe_policy : ℕ → Bool → EventLog → EventLog
unfolding store
record_safe_policy now entering_safe =
    store now safe_policy_event (if entering_safe then 1 else 0) 0 0

unfoldable pub record_operator : ℕ → ℕ → EventLog → EventLog
unfolding store
record_operator now command_key = store now operator_event (u8 command_key) 0 0

-- The computed checksum goes where the tick would.
unfoldable pub record_image_crc_fail : ℕ → ℕ → EventLog → EventLog
unfolding write_entry
record_image_crc_fail expected computed = write_entry (record {
  kind = image_crc_fail_event;
  arg_a = 0;
  arg_b = 0;
  tick = computed;
  payload = expected;
})

-- `event_log_count`
abbrev pub count_value : EventLog → ℕ
count_value log = log.count

-- `event_log_get_entry_chronological` with a non-null result pointer.
unfoldable pub get_entry_chronological : ℕ → EventLog → Option Entry
get_entry_chronological index log =
    if leb log.count index
    then none
    else some (get_or log.entries (u16 ((start + index) % capacity)) blank)
  where
    start : ℕ
    start = if ltb log.count capacity then 0 else log.head

-- `uart_put_dec` of a value that fits.
unfoldable pub dec : ℕ → List ℕ
dec v = elim (put_dec v) [ none ↦ [] | some s ↦ s ]

unfoldable pub put_state_name : ℕ → List ℕ
put_state_name s =
    if s == 0
    then text "BOOT"
    else if s == 1
    then text "NOMINAL"
    else if s == 2
    then text "DEGRADED"
    else if s == 3
    then text "SAFE"
    else text "UNKNOWN"

-- The switch of `event_log_dump_entry`.
unfoldable pub dump_detail : Entry → List ℕ
unfolding put_state_name
dump_detail e =
    if e.kind == boot_event
    then text "BOOT"
    else if e.kind == state_change_event
    then text "STATE "
      ++ (put_state_name e.arg_a
          ++ (text "->" ++ (put_state_name e.arg_b ++ (text " reason=0x" ++ put_hex e.payload))))
    else if e.kind == watchdog_timeout_event
    then text "WDT_TIMEOUT state="
      ++ (put_state_name e.arg_a ++ (text " missing=0x" ++ put_hex e.payload))
    else if e.kind == seu_corrected_event
    then text "SEU byte=" ++ (dec e.arg_a ++ (text " bit=" ++ dec e.arg_b))
    else if e.kind == mem_prot_threshold_event
    then text "MPU_THRESHOLD count=" ++ dec e.payload
    else if e.kind == safe_policy_event
    then (if e.arg_a == 0 then text "SAFE_EXIT" else text "SAFE_ENTER")
    else if e.kind == operator_event
    then text "OP key='" ++ (e.arg_a ∷ text "'")
    else if e.kind == image_crc_fail_event
    then text "IMAGE_CRC_FAIL expected=0x"
      ++ (put_hex e.payload ++ (text " computed=0x" ++ put_hex e.tick))
    else text "UNKNOWN"

unfoldable pub dump_entry : Entry → List ℕ
unfolding dump_detail
dump_entry e = text "[REC] t=" ++ (dec e.tick ++ (text " " ++ (dump_detail e ++ crlf)))

dump_found : Option Entry → List ℕ
dump_found none = []
dump_found (some e) = dump_entry e

-- The loop of `event_log_dump`, `n` rounds from `index` on.
unfoldable pub dump_from : ℕ → ℕ → EventLog → List ℕ
unfolding dump_found
dump_from index zero log = []
dump_from index (suc n) log =
    dump_found (get_entry_chronological index log) ++ dump_from (index + 1) n log

unfoldable pub dump : EventLog → List ℕ
unfolding dump_from
dump log =
    text "[REC] flight log ("
    ++ (dec log.count
        ++ (text "/" ++ (dec capacity ++ (text " entries)\r\n" ++ dump_from 0 log.count log))))
