-- ===== src/MemoryScrub.antt =====
-- src/memory_scrub.c and src/golden_copy.c: the protected buffer and its correction.
pub mod Bytes
pub mod Access
pub mod Correct
pub mod Upsets
pub mod Mend
pub mod Frame
pub mod Escalation
mod Tests
use space_baremetal_skeleton.Common.{
  ℕ, zero, suc, ◌+◌, ◌-◌, ◌%◌, ◌^◌, ◌++◌, Bool, true, false, not, ◌&&◌, ◌||◌, Option, none, some,
  List, [], ◌∷◌, bit_and, bit_or, ltb, leb, ◌==◌, if◌then◌else◌, get_or, set, text,
}
use space_baremetal_skeleton.Common.Words.{u8, u32, u64}
use space_baremetal_skeleton.Kernel.{Queue, Board}
use space_baremetal_skeleton.States.{degraded}
use space_baremetal_skeleton.Uart.{put_hex, crlf}
use space_baremetal_skeleton.EventLog.{record_seu_corrected}
use space_baremetal_skeleton.Firmware.{FaultEvent, Firmware, print, say}
use space_baremetal_skeleton.SystemState.{request_change}
use space_baremetal_skeleton.MemoryProtection.{
  perm_read, perm_write, perm_read_write, check_access, protect_region,
}
use space_baremetal_skeleton.SafePolicy.{allows_seu_escalation, allows_background_scrub}
use space_baremetal_skeleton.FaultInject.{scrub_size, em_dash}

abbrev pub seu_threshold : ℕ
seu_threshold = 5

-- `golden_copy`: the numbers from 0 to 255, twice.
unfoldable pub count_up : ℕ → ℕ → List ℕ
count_up zero i = []
count_up (suc n) i = (i % 256) ∷ count_up n (i + 1)

unfoldable pub golden_copy : List ℕ
golden_copy = count_up 512 0

unfoldable pub golden_read : ℕ → ℕ
golden_read idx = get_or golden_copy idx 0

-- `(uint8_t) ((actual & ~bit_mask) | (expected & bit_mask))`
unfoldable pub corrected_byte : ℕ → ℕ → ℕ → ℕ
corrected_byte actual expected bit_mask =
    u8 (bit_or (bit_and actual (4294967295 - bit_mask)) (bit_and expected bit_mask))

module _ (b : Board) where
  -- `&area[idx]`
  abbrev pub address_of : ℕ → ℕ
  address_of idx = u64 (b.scrub_base + idx)

  -- A read that is refused gives 0.
  unfoldable pub scrub_read : ℕ → Firmware → Firmware × ℕ
  scrub_read idx s =
      let (checked, allowed) = check_access b (address_of idx) 1 perm_read s in
      (checked, if allowed then get_or checked.area idx 0 else 0)

  unfoldable pub scrub_write : ℕ → ℕ → Firmware → Firmware × Bool
  scrub_write idx value s =
      let (checked, allowed) = check_access b (address_of idx) 1 perm_write s in
      if allowed
      then (record checked { area = set checked.area idx value }, true)
      else (checked, false)

  -- `memory_scrub_record_seu`
  unfoldable pub record_seu : Firmware → Firmware
  record_seu s =
      let counted = record s { seu_total = u32 (s.seu_total + 1) } in
      let stepped = record counted { seu_counter = u32 (counted.seu_counter + 1) } in
      if not (allows_seu_escalation counted.state)
      then counted
      else if leb seu_threshold stepped.seu_counter
      then record (request_change b degraded 0x02 stepped).0 { seu_counter = 0 }
      else stepped

  -- `memory_scrub_init` with `memory_scrub_protect_buffers`
  unfoldable pub init : Firmware → Firmware
  init s = say "Memory scrub initialized (EDAC Simulation)\r\n" (
      protect_region b.scrub_base (u64 (b.scrub_base + scrub_size)) perm_read_write
        (text "ScrubArea") (record s { seu_counter = 0; seu_total = 0; area = golden_copy }))

  fix_told : List ℕ → FaultEvent → List ℕ → Firmware → Firmware
  fix_told what event end s =
      print (what ++ (put_hex event.index ++ (text " bit " ++ (put_hex event.bit ++ end)))) s

  -- `memory_scrub_fix_event` behind its first test.
  unfoldable pub fix_in_range : FaultEvent → Firmware → Firmware × Bool
  unfolding fix_told
  fix_in_range event s =
      let bit_mask = u8 (2 ^ event.bit) in
      let (read, actual) = scrub_read event.index s in
      let expected = golden_read event.index in
      if bit_and actual bit_mask == bit_and expected bit_mask
      then (
        fix_told (text "Memory scrub: targeted check @ byte ") event
            (text " " ++ (em_dash ++ text " ok\r\n")) read,
        false,
      )
      else (let (written, done) =
            scrub_write event.index (corrected_byte actual expected bit_mask) read in
          if not done
          then (say "[VIOLATION] scrub write blocked by memory protection\r\n" written, false)
          else (let told =
                fix_told (text "Memory scrub: SEU corrected @ byte ") event crlf written in
              (
                record_seu (record told {
                  log = record_seu_corrected told.tick event.index event.bit told.log;
                }),
                true,
              )))

  -- `memory_scrub_fix_event`; a null pointer is `none`.
  unfoldable pub fix_event : Option FaultEvent → Firmware → Firmware × Bool
  fix_event none s = (s, false)
  fix_event (some event) s =
      if leb scrub_size event.index || leb 8 event.bit then (s, false) else fix_in_range event s

  -- One round of `memory_scrub`: the state, and `errors_corrected`.
  unfoldable pub scrub_byte : ℕ → Firmware × ℕ → Firmware × ℕ
  scrub_byte i (s, errors) =
      let (read, current) = scrub_read i s in
      let expected = golden_read i in
      if current == expected
      then (read, errors)
      else (let (written, done) = scrub_write i expected read in
          if done then (record_seu written, u32 (errors + 1)) else (written, errors))

  unfoldable pub scrub_from : ℕ → ℕ → Firmware × ℕ → Firmware × ℕ
  scrub_from zero i r = r
  scrub_from (suc n) i r = scrub_from n (i + 1) (scrub_byte i r)

  -- `memory_scrub`
  unfoldable pub scrub : Firmware → Firmware
  scrub s =
      let (scrubbed, errors) = scrub_from scrub_size 0 (s, 0) in
      if ltb 0 errors
      then say "Memory scrub: SEU(s) detected and corrected\r\n" scrubbed
      else say "Memory scrub completed - No errors\r\n" scrubbed

-- `memory_scrub_get_seu_count`
abbrev pub get_seu_count : Firmware → ℕ
get_seu_count s = s.seu_total
