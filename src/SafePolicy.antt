-- ===== src/SafePolicy.antt =====
-- src/safe_policy.c, and the switch of src/fault_inject.c that it sets.
use space_baremetal_skeleton.Common.{ℕ, Bool, true, false, not, ltb, if◌then◌else◌, bit_or}
use space_baremetal_skeleton.States.{SystemState, nominal, safe, rank, same_state}
use space_baremetal_skeleton.EventLog.{record_safe_policy}
use space_baremetal_skeleton.Firmware.{Firmware, say}

-- include/system_defs.h
abbrev pub bit_heartbeat : ℕ
bit_heartbeat = 1

abbrev pub bit_memscrub : ℕ
bit_memscrub = 2

abbrev pub bit_faultinject : ℕ
bit_faultinject = 4

abbrev pub expected_bits : ℕ
expected_bits = bit_or (bit_or bit_heartbeat bit_memscrub) bit_faultinject

abbrev pub safe_expected_bits : ℕ
safe_expected_bits = bit_or bit_heartbeat bit_memscrub

unfoldable pub watchdog_expected_bits : SystemState → ℕ
watchdog_expected_bits state = if same_state state safe then safe_expected_bits else expected_bits

unfoldable pub allows_auto_fault_inject : SystemState → Bool
allows_auto_fault_inject state = same_state state nominal

unfoldable pub allows_manual_fault_inject : SystemState → Bool
allows_manual_fault_inject state = not (same_state state safe)

unfoldable pub allows_background_scrub : SystemState → Bool
allows_background_scrub state = not (same_state state safe)

unfoldable pub allows_heartbeat_uart : SystemState → Bool
allows_heartbeat_uart state = not (same_state state safe)

unfoldable pub allows_seu_escalation : SystemState → Bool
allows_seu_escalation state = ltb (rank state) (rank safe)

-- `fault_inject_is_enabled` and `fault_inject_set_enabled`
abbrev pub is_enabled : Firmware → Bool
is_enabled s = s.inject_enabled

unfoldable pub set_enabled : Bool → Firmware → Firmware × Bool
set_enabled enabled s = (record s { inject_enabled = enabled }, enabled)

unfoldable pub on_degraded_enter : Firmware → Firmware
on_degraded_enter s =
    say "(background scrub and full watchdog unchanged)\r\n"
      (say "[DEGRADED] policy active: auto-inject off " (set_enabled false s).0)

unfoldable pub on_enter : Firmware → Firmware
on_enter s =
    let logged = record s { log = record_safe_policy s.tick true s.log } in
    say "watchdog expects Heartbeat+MemScrub only, heartbeat log suppressed\r\n" (
      say "[SAFE] policy active: auto-inject off, background scrub off, "
        (set_enabled false logged).0)

unfoldable pub on_exit : Firmware → Firmware
on_exit s = say "(fault inject remains off until 'x')\r\n" (
    say "[SAFE] policy cleared: nominal operations restored "
      (record s { log = record_safe_policy s.tick false s.log }))
