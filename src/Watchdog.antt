-- ===== src/Watchdog.antt =====
-- src/watchdog.c: the kicks, the collecting of notification bits and the judgement of a cycle.
pub mod Bits
pub mod Recovery
pub mod Cycle
pub mod Ends
pub mod Stale
pub mod Alive
pub mod Keeps
pub mod Idle
mod Tests
use space_baremetal_skeleton.Common.{
  ℕ, zero, suc, ◌+◌, ◌-◌, ◌%◌, ◌^◌, ◌++◌, Bool, true, false, not, ◌&&◌, ◌||◌, Option, none, some,
  List, [], ◌∷◌, bit_and, bit_or, ltb, leb, ◌==◌, if◌then◌else◌, text,
}
use space_baremetal_skeleton.Common.Words.{u32}
use space_baremetal_skeleton.Kernel.{Notification, Board}
use space_baremetal_skeleton.States.{SystemState, nominal, degraded, safe, rank, same_state}
use space_baremetal_skeleton.Uart.{crlf}
use space_baremetal_skeleton.EventLog.{record_watchdog_timeout}
use space_baremetal_skeleton.Firmware.{Firmware, print, say}
use space_baremetal_skeleton.SystemState.{request_change}
use space_baremetal_skeleton.MemoryProtection.{perm_exec, check_access}
use space_baremetal_skeleton.SafePolicy.{
  bit_heartbeat, bit_memscrub, bit_faultinject, watchdog_expected_bits,
}

abbrev pub recovery_threshold : ℕ
recovery_threshold = 5

-- WATCHDOG_TIMEOUT_MS; a tick is a millisecond.
abbrev pub timeout_ticks : ℕ
timeout_ticks = 3500

-- `(received & expected) == expected`
abbrev pub covers : ℕ → ℕ → Bool
covers received expected = bit_and received expected == expected

-- `expected & ~received`
abbrev pub missing_bits : ℕ → ℕ → ℕ
missing_bits received expected = bit_and expected (4294967295 - received)

-- `(int32_t) remaining <= 0`. The ticks are 64 bits wide, and the cast keeps the low 32 of their difference,
-- so that the deadline is taken modulo 2 ^ 32.
unfoldable pub expired : ℕ → ℕ → Bool
expired deadline now =
    let remaining = (deadline + 4294967296 - u32 now) % 4294967296 in
    remaining == 0 || leb (2 ^ 31) remaining

-- A task's effect on the firmware while the watchdog waits.
abbrev pub Others : Type 0
Others = Firmware → Firmware

-- `watchdog_print_missing_bits`
unfoldable pub print_missing_bits : ℕ → ℕ → Firmware → Firmware
print_missing_bits received expected s =
    let missing = missing_bits received expected in
    print
      (text "[ERROR] WATCHDOG TIMEOUT missing:"
        ++ ((if bit_and missing bit_heartbeat == 0 then [] else text " Heartbeat")
            ++ ((if bit_and missing bit_memscrub == 0 then [] else text " MemScrub")
                ++ ((if bit_and missing bit_faultinject == 0 then [] else text " FaultInject")
                    ++ crlf))))
      s

module _ (b : Board) where
  -- `watchdog_kick_impl`
  unfoldable pub kick_impl : ℕ → Firmware → Firmware
  kick_impl bit s =
      if s.watchdog_ready then record s { notification = b.notify s.notification bit } else s

  -- `watchdog_kick`
  unfoldable pub kick : ℕ → Firmware → Firmware
  kick bit s =
      let (checked, allowed) = check_access b b.kick_address 1 perm_exec s in
      if not allowed
      then say "[VIOLATION] watchdog kick blocked by memory protection\r\n" checked
      else kick_impl bit checked

  -- `watchdog_evaluate_cycle` behind its null test.
  unfoldable pub evaluate : ℕ → ℕ → SystemState → ℕ → Firmware → Firmware × ℕ
  evaluate received expected state cycles s =
      if covers received expected
      then (if same_state state degraded
          then (if leb recovery_threshold (u32 (cycles + 1))
              then ((request_change b nominal 0x03 s).0, 0)
              else (s, u32 (cycles + 1)))
          else (s, 0))
      else if ltb (rank state) (rank degraded)
      then ((request_change b degraded 0x01 s).0, cycles)
      else if same_state state degraded
      then ((request_change b safe 0x01 s).0, cycles)
      else (s, cycles)

  -- `watchdog_evaluate_cycle`; a null pointer is `none`.
  unfoldable pub evaluate_cycle : ℕ → ℕ → SystemState → Option ℕ → Firmware → Firmware × Option ℕ
  evaluate_cycle received expected state none s = (s, none)
  evaluate_cycle received expected state (some cycles) s =
      let (after, count) = evaluate received expected state cycles s in (after, some count)

  -- The result of `xTaskNotifyWait(0, 0, &bits, remaining)` after what the others did.
  unfoldable pub waited : Firmware → Firmware × Option ℕ
  waited s = let (n, got) = b.notify_wait 0 0 s.notification in (record s { notification = n }, got)

  -- The collecting loop: one entry of the list for each wait, with what the other tasks do meanwhile.
  -- The result is the bits received; `none`: still waiting when the list ends.
  unfoldable pub collect : List Others → ℕ → ℕ → ℕ → Firmware → Option (Firmware × ℕ)
  collect [] expected deadline received s =
      if covers received expected || expired deadline s.tick then some (s, received) else none
  collect (others ∷ rest) expected deadline received s =
      let (woken, got) = waited (others s) in
      let again : Option (Firmware × ℕ) = elim got [
        | none ↦ some (woken, received)
        | some bits ↦ collect rest expected deadline (bit_or received bits) woken
      ] in
      if covers received expected || expired deadline s.tick then some (s, received) else again

  -- What the loop of `vTaskWatchdog` does with the bits of a cycle.
  unfoldable pub finish_cycle : SystemState → ℕ → ℕ → ℕ → Firmware → Firmware × ℕ
  finish_cycle state expected received cycles s =
      let told = print_missing_bits received expected s in
      let reported = record told {
        log = record_watchdog_timeout told.tick (missing_bits received expected) state told.log;
      } in
      evaluate received expected state cycles (if covers received expected then s else reported)

  finished : SystemState → ℕ → ℕ → Option (Firmware × ℕ) → Option (Firmware × ℕ)
  finished state expected cycles none = none
  finished state expected cycles (some (s, received)) =
      some (finish_cycle state expected received cycles s)

  -- One round of the loop of `vTaskWatchdog`, from its count of successful cycles.
  unfoldable pub cycle : List Others → ℕ → Firmware → Option (Firmware × ℕ)
  unfolding finished
  cycle others cycles s =
      let expected = watchdog_expected_bits s.state in
      finished s.state expected cycles (collect others expected (u32 (s.tick + timeout_ticks)) 0 s)

-- The start of `vTaskWatchdog`: the task handle is set.
unfoldable pub startup : Firmware → Firmware
startup s = record s { watchdog_ready = true }
