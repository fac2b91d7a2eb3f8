-- ===== src/Timer.antt =====
-- src/timer.c: the machine timer before FreeRTOS, with the registers of the CLINT and of the trap unit.
use space_baremetal_skeleton.Common.{ℕ, ◌+◌, List, ◌++◌, text}
use space_baremetal_skeleton.Common.Words.{u32, u64}

-- `system_ticks`, MTIMECMP, the control registers that src/interrupt.c writes, and what was transmitted.
pub record Machine : Type 0 where
  pub system_ticks : ℕ
  pub mtimecmp : ℕ
  pub mtvec : ℕ
  pub mie : ℕ
  pub mstatus : ℕ
  pub out : List ℕ

-- CLINT ticks from one interrupt to the next.
abbrev pub interval : ℕ
interval = 100000

-- `timer_set_next`, when MTIME reads `now`.
unfoldable pub timer_set_next : ℕ → Machine → Machine
timer_set_next now m = record m { mtimecmp = u64 (now + interval) }

unfoldable pub timer_isr : ℕ → Machine → Machine
timer_isr now m = timer_set_next now (record m { system_ticks = u32 (m.system_ticks + 1) })

unfoldable pub timer_init : ℕ → Machine → Machine
timer_init now m =
    let set = timer_set_next now m in
    record set { out = set.out ++ text "Timer initialized (system ticks)\r\n" }

unfoldable pub get_system_ticks : Machine → ℕ
get_system_ticks m = m.system_ticks
