-- ===== src/Interrupt.antt =====
-- src/interrupt.c: the trap handler before FreeRTOS, and how it is installed.
pub mod Cause
pub mod Ticks
mod Tests
use space_baremetal_skeleton.Common.{
  ℕ, ◌^◌, ◌++◌, Bool, not, bit_and, bit_or, List, [], ◌∷◌, ◌==◌, if◌then◌else◌, text,
}
use space_baremetal_skeleton.Timer.{Machine, timer_isr}
use space_baremetal_skeleton.FaultInject.{em_dash}

-- How a trap ends: the handler returns, or it waits for ever.
pub data Trapped : Type 0 where
  returned stopped : Machine → Trapped

transmit : List ℕ → Machine → Machine
transmit bytes m = record m { out = m.out ++ bytes }

-- `mcause & (1ULL << 63)`
abbrev pub is_interrupt : ℕ → Bool
is_interrupt mcause = not (bit_and mcause (2 ^ 63) == 0)

-- `(mcause & 0x3FF) == 7`
abbrev pub is_timer : ℕ → Bool
is_timer mcause = bit_and mcause 0x3FF == 7

abbrev pub unhandled : List ℕ
unhandled = text "[ERROR] unhandled interrupt\r\n"

-- `trap_handler`, when MCAUSE and MTIME read these values.
unfoldable pub trap_handler : ℕ → ℕ → Machine → Trapped
unfolding transmit
trap_handler mcause now m =
    if is_interrupt mcause
    then (if is_timer mcause then returned (timer_isr now m) else returned (transmit unhandled m))
    else stopped (transmit (text "[ERROR] exception " ++ (em_dash ++ text " system halted\r\n")) m)

-- `interrupt_init`, with the address of the handler.
unfoldable pub interrupt_init : ℕ → Machine → Machine
unfolding transmit
interrupt_init handler m =
    transmit (text "Interrupt system initialized (Machine mode)\r\n")
      (record m { mtvec = handler; mie = bit_or m.mie 128; mstatus = bit_or m.mstatus 8 })
