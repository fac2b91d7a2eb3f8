-- ===== src/System.antt =====
-- The running system: the boot of src/main.c with the starts of the tasks, and then the rounds of the tasks
-- of src/tasks.c in any order.
pub mod Frame
pub mod Scrub
pub mod Invariant
pub mod Turns
pub mod Safety
pub mod Exit
pub mod Layout
pub mod Loaded
pub mod PowerUp
pub mod Operator
pub mod Faults
pub mod Stable
pub mod Widths
pub mod Repair
pub mod Detection
pub mod Recovery
mod Tests
mod CycleTests
mod FaultTests
use space_baremetal_skeleton.Common.{
  ℕ, ◌<◌, ◌^◌, Option, none, some, ◌≡◌, Bool, true, false, [], replicate,
}
use space_baremetal_skeleton.Kernel.{Board}
use space_baremetal_skeleton.States.{SystemState, boot}
use space_baremetal_skeleton.EventLog.{zeroed}
use space_baremetal_skeleton.Image.{unchecked}
use space_baremetal_skeleton.MemoryProtection.{no_region}
use space_baremetal_skeleton.MemoryScrub
use space_baremetal_skeleton.Firmware.{Firmware}
use space_baremetal_skeleton.SafePolicy.{watchdog_expected_bits}
use space_baremetal_skeleton.StateMachine
use space_baremetal_skeleton.Watchdog
use space_baremetal_skeleton.Command
use space_baremetal_skeleton.Watchdog.{waited, finish_cycle}
use space_baremetal_skeleton.Command.{input_turn, handler_turn}
use space_baremetal_skeleton.Tasks.{
  TaskConfig, Boot, scheduled, halted, Linked, main, heartbeat_turn, fault_inject_turn,
  mem_scrub_turn,
}

-- The statics as the program finds them.
unfoldable pub power_on : Firmware
power_on = record {
  out = [];
  tick = 0;
  log = zeroed;
  regions = replicate 8 no_region;
  region_count = 0;
  violation_count = 0;
  state = boot;
  state_queue = none;
  fault_queue = none;
  command_queue = none;
  inject_enabled = true;
  area = replicate 512 0;
  seu_counter = 0;
  seu_total = 0;
  integrity = unchecked;
  watchdog_ready = false;
  notification = record { value = 0; pending = false };
}

-- What the tasks do before their loops, in the order of their priorities.
unfoldable pub start_tasks : Board → Firmware → Firmware
start_tasks b s =
    Command.input_startup (MemoryScrub.init b (StateMachine.startup b (Watchdog.startup s)))

started : Board → Boot → Option Firmware
started b (scheduled tasks s) = some (start_tasks b s)
started b (halted s) = none

-- From power on to the rounds of the tasks; `none` if the boot halts.
unfoldable pub power_up : Board → (TaskConfig → Bool) → Linked → Option Firmware
unfolding started
power_up b spawn l = started b (main b spawn l power_on)

-- One round of one task between two blocking calls, or the passing of time (`TickType_t` is a `uint64_t` on rv64). The watchdog judges a cycle by
-- the state that it read at the start of the cycle, and by any bits.
pub data Step (b : Board) (s : Firmware) (t : Firmware) : Type 0 where
  time : (now : ℕ) → now < 2 ^ 64 → t ≡ record s { tick = now } → Step b s t
  state_machine : t ≡ StateMachine.turn b s → Step b s t
  heartbeat : t ≡ heartbeat_turn b s → Step b s t
  fault_inject : t ≡ fault_inject_turn b s → Step b s t
  mem_scrub : (fuel : ℕ) → mem_scrub_turn b fuel s ≡ some t → Step b s t
  command_input : (byte : Option ℕ) → t ≡ input_turn b byte s → Step b s t
  command_handler : t ≡ handler_turn b s → Step b s t
  watchdog_wait : t ≡ (waited b s).0 → Step b s t
  watchdog_judge :
      (state : SystemState) (received cycles : ℕ)
      → t ≡ (finish_cycle b state (watchdog_expected_bits state) received cycles s).0
      → Step b s t

-- Any number of rounds.
pub data Reach (b : Board) (s : Firmware) : Firmware → Type 0 where
  here : Reach b s s
  next : {t u : Firmware} → Reach b s t → Step b t u → Reach b s u
