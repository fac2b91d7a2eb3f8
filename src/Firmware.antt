-- ===== src/Firmware.antt =====
-- The statics of the application, as one record that its functions pass on, and its console output.
use space_baremetal_skeleton.Common.{ℕ, Bool, Option, List, ◌++◌, String, text}
use space_baremetal_skeleton.Kernel.{Queue, Notification}
use space_baremetal_skeleton.States.{SystemState, StateRequest}
use space_baremetal_skeleton.EventLog.{EventLog}
use space_baremetal_skeleton.Image.{Integrity}

-- `FaultEvent_t`, include/system_defs.h.
pub record FaultEvent : Type 0 where
  pub index : ℕ
  pub bit : ℕ

-- `memory_region_t`; the permissions are a mask of `mem_perm_t`.
pub record Region : Type 0 where
  pub start : ℕ
  pub end : ℕ
  pub permissions : ℕ
  pub name : List ℕ

-- `CommandType_t`, include/command.h.
pub data Command : Type 0 where
  status go_nominal go_degraded go_safe inject_fault force_scrub print_violations print_seu_count
        toggle_fault_inject dump_event_log :
      Command

-- Every static variable of the application's modules, what it has sent to the console, its task
-- notification (of the watchdog task), and the tick count.
pub record Firmware : Type 0 where
  pub out : List ℕ
  pub tick : ℕ
  pub log : EventLog
  -- memory_protection.c
  pub regions : List Region
  pub region_count : ℕ
  pub violation_count : ℕ
  -- system_state.c; `none` is the null handle
  pub state : SystemState
  pub state_queue : Option (Queue StateRequest)
  -- fault_queue.c, command.c
  pub fault_queue : Option (Queue FaultEvent)
  pub command_queue : Option (Queue Command)
  -- fault_inject.c
  pub inject_enabled : Bool
  -- memory_scrub.c
  pub area : List ℕ
  pub seu_counter : ℕ
  pub seu_total : ℕ
  -- image_integrity.c
  pub integrity : Integrity
  -- watchdog.c: whether the task handle is set
  pub watchdog_ready : Bool
  pub notification : Notification

-- `uart_puts` and its kin: what they transmit goes behind what was transmitted.
unfoldable pub print : List ℕ → Firmware → Firmware
print bytes s = record s { out = s.out ++ bytes }

unfoldable pub say : String → Firmware → Firmware
say message s = print (text message) s
