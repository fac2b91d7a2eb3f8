-- ===== src/Tasks.antt =====
-- The turns of the periodic tasks, the task table of src/tasks.c and the boot of src/main.c.
pub mod Drain
pub mod Loading
pub mod SafeProfile
mod Tests
use space_baremetal_skeleton.Common.{
  ℕ, zero, suc, ◌*◌, ◌++◌, Bool, true, false, not, ◌&&◌, Option, none, some, List, [], ◌∷◌,
  if◌then◌else◌, text, String,
}
use space_baremetal_skeleton.Kernel.{Queue, Board}
use space_baremetal_skeleton.Uart.{c_string, crlf}
use space_baremetal_skeleton.EventLog
use space_baremetal_skeleton.Image.{verify, boot_ok, computed_crc, expected_crc}
use space_baremetal_skeleton.Firmware.{FaultEvent, Firmware, print, say}
use space_baremetal_skeleton.MemoryProtection
use space_baremetal_skeleton.SafePolicy.{
  bit_heartbeat, bit_memscrub, bit_faultinject, allows_heartbeat_uart, allows_auto_fault_inject,
  allows_background_scrub,
}
use space_baremetal_skeleton.FaultInject.{inject_random_fault, fault_inject_init, fault_queue_init}
use space_baremetal_skeleton.MemoryScrub.{fix_event, scrub}
use space_baremetal_skeleton.Watchdog.{kick}
use space_baremetal_skeleton.Command

-- The tasks; DEBUG builds have `telemetry` too.
pub data Task : Type 0 where
  watchdog state_machine heartbeat mem_scrub fault_inject command_input command_handler telemetry :
      Task

-- `task_config_t`; the stack in words, from configMINIMAL_STACK_SIZE.
pub record TaskConfig : Type 0 where
  pub name : String
  pub task : Task
  pub stack_size : ℕ
  pub priority : ℕ

abbrev pub minimal_stack_size : ℕ
minimal_stack_size = 128

abbrev pub task_configs : List TaskConfig
task_configs =
    record { name = "Watchdog"; task = watchdog; stack_size = minimal_stack_size * 2; priority = 4 }
    ∷ record {
      name = "StateMachine";
      task = state_machine;
      stack_size = minimal_stack_size * 2;
      priority = 3;
    }
    ∷ record {
      name = "Heartbeat";
      task = heartbeat;
      stack_size = minimal_stack_size * 2;
      priority = 1;
    }
    ∷ record {
      name = "MemScrub";
      task = mem_scrub;
      stack_size = minimal_stack_size * 3;
      priority = 2;
    }
    ∷ record {
      name = "FaultInject";
      task = fault_inject;
      stack_size = minimal_stack_size * 2;
      priority = 1;
    }
    ∷ record {
      name = "CommandInput";
      task = command_input;
      stack_size = minimal_stack_size * 2;
      priority = 1;
    }
    ∷ record {
      name = "CommandHandler";
      task = command_handler;
      stack_size = minimal_stack_size * 2;
      priority = 2;
    }
    ∷ []

module _ (b : Board) where
  -- One round of `vTaskHeartbeat`.
  unfoldable pub heartbeat_turn : Firmware → Firmware
  heartbeat_turn s =
      kick b bit_heartbeat
        (if allows_heartbeat_uart s.state then say "HEARTBEAT from FreeRTOS task\r\n" s else s)

  -- One round of `vTaskFaultInject`, behind its delay.
  unfoldable pub fault_inject_turn : Firmware → Firmware
  fault_inject_turn s =
      let kicked = kick b bit_faultinject s in
      if allows_auto_fault_inject s.state
      then (if kicked.inject_enabled then inject_random_fault b kicked else kicked)
      else s

  drained : Option (FaultEvent × Queue FaultEvent) → Firmware → Option Firmware
  drained none s = none
  drained (some (event, q)) s =
      some (fix_event b (some event) (record s { fault_queue = some q })).0

  -- One receive of the scrub task: `none` when the queue gives nothing.
  unfoldable pub drain_one : Firmware → Option Firmware
  unfolding drained
  drain_one s = elim s.fault_queue [ none ↦ none | some q ↦ drained (b.receive q) s ]

  -- `while (xQueueReceive(...) == pdPASS)`: the state, and `had_event`. `none`: the fuel ran out.
  unfoldable pub drain : ℕ → Bool → Firmware → Option (Firmware × Bool)
  drain zero had_event s = none
  drain (suc fuel) had_event s = elim (drain_one s) [
    | none ↦ some (s, had_event)
    | some next ↦ drain fuel true next
  ]

  scrub_unless : Firmware × Bool → Firmware
  scrub_unless (s, had_event) =
      if not had_event && allows_background_scrub s.state then scrub b s else s

  scrubbed : Option (Firmware × Bool) → Option Firmware
  unfolding scrub_unless
  scrubbed none = none
  scrubbed (some r) = some (kick b bit_memscrub (scrub_unless r))

  -- One round of `vTaskMemoryScrub`.
  unfoldable pub mem_scrub_turn : ℕ → Firmware → Option Firmware
  unfolding scrubbed
  mem_scrub_turn fuel s = scrubbed (drain fuel false s)

-- How the boot ends: the scheduler has the tasks, or `system_halt` was called.
pub data Boot : Type 0 where
  scheduled : List TaskConfig → Firmware → Boot
  halted : Firmware → Boot

-- `system_halt`
unfoldable pub system_halt : String → Firmware → Boot
system_halt reason s =
    halted (print (crlf ++ (text "[ERROR] System halted: " ++ (text reason ++ crlf))) s)

-- `vApplicationStackOverflowHook`, which FreeRTOS calls with the name of the task; it never returns.
unfoldable pub stack_overflow_hook : List ℕ → Firmware → Boot
stack_overflow_hook name s =
    halted (print (text "[ERROR] STACK OVERFLOW in task: " ++ (c_string name ++ crlf)) s)

-- The loop of `tasks_create_all`; `spawn` says for which entries `xTaskCreate` passes.
unfoldable pub create_tasks :
    (TaskConfig → Bool) → List TaskConfig → List TaskConfig → Firmware → Boot
create_tasks spawn created [] s = scheduled created s
create_tasks spawn created (config ∷ configs) s =
    let rest = create_tasks spawn (created ++ (config ∷ [])) configs s in
    if spawn config then rest else system_halt "xTaskCreate failed" s

unfoldable pub tasks_create_all : (TaskConfig → Bool) → Firmware → Boot
tasks_create_all spawn s = create_tasks spawn [] task_configs (fault_inject_init s)

-- The image that is checked at boot: memory, the patched word and the linker's addresses.
pub record Linked : Type 0 where
  pub memory : ℕ → ℕ
  pub expected : ℕ
  pub image_start : ℕ
  pub slot : ℕ
  pub image_end : ℕ

-- The image check of `main` with its log entry.
unfoldable pub check_image : Linked → Firmware → Firmware
check_image l s =
    let (integrity, told) = verify l.expected l.memory l.image_start l.slot l.image_end in
    let checked = print told (record s { integrity = integrity }) in
    if not (boot_ok integrity)
    then record checked {
      log =
          EventLog.record_image_crc_fail (expected_crc integrity) (computed_crc integrity)
            checked.log;
    }
    else checked

started : Boot → Boot
started (scheduled tasks s) = scheduled tasks (say "Starting FreeRTOS scheduler...\r\n" s)
started (halted s) = halted s

-- `main`, up to `vTaskStartScheduler`.
unfoldable pub main : Board → (TaskConfig → Bool) → Linked → Firmware → Boot
unfolding started
main b spawn l s =
    let (queued, have_queue) = fault_queue_init b s in
    let commanded = Command.init b queued in
    let logged = record commanded { log = EventLog.init commanded.tick commanded.log } in
    let protected =
      MemoryProtection.register_critical_text b (MemoryProtection.init (check_image l logged)) in
    let booted =
      tasks_create_all spawn (say "\r\n=== FreeRTOS Migration Started ===\r\n" protected) in
    if not have_queue then system_halt "fault_queue_init failed" queued else started booted
