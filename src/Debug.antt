-- ===== src/Debug.antt =====
-- What DEBUG builds add to src/tasks.c and src/command.c: the guard of the interrupt stack, the telemetry task
-- and the table of tasks that it reports.
pub mod Boot
mod Tests
use space_baremetal_skeleton.Common.{
  ℕ, ◌*◌, ◌==◌, Bool, true, false, not, ◌&&◌, Option, none, some, List, [], ◌∷◌, ◌++◌,
  if◌then◌else◌, text,
}
use space_baremetal_skeleton.Kernel.{Board}
use space_baremetal_skeleton.Firmware.{Command, status, Firmware}
use space_baremetal_skeleton.FaultInject.{fault_inject_init}
use space_baremetal_skeleton.StackGuard.{Guard, guard_init}
use space_baremetal_skeleton.Command.{handle}
use space_baremetal_skeleton.Telemetry.{
  Table, Answers, register_task, register_kernel_tasks, print_snapshot,
}
use space_baremetal_skeleton.Tasks
use space_baremetal_skeleton.Tasks.{TaskConfig, task_configs, minimal_stack_size}

-- The statics of a DEBUG build.
pub record Statics : Type 0 where
  pub firmware : Firmware
  pub table : Table
  pub guard : Guard

-- `strcmp(...) == 0`, on the bytes of two strings.
unfoldable pub same_text : List ℕ → List ℕ → Bool
same_text [] [] = true
same_text [] (d ∷ ds) = false
same_text (c ∷ cs) [] = false
same_text (c ∷ cs) (d ∷ ds) = c == d && same_text cs ds

-- `task_config_reports_telemetry`
unfoldable pub task_config_reports_telemetry : TaskConfig → Bool
task_config_reports_telemetry config =
    not (same_text (text config.name) (text "StateMachine"))
    && (not (same_text (text config.name) (text "CommandInput"))
        && not (same_text (text config.name) (text "CommandHandler")))

abbrev pub debug_configs : List TaskConfig
debug_configs =
    task_configs
    ++ (record {
      name = "Telemetry";
      task = Tasks.telemetry;
      stack_size = minimal_stack_size * 2;
      priority = 1;
    }
        ∷ [])

-- Registering goes to the table, and prints.
registered : Table × Firmware → Statics → Statics
registered (table, firmware) d = record d { table = table; firmware = firmware }

-- `create_task` behind a creation that gave the handle.
unfoldable pub created_task : TaskConfig → ℕ → Statics → Statics
unfolding registered
created_task config handle d =
    if task_config_reports_telemetry config
    then registered
        (register_task (some handle) (text config.name) config.stack_size d.table d.firmware) d
    else d

-- How the creation of the tasks ends: with the statics; where `xTaskCreate` fails and the system halts; or
-- where an assertion of FreeRTOS does not return.
pub data Creation : Type 0 where
  created : Statics → Creation
  halted : Creation
  asserted : Creation

-- The loop of `tasks_create_all`; `spawn` gives the handles, and `none` where `xTaskCreate` fails.
unfoldable pub create_tasks : (TaskConfig → Option ℕ) → List TaskConfig → Statics → Creation
create_tasks spawn [] d = created d
create_tasks spawn (config ∷ configs) d = elim (spawn config) [
  | none ↦ halted
  | some handle ↦ create_tasks spawn configs (created_task config handle d)
]

-- The registering of FreeRTOS's own tasks; `none`: it does not return.
with_registered : Option (Table × Firmware) → Statics → Option Statics
unfolding registered
with_registered none d = none
with_registered (some r) d = some (registered r d)

or_asserted : Option Statics → Creation
or_asserted none = asserted
or_asserted (some d) = created d

with_kernel_tasks : Answers → Creation → Creation
unfolding or_asserted with_registered
with_kernel_tasks k (created d) =
    or_asserted (with_registered (register_kernel_tasks k d.table d.firmware) d)
with_kernel_tasks k halted = halted
with_kernel_tasks k asserted = asserted

-- `tasks_create_all`, with what FreeRTOS does then when it is asked for its own tasks.
unfoldable pub tasks_create_all : Answers → (TaskConfig → Option ℕ) → Statics → Creation
unfolding with_kernel_tasks
tasks_create_all k spawn d = with_kernel_tasks k (
    create_tasks spawn debug_configs
      (record d { guard = guard_init d.guard; firmware = fault_inject_init d.firmware }))

-- The start of `vTaskTelemetry`; `none`: it does not return.
unfoldable pub telemetry_startup : Answers → Statics → Option Statics
unfolding with_registered
telemetry_startup k d = with_registered (register_kernel_tasks k d.table d.firmware) d

snapped : Table × Guard × Firmware → Statics → Statics
snapped (table, guard, firmware) d = record { table = table; guard = guard; firmware = firmware }

-- One round of `vTaskTelemetry`.
unfoldable pub telemetry_turn : Answers → Statics → Statics
unfolding snapped
telemetry_turn k d = snapped (print_snapshot k d.table d.guard d.firmware) d

-- `command_handle`, with DEBUG.
unfoldable pub handle_debug : Board → Answers → Command → Statics → Statics
unfolding telemetry_turn
handle_debug b k status d = telemetry_turn k d
handle_debug b k cmd d = record d { firmware = handle b cmd d.firmware }
