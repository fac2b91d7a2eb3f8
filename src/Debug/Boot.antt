-- ===== src/Debug/Boot.antt =====
-- The creation of the tasks in a DEBUG build, which asks FreeRTOS for its own tasks before they exist.
use space_baremetal_skeleton.Common.{
  ℕ, ◌≡◌, refl, ◌∙◌, Bool, true, false, Option, none, some, List, [], ◌∷◌, if◌then◌else◌,
  Bool-cases, inl, inr, leb,
}
use space_baremetal_skeleton.Firmware.{Firmware}
use space_baremetal_skeleton.Telemetry.{
  Table, asserts, Answers, register_asked, register_task, register_kernel_tasks,
}
use space_baremetal_skeleton.Tasks.{TaskConfig}
use space_baremetal_skeleton.Debug.{
  Statics, Creation, halted, asserted, debug_configs, task_config_reports_telemetry, created_task,
  create_tasks, with_kernel_tasks, tasks_create_all,
}

-- Whether every creation of a list gives a handle.
unfoldable pub all_created : (TaskConfig → Option ℕ) → List TaskConfig → Bool
all_created spawn [] = true
all_created spawn (config ∷ configs) = elim (spawn config) [
  | none ↦ false
  | some handle ↦ all_created spawn configs
]

-- Registering a task of the application leaves the flag as it was.
created_task-flag :
    (config : TaskConfig) (handle : ℕ) (d : Statics)
    → (created_task config handle d).table.kernel_registered ≡ d.table.kernel_registered
unfolding created_task register_task
created_task-flag config handle d = elim (Bool-cases (task_config_reports_telemetry config)) [
  | inl reported ↦ elim (Bool-cases (leb 10 d.table.task_count)) [
    | inl full ↦ rw (reported, full) refl
    | inr room ↦ rw (reported, room) refl
  ]
  | inr hidden ↦ rw hidden refl
]

register_kernel_tasks-asserts :
    (k : Answers) (t : Table) (s : Firmware)
    → k.idle_handle ≡ asserts
    → t.kernel_registered ≡ false
    → register_kernel_tasks k t s ≡ none
unfolding register_kernel_tasks register_asked
register_kernel_tasks-asserts k t s no_idle down = rw (no_idle, down) refl

create_tasks-asserts :
    (k : Answers) (spawn : TaskConfig → Option ℕ) (configs : List TaskConfig) (d : Statics)
    → k.idle_handle ≡ asserts
    → d.table.kernel_registered ≡ false
    → with_kernel_tasks k (create_tasks spawn configs d)
      ≡ (if all_created spawn configs then asserted else halted)
unfolding with_kernel_tasks create_tasks all_created
create_tasks-asserts k spawn [] d no_idle down =
    rw (register_kernel_tasks-asserts k d.table d.firmware no_idle down) refl
create_tasks-asserts k spawn (config ∷ configs) d no_idle down = by_handle (spawn config) (λ handle.
    create_tasks-asserts k spawn configs (created_task config handle d) no_idle
      (created_task-flag config handle d ∙ down))
  where
    by_handle :
        (o : Option ℕ)
        → ((handle : ℕ)
            → with_kernel_tasks k (create_tasks spawn configs (created_task config handle d))
              ≡ (if all_created spawn configs then asserted else halted))
        → (let r : Creation = elim o [
          | none ↦ halted
          | some handle ↦ create_tasks spawn configs (created_task config handle d)
        ] in
            let all : Bool = elim o [ none ↦ false | some handle ↦ all_created spawn configs ] in
            with_kernel_tasks k r ≡ (if all then asserted else halted))
    by_handle none rest = refl
    by_handle (some handle) rest = rest handle

-- When asking FreeRTOS for the idle task's handle fails its assertion, as it does before the
-- scheduler has started, and the flag is down, the creation of a DEBUG build never returns: it
-- halts when one of the creations gives no handle, and otherwise stops in the assertion.
pub tasks_create_all-asserts :
    (k : Answers) (spawn : TaskConfig → Option ℕ) (d : Statics)
    → k.idle_handle ≡ asserts
    → d.table.kernel_registered ≡ false
    → tasks_create_all k spawn d ≡ (if all_created spawn debug_configs then asserted else halted)
unfolding tasks_create_all
tasks_create_all-asserts k spawn d no_idle down =
    create_tasks-asserts k spawn debug_configs _ no_idle down
