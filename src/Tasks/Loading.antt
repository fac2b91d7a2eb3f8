-- ===== src/Tasks/Loading.antt =====
-- The boot up to the scheduler, when no creation fails.
use space_baremetal_skeleton.Common.{sym, ◌≡◌, ◌∙◌, ap, Bool, true, some, List, [], ◌∷◌, ◌++◌}
use mathlib.Core.List.{append_assoc, append-nil}
use space_baremetal_skeleton.Kernel.{Queue, Board}
use space_baremetal_skeleton.EventLog
use space_baremetal_skeleton.Firmware.{FaultEvent, Firmware, say}
use space_baremetal_skeleton.MemoryProtection
use space_baremetal_skeleton.FaultInject.{fault_inject_init, fault_queue_init}
use space_baremetal_skeleton.Command
use space_baremetal_skeleton.Tasks.{
  TaskConfig, task_configs, scheduled, create_tasks, tasks_create_all, Linked, check_image, main,
}

create_tasks-scheduled :
    (spawn : TaskConfig → Bool) (created configs : List TaskConfig) (s : Firmware)
    → ((config : TaskConfig) → spawn config ≡ true)
    → create_tasks spawn created configs s ≡ scheduled (created ++ configs) s
unfolding create_tasks
create_tasks-scheduled spawn created [] s h = ap (λ l. scheduled l s) (sym (append-nil created))
create_tasks-scheduled spawn created (c ∷ cs) s h = rw (h c) (
    create_tasks-scheduled spawn (created ++ (c ∷ [])) cs s h
    ∙ ap (λ l. scheduled l s) (append_assoc created (c ∷ []) cs))

-- The firmware that the scheduler starts with.
unfoldable pub loaded : Board → Linked → Firmware → Firmware
loaded b l s =
    let commanded = Command.init b (fault_queue_init b s).0 in
    let logged = record commanded { log = EventLog.init commanded.tick commanded.log } in
    let checked = check_image l logged in
    let protected = MemoryProtection.register_critical_text b (MemoryProtection.init checked) in
    say "Starting FreeRTOS scheduler...\r\n"
      (fault_inject_init (say "\r\n=== FreeRTOS Migration Started ===\r\n" protected))

-- When the queue of events and every task are created, the scheduler is started with all the tasks.
pub main-scheduled :
    (b : Board) (spawn : TaskConfig → Bool) (l : Linked) (s : Firmware) (q : Queue FaultEvent)
    → b.create FaultEvent 5 ≡ some q
    → ((config : TaskConfig) → spawn config ≡ true)
    → main b spawn l s ≡ scheduled task_configs (loaded b l s)
unfolding main loaded tasks_create_all fault_queue_init
main-scheduled b spawn l s q made h = rw (made, create_tasks-scheduled spawn [] task_configs _ h)
