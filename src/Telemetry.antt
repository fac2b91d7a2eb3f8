-- ===== src/Telemetry.antt =====
-- src/telemetry.c (DEBUG builds): the table of tasks whose stacks are reported, and the snapshot.
pub mod Peaks
mod Tests
use space_baremetal_skeleton.Common.{
  ℕ, zero, suc, ◌+◌, ◌-◌, ◌/◌, Bool, true, false, Option, none, some, List, [], ◌∷◌, ◌++◌, ltb, leb,
  if◌then◌else◌, get_or, set, text,
}
use space_baremetal_skeleton.Common.Words.{u32}
use space_baremetal_skeleton.Uart.{crlf}
use space_baremetal_skeleton.EventLog.{dec}
use space_baremetal_skeleton.Firmware.{Firmware, print, say}
use space_baremetal_skeleton.MemoryProtection.{get_violation_count, get_region_count}
use space_baremetal_skeleton.StackGuard.{Guard, guard_check, get_hwm_bytes}

abbrev pub max_tasks : ℕ
max_tasks = 10

-- `telemetry_task_entry_t`; a null handle is `none`.
pub record TaskEntry : Type 0 where
  pub handle : Option ℕ
  pub task_name : List ℕ
  pub allocated_words : ℕ
  pub min_free_words : ℕ

abbrev pub no_task : TaskEntry
no_task = record { handle = none; task_name = []; allocated_words = 0; min_free_words = 0 }

-- `task_entries`, `task_entry_count` and `kernel_tasks_registered`.
pub record Table : Type 0 where
  pub tasks : List TaskEntry
  pub task_count : ℕ
  pub kernel_registered : Bool

-- What asking FreeRTOS for a task of its own does: its assertion that the task exists fails, which with the
-- `configASSERT` of FreeRTOSConfig.h never returns; or it gives a handle, null or not.
pub data Asked : Type 0 where
  asserts : Asked
  null_handle : Asked
  task : ℕ → Asked

-- What FreeRTOS answers: the free words of a task's stack, its own tasks, and the heap.
pub record Answers : Type 0 where
  pub stack_high_water_mark : ℕ → ℕ
  pub idle_handle : Asked
  pub timer_handle : Asked
  pub free_heap : ℕ
  pub minimum_ever_free_heap : ℕ

unfoldable pub print_uptime : Firmware → Firmware
print_uptime s = print (text "[TELEMETRY] uptime_s=" ++ (dec (u32 (s.tick / 1000)) ++ crlf)) s

unfoldable pub print_heap : Answers → Firmware → Firmware
print_heap k s =
    print
      (text "[TELEMETRY] heap: free="
        ++ (dec (u32 k.free_heap)
            ++ (text " min_ever=" ++ (dec (u32 k.minimum_ever_free_heap) ++ crlf))))
      s

unfoldable pub print_memory_protection : Firmware → Firmware
print_memory_protection s =
    print
      (text "[TELEMETRY] mem_prot: violations="
        ++ (dec (get_violation_count s)
            ++ (text " regions=" ++ (dec (get_region_count s) ++ crlf))))
      s

unfoldable pub print_isr_stack : Guard → Firmware → Guard × Firmware
print_isr_stack g s =
    let (checked, corrupt) = guard_check g in
    (
      checked,
      print
          (text "[TELEMETRY] isr_stack: "
            ++ ((if corrupt then text "CORRUPT" else text "ok")
                ++ (text " hwm_bytes=" ++ (dec (get_hwm_bytes checked) ++ crlf))))
          s,
    )

-- The update of `print_task_line` for a task with so many free words.
unfoldable pub with_free : ℕ → TaskEntry → TaskEntry
with_free free e = if ltb free e.min_free_words then record e { min_free_words = free } else e

line_of : ℕ → TaskEntry → Firmware → Firmware
line_of free e s =
    print
      (text "[TELEMETRY]   "
        ++ (e.task_name
            ++ (text ": alloc="
                ++ (dec (u32 e.allocated_words)
                    ++ (text " free="
                        ++ (dec (u32 free)
                            ++ (text " peak="
                                ++ (dec
                                      (u32 (e.allocated_words + 4294967296 - u32 e.min_free_words))
                                    ++ crlf))))))))
      s

task_line : Answers → Option ℕ → TaskEntry → Firmware → TaskEntry × Firmware
unfolding line_of
task_line k none e s = (e, s)
task_line k (some h) e s =
    let free = k.stack_high_water_mark h in
    let after = with_free free e in (after, line_of free after s)

unfoldable pub print_task_line : Answers → TaskEntry → Firmware → TaskEntry × Firmware
unfolding task_line
print_task_line k e s = task_line k e.handle e s

-- The loop of `print_task_stacks`, `n` entries from index `i` on.
unfoldable pub print_stacks_from :
    Answers → ℕ → ℕ → List TaskEntry → Firmware → List TaskEntry × Firmware
print_stacks_from k zero i tasks s = (tasks, s)
print_stacks_from k (suc n) i tasks s =
    let (after, told) = print_task_line k (get_or tasks i no_task) s in
    print_stacks_from k n (i + 1) (set tasks i after) told

unfoldable pub print_task_stacks : Answers → Table → Firmware → Table × Firmware
print_task_stacks k t s =
    let (tasks, told) =
      print_stacks_from k t.task_count 0 t.tasks
        (say "[TELEMETRY] task stacks HWM (words):\r\n" s) in
    (record t { tasks = tasks }, told)

-- `telemetry_register_task`
unfoldable pub register_task : Option ℕ → List ℕ → ℕ → Table → Firmware → Table × Firmware
register_task handle name allocated t s =
    if leb max_tasks t.task_count then (t, say "[ERROR] telemetry task table full\r\n" s) else (
      record t {
        tasks = set t.tasks t.task_count (record {
          handle = handle;
          task_name = name;
          allocated_words = allocated;
          min_free_words = allocated;
        });
        task_count = t.task_count + 1;
      },
      s,
    )

-- The registering of one of FreeRTOS's own tasks; `none`: asking for it does not return.
unfoldable pub register_asked : Asked → List ℕ → Table × Firmware → Option (Table × Firmware)
register_asked asserts name r = none
register_asked null_handle name r = some r
register_asked (task h) name (t, s) = some (register_task (some h) name 128 t s)

flagged : Option (Table × Firmware) → Option (Table × Firmware)
flagged none = none
flagged (some (t, s)) = some (record t { kernel_registered = true }, s)

-- `telemetry_register_kernel_tasks`; both stack depths are configMINIMAL_STACK_SIZE. `none`: it does not return.
unfoldable pub register_kernel_tasks : Answers → Table → Firmware → Option (Table × Firmware)
unfolding flagged
register_kernel_tasks k t s =
    let both : Option (Table × Firmware) =
      elim (register_asked k.idle_handle (text "Idle") (t, s)) [
        | none ↦ none
        | some r ↦ register_asked k.timer_handle (text "TmrSvc") r
      ] in
    if t.kernel_registered then some (t, s) else flagged both

-- `telemetry_print_snapshot`
unfoldable pub print_snapshot : Answers → Table → Guard → Firmware → Table × Guard × Firmware
print_snapshot k t g s =
    let counted =
      print_memory_protection
        (print_heap k (print_uptime (say "[TELEMETRY] === snapshot ===\r\n" s))) in
    let (guard, checked) = print_isr_stack g counted in
    let (table, told) = print_task_stacks k t checked in
    (table, guard, say "[TELEMETRY] ================\r\n" told)
