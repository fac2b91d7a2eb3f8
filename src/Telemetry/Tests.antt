-- ===== src/Telemetry/Tests.antt =====
-- The table of tasks with one task.
use space_baremetal_skeleton.Common.{refl, false, some, ◌∷◌, replicate, codes, arith}
use space_baremetal_skeleton.Telemetry.{TaskEntry, Table, asserts, Answers, no_task}
use space_baremetal_skeleton.Telemetry.Peaks.{IsTable}

abbrev watchdog_entry : TaskEntry
watchdog_entry = record {
  handle = some 1;
  task_name = codes "Watchdog";
  allocated_words = 256;
  min_free_words = 200;
}

abbrev one_task : Table
one_task = record {
  tasks = watchdog_entry ∷ replicate 9 no_task;
  task_count = 1;
  kernel_registered = false;
}

abbrev answers : Answers
answers = record {
  stack_high_water_mark = λ h. 180;
  idle_handle = asserts;
  timer_handle = asserts;
  free_heap = 4096;
  minimum_ever_free_heap = 4000;
}

one_task-IsTable : IsTable one_task
one_task-IsTable = record { slots = refl; within = omega arith }
