-- ===== src/Debug/Tests.antt =====
-- The creation of the tasks of a DEBUG build, with the priorities for handles.
use space_baremetal_skeleton.Common.{◌≡◌, refl, false, some, [], replicate}
use space_baremetal_skeleton.Samples.{running}
use space_baremetal_skeleton.Telemetry.{asserts, Answers, no_task}
use space_baremetal_skeleton.Debug.{Statics, asserted, tasks_create_all}
use space_baremetal_skeleton.Debug.Boot.{all_created, tasks_create_all-asserts}

abbrev fresh : Statics
fresh = record {
  firmware = running;
  table = record { tasks = replicate 10 no_task; task_count = 0; kernel_registered = false };
  guard = record { words = []; high_water_mark = 0; out = [] };
}

-- Before the scheduler has started.
abbrev early : Answers
early = record {
  stack_high_water_mark = λ h. 100;
  idle_handle = asserts;
  timer_handle = asserts;
  free_heap = 4096;
  minimum_ever_free_heap = 4096;
}

tasks_create_all-asserts_example : tasks_create_all early (λ c. some (c.priority)) fresh ≡ asserted
unfolding all_created
tasks_create_all-asserts_example =
    tasks_create_all-asserts early (λ c. some (c.priority)) fresh refl refl
