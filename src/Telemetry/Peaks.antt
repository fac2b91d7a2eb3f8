-- ===== src/Telemetry/Peaks.antt =====
-- What registering and reporting leave in the table of tasks.
use space_baremetal_skeleton.Common.{
  ℕ, zero, suc, ◌+◌, ◌≤◌, ◌<◌, ◌≡◌, refl, ap, sym, ◌∙◌, Option, none, some, List, arith, get_or,
  set, length, length-set, get_or-set_self, get_or-set_ne,
}
use native.Mathlib.Decide.{ℕ_discrete}
use space_baremetal_skeleton.Firmware.{Firmware}
use space_baremetal_skeleton.Telemetry.{
  TaskEntry, Table, Answers, no_task, with_free, task_line, print_task_line, print_stacks_from,
  print_task_stacks, register_task,
}

-- The table has ten slots and its count stays within.
pub record IsTable (t : Table) : Type 0 where
  pub slots : length t.tasks ≡ 10
  pub within : t.task_count ≤ 10

-- Registering keeps the table's invariant; while there is room the new task comes behind the others,
-- which stay, with its whole stack free, and a full table stays as it is.
pub register_task-IsTable :
    (handle : Option ℕ) (name : List ℕ) (allocated : ℕ) (t : Table) (s : Firmware)
    → IsTable t
    → let after = (register_task handle name allocated t s).0 in
      IsTable after
      × (t.task_count < 10
          → (after.task_count ≡ t.task_count + 1)
            × (get_or after.tasks t.task_count no_task ≡ record {
              handle = handle;
              task_name = name;
              allocated_words = allocated;
              min_free_words = allocated;
            })
            × ((i : ℕ)
                → i < t.task_count
                → get_or after.tasks i no_task ≡ get_or t.tasks i no_task))
      × (t.task_count ≡ 10 → after ≡ t)
unfolding register_task
register_task-IsTable handle name allocated t s v =
    let e : TaskEntry = record {
      handle = handle;
      task_name = name;
      allocated_words = allocated;
      min_free_words = allocated;
    } in
    (
      ground (arith, length-set t.tasks t.task_count e),
      λ room. (
        ground arith,
        ground (arith, get_or-set_self t.tasks t.task_count e no_task (omega (arith, v.slots))),
        λ i h. ground (arith, get_or-set_ne t.tasks t.task_count i e no_task (omega arith)),
      ),
      λ full. ground arith,
    )

-- An entry behind one report.
abbrev pub reported : Answers → TaskEntry → TaskEntry
reported k e = elim e.handle [ none ↦ e | some h ↦ with_free (k.stack_high_water_mark h) e ]

print_task_line-reported :
    (k : Answers) (e : TaskEntry) (s : Firmware) → (print_task_line k e s).0 ≡ reported k e
unfolding print_task_line task_line
print_task_line-reported k e s = by_handle e.handle
  where
    by_handle :
        (h : Option ℕ)
        → (task_line k h e s).0
          ≡ elim h [ none ↦ e | some h ↦ with_free (k.stack_high_water_mark h) e ]
    by_handle none = refl
    by_handle (some h) = refl

print_stacks_from-other :
    (k : Answers) (n i j : ℕ) (tasks : List TaskEntry) (s : Firmware)
    → j < i
    → get_or (print_stacks_from k n i tasks s).0 j no_task ≡ get_or tasks j no_task
unfolding print_stacks_from
print_stacks_from-other k zero i j tasks s h = refl
print_stacks_from-other k (suc n) i j tasks s h =
    print_stacks_from-other k n (i + 1) j _ _ (omega arith)
    ∙ get_or-set_ne tasks i j _ no_task (omega arith)

print_stacks_from-reported :
    (k : Answers) (n i j : ℕ) (tasks : List TaskEntry) (s : Firmware)
    → i ≤ j
    → j < i + n
    → i + n ≤ length tasks
    → get_or (print_stacks_from k n i tasks s).0 j no_task ≡ reported k (get_or tasks j no_task)
unfolding print_stacks_from
print_stacks_from-reported k zero i j tasks s lo hi fits = absurd (omega arith)
print_stacks_from-reported k (suc n) i j tasks s lo hi fits =
    let r = print_task_line k (get_or tasks i no_task) s in
    elim (ℕ_discrete i j) [
      | yes at ↦
          print_stacks_from-other k n (i + 1) j (set tasks i r.0) r.1 (omega arith)
          ∙ ap (λ x. get_or (set tasks i r.0) x no_task) (sym at)
          ∙ get_or-set_self tasks i r.0 no_task (omega arith)
          ∙ print_task_line-reported k (get_or tasks i no_task) s
          ∙ ap (λ x. reported k (get_or tasks x no_task)) at
      | no past ↦
          print_stacks_from-reported k n (i + 1) j (set tasks i r.0) r.1 (omega arith) (omega arith)
            (omega (arith, length-set tasks i r.0))
          ∙ ap (reported k) (get_or-set_ne tasks i j r.0 no_task past)
    ]

-- With a valid table, a report sets the least free words of each registered task that has a handle to
-- the lesser of the old value and the one that FreeRTOS answers, and leaves a task without a handle alone.
pub print_task_stacks-reported :
    (k : Answers) (t : Table) (s : Firmware) (j : ℕ)
    → IsTable t
    → j < t.task_count
    → get_or (print_task_stacks k t s).0.tasks j no_task ≡ reported k (get_or t.tasks j no_task)
unfolding print_task_stacks
print_task_stacks-reported k t s j v h =
    print_stacks_from-reported k t.task_count 0 j t.tasks _ (omega arith) (omega arith)
      (omega (arith, v.slots, v.within))
