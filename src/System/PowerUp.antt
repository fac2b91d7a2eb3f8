-- ===== src/System/PowerUp.antt =====
-- The boot leaves a sound firmware in the state that the image check calls for.
use space_baremetal_skeleton.Common.{
  ℕ, ◌≡◌, refl, ap, ◌∙◌, Bool, true, false, some, List, ◌∷◌, arith, replicate, set, leb,
}
use space_baremetal_skeleton.Kernel.{Board, Queue}
use space_baremetal_skeleton.States.{nominal, degraded}
use space_baremetal_skeleton.EventLog.Ring.{IsValid}
use space_baremetal_skeleton.Image.{verify, boot_ok}
use space_baremetal_skeleton.Firmware.{FaultEvent, Firmware, print, say}
use space_baremetal_skeleton.MemoryProtection.{no_region, protect_region, add_region}
use space_baremetal_skeleton.StateMachine
use space_baremetal_skeleton.MemoryScrub
use space_baremetal_skeleton.MemoryScrub.{golden_copy, golden_read, address_of}
use space_baremetal_skeleton.MemoryScrub.Bytes.{golden_read-lt}
use space_baremetal_skeleton.MemoryScrub.Correct.{length-golden_copy}
use space_baremetal_skeleton.Watchdog
use space_baremetal_skeleton.Command
use space_baremetal_skeleton.Tasks.{TaskConfig, Linked}
use space_baremetal_skeleton.Tasks.Loading.{loaded, main-scheduled}
use space_baremetal_skeleton.System.Loaded.{
  IsLoaded, power_on-IsFresh, loaded-IsLoaded, startup-IsStarted,
}
use space_baremetal_skeleton.System.Layout.{
  LinkerLaws, critical_region, scrub_region, table, table-area, table-kick,
}
use space_baremetal_skeleton.System.Safety.{Reach-IsSound}
use space_baremetal_skeleton.System.{Reach, power_on, start_tasks, power_up}
use space_baremetal_skeleton.System.Invariant.{IsSound, IsSound-Frame}
use space_baremetal_skeleton.System.Frame.{Quiet-Frame, print-Quiet}

-- The start of the scrub task registers its area and fills it.
record Registered (b : Board) (s t : Firmware) : Type 0 where
  log : t.log ≡ s.log
  regions : t.regions ≡ set s.regions 1 (scrub_region b)
  region_count : t.region_count ≡ 2
  violation_count : t.violation_count ≡ s.violation_count
  area : t.area ≡ golden_copy
  seu_counter : t.seu_counter ≡ 0
  state : t.state ≡ s.state
  inject_enabled : t.inject_enabled ≡ s.inject_enabled

init-Registered :
    (b : Board) (s : Firmware) → s.region_count ≡ 1 → Registered b s (MemoryScrub.init b s)
unfolding MemoryScrub.init protect_region add_region print say
init-Registered b s n =
    let room : leb 8 s.region_count ≡ false = ground (arith, n) in
    rw room (record {
      log = refl;
      regions = ap (λ k. set s.regions k (scrub_region b)) n;
      region_count = omega (arith, n);
      violation_count = refl;
      area = refl;
      seu_counter = refl;
      state = refl;
      inject_enabled = refl;
    })

Registered-IsSound :
    (b : Board) (s t : Firmware)
    → LinkerLaws b
    → IsValid s.log
    → s.regions ≡ critical_region b ∷ replicate 7 no_region
    → Registered b s t
    → IsSound b t
unfolding golden_read
Registered-IsSound b s t laws v r w =
    let filled : t.regions ≡ table b = w.regions ∙ ap (λ rs. set rs 1 (scrub_region b)) r in
    record {
      log = rw w.log v;
      size = rw w.area length-golden_copy;
      bytes = λ i. rw w.area (golden_read-lt i);
      seu_counter = omega (arith, w.seu_counter);
      area_access = λ i h. rw (filled, w.region_count) (table-area b i laws h);
      kick_access = rw (filled, w.region_count) (table-kick b laws);
    }

-- What the boot leaves, for an image that the check accepts or rejects.
pub record IsUp (b : Board) (l : Linked) (s : Firmware) : Type 0 where
  pub sound : IsSound b s
  pub violation_count : s.violation_count ≡ 0
  pub accepted :
      boot_ok (verify l.expected l.memory l.image_start l.slot l.image_end).0 ≡ true
      → s.state ≡ nominal
  pub rejected :
      boot_ok (verify l.expected l.memory l.image_start l.slot l.image_end).0 ≡ false
      → (s.state ≡ degraded) × (s.inject_enabled ≡ false)

print_enabled : (bytes : List ℕ) (s : Firmware) → (print bytes s).inject_enabled ≡ s.inject_enabled
unfolding print
print_enabled bytes s = refl

printed-IsUp :
    (b : Board) (l : Linked) (s : Firmware) (bytes : List ℕ) → IsUp b l s → IsUp b l (print bytes s)
printed-IsUp b l s bytes i =
    let q = print-Quiet bytes s in
    record {
      sound = IsSound-Frame b (Quiet-Frame q) i.sound;
      violation_count = q.violation_count ∙ i.violation_count;
      accepted = λ e. q.state ∙ i.accepted e;
      rejected = λ e. (q.state ∙ (i.rejected e).0, print_enabled bytes s ∙ (i.rejected e).1);
    }

start_tasks-IsUp :
    (b : Board) (l : Linked) (s : Firmware)
    → LinkerLaws b
    → IsLoaded b l s
    → IsUp b l (start_tasks b s)
unfolding start_tasks Command.input_startup say
start_tasks-IsUp b l s laws i =
    let begun = startup-IsStarted b l s i in
    let u = StateMachine.startup b (Watchdog.startup s) in
    let w = init-Registered b u begun.region_count in
    printed-IsUp b l _ _ (record {
      sound = Registered-IsSound b u _ laws begun.log begun.regions w;
      violation_count = w.violation_count ∙ begun.violation_count;
      accepted = λ e. w.state ∙ begun.accepted e;
      rejected = λ e. (w.state ∙ (begun.rejected e).0, w.inject_enabled ∙ (begun.rejected e).1);
    })

-- When the queue of fault events and the tasks are created and the linker's addresses meet the
-- layout's laws, the power-up ends: it leaves a sound firmware without a violation, in NOMINAL when
-- the image check accepts, and in DEGRADED with automatic injection off when it rejects; and every
-- firmware that any order of the tasks' rounds reaches from there is sound, with no violation
-- counted.
pub power_up-IsUp :
    (b : Board) (spawn : TaskConfig → Bool) (l : Linked) (q : Queue FaultEvent)
    → b.create FaultEvent 5 ≡ some q
    → ((config : TaskConfig) → spawn config ≡ true)
    → LinkerLaws b
    → (s : Firmware) × (power_up b spawn l ≡ some s)
      × IsUp b l s
      × ((t : Firmware) → Reach b s t → IsSound b t × (t.violation_count ≡ 0))
unfolding power_up
power_up-IsUp b spawn l q made h laws =
    let loaded_state = loaded b l power_on in
    let up : IsUp b l (start_tasks b loaded_state) =
      start_tasks-IsUp b l loaded_state laws (loaded-IsLoaded b l power_on laws power_on-IsFresh) in
    (
      start_tasks b loaded_state,
      rw (main-scheduled b spawn l power_on q made h),
      up,
      λ t r.
          let after = Reach-IsSound b (start_tasks b loaded_state) t up.sound r in
          (after.0, after.1 ∙ up.violation_count),
    )
