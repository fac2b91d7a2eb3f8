-- ===== src/System/Loaded.antt =====
-- The boot up to the first state: the statics that each part leaves.
use space_baremetal_skeleton.Common.{
  ℕ, ◌≡◌, refl, ap, sym, ◌∙◌, subst, Bool, true, false, List, ◌∷◌, arith, replicate, set, leb, inl,
  inr, Bool-cases,
}
use space_baremetal_skeleton.Kernel.{Board}
use space_baremetal_skeleton.States.{nominal, degraded}
use space_baremetal_skeleton.EventLog
use space_baremetal_skeleton.EventLog.{
  write_entry, zeroed, record_image_crc_fail, record_state_change, reset,
}
use space_baremetal_skeleton.EventLog.Ring.{IsValid, write_entry-IsValid}
use space_baremetal_skeleton.Image.{verify, boot_ok}
use space_baremetal_skeleton.Firmware.{Firmware, print, say}
use space_baremetal_skeleton.SystemState
use space_baremetal_skeleton.MemoryProtection
use space_baremetal_skeleton.MemoryProtection.{
  no_region, perm_exec, perm_read, perm_write, region_overlaps, protect_region, add_region,
  register_critical_text,
}
use space_baremetal_skeleton.SafePolicy.{on_degraded_enter, set_enabled}
use space_baremetal_skeleton.StateMachine
use space_baremetal_skeleton.FaultInject.{fault_inject_init, fault_queue_init}
use space_baremetal_skeleton.Watchdog
use space_baremetal_skeleton.Command
use space_baremetal_skeleton.Tasks.{Linked, check_image}
use space_baremetal_skeleton.Tasks.Loading.{loaded}
use space_baremetal_skeleton.System.Layout.{LinkerLaws, critical_region}
use space_baremetal_skeleton.System.{power_on}

-- What the image check leaves.
record Checked (l : Linked) (s t : Firmware) : Type 0 where
  log : IsValid s.log → IsValid t.log
  regions : t.regions ≡ s.regions
  integrity : t.integrity ≡ (verify l.expected l.memory l.image_start l.slot l.image_end).0

check_image-Checked : (l : Linked) (s : Firmware) → Checked l s (check_image l s)
unfolding check_image print record_image_crc_fail
check_image-Checked l s =
    elim (Bool-cases (boot_ok (verify l.expected l.memory l.image_start l.slot l.image_end).0)) [
      | inl ok ↦ rw ok (record { log = λ v. v; regions = refl; integrity = refl })
      | inr bad ↦
          rw bad
            (record { log = λ v. write_entry-IsValid s.log _ v; regions = refl; integrity = refl })
    ]

-- The statics at the start of the scheduler.
pub record IsLoaded (b : Board) (l : Linked) (s : Firmware) : Type 0 where
  pub log : IsValid s.log
  pub regions : s.regions ≡ critical_region b ∷ replicate 7 no_region
  pub region_count : s.region_count ≡ 1
  pub violation_count : s.violation_count ≡ 0
  pub integrity : s.integrity ≡ (verify l.expected l.memory l.image_start l.slot l.image_end).0

-- The protection starts with the critical text.
protected-IsLoaded :
    (b : Board) (l : Linked) (s : Firmware)
    → LinkerLaws b
    → IsValid s.log
    → s.regions ≡ replicate 8 no_region
    → s.integrity ≡ (verify l.expected l.memory l.image_start l.slot l.image_end).0
    → IsLoaded b l (register_critical_text b (MemoryProtection.init s))
unfolding register_critical_text MemoryProtection.init protect_region add_region print say
protected-IsLoaded b l s laws v r i =
    let holds : leb b.critical_end b.critical_start ≡ false = ground (arith, laws.critical) in
    rw holds (record {
      log = v;
      regions = ap (λ rs. set rs 0 (critical_region b)) r;
      region_count = refl;
      violation_count = refl;
      integrity = i;
    })

printed-IsLoaded :
    (b : Board) (l : Linked) (s : Firmware) (bytes : List ℕ)
    → IsLoaded b l s
    → IsLoaded b l (print bytes s)
unfolding print
printed-IsLoaded b l s bytes i = record {
  log = i.log;
  regions = i.regions;
  region_count = i.region_count;
  violation_count = i.violation_count;
  integrity = i.integrity;
}

zeroed-IsValid : (now : ℕ) → IsValid (EventLog.init now zeroed)
unfolding EventLog.init
zeroed-IsValid now = omega arith

-- The statics before the image check.
pub record IsFresh (s : Firmware) : Type 0 where
  pub log : s.log ≡ zeroed
  pub regions : s.regions ≡ replicate 8 no_region

pub power_on-IsFresh : IsFresh power_on
unfolding power_on
power_on-IsFresh = record { log = refl; regions = refl }

created-IsFresh :
    (b : Board) (s : Firmware) → IsFresh s → IsFresh (Command.init b (fault_queue_init b s).0)
unfolding Command.init fault_queue_init
created-IsFresh b s f = record { log = f.log; regions = f.regions }

pub loaded-IsLoaded :
    (b : Board) (l : Linked) (s : Firmware) → LinkerLaws b → IsFresh s → IsLoaded b l (loaded b l s)
unfolding loaded fault_inject_init say
loaded-IsLoaded b l s laws f = printed-IsLoaded b l _ _ (
    printed-IsLoaded b l _ _ (
      printed-IsLoaded b l _ _ (
        protected-IsLoaded b l _ laws (checked.log logged_valid) (checked.regions ∙ fresh.regions)
          checked.integrity)))
  where
    commanded : Firmware
    commanded = Command.init b (fault_queue_init b s).0

    fresh : IsFresh commanded
    fresh = created-IsFresh b s f

    logged : Firmware
    logged = record commanded { log = EventLog.init commanded.tick commanded.log }

    logged_valid : IsValid logged.log
    logged_valid =
        subst (λ log. IsValid (EventLog.init commanded.tick log)) (sym fresh.log)
          (zeroed-IsValid commanded.tick)

    checked : Checked l logged (check_image l logged)
    checked = check_image-Checked l logged

-- What the first state is, by the image check.
pub record IsStarted (b : Board) (l : Linked) (s : Firmware) : Type 0 where
  pub log : IsValid s.log
  pub regions : s.regions ≡ critical_region b ∷ replicate 7 no_region
  pub region_count : s.region_count ≡ 1
  pub violation_count : s.violation_count ≡ 0
  pub accepted :
      boot_ok (verify l.expected l.memory l.image_start l.slot l.image_end).0 ≡ true
      → s.state ≡ nominal
  pub rejected :
      boot_ok (verify l.expected l.memory l.image_start l.slot l.image_end).0 ≡ false
      → (s.state ≡ degraded) × (s.inject_enabled ≡ false)

pub startup-IsStarted :
    (b : Board) (l : Linked) (s : Firmware)
    → IsLoaded b l s
    → IsStarted b l (StateMachine.startup b (Watchdog.startup s))
unfolding StateMachine.startup Watchdog.startup SystemState.init print say on_degraded_enter
    set_enabled record_state_change
startup-IsStarted b l s i = elim (Bool-cases (boot_ok s.integrity)) [
  | inl ok ↦ rw ok (record {
    log = write_entry-IsValid s.log _ i.log;
    regions = i.regions;
    region_count = i.region_count;
    violation_count = i.violation_count;
    accepted = λ e. refl;
    rejected = λ e. absurd (differ ok (ap boot_ok i.integrity ∙ e));
  })
  | inr bad ↦ rw bad (record {
    log = write_entry-IsValid s.log _ i.log;
    regions = i.regions;
    region_count = i.region_count;
    violation_count = i.violation_count;
    accepted = λ e. absurd (differ (ap boot_ok i.integrity ∙ e) bad);
    rejected = λ e. (refl, refl);
  })
]
  where
    differ : {p : Bool} → p ≡ true → p ≡ false → ⊥
    differ e f = cc
