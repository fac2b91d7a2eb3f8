-- ===== src/System/Tests.antt =====
-- The theorems on the running system at concrete runs.
use space_baremetal_skeleton.Common.{ℕ, ◌≡◌, ◌⊎◌, inl, refl, true, some, [], ◌∷◌, arith}
use space_baremetal_skeleton.Kernel.{plain_board, plain_board-Laws}
use space_baremetal_skeleton.States.{nominal, safe}
use space_baremetal_skeleton.Firmware.{Firmware}
use space_baremetal_skeleton.MemoryProtection.{region_overlaps}
use space_baremetal_skeleton.MemoryProtection.Access.{all_grant}
use space_baremetal_skeleton.MemoryScrub.{golden_read}
use space_baremetal_skeleton.MemoryScrub.Bytes.{golden_read-lt}
use space_baremetal_skeleton.MemoryScrub.Correct.{length-golden_copy}
use space_baremetal_skeleton.StateMachine
use space_baremetal_skeleton.StateMachine.Transitions.{Transition}
use space_baremetal_skeleton.Tasks.{Linked, fault_inject_turn}
use space_baremetal_skeleton.Samples.{running}
use space_baremetal_skeleton.System.{Step, state_machine, fault_inject, Reach, here, next, power_up}
use space_baremetal_skeleton.System.Invariant.{IsSound}
use space_baremetal_skeleton.System.Safety.{Reach-IsSound, Step-Transition}
use space_baremetal_skeleton.System.Exit.{Exits, Reach-Exits}
use space_baremetal_skeleton.System.Layout.{LinkerLaws}
use space_baremetal_skeleton.System.Operator.{asked_by_operator, noted, turn-typed}
use space_baremetal_skeleton.Firmware.{go_safe}
use space_baremetal_skeleton.Command.{input_turn, handler_turn}
use space_baremetal_skeleton.Command.Typed.{letter}
use space_baremetal_skeleton.StateMachine.Transitions.{Switched}
use space_baremetal_skeleton.Tasks.{mem_scrub_turn}
use space_baremetal_skeleton.System.Repair.{Mended, turns-mend}
use space_baremetal_skeleton.System.Widths.{IsTyped}
use space_baremetal_skeleton.System.Widths.Boot.{power_up-IsTyped}
use space_baremetal_skeleton.System.PowerUp.{IsUp, power_up-IsUp}

plain_board-LinkerLaws : LinkerLaws plain_board
plain_board-LinkerLaws = record {
  critical = omega arith;
  kick_in = omega arith;
  area_in = omega arith;
  apart = inl (omega arith);
}

-- An image of 64 bytes with the slot at its end.
abbrev image : Linked
image = record { memory = λ x. 19; expected = 7; image_start = 256; slot = 316; image_end = 320 }

power_up-IsUp_example :
    (s : Firmware) × (power_up plain_board (λ c. true) image ≡ some s)
    × IsUp plain_board image s
    × ((t : Firmware) → Reach plain_board s t → IsSound plain_board t × (t.violation_count ≡ 0))
power_up-IsUp_example =
    power_up-IsUp plain_board (λ c. true) image (record { capacity = 5; items = [] }) refl
      (λ c. refl) plain_board-LinkerLaws

power_up-IsTyped_example :
    (s : Firmware) × (power_up plain_board (λ c. true) image ≡ some s)
    × ((t : Firmware) → Reach plain_board s t → IsTyped t)
power_up-IsTyped_example =
    power_up-IsTyped plain_board (λ c. true) image (record { capacity = 5; items = [] })
      plain_board-Laws refl (λ c. refl) (λ i. omega arith) (omega arith) (omega arith) (omega arith)
      (omega arith)

running-IsSound : IsSound plain_board running
unfolding all_grant region_overlaps golden_read
running-IsSound = record {
  log = record {
    storage = refl;
    head_in = omega arith;
    count_in = omega arith;
    filling = λ h. refl;
  };
  size = length-golden_copy;
  bytes = λ i. golden_read-lt i;
  seu_counter = omega arith;
  area_access = λ i h. (ground arith, ground arith);
  kick_access = refl;
}

-- The fault injection runs with the injection on, and time passes.
abbrev injecting : Firmware
injecting = record running { inject_enabled = true }

injecting-IsSound : IsSound plain_board injecting
injecting-IsSound = record {
  log = running-IsSound.log;
  size = running-IsSound.size;
  bytes = running-IsSound.bytes;
  seu_counter = running-IsSound.seu_counter;
  area_access = running-IsSound.area_access;
  kick_access = running-IsSound.kick_access;
}

abbrev upset : Firmware
upset = fault_inject_turn plain_board injecting

upset-Reach : Reach plain_board injecting upset
upset-Reach = next here (fault_inject refl)

Reach-IsSound_example : IsSound plain_board upset × (upset.violation_count ≡ 0)
Reach-IsSound_example = Reach-IsSound plain_board injecting upset injecting-IsSound upset-Reach

-- In SAFE, with the watchdog's request of NOMINAL in the queue.
abbrev in_safe : Firmware
in_safe = record injecting {
  state = safe;
  state_queue = some (record {
    capacity = 4;
    items = record { requested_state = nominal; reason_code = 0x03 } ∷ [];
  });
}

in_safe-IsSound : IsSound plain_board in_safe
in_safe-IsSound = record {
  log = running-IsSound.log;
  size = running-IsSound.size;
  bytes = running-IsSound.bytes;
  seu_counter = running-IsSound.seu_counter;
  area_access = running-IsSound.area_access;
  kick_access = running-IsSound.kick_access;
}

abbrev recovered : Firmware
recovered = StateMachine.turn plain_board in_safe

Reach-Exits_example :
    (recovered.state ≡ safe)
    ⊎ ((u : Firmware) × (v : Firmware) × Reach plain_board in_safe u
        × Step plain_board u v
        × Exits u v)
Reach-Exits_example =
    Reach-Exits plain_board in_safe recovered in_safe-IsSound refl (next here (state_machine refl))

Step-Transition_example :
    (recovered.state ≡ safe) ⊎ ((reason : ℕ) × Transition safe reason recovered.state)
Step-Transition_example =
    Step-Transition plain_board in_safe recovered in_safe-IsSound (state_machine refl)

turn-typed_example :
    let t =
      StateMachine.turn plain_board
        (handler_turn plain_board (input_turn plain_board (some (letter go_safe)) running)) in
    let u =
      noted go_safe
        (record { capacity = 8; items = [] })
        (record { capacity = 4; items = [] })
        running in
    (Transition nominal 0x10 safe → Switched (asked_by_operator safe) u t)
    × (¬ Transition nominal 0x10 safe → t ≡ u)
turn-typed_example =
    turn-typed plain_board plain_board-Laws go_safe safe (record { capacity = 8; items = [] })
      (record { capacity = 4; items = [] }) running refl refl refl (omega arith) refl refl
      (omega arith)

turns-mend_example :
    (t : Firmware) × (mem_scrub_turn plain_board 2 (fault_inject_turn plain_board injecting)
      ≡ some t)
    × Mended 5 injecting t
turns-mend_example =
    turns-mend plain_board plain_board-Laws 5 2 injecting injecting-IsSound refl refl refl refl
      (omega arith) (omega arith)
