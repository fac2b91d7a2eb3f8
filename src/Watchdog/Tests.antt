-- ===== src/Watchdog/Tests.antt =====
-- The theorems on the watchdog at concrete runs.
use space_baremetal_skeleton.Common.{
  ℕ, zero, suc, ◌+◌, ◌<◌, ◌≡◌, ◌⊎◌, refl, false, some, inl, inr, true, List, [], ◌∷◌, arith,
}
use space_baremetal_skeleton.Common.Bits.{digit, digit-zero}
use space_baremetal_skeleton.Kernel.{plain_board, plain_board-Laws}
use space_baremetal_skeleton.States.{nominal, degraded}
use space_baremetal_skeleton.Firmware.{Firmware}
use space_baremetal_skeleton.Samples.{running}
use space_baremetal_skeleton.SystemState.{request_change}
use space_baremetal_skeleton.Watchdog.{Others, cycle}
use space_baremetal_skeleton.Watchdog.Bits.{AllSet}
use space_baremetal_skeleton.Watchdog.Cycle.{LeavesClear, Missed, collected}
use space_baremetal_skeleton.Watchdog.Ends.{cycle-detects}
use space_baremetal_skeleton.Watchdog.Idle.{idle, length-idle, idle-All, idle-Passes}
use space_baremetal_skeleton.Watchdog.Stale.{cycle-stale}
use space_baremetal_skeleton.Watchdog.Alive.{Kick, effects, Kicked, NotAlarmed, cycle-alive}
use space_baremetal_skeleton.Watchdog.{covers, waited}
use space_baremetal_skeleton.SafePolicy.{watchdog_expected_bits}

-- The scrub task has stalled, as all the others.
cycle-detects_example :
    (t : Firmware) × (c : ℕ) × (cycle plain_board (idle 3500) 0 running ≡ some (t, c))
    × Missed plain_board nominal degraded (collected plain_board (idle 3500) running) t
cycle-detects_example =
    cycle-detects plain_board plain_board-Laws 1 0 (idle 3500) running degraded (omega arith) refl
      (digit-zero 1) (idle-All (LeavesClear 1) (λ s h. h) 3500) (omega arith) idle-Passes
      (omega (arith, length-idle 3500))

-- All three bits are set from cycles before.
abbrev stale : Firmware
stale = record running { notification = record { value = 7; pending = false } }

-- The heartbeat task kicks, the two others have stalled.
abbrev heartbeat_kicks : Others
heartbeat_kicks s = record s { notification = plain_board.notify s.notification 1 }

cycle-stale_example :
    (t : Firmware) × (c : ℕ) × (cycle plain_board (heartbeat_kicks ∷ []) 0 stale ≡ some (t, c))
    × (t.log ≡ running.log)
    × ((t.state_queue ≡ running.state_queue)
        ⊎ (t.state_queue
            ≡ (request_change plain_board nominal 0x03 (heartbeat_kicks stale)).0.state_queue))
    × AllSet t.notification.value
cycle-stale_example =
    cycle-stale plain_board plain_board-Laws 1 heartbeat_kicks [] 0 stale (omega arith)
      (unfold digit in (omega arith, omega arith, omega arith)) refl

-- A kick with a bit, after a tick.
abbrev kick_with : ℕ → Kick
kick_with bit = record {
  others =
      λ s. record s { tick = s.tick + 1; notification = plain_board.notify s.notification bit };
  bit = bit;
}

abbrev three_kicks : List Kick
three_kicks = kick_with 2 ∷ kick_with 1 ∷ kick_with 4 ∷ []

three_kicks-Kicked : (i : ℕ) → i < 3 → Kicked i three_kicks
unfolding digit
three_kicks-Kicked zero h = inr (inl (omega arith))
three_kicks-Kicked (suc zero) h = inl (omega arith)
three_kicks-Kicked (suc (suc zero)) h = inr (inr (inl (omega arith)))
three_kicks-Kicked (suc (suc (suc i))) h = absurd (omega arith)

cycle-alive_example :
    (u : Firmware) × (received : ℕ) × (t : Firmware) × (c : ℕ) × (collected plain_board
        (effects three_kicks)
        running
      ≡ some (u, received))
    × (covers received (watchdog_expected_bits nominal) ≡ true)
    × (cycle plain_board (effects three_kicks) 0 running ≡ some (t, c))
    × NotAlarmed plain_board u t
cycle-alive_example =
    cycle-alive plain_board plain_board-Laws three_kicks 0 running (omega arith)
      (unfold waited in
        (
          refl,
          omega arith,
          omega arith,
          (refl, omega arith, omega arith, (refl, omega arith, omega arith, tt)),
        ))
      three_kicks-Kicked
