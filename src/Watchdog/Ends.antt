-- ===== src/Watchdog/Ends.antt =====
-- A watchdog cycle comes to its end.
use native.Mathlib.Decide.{dec_lt}
use space_baremetal_skeleton.Common.{
  ℕ, ◌+◌, ◌^◌, ◌≤◌, ◌<◌, ◌≡◌, refl, Bool, true, false, ◌||◌, Option, none, some, List, [], ◌∷◌,
  arith, bit_or, if◌then◌else◌, length,
}
use space_baremetal_skeleton.Common.Words.{u32}
use space_baremetal_skeleton.Kernel.{Board}
use space_baremetal_skeleton.Kernel.{BoardLaws}
use space_baremetal_skeleton.Common.Bits.{digit}
use space_baremetal_skeleton.States.{SystemState}
use space_baremetal_skeleton.Firmware.{Firmware}
use space_baremetal_skeleton.SafePolicy.{watchdog_expected_bits}
use space_baremetal_skeleton.Watchdog.{
  Others, covers, expired, waited, collect, finish_cycle, finished, cycle,
}
use space_baremetal_skeleton.Watchdog.Cycle.{All, LeavesClear, Missed, collected, cycle-Missed}
use space_baremetal_skeleton.Watchdog.Bits.{monitored}
use space_baremetal_skeleton.Watchdog.Recovery.{escalated}

-- How a wait lets time pass: at least one tick, and never half the range of the counter.
abbrev pub Passes : Others → Type 0
Passes o = (s : Firmware) → (s.tick < (o s).tick) × ((o s).tick ≤ s.tick + 2 ^ 30)

-- Behind its deadline the loop sees that it has expired.
expired-true :
    (deadline now : ℕ)
    → deadline ≤ now
    → now ≤ deadline + 2 ^ 30
    → now < 2 ^ 32
    → expired deadline now ≡ true
unfolding expired
expired-true deadline now h k l = ground arith

-- A result, and the branches that have one.
abbrev pub Returns : Option (Firmware × ℕ) → Type 0
Returns o = (r : Firmware × ℕ) × (o ≡ some r)

Returns-if :
    (p : Bool) (x y : Option (Firmware × ℕ)) → Returns x → Returns y → Returns (if p then x else y)
Returns-if true x y hx hy = hx
Returns-if false x y hx hy = hy

Returns-stopped :
    (p q : Bool) (x y : Option (Firmware × ℕ))
    → q ≡ true
    → Returns x
    → Returns (if p || q then x else y)
Returns-stopped true q x y e h = h
Returns-stopped false q x y e h = rw e h

Returns-wait :
    (received : ℕ) (woken : Firmware) (got : Option ℕ) (rest : ℕ → Option (Firmware × ℕ))
    → ((bits : ℕ) → Returns (rest bits))
    → Returns (elim got [ none ↦ some (woken, received) | some bits ↦ rest bits ])
Returns-wait received woken none rest h = ((woken, received), refl)
Returns-wait received woken (some bits) rest h = h bits

collect-Returns :
    (b : Board) (expected deadline : ℕ)
    → deadline + 2 ^ 30 < 2 ^ 32
    → (others : List Others) (received : ℕ) (s : Firmware) → All Passes others
    → s.tick ≤ deadline + 2 ^ 30
    → deadline ≤ s.tick + length others
    → Returns (collect b others expected deadline received s)
unfolding collect waited
collect-Returns b expected deadline wrap [] received s passes near left =
    Returns-stopped (covers received expected) (expired deadline s.tick) (some (s, received)) none
      (expired-true deadline s.tick (omega arith) near (omega arith)) ((s, received), refl)
collect-Returns b expected deadline wrap (o ∷ os) received s passes near left =
    elim (dec_lt s.tick deadline) [
      | no late ↦
          Returns-stopped (covers received expected) (expired deadline s.tick) (some (s, received))
            _ (expired-true deadline s.tick (omega arith) near (omega arith)) ((s, received), refl)
      | yes early ↦
          Returns-if (covers received expected || expired deadline s.tick) (some (s, received)) _
            ((s, received), refl)
            (Returns-wait received (waited b (o s)).0 (waited b (o s)).1
              (λ bits. collect b os expected deadline (bit_or received bits) (waited b (o s)).0)
              (λ bits.
                collect-Returns b expected deadline wrap os (bit_or received bits)
                  (waited b (o s)).0 passes.1 (omega (arith, passes.0 s))
                  (omega (arith, passes.0 s))))
    ]

Returns-finished :
    (b : Board) (state : SystemState) (expected cycles : ℕ) (o : Option (Firmware × ℕ))
    → Returns o
    → Returns (finished b state expected cycles o)
unfolding finished
Returns-finished b state expected cycles none (r, e) = cc
Returns-finished b state expected cycles (some (u, received)) h =
    (finish_cycle b state expected received cycles u, refl)

-- A watchdog cycle ends: given one wait for each of its 3500 ticks, in each of which the tick counter moves
-- on by at least one and at most 2 ^ 30, from a start in the lower half of its range, the cycle has a result.
pub cycle-Returns :
    (b : Board) (others : List Others) (cycles : ℕ) (s : Firmware)
    → s.tick < 2 ^ 31
    → All Passes others
    → 3500 ≤ length others
    → Returns (cycle b others cycles s)
unfolding cycle
cycle-Returns b others cycles s small passes enough =
    Returns-finished b s.state (watchdog_expected_bits s.state) cycles _ (
      collect-Returns b (watchdog_expected_bits s.state) (u32 (s.tick + 3500)) (omega arith) others
        0 s passes (omega arith) (omega arith))

-- A monitored task that has never set its notification bit and does not set it during a watchdog
-- cycle is detected: outside SAFE, when each wait lets at least one and at most 2 ^ 30 ticks pass
-- from a tick count below 2 ^ 31 and the others make 3500 waits, the cycle ends, and on the state
-- its collecting ended in the timeout is logged and the next worse state requested.
pub cycle-detects :
    (b : Board) (laws : BoardLaws b) (k cycles : ℕ) (others : List Others) (s : Firmware)
    (next : SystemState)
    → k < monitored s.state
    → escalated s.state ≡ some next
    → digit k s.notification.value ≡ 0
    → All (LeavesClear k) others
    → s.tick < 2 ^ 31
    → All Passes others
    → 3500 ≤ length others
    → (t : Firmware) × (c : ℕ) × (cycle b others cycles s ≡ some (t, c))
      × Missed b s.state next (collected b others s) t
cycle-detects b laws k cycles others s next lt e clear keep small passes enough =
    let ended : Returns (cycle b others cycles s) =
      cycle-Returns b others cycles s small passes enough in
    let missed : Missed b s.state next (collected b others s) ended.0.0 =
      cycle-Missed b laws k cycles others s next lt e clear keep ended.0.0 ended.0.1 ended.1 in
    (ended.0.0, ended.0.1, ended.1, missed)
