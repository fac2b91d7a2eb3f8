-- ===== src/Watchdog/Alive.antt =====
-- No false alarm: a cycle in which each monitored task kicks in time passes.
use space_baremetal_skeleton.Common.{
  ℕ, ◌+◌, ◌^◌, ◌≤◌, ◌<◌, ◌≡◌, ◌⊎◌, inl, inr, refl, ap, ◌∙◌, true, false, Bool-cases, Option, some,
  List, [], ◌∷◌, arith, bit_or,
}
use space_baremetal_skeleton.Common.Words.{u32}
use space_baremetal_skeleton.Common.Bits.{
  bit_and_three, bit_and_seven, digit, digit-bit_or, digit-lt,
}
use space_baremetal_skeleton.Kernel.{Board, BoardLaws}
use space_baremetal_skeleton.States.{SystemState, nominal, safe}
use space_baremetal_skeleton.Firmware.{Firmware}
use space_baremetal_skeleton.SystemState.{request_change}
use space_baremetal_skeleton.SafePolicy.{watchdog_expected_bits}
use space_baremetal_skeleton.Watchdog.{
  Others, covers, expired, waited, collect, finish_cycle, evaluate, finished, cycle, timeout_ticks,
}
use space_baremetal_skeleton.Watchdog.Bits.{monitored}
use space_baremetal_skeleton.Watchdog.Cycle.{collected}
use space_baremetal_skeleton.Watchdog.Stale.{behind, collect-covered, waited-stale}

-- What the others do in a wait, and the bit of the kick that ends it.
pub record Kick : Type 0 where
  pub others : Others
  pub bit : ℕ

abbrev pub effects : List Kick → List Others
effects [] = []
effects (k ∷ ks) = k.others ∷ effects ks

-- Each wait of a run ends with its kick, after no time or some, and before the deadline.
abbrev pub InTime : Board → ℕ → List Kick → Firmware → Type 0
InTime b deadline [] s = Unit {0}
InTime b deadline (k ∷ ks) s =
    ((k.others s).notification ≡ b.notify s.notification k.bit)
    × (s.tick ≤ (k.others s).tick)
    × ((k.others s).tick < deadline)
    × InTime b deadline ks (waited b (k.others s)).0

-- Some kick of the list sets the digit.
abbrev pub Kicked : ℕ → List Kick → Type 0
Kicked i [] = ⊥
Kicked i (k ∷ ks) = (digit i k.bit ≡ 1) ⊎ Kicked i ks

-- The digit stands in the notification value, and some kick of the list brings the value.
abbrev pub Standing : ℕ → List Kick → Firmware → Type 0
Standing i [] s = ⊥
Standing i (k ∷ ks) s = digit i s.notification.value ≡ 1

digits-covers :
    (state : SystemState) (v : ℕ)
    → ((i : ℕ) → i < monitored state → digit i v ≡ 1)
    → covers v (watchdog_expected_bits state) ≡ true
unfolding watchdog_expected_bits digit
digits-covers safe v h = ground (arith, bit_and_three v, h 0 (omega arith), h 1 (omega arith))
digits-covers _ v h =
    ground (arith, bit_and_seven v, h 0 (omega arith), h 1 (omega arith), h 2 (omega arith))

-- Before its deadline a cycle has not expired.
expired-before :
    (start now : ℕ)
    → start < 2 ^ 31
    → start ≤ now
    → now < start + timeout_ticks
    → expired (u32 (start + timeout_ticks)) now ≡ false
unfolding expired
expired-before start now h l e = ground arith

-- A collecting that ends with all the expected bits.
abbrev pub Gathered : SystemState → Option (Firmware × ℕ) → Type 0
Gathered state got =
    (u : Firmware) × (received : ℕ) × (got ≡ some (u, received))
    × (covers received (watchdog_expected_bits state) ≡ true)

-- The digits that a wait adds.
gained :
    (i received v bit : ℕ) (ks : List Kick) (k : Kick) (s : Firmware)
    → k.bit ≡ bit
    → (digit i received ≡ 1) ⊎ (Kicked i (k ∷ ks) ⊎ (digit i v ≡ 1))
    → (digit i (bit_or received (bit_or v bit)) ≡ 1) ⊎ (Kicked i ks ⊎ Standing i ks s)
gained i received v bit ks k s e h = elim h [
  | inl had ↦
      inl (omega (arith, digit-bit_or i received (bit_or v bit), digit-lt i (bit_or v bit), had))
  | inr (inl (inl set)) ↦ inl (
      omega (
        arith,
        digit-bit_or i received (bit_or v bit),
        digit-bit_or i v bit,
        digit-lt i received,
        digit-lt i v,
        ap (digit i) e,
        set,
      ))
  | inr (inl (inr later)) ↦ inr (inl later)
  | inr (inr standing) ↦ inl (
      omega (
        arith,
        digit-bit_or i received (bit_or v bit),
        digit-bit_or i v bit,
        digit-lt i received,
        digit-lt i bit,
        standing,
      ))
]

-- A wait in time that brings bits goes on with the next.
collect-step :
    (b : Board) (o : Others) (os : List Others) (expected deadline received bits : ℕ) (s : Firmware)
    → covers received expected ≡ false
    → expired deadline s.tick ≡ false
    → (waited b (o s)).1 ≡ some bits
    → collect b (o ∷ os) expected deadline received s
      ≡ collect b os expected deadline (bit_or received bits) (waited b (o s)).0
unfolding collect
collect-step b o os expected deadline received bits s open_bits early e =
    rw (open_bits, early)
      (ap (λ got. behind b os expected deadline received ((waited b (o s)).0, got)) e)

waited-tick : (b : Board) (s : Firmware) → (waited b s).0.tick ≡ s.tick
unfolding waited
waited-tick b s = refl

Gathered-same :
    (state : SystemState) (x y : Option (Firmware × ℕ))
    → x ≡ y
    → Gathered state y
    → Gathered state x
Gathered-same state x y e (u, received, f, all) = (u, received, e ∙ f, all)

pub collect-Gathered :
    (b : Board) (laws : BoardLaws b) (state : SystemState) (start : ℕ)
    → start < 2 ^ 31
    → (ks : List Kick) (received : ℕ) (s : Firmware) → start ≤ s.tick
    → s.tick < start + timeout_ticks
    → InTime b (start + timeout_ticks) ks s
    → ((i : ℕ) → i < monitored state → (digit i received ≡ 1) ⊎ (Kicked i ks ⊎ Standing i ks s))
    → Gathered state (
        collect b
          (effects ks)
          (watchdog_expected_bits state)
          (u32 (start + timeout_ticks))
          received
          s)
unfolding collect
collect-Gathered b laws state start small [] received s l e run h =
    let all : covers received (watchdog_expected_bits state) ≡ true =
      digits-covers state received (λ i lt. elim (h i lt) [
        | inl set ↦ set
        | inr (inl none_left) ↦ absurd none_left
        | inr (inr none_left) ↦ absurd none_left
      ]) in
    (s, received, rw all refl, all)
collect-Gathered b laws state start small (k ∷ ks) received s l e (kick, onward, in_time, run) h =
    elim (Bool-cases (covers received (watchdog_expected_bits state))) [
      | inl all ↦ (
        s,
        received,
        collect-covered b (effects (k ∷ ks)) (watchdog_expected_bits state)
            (u32 (start + timeout_ticks)) received s all,
        all,
      )
      | inr open_bits ↦
          let v = s.notification.value in
          Gathered-same state _ _
            (collect-step b k.others (effects ks) (watchdog_expected_bits state)
              (u32 (start + timeout_ticks)) received (bit_or v k.bit) s open_bits
              (expired-before start s.tick small l e)
              (ap (λ w. w.1) (waited-stale b laws k.bit k.others s.notification s kick)))
            (collect-Gathered b laws state start small ks (bit_or received (bit_or v k.bit))
              (waited b (k.others s)).0 (omega (arith, waited-tick b (k.others s)))
              (omega (arith, waited-tick b (k.others s))) run
              (λ i lt. gained i received v k.bit ks k (waited b (k.others s)).0 refl (h i lt)))
    ]

-- A cycle that passes from the state in which its collecting ended: nothing is logged, and no state but
-- NOMINAL is requested.
abbrev pub NotAlarmed : Board → Firmware → Firmware → Type 0
NotAlarmed b u t =
    (t.log ≡ u.log)
    × ((t.state_queue ≡ u.state_queue)
        ⊎ (t.state_queue ≡ (request_change b nominal 0x03 u).0.state_queue))

finish_cycle-NotAlarmed :
    (b : Board) (received expected cycles : ℕ) (state : SystemState) (u : Firmware)
    → covers received expected ≡ true
    → NotAlarmed b u (finish_cycle b state expected received cycles u).0
unfolding finish_cycle evaluate request_change
finish_cycle-NotAlarmed b received expected cycles state u good = rw good (ground arith)

-- No false alarm, for a board that meets the kernel's laws: a cycle from a tick count below 2 ^ 31
-- whose waits each end with a kick before the deadline of 3500 ticks, and in which each monitored
-- task kicks, ends with all the expected bits; no timeout is logged and no state but NOMINAL is
-- requested.
pub cycle-alive :
    (b : Board) (laws : BoardLaws b) (ks : List Kick) (cycles : ℕ) (s : Firmware)
    → s.tick < 2 ^ 31
    → InTime b (s.tick + timeout_ticks) ks s
    → ((i : ℕ) → i < monitored s.state → Kicked i ks)
    → (u : Firmware) × (received : ℕ) × (t : Firmware) × (c : ℕ) × (collected b (effects ks) s
        ≡ some (u, received))
      × (covers received (watchdog_expected_bits s.state) ≡ true)
      × (cycle b (effects ks) cycles s ≡ some (t, c))
      × NotAlarmed b u t
unfolding cycle finished
cycle-alive b laws ks cycles s small run kicked =
    let (u, received, got, all) =
      collect-Gathered b laws s.state s.tick small ks 0 s (omega arith) (omega arith) run
        (λ i lt. inr (inl (kicked i lt))) in
    let ended = finish_cycle b s.state (watchdog_expected_bits s.state) received cycles u in
    (
      u,
      received,
      ended.0,
      ended.1,
      got,
      all,
      ap (finished b s.state (watchdog_expected_bits s.state) cycles) got,
      finish_cycle-NotAlarmed b received (watchdog_expected_bits s.state) cycles s.state u all,
    )
