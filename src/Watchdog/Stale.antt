-- ===== src/Watchdog/Stale.antt =====
-- The notification value is never cleared: a task that has kicked once is not missed any more.
use space_baremetal_skeleton.Common.{
  ℕ, ◌+◌, ◌^◌, ◌<◌, ◌≡◌, refl, ap, ◌∙◌, true, false, Option, none, some, List, [], ◌∷◌, arith,
  bit_or, ◌⊎◌,
}
use space_baremetal_skeleton.Common.Words.{u32}
use space_baremetal_skeleton.Kernel.{Notification, Board, BoardLaws, clear_bits}
use space_baremetal_skeleton.States.{SystemState, nominal, safe}
use space_baremetal_skeleton.Firmware.{Firmware}
use space_baremetal_skeleton.SystemState.{request_change}
use space_baremetal_skeleton.SafePolicy.{watchdog_expected_bits}
use space_baremetal_skeleton.Watchdog.{
  Others, covers, expired, waited, collect, finish_cycle, evaluate, finished, cycle, timeout_ticks,
}
use space_baremetal_skeleton.Watchdog.Bits.{
  AllSet, AllSet-covers, AllSet-bit_or, AllSet-bit_or_left, AllSet-clear_none,
}

pub collect-covered :
    (b : Board) (others : List Others) (expected deadline received : ℕ) (s : Firmware)
    → covers received expected ≡ true
    → collect b others expected deadline received s ≡ some (s, received)
unfolding collect
collect-covered b [] expected deadline received s h = rw h
collect-covered b (o ∷ os) expected deadline received s h = rw h

-- The deadline of a cycle that starts at `now` has not expired at once.
expired-fresh : (now : ℕ) → now < 2 ^ 31 → expired (u32 (now + timeout_ticks)) now ≡ false
unfolding expired
expired-fresh now h = ground arith

covers-nothing : (state : SystemState) → covers 0 (watchdog_expected_bits state) ≡ false
unfolding watchdog_expected_bits
covers-nothing safe = refl
covers-nothing _ = refl

-- The state behind the wait, with its notification.
abbrev pub woken : Others → ℕ → ℕ → Firmware → Firmware
woken o v bit s = record (o s) {
  notification = record { value = clear_bits (bit_or v bit) 0; pending = false };
}

-- A wait behind a kick returns the value with the kicked bit, and clears nothing.
pub waited-stale :
    (b : Board) (laws : BoardLaws b) (bit : ℕ) (o : Others) (n : Notification) (s : Firmware)
    → (o s).notification ≡ b.notify n bit
    → waited b (o s) ≡ (woken o n.value bit s, some (bit_or n.value bit))
unfolding waited
waited-stale b laws bit o n s kick = rw (
  kick,
  laws.notify_sets n bit,
  laws.wait_pending 0 0 (record { value = bit_or n.value bit; pending = true }) refl,
)

-- The branch of the loop behind a wait.
abbrev pub behind : Board → List Others → ℕ → ℕ → ℕ → Firmware × Option ℕ → Option (Firmware × ℕ)
behind b os expected deadline received w = elim w.1 [
  | none ↦ some (w.0, received)
  | some bits ↦ collect b os expected deadline (bit_or received bits) w.0
]

pub collect-stale :
    (b : Board) (laws : BoardLaws b) (state : SystemState) (bit : ℕ) (o : Others) (os : List Others)
    (n : Notification) (s : Firmware)
    → s.tick < 2 ^ 31
    → AllSet n.value
    → (o s).notification ≡ b.notify n bit
    → collect b (o ∷ os) (watchdog_expected_bits state) (u32 (s.tick + timeout_ticks)) 0 s
      ≡ some (woken o n.value bit s, bit_or 0 (bit_or n.value bit))
unfolding collect
collect-stale b laws state bit o os n s small set kick =
    rw (covers-nothing state, expired-fresh s.tick small)
      (ap (behind b os (watchdog_expected_bits state) (u32 (s.tick + timeout_ticks)) 0)
          (waited-stale b laws bit o n s kick)
        ∙ collect-covered b os (watchdog_expected_bits state) (u32 (s.tick + timeout_ticks))
            (bit_or 0 (bit_or n.value bit)) (woken o n.value bit s)
            (AllSet-covers state (bit_or 0 (bit_or n.value bit))
              (AllSet-bit_or 0 (bit_or n.value bit) (AllSet-bit_or_left n.value bit set))))

-- A cycle that passes: nothing is logged, no worse state is requested, and the three bits are still set.
abbrev pub Passed : Board → Firmware → Firmware → Type 0
Passed b u t =
    (t.log ≡ u.log)
    × ((t.state_queue ≡ u.state_queue)
        ⊎ (t.state_queue ≡ (request_change b nominal 0x03 u).0.state_queue))
    × AllSet t.notification.value

finish_cycle-Passed :
    (b : Board) (received expected cycles : ℕ) (state : SystemState) (u : Firmware)
    → covers received expected ≡ true
    → AllSet u.notification.value
    → Passed b u (finish_cycle b state expected received cycles u).0
unfolding finish_cycle evaluate request_change
finish_cycle-Passed b received expected cycles state u good set = rw good (ground arith)

request_change-woken :
    (b : Board) (s : Firmware) (n : Notification)
    → (request_change b nominal 0x03 (record s { notification = n })).0.state_queue
      ≡ (request_change b nominal 0x03 s).0.state_queue
unfolding request_change
request_change-woken b s n = ground arith

-- Once each of the three tasks has set its bit, one kick of any single task makes the cycle pass for
-- all: no timeout is logged and no worse state requested, whatever the two others do, and since the
-- bits stay set the same holds of the next cycle.
pub cycle-stale :
    (b : Board) (laws : BoardLaws b) (bit : ℕ) (o : Others) (os : List Others) (cycles : ℕ)
    (s : Firmware)
    → s.tick < 2 ^ 31
    → AllSet s.notification.value
    → (o s).notification ≡ b.notify s.notification bit
    → (t : Firmware) × (c : ℕ) × (cycle b (o ∷ os) cycles s ≡ some (t, c))
      × (t.log ≡ (o s).log)
      × ((t.state_queue ≡ (o s).state_queue)
          ⊎ (t.state_queue ≡ (request_change b nominal 0x03 (o s)).0.state_queue))
      × AllSet t.notification.value
unfolding cycle finished
cycle-stale b laws bit o os cycles s small set kick = (
  ended.0,
  ended.1,
  ap (finished b s.state (watchdog_expected_bits s.state) cycles)
      (collect-stale b laws s.state bit o os s.notification s small set kick),
  passed.0,
  ground (arith, passed.1, request_change-woken b (o s) u.notification),
  passed.2,
)
  where
    v : ℕ
    v = bit_or s.notification.value bit

    u : Firmware
    u = woken o s.notification.value bit s

    set_now : AllSet v
    set_now = AllSet-bit_or_left s.notification.value bit set

    ended : Firmware × ℕ
    ended = finish_cycle b s.state (watchdog_expected_bits s.state) (bit_or 0 v) cycles u

    passed : Passed b u ended.0
    passed =
        finish_cycle-Passed b (bit_or 0 v) (watchdog_expected_bits s.state) cycles s.state u
          (AllSet-covers s.state (bit_or 0 v) (AllSet-bit_or 0 v set_now))
          (AllSet-clear_none v set_now)
