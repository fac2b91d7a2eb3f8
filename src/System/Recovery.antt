-- ===== src/System/Recovery.antt =====
-- DEGRADED with all tasks alive: five cycles of the watchdog, and the turn of the state machine behind them.
use space_baremetal_skeleton.Common.{
  ℕ, suc, ◌+◌, ◌^◌, ◌<◌, ◌≡◌, ◌⊎◌, inl, inr, refl, ap, sym, ◌∙◌, subst, true, Option, none, some,
  List, [], ◌∷◌, length, arith,
}
use space_baremetal_skeleton.Common.Words.{u32}
use space_baremetal_skeleton.Kernel.{Queue, Board, BoardLaws}
use space_baremetal_skeleton.States.{SystemState, nominal, degraded, StateRequest}
use space_baremetal_skeleton.Firmware.{Firmware}
use space_baremetal_skeleton.SystemState.{request_change}
use space_baremetal_skeleton.SystemState.Requests.{with_requests}
use space_baremetal_skeleton.SafePolicy.{watchdog_expected_bits}
use space_baremetal_skeleton.StateMachine
use space_baremetal_skeleton.StateMachine.Transitions.{recover, handle_request-Switched}
use space_baremetal_skeleton.StateMachine.Requests.{turn-request_change}
use space_baremetal_skeleton.Watchdog.{
  covers, collect, evaluate, finish_cycle, cycle, timeout_ticks,
}
use space_baremetal_skeleton.Watchdog.Recovery.{evaluate-counts, evaluate-recovers}
use space_baremetal_skeleton.Watchdog.Cycle.{All, collected, cycle-collected}
use space_baremetal_skeleton.Watchdog.Alive.{
  Kick, effects, InTime, Kicked, Standing, Gathered, collect-Gathered,
}
use space_baremetal_skeleton.Watchdog.Keeps.{collect-Holds}
use space_baremetal_skeleton.System.Detection.{Calm, KeepsCalm, waited-Calm, held}

cycle_on : Option (Firmware × ℕ) → (Firmware → ℕ → Option (Firmware × ℕ)) → Option (Firmware × ℕ)
cycle_on none rest = none
cycle_on (some (t, c)) rest = rest t c

-- Cycles one after the other, from a count of good ones.
unfoldable pub cycle_all : Board → List (List Kick) → ℕ → Firmware → Option (Firmware × ℕ)
unfolding cycle_on
cycle_all b [] cycles s = some (s, cycles)
cycle_all b (ks ∷ kss) cycles s =
    cycle_on (cycle b (effects ks) cycles s) (λ t c. cycle_all b kss c t)

-- In a cycle, from a tick count in the lower half, some kick in time, all bits are kicked or stand from
-- before, and no task changes the state or asks for one.
abbrev pub IsAlive : Board → Queue StateRequest → List Kick → Firmware → Type 0
IsAlive b rq ks s =
    (s.tick < 2 ^ 31)
    × InTime b (s.tick + timeout_ticks) ks s
    × ((i : ℕ) → i < 3 → Kicked i ks ⊎ Standing i ks s)
    × All (KeepsCalm degraded rq) (effects ks)

-- The same of each cycle of a run.
abbrev pub AllAlive : Board → Queue StateRequest → List (List Kick) → Firmware → Type 0
AllAlive b rq [] s = Unit {0}
AllAlive b rq (ks ∷ kss) s =
    IsAlive b rq ks s
    × ((u : Firmware) (received : ℕ)
        → collected b (effects ks) s ≡ some (u, received)
        → AllAlive b rq kss u)

-- The collecting of such a cycle: all the bits, and still DEGRADED.
abbrev Good : Board → Queue StateRequest → List Kick → Firmware → Type 0
Good b rq ks s =
    (u : Firmware) × (received : ℕ) × (collected b (effects ks) s ≡ some (u, received))
    × (covers received (watchdog_expected_bits degraded) ≡ true)
    × Calm degraded rq u

alive-Good :
    (b : Board) (laws : BoardLaws b) (rq : Queue StateRequest) (ks : List Kick) (s : Firmware)
    → Calm degraded rq s
    → IsAlive b rq ks s
    → Good b rq ks s
alive-Good b laws rq ks s calm (small, in_time, kicked, keep) =
    let gathered : Gathered degraded (collected b (effects ks) s) =
      subst
        (λ x.
          Gathered degraded
            (collect b (effects ks) (watchdog_expected_bits x) (u32 (s.tick + timeout_ticks)) 0 s))
        (sym calm.0)
        (collect-Gathered b laws degraded s.tick small ks 0 s (omega arith) (omega arith) in_time
          (λ i lt. inr (kicked i lt))) in
    (
      gathered.0,
      gathered.1,
      gathered.2,
      gathered.3,
      held (Calm degraded rq) (collected b (effects ks) s) gathered.0 gathered.1 gathered.2 (
          collect-Holds b (Calm degraded rq) (waited-Calm b degraded rq) _ _ (effects ks) 0 s keep
            calm),
    )

finish_cycle-covered :
    (b : Board) (state : SystemState) (received expected cycles : ℕ) (u : Firmware)
    → covers received expected ≡ true
    → finish_cycle b state expected received cycles u ≡ evaluate b received expected state cycles u
unfolding finish_cycle
finish_cycle-covered b state received expected cycles u good = rw good

-- What such a cycle gives.
cycle-Good :
    (b : Board) (ks : List Kick) (received cycles : ℕ) (s u : Firmware)
    → s.state ≡ degraded
    → collected b (effects ks) s ≡ some (u, received)
    → covers received (watchdog_expected_bits degraded) ≡ true
    → cycle b (effects ks) cycles s
      ≡ some (evaluate b received (watchdog_expected_bits degraded) degraded cycles u)
unfolding cycle
cycle-Good b ks received cycles s u e got good =
    cycle-collected b (effects ks) cycles s u received got
    ∙ ap (λ x. some (finish_cycle b x (watchdog_expected_bits x) received cycles u)) e
    ∙ ap some
        (finish_cycle-covered b degraded received (watchdog_expected_bits degraded) cycles u good)

-- The state machine's turn behind the fifth.
turn-recovers :
    (b : Board) (laws : BoardLaws b) (rq : Queue StateRequest) (u : Firmware)
    → Calm degraded rq u
    → rq.items ≡ []
    → 0 < rq.capacity
    → (StateMachine.turn b (request_change b nominal 0x03 u).0).state ≡ nominal
turn-recovers b laws rq u calm empty room =
    let request : StateRequest = record { requested_state = nominal; reason_code = 0x03 } in
    let w = with_requests (record rq { items = [] }) u in
    ap (λ x. x.state) (turn-request_change b laws request rq u calm.1 empty room)
    ∙ (handle_request-Switched w request (recover refl (inl calm.0) (inl refl))).state

cycle_all-first :
    (b : Board) (ks : List Kick) (kss : List (List Kick)) (cycles c : ℕ) (s t : Firmware)
    → cycle b (effects ks) cycles s ≡ some (t, c)
    → cycle_all b (ks ∷ kss) cycles s ≡ cycle_all b kss c t
unfolding cycle_all
cycle_all-first b ks kss cycles c s t e = ap (λ r. cycle_on r (λ t c. cycle_all b kss c t)) e

-- A run that brings the count to five.
cycle_all-recovers :
    (b : Board) (laws : BoardLaws b) (rq : Queue StateRequest)
    → rq.items ≡ []
    → 0 < rq.capacity
    → (kss : List (List Kick)) (cycles : ℕ) (s : Firmware) → cycles < 5
    → cycles + length kss ≡ 5
    → Calm degraded rq s
    → AllAlive b rq kss s
    → (t : Firmware) × (cycle_all b kss cycles s ≡ some (t, 0))
      × ((StateMachine.turn b t).state ≡ nominal)
unfolding cycle_all
cycle_all-recovers b laws rq empty room [] cycles s few five calm alive = absurd (omega arith)
cycle_all-recovers b laws rq empty room (ks ∷ []) cycles s few five calm (alive, rest) =
    let (u, received, got, all, still) = alive-Good b laws rq ks s calm alive in
    let fourth : cycles ≡ 4 = omega arith in
    (
      (request_change b nominal 0x03 u).0,
      cycle_all-first b ks [] cycles 0 s _ (
          cycle-Good b ks received cycles s u calm.0 got all
          ∙ ap (λ n. some (evaluate b received (watchdog_expected_bits degraded) degraded n u))
              fourth
          ∙ ap some (evaluate-recovers b received (watchdog_expected_bits degraded) all u)),
      turn-recovers b laws rq u still empty room,
    )
cycle_all-recovers b laws rq empty room (ks ∷ ls ∷ kss) cycles s few five calm (alive, rest) =
    let (u, received, got, all, still) = alive-Good b laws rq ks s calm alive in
    let (t, run, back) =
      cycle_all-recovers b laws rq empty room (ls ∷ kss) (suc cycles) u (omega arith) (omega arith)
        still (rest u received got) in
    (
      t,
      cycle_all-first b ks (ls ∷ kss) cycles (suc cycles) s u (
            cycle-Good b ks received cycles s u calm.0 got all
            ∙ ap some (
                evaluate-counts b received (watchdog_expected_bits degraded) all cycles u
                  (omega arith)))
          ∙ run,
      back,
    )

-- For a board that meets the kernel's laws: after five cycles in a row in DEGRADED, from tick
-- counts below 2 ^ 31, in each of which every wait ends with a kick before the deadline, each of
-- the three bits is kicked or stands from before (and some task kicks), and the others neither
-- change the state nor ask for one, the queue of requests being empty with room, the cycles end
-- with the count back at 0, and the state machine's next turn puts NOMINAL in force.
pub turn-recovers_degraded :
    (b : Board) (laws : BoardLaws b) (rq : Queue StateRequest) (kss : List (List Kick))
    (s : Firmware)
    → s.state ≡ degraded
    → s.state_queue ≡ some rq
    → rq.items ≡ []
    → 0 < rq.capacity
    → length kss ≡ 5
    → AllAlive b rq kss s
    → (t : Firmware) × (cycle_all b kss 0 s ≡ some (t, 0))
      × ((StateMachine.turn b t).state ≡ nominal)
turn-recovers_degraded b laws rq kss s state has empty room five alive =
    cycle_all-recovers b laws rq empty room kss 0 s (omega arith) (omega arith) (state, has) alive
