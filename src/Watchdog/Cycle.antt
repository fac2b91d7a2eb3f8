-- ===== src/Watchdog/Cycle.antt =====
-- The collecting of a cycle: it ends, and a task whose bit was never set is missed.
use space_baremetal_skeleton.Common.{
  ℕ, ◌+◌, ◌<◌, ◌≡◌, refl, ap, subst, ◌∙◌, Bool, true, false, ◌||◌, Option, none, some, List, [],
  ◌∷◌, arith, bit_or, if◌then◌else◌, inl, inr, Bool-cases,
}
use space_baremetal_skeleton.Common.Words.{u32}
use space_baremetal_skeleton.Common.Bits.{digit, digit-bit_or, digit-zero}
use space_baremetal_skeleton.Kernel.{Board, BoardLaws}
use space_baremetal_skeleton.States.{SystemState}
use space_baremetal_skeleton.Firmware.{Firmware, print}
use space_baremetal_skeleton.EventLog.{record_watchdog_timeout}
use space_baremetal_skeleton.SystemState.{request_change}
use space_baremetal_skeleton.SafePolicy.{watchdog_expected_bits}
use space_baremetal_skeleton.Watchdog.{
  Others, covers, missing_bits, expired, waited, collect, finish_cycle, finished, cycle,
  timeout_ticks, print_missing_bits,
}
use space_baremetal_skeleton.Watchdog.Bits.{monitored, covers-digit, digit-clear_none}
use space_baremetal_skeleton.Watchdog.Recovery.{escalated, evaluate-escalates}

-- A predicate holds of all entries of a list.
abbrev pub All {ℓ κ} : {A : Type ℓ} → (A → Type κ) → List A → Type κ
All P [] = Unit
All P (x ∷ xs) = P x × All P xs

-- The other tasks leave a digit of the notification value clear.
abbrev pub LeavesClear : ℕ → Others → Type 0
LeavesClear k o =
    (s : Firmware) → digit k s.notification.value ≡ 0 → digit k (o s).notification.value ≡ 0

-- The bits that a wait returns, and the value that it leaves, have the digit clear.
waited-clear :
    (b : Board) (laws : BoardLaws b) (k : ℕ) (s : Firmware)
    → k < 3
    → digit k s.notification.value ≡ 0
    → (digit k (waited b s).0.notification.value ≡ 0)
      × ((bits : ℕ) → (waited b s).1 ≡ some bits → digit k bits ≡ 0)
unfolding waited
waited-clear b laws k s lt clear = elim (Bool-cases s.notification.pending) [
  | inl pending ↦
      rw (laws.wait_pending 0 0 s.notification pending)
        (digit-clear_none k s.notification.value lt ∙ clear, λ bits e. cc)
  | inr idle ↦
      rw (laws.wait_timeout 0 0 s.notification idle)
        (digit-clear_none k s.notification.value lt ∙ clear, λ bits e. cc)
]

-- What a digit of the bits received is, if the collecting ends.
abbrev Clear : ℕ → Option (Firmware × ℕ) → Type 0
Clear k none = Unit {0}
Clear k (some (t, r)) = digit k r ≡ 0

Clear-if :
    (k : ℕ) (p : Bool) (x y : Option (Firmware × ℕ))
    → Clear k x
    → Clear k y
    → Clear k (if p then x else y)
Clear-if k true x y hx hy = hx
Clear-if k false x y hx hy = hy

-- The branch behind a wait, by what the wait gave.
Clear-wait :
    (k received : ℕ) (woken : Firmware) (got : Option ℕ) (rest : ℕ → Option (Firmware × ℕ))
    → digit k received ≡ 0
    → ((bits : ℕ) → got ≡ some bits → digit k bits ≡ 0)
    → ((bits : ℕ) → digit k bits ≡ 0 → Clear k (rest bits))
    → Clear k (elim got [ none ↦ some (woken, received) | some bits ↦ rest bits ])
Clear-wait k received woken none rest none_yet h rec = none_yet
Clear-wait k received woken (some bits) rest none_yet h rec = rec bits (h bits refl)

collect-Clear :
    (b : Board) (laws : BoardLaws b) (k expected deadline : ℕ)
    → k < 3
    → (others : List Others) (received : ℕ) (s : Firmware) → All (LeavesClear k) others
    → digit k s.notification.value ≡ 0
    → digit k received ≡ 0
    → Clear k (collect b others expected deadline received s)
unfolding collect
collect-Clear b laws k expected deadline lt [] received s keep clear none_yet =
    Clear-if k (covers received expected || expired deadline s.tick) (some (s, received)) none
      none_yet tt
collect-Clear b laws k expected deadline lt (o ∷ os) received s keep clear none_yet =
    let w = waited-clear b laws k (o s) lt (keep.0 s clear) in
    Clear-if k (covers received expected || expired deadline s.tick) (some (s, received)) _ none_yet
      (Clear-wait k received (waited b (o s)).0 (waited b (o s)).1
        (λ bits. collect b os expected deadline (bit_or received bits) (waited b (o s)).0) none_yet
        w.1
        (λ bits h.
          collect-Clear b laws k expected deadline lt os (bit_or received bits) (waited b (o s)).0
            keep.1 w.0 (omega (arith, digit-bit_or k received bits))))

-- The judgement of a missed cycle whose collecting ended in `u`: the timeout is logged, in `v`, and then the
-- next worse state requested.
abbrev pub Escalates : Board → SystemState → SystemState → ℕ → Firmware → Firmware → Type 0
Escalates b state next missing u t =
    (v : Firmware) × (t ≡ (request_change b next 0x01 v).0)
    × (v.log ≡ record_watchdog_timeout u.tick missing state u.log)
    × (v.state ≡ u.state)
    × (v.state_queue ≡ u.state_queue)

-- The same for a cycle, by what its collecting gave.
abbrev pub Missed : Board → SystemState → SystemState → Option (Firmware × ℕ) → Firmware → Type 0
Missed b state next got t =
    (u : Firmware) × (received : ℕ) × (got ≡ some (u, received))
    × Escalates b state next (missing_bits received (watchdog_expected_bits state)) u t

-- The collecting of a cycle from the state in which it starts.
abbrev pub collected : Board → List Others → Firmware → Option (Firmware × ℕ)
collected b others s =
    collect b others (watchdog_expected_bits s.state) (u32 (s.tick + timeout_ticks)) 0 s

-- A cycle is its collecting and its judgement.
pub cycle-collected :
    (b : Board) (others : List Others) (cycles : ℕ) (s u : Firmware) (received : ℕ)
    → collected b others s ≡ some (u, received)
    → cycle b others cycles s
      ≡ some (finish_cycle b s.state (watchdog_expected_bits s.state) received cycles u)
unfolding cycle finished
cycle-collected b others cycles s u received got =
    ap (finished b s.state (watchdog_expected_bits s.state) cycles) got

-- The state in which a missed cycle is judged.
reported : SystemState → ℕ → ℕ → Firmware → Firmware
reported state expected received u =
    let told = print_missing_bits received expected u in
    record told {
      log = record_watchdog_timeout told.tick (missing_bits received expected) state told.log;
    }

finish_cycle-reported :
    (b : Board) (state next : SystemState) (expected received cycles : ℕ) (u : Firmware)
    → covers received expected ≡ false
    → escalated state ≡ some next
    → finish_cycle b state expected received cycles u
      ≡ ((request_change b next 0x01 (reported state expected received u)).0, cycles)
unfolding finish_cycle reported
finish_cycle-reported b state next expected received cycles u bad e =
    rw bad
      ((evaluate-escalates b received expected cycles state (reported state expected received u)
          bad).0
        next e).0

requested-Escalates :
    (b : Board) (state next : SystemState) (expected received : ℕ) (u : Firmware)
    → Escalates b state next
        (missing_bits received expected)
        u
        (request_change b next 0x01 (reported state expected received u)).0
unfolding reported print_missing_bits print
requested-Escalates b state next expected received u =
    (reported state expected received u, refl, refl, refl, refl)

finish_cycle-Escalates :
    (b : Board) (state next : SystemState) (expected received cycles : ℕ) (u : Firmware)
    → covers received expected ≡ false
    → escalated state ≡ some next
    → Escalates b state next
        (missing_bits received expected)
        u
        (finish_cycle b state expected received cycles u).0
finish_cycle-Escalates b state next expected received cycles u bad e =
    rw (finish_cycle-reported b state next expected received cycles u bad e)
      (requested-Escalates b state next expected received u)

-- The three parts of the judgement of a cycle that ended with some digit clear.
cycle-ended :
    (b : Board) (k cycles : ℕ) (state next : SystemState) (got : Option (Firmware × ℕ))
    → k < monitored state
    → escalated state ≡ some next
    → Clear k got
    → (t : Firmware) (c : ℕ)
    → finished b state (watchdog_expected_bits state) cycles got ≡ some (t, c)
    → Missed b state next got t
unfolding finished
cycle-ended b k cycles state next none lt e clear t c h = cc
cycle-ended b k cycles state next (some (u, r)) lt e clear t c h = (
  u,
  r,
  refl,
  subst (Escalates b state next (missing_bits r (watchdog_expected_bits state)) u) (ap first_part h)
      (finish_cycle-Escalates b state next (watchdog_expected_bits state) r cycles u not_covered e),
)
  where
    first_part : Option (Firmware × ℕ) → Firmware
    first_part none = t
    first_part (some (x, n)) = x

    not_covered : covers r (watchdog_expected_bits state) ≡ false
    not_covered = elim (Bool-cases (covers r (watchdog_expected_bits state))) [
      | inl covered ↦ absurd (omega (arith, covers-digit state k r covered lt, clear))
      | inr open_bits ↦ open_bits
    ]

-- The same of a whole cycle that has ended, when the task's digit was clear at its start.
pub cycle-Missed :
    (b : Board) (laws : BoardLaws b) (k cycles : ℕ) (others : List Others) (s : Firmware)
    (next : SystemState)
    → k < monitored s.state
    → escalated s.state ≡ some next
    → digit k s.notification.value ≡ 0
    → All (LeavesClear k) others
    → (t : Firmware) (c : ℕ) → cycle b others cycles s ≡ some (t, c)
    → Missed b s.state next (collected b others s) t
unfolding cycle
cycle-Missed b laws k cycles others s next lt e clear keep =
    cycle-ended b k cycles s.state next (collected b others s) lt e (
      collect-Clear b laws k (watchdog_expected_bits s.state) (u32 (s.tick + timeout_ticks))
        (k_lt s.state lt) others 0 s keep clear (digit-zero k))
  where
    k_lt : (state : SystemState) → k < monitored state → k < 3
    k_lt SystemState.safe h = omega arith
    k_lt _ h = omega arith
