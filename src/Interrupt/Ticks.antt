-- ===== src/Interrupt/Ticks.antt =====
-- A run of traps: the tick count follows the timer interrupts, and an exception ends it.
use space_baremetal_skeleton.Common.{
  ℕ, ◌+◌, ◌%◌, ◌^◌, ◌<◌, ◌≡◌, refl, ap, ap₂, sym, ◌∙◌, true, false, List, [], ◌∷◌, ◌++◌, arith,
  ◌==◌, if◌then◌else◌, text, Bool, Bool-cases, inl, inr,
}
use mathlib.Core.List.{append_assoc, append-nil}
use space_baremetal_skeleton.Common.Words.{u32, u64}
use space_baremetal_skeleton.FaultInject.{em_dash}
use space_baremetal_skeleton.Timer.{Machine, interval, timer_set_next, timer_isr}
use space_baremetal_skeleton.Interrupt.{Trapped, returned, stopped, unhandled, trap_handler}
use space_baremetal_skeleton.Interrupt.Cause.{
  IsException, IsInterrupt, is_interrupt-true, is_interrupt-false, is_timer_remainder,
}

-- What MCAUSE and MTIME read at a trap.
pub record Trap : Type 0 where
  pub mcause : ℕ
  pub now : ℕ

and_then : Trapped → (Machine → Trapped) → Trapped
and_then (returned m) rest = rest m
and_then (stopped m) rest = stopped m

-- Traps one after the other.
unfoldable pub trap_all : List Trap → Machine → Trapped
unfolding and_then
trap_all [] m = returned m
trap_all (t ∷ ts) m = and_then (trap_handler t.mcause t.now m) (trap_all ts)

abbrev AllInterrupts : List Trap → Type 0
AllInterrupts [] = Unit {0}
AllInterrupts (t ∷ ts) = IsInterrupt t.mcause × AllInterrupts ts

-- An independent account of a run: machine timer interrupts have cause 7.
abbrev pub timer_count : List Trap → ℕ
timer_count [] = 0
timer_count (t ∷ ts) = (if t.mcause % 1024 == 7 then 1 else 0) + timer_count ts

abbrev pub complaints : List Trap → List ℕ
complaints [] = []
complaints (t ∷ ts) = (if t.mcause % 1024 == 7 then [] else unhandled) ++ complaints ts

abbrev pub next_compare : ℕ → List Trap → ℕ
next_compare compare [] = compare
next_compare compare (t ∷ ts) =
    next_compare (if t.mcause % 1024 == 7 then u64 (t.now + interval) else compare) ts

-- The machine behind a run of interrupts.
abbrev pub served : List Trap → Machine → Machine
served ts m = record m {
  system_ticks = u32 (m.system_ticks + timer_count ts);
  mtimecmp = next_compare m.mtimecmp ts;
  out = m.out ++ complaints ts;
}

-- One interrupt, by whether its cause is the timer's.
after : Bool → Trap → Machine → Machine
after true t m = timer_isr t.now m
after false t m = record m { out = m.out ++ unhandled }

handled :
    (t : Trap) (m : Machine)
    → IsInterrupt t.mcause
    → trap_handler t.mcause t.now m ≡ returned (after (t.mcause % 1024 == 7) t m)
unfolding trap_handler after
handled t m h =
    rw (is_interrupt-true t.mcause h, is_timer_remainder t.mcause)
      (elim (Bool-cases (t.mcause % 1024 == 7)) [ inl timer ↦ rw timer | inr other ↦ rw other ])

after-range :
    (timer : Bool) (t : Trap) (m : Machine)
    → m.system_ticks < 2 ^ 32
    → (after timer t m).system_ticks < 2 ^ 32
unfolding after timer_isr timer_set_next
after-range true t m h = omega arith
after-range false t m h = h

machine_same :
    (m : Machine) (k k' c : ℕ) (o o' : List ℕ)
    → k ≡ k'
    → o ≡ o'
    → (record m { system_ticks = k; mtimecmp = c; out = o })
      ≡ (record m { system_ticks = k'; mtimecmp = c; out = o' })
machine_same m k k' c o o' e f =
    ap₂ (λ x y. record m { system_ticks = x; mtimecmp = c; out = y }) e f

served-after :
    (t : Trap) (ts : List Trap) (m : Machine)
    → m.system_ticks < 2 ^ 32
    → served ts (after (t.mcause % 1024 == 7) t m) ≡ served (t ∷ ts) m
unfolding after timer_isr timer_set_next
served-after t ts m range = elim (Bool-cases (t.mcause % 1024 == 7)) [
  | inl timer ↦ rw timer (machine_same m _ _ _ _ _ (omega arith) refl)
  | inr other ↦
      rw other
        (machine_same m _ _ _ _ _ (omega arith) (append_assoc m.out unhandled (complaints ts)))
]

trap_all-served :
    (ts : List Trap) (m : Machine)
    → AllInterrupts ts
    → m.system_ticks < 2 ^ 32
    → trap_all ts m ≡ returned (served ts m)
unfolding trap_all
trap_all-served [] m h range =
    ap returned (machine_same m _ _ _ _ _ (omega arith) (sym (append-nil m.out)))
trap_all-served (t ∷ ts) m (first, others) range =
    ap (λ r. and_then r (trap_all ts)) (handled t m first)
    ∙ trap_all-served ts (after (t.mcause % 1024 == 7) t m) others
        (after-range (t.mcause % 1024 == 7) t m range)
    ∙ ap returned (served-after t ts m range)

-- The machine that an exception stops.
abbrev pub told : Machine → Machine
told m = record m {
  out = m.out ++ (text "[ERROR] exception " ++ (em_dash ++ text " system halted\r\n"));
}

trap_handler-exception :
    (t : Trap) (m : Machine)
    → IsException t.mcause
    → trap_handler t.mcause t.now m ≡ stopped (told m)
unfolding trap_handler
trap_handler-exception t m h = rw (is_interrupt-false t.mcause h)

trap_all-append :
    (ts us : List Trap) (m : Machine)
    → trap_all (ts ++ us) m ≡ and_then (trap_all ts m) (trap_all us)
unfolding trap_all
trap_all-append [] us m = refl
trap_all-append (t ∷ ts) us m =
    by_end (trap_handler t.mcause t.now m) (λ n. trap_all-append ts us n)
  where
    by_end :
        (r : Trapped)
        → ((n : Machine) → trap_all (ts ++ us) n ≡ and_then (trap_all ts n) (trap_all us))
        → and_then r (trap_all (ts ++ us)) ≡ and_then (and_then r (trap_all ts)) (trap_all us)
    by_end (returned n) rec = rec n
    by_end (stopped n) rec = refl

trap_all-first :
    (t : Trap) (ts : List Trap) (m : Machine)
    → IsException t.mcause
    → trap_all (t ∷ ts) m ≡ stopped (told m)
unfolding trap_all
trap_all-first t ts m h = ap (λ r. and_then r (trap_all ts)) (trap_handler-exception t m h)

-- A run of interrupts alone, from a tick count below 2 ^ 32, is served: each timer interrupt counts
-- one tick modulo 2 ^ 32 and sets the next one 100000 behind its time, and each other interrupt is
-- reported. An exception behind them stops the program, with none of the traps after it handled.
pub trap_all-serves :
    (before : List Trap) (m : Machine)
    → AllInterrupts before
    → m.system_ticks < 2 ^ 32
    → (trap_all before m ≡ returned (served before m))
      × ((t : Trap) (behind : List Trap)
          → IsException t.mcause
          → trap_all (before ++ (t ∷ behind)) m ≡ stopped (told (served before m)))
unfolding and_then
trap_all-serves before m h range = (
  trap_all-served before m h range,
  λ t behind e.
      trap_all-append before (t ∷ behind) m
      ∙ ap (λ r. and_then r (trap_all (t ∷ behind))) (trap_all-served before m h range)
      ∙ trap_all-first t behind (served before m) e,
)
