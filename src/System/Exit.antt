-- ===== src/System/Exit.antt =====
-- How SAFE is left.
use space_baremetal_skeleton.Common.{
  ℕ, ◌<◌, ◌≡◌, ◌⊎◌, refl, ap, sym, ◌∙◌, subst, false, arith, inl, inr,
}
use space_baremetal_skeleton.Kernel.{Board, Queue}
use space_baremetal_skeleton.States.{SystemState, nominal, safe, StateRequest, rank}
use space_baremetal_skeleton.EventLog.{record_state_change, record_safe_policy}
use space_baremetal_skeleton.Firmware.{Firmware}
use space_baremetal_skeleton.StateMachine.Transitions.{Transition, escalate, recover, Switched}
use space_baremetal_skeleton.SystemState.Requests.{with_requests}
use space_baremetal_skeleton.System.{Step, Reach, here, next}
use space_baremetal_skeleton.System.Invariant.{IsSound}
use space_baremetal_skeleton.System.Safety.{Step-Frame, turn-Switched, Reach-IsSound}

-- A round that goes from SAFE to NOMINAL for the watchdog's reason or the operator's, and logs the transition
-- and then the end of the policy.
pub record Exits (u v : Firmware) : Type 0 where
  pub from : u.state ≡ safe
  pub to : v.state ≡ nominal
  pub reason : ℕ
  pub allowed : (reason ≡ 0x03) ⊎ (reason ≡ 0x10)
  pub logged :
      v.log ≡ record_safe_policy u.tick false (record_state_change u.tick safe nominal reason u.log)

highest : (state : SystemState) → ¬ (rank safe < rank state)
highest state h = ground arith

-- The diagram's ways out of SAFE.
out_of_safe :
    (from to : SystemState) (reason : ℕ)
    → from ≡ safe
    → Transition from reason to
    → (to ≡ nominal) × ((reason ≡ 0x03) ⊎ (reason ≡ 0x10))
out_of_safe from to reason e (escalate h) = absurd (highest to (subst (λ x. rank x < rank to) e h))
out_of_safe from to reason e (recover n w r) = (n, r)

Switched-Exits :
    (request : StateRequest) (u v : Firmware)
    → u.state ≡ safe
    → Transition u.state request.reason_code request.requested_state
    → Switched request u v
    → Exits u v
Switched-Exits request u v e way w =
    let (to_nominal, why) = out_of_safe u.state request.requested_state request.reason_code e way in
    record {
      from = e;
      to = w.state ∙ to_nominal;
      reason = request.reason_code;
      allowed = why;
      logged = w.log ∙ rw (to_nominal, e) refl;
    }

-- The receive before does not matter.
Exits-queue : (q : Queue StateRequest) (u v : Firmware) → Exits (with_requests q u) v → Exits u v
Exits-queue q u v x = record {
  from = x.from;
  to = x.to;
  reason = x.reason;
  allowed = x.allowed;
  logged = x.logged;
}

Step-Exits :
    (b : Board) (u v : Firmware)
    → IsSound b u
    → Step b u v
    → u.state ≡ safe
    → (v.state ≡ safe) ⊎ Exits u v
Step-Exits b u v i st e = elim (Step-Frame b i st) [
  | inl f ↦ inl (f.state ∙ e)
  | inr turned ↦ elim (turn-Switched b u) [
    | inl q ↦ inl (ap (λ x. x.state) turned ∙ q.state ∙ e)
    | inr (request, q, way, w) ↦ inr (
        subst (Exits u) (sym turned)
          (Exits-queue q u _ (Switched-Exits request (with_requests q u) _ e way w)))
  ]
]

-- From a sound firmware in SAFE, any order of the tasks' rounds stays in SAFE unless some round on
-- the way is a transition to NOMINAL for reason 3, the watchdog's, or 16, the operator's, which
-- logs the transition and then the end of the SAFE policy.
pub Reach-Exits :
    (b : Board) (s t : Firmware)
    → IsSound b s
    → s.state ≡ safe
    → Reach b s t
    → (t.state ≡ safe) ⊎ ((u : Firmware) × (v : Firmware) × Reach b s u × Step b u v × Exits u v)
Reach-Exits b s t i e here = inl e
Reach-Exits b s t i e (next {t = u} r st) = elim (Reach-Exits b s u i e r) [
  | inr left ↦ inr left
  | inl still ↦ elim (Step-Exits b u t (Reach-IsSound b s u i r).0 st still) [
    | inl stays ↦ inl stays
    | inr exits ↦ inr (u, t, r, st, exits)
  ]
]
