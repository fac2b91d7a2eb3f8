-- ===== src/Strings/Compare.antt =====
-- What the comparing routines and the length say.
use space_baremetal_skeleton.Common.{
  ℕ, zero, suc, ◌+◌, ◌<◌, ◌≡◌, ◌≢◌, ◌↔◌, refl, ap, ◌∙◌, some, arith,
}
use native.Mathlib.Decide.{ℕ_discrete}
use space_baremetal_skeleton.Strings.{Memory, pos, int_sub, memcmp, strlen_from, strlen}

int_sub_zero : (a b : ℕ) → int_sub a b ≡ pos 0 → a ≡ b
unfolding int_sub
int_sub_zero a b e = ground arith

memcmp-equal :
    (n : ℕ) (m : Memory) (s1 s2 : ℕ)
    → memcmp m s1 s2 n ≡ pos 0
    → (i : ℕ) → i < n
    → m (s1 + i) ≡ m (s2 + i)
unfolding memcmp
memcmp-equal zero m s1 s2 e i h = absurd (omega arith)
memcmp-equal (suc n) m s1 s2 e zero h = ap m (omega arith) ∙ first ∙ ap m (omega arith)
  where
    first : m s1 ≡ m s2
    first = elim (ℕ_discrete (m s1) (m s2)) [
      | yes p ↦ p
      | no p ↦ int_sub_zero (m s1) (m s2) (ground arith)
    ]
memcmp-equal (suc n) m s1 s2 e (suc i) h =
    ap m (omega arith)
    ∙ memcmp-equal n m (s1 + 1) (s2 + 1) behind i (omega arith)
    ∙ ap m (omega arith)
  where
    behind : memcmp m (s1 + 1) (s2 + 1) n ≡ pos 0
    behind = elim (ℕ_discrete (m s1) (m s2)) [
      | yes p ↦ ground arith
      | no p ↦ absurd (p (int_sub_zero (m s1) (m s2) (ground arith)))
    ]

equal-memcmp :
    (n : ℕ) (m : Memory) (s1 s2 : ℕ)
    → ((i : ℕ) → i < n → m (s1 + i) ≡ m (s2 + i))
    → memcmp m s1 s2 n ≡ pos 0
unfolding memcmp
equal-memcmp zero m s1 s2 same = refl
equal-memcmp (suc n) m s1 s2 same =
    let first : m s1 ≡ m s2 = ap m (omega arith) ∙ same 0 (omega arith) ∙ ap m (omega arith) in
    let behind : memcmp m (s1 + 1) (s2 + 1) n ≡ pos 0 =
      equal-memcmp n m (s1 + 1) (s2 + 1)
        (λ i h. ap m (omega arith) ∙ same (suc i) (omega arith) ∙ ap m (omega arith)) in
    ground arith

-- `memcmp` gives 0 exactly for two stretches of equal bytes.
pub memcmp_iff :
    (m : Memory) (s1 s2 n : ℕ)
    → (memcmp m s1 s2 n ≡ pos 0) ↔ ((i : ℕ) → i < n → m (s1 + i) ≡ m (s2 + i))
memcmp_iff m s1 s2 n = (memcmp-equal n m s1 s2, equal-memcmp n m s1 s2)

strlen_from_lem :
    (k : ℕ) (fuel : ℕ) (m : Memory) (s len : ℕ)
    → ((i : ℕ) → i < k → m (s + (len + i)) ≢ 0)
    → m (s + (len + k)) ≡ 0
    → k < fuel
    → strlen_from fuel m s len ≡ some (len + k)
unfolding strlen_from
strlen_from_lem k zero m s len before at h = absurd (omega arith)
strlen_from_lem zero (suc fuel) m s len before at h =
    let here : m (s + len) ≡ 0 = ap m (omega arith) ∙ at in rw here (ap some (omega arith))
strlen_from_lem (suc k) (suc fuel) m s len before at h =
    let here : m (s + len) ≢ 0 = λ e. before 0 (omega arith) (ap m (omega arith) ∙ e) in
    let rest : strlen_from fuel m s (len + 1) ≡ some (len + 1 + k) =
      strlen_from_lem k fuel m s (len + 1)
        (λ i l e. before (suc i) (omega arith) (ap m (omega arith) ∙ e)) (ap m (omega arith) ∙ at)
        (omega arith) in
    let moved : some (len + 1 + k) ≡ some (len + suc k) = ap some (omega arith) in ground arith

-- `strlen` returns the place of the first terminator, given more rounds than bytes before it.
pub strlen_lem :
    (m : Memory) (s k fuel : ℕ)
    → ((i : ℕ) → i < k → m (s + i) ≢ 0)
    → m (s + k) ≡ 0
    → k < fuel
    → strlen fuel m s ≡ some k
unfolding strlen
strlen_lem m s k fuel before at h =
    strlen_from_lem k fuel m s 0 (λ i l e. before i l (ap m (omega arith) ∙ e))
      (ap m (omega arith) ∙ at) h
    ∙ ap some (omega arith)
