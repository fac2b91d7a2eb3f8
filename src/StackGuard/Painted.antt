-- ===== src/StackGuard/Painted.antt =====
-- When the check finds the guard corrupt, and how the mark moves.
use native.Mathlib.Decide.{ℕ_discrete}
use space_baremetal_skeleton.Common.{
  ℕ, zero, suc, ◌+◌, ◌≤◌, ◌<◌, ◌≡◌, ◌≢◌, ◌↔◌, ◌⊎◌, refl, ap, sym, ◌∙◌, Bool, true, false, List, [],
  ◌∷◌, ◌++◌, arith, get_or, replicate, drop, inl, inr,
}
use space_baremetal_skeleton.StackGuard.{
  Guard, guard_pattern, guard_init, seen, check_words, guard_check,
}

true_not_false : true ≢ false
true_not_false e = cc

seen-corrupt : (w o : ℕ) (r : Bool × ℕ) → (r.0 ≡ true) ⊎ (w ≢ guard_pattern) → (seen w o r).0 ≡ true
unfolding seen
seen-corrupt w o r h = ground arith

seen-intact : (w o : ℕ) (r : Bool × ℕ) → w ≡ guard_pattern → seen w o r ≡ r
unfolding seen
seen-intact w o r h = ground arith

seen-mark : (w o : ℕ) (r : Bool × ℕ) → r.1 ≤ 512 → (r.1 ≤ (seen w o r).1) × ((seen w o r).1 ≤ 512)
unfolding seen
seen-mark w o r h = ground arith

-- A flag that is up stays up.
check_words-corrupt :
    (n : ℕ) (ws : List ℕ) (o : ℕ) (r : Bool × ℕ) → r.0 ≡ true → (check_words n ws o r).0 ≡ true
unfolding check_words
check_words-corrupt zero ws o r h = h
check_words-corrupt (suc n) [] o r h = h
check_words-corrupt (suc n) (w ∷ ws) o r h =
    check_words-corrupt n ws (o + 4) (seen w o r) (seen-corrupt w o r (inl h))

check_words-intact :
    (n : ℕ) (ws : List ℕ) (o : ℕ) (r : Bool × ℕ)
    → ((i : ℕ) → i < n → get_or ws i guard_pattern ≡ guard_pattern)
    → check_words n ws o r ≡ r
unfolding check_words
check_words-intact zero ws o r h = refl
check_words-intact (suc n) [] o r h = refl
check_words-intact (suc n) (w ∷ ws) o r h =
    ap (check_words n ws (o + 4)) (seen-intact w o r (h 0 (omega arith)))
    ∙ check_words-intact n ws (o + 4) r (λ i l. h (suc i) (omega arith))

intact-check_words :
    (n : ℕ) (ws : List ℕ) (o : ℕ) (r : Bool × ℕ)
    → (check_words n ws o r).0 ≡ false
    → (i : ℕ) → i < n
    → get_or ws i guard_pattern ≡ guard_pattern
unfolding check_words
intact-check_words zero ws o r e i h = absurd (omega arith)
intact-check_words (suc n) [] o r e i h = refl
intact-check_words (suc n) (w ∷ ws) o r e zero h = elim (ℕ_discrete w guard_pattern) [
  | yes same ↦ same
  | no other ↦ absurd (
      true_not_false
        (sym (check_words-corrupt n ws (o + 4) (seen w o r) (seen-corrupt w o r (inr other))) ∙ e))
]
intact-check_words (suc n) (w ∷ ws) o r e (suc i) h =
    intact-check_words n ws (o + 4) (seen w o r) e i (omega arith)

-- The mark never falls, and stays within the guard's size when it was.
check_words-mark :
    (n : ℕ) (ws : List ℕ) (o : ℕ) (r : Bool × ℕ)
    → r.1 ≤ 512
    → (r.1 ≤ (check_words n ws o r).1) × ((check_words n ws o r).1 ≤ 512)
unfolding check_words
check_words-mark zero ws o r h = (omega arith, h)
check_words-mark (suc n) [] o r h = (omega arith, h)
check_words-mark (suc n) (w ∷ ws) o r h =
    let step = seen-mark w o r h in
    let rest = check_words-mark n ws (o + 4) (seen w o r) step.1 in
    (omega (arith, step.0, rest.0), rest.1)

-- With a mark of at most 512 bytes, the check reports no corruption exactly when each of the 128 words
-- is the pattern, and then the mark stays; in every case the mark does not fall and stays at most 512.
pub guard_check_iff :
    (g : Guard)
    → g.high_water_mark ≤ 512
    → let (after, corrupt) = guard_check g in
      ((corrupt ≡ false) ↔ ((i : ℕ) → i < 128 → get_or g.words i guard_pattern ≡ guard_pattern))
      × (corrupt ≡ false → after ≡ g)
      × (g.high_water_mark ≤ after.high_water_mark)
      × (after.high_water_mark ≤ 512)
unfolding guard_check
guard_check_iff g h =
    let bound = check_words-mark 128 g.words 0 (false, g.high_water_mark) h in
    (
      (
        intact-check_words 128 g.words 0 (false, g.high_water_mark),
        λ same. ap (λ r. r.0) (check_words-intact 128 g.words 0 (false, g.high_water_mark) same),
      ),
      λ e.
          ap (λ r. record g { high_water_mark = r.1 })
            (check_words-intact 128 g.words 0 (false, g.high_water_mark)
              (intact-check_words 128 g.words 0 (false, g.high_water_mark) e)),
      bound.0,
      bound.1,
    )

get_or-painted :
    (n : ℕ) (rest : List ℕ) (i : ℕ)
    → i < n
    → get_or (replicate n guard_pattern ++ rest) i guard_pattern ≡ guard_pattern
get_or-painted zero rest i h = absurd (omega arith)
get_or-painted (suc n) rest zero h = refl
get_or-painted (suc n) rest (suc i) h = get_or-painted n rest i (omega arith)

-- A guard that has just been painted passes the check, which leaves it as it is.
pub guard_check-guard_init : (g : Guard) → guard_check (guard_init g) ≡ (guard_init g, false)
unfolding guard_check
guard_check-guard_init g =
    ap (λ r. (record (guard_init g) { high_water_mark = r.1 }, r.0))
      (check_words-intact 128 (guard_init g).words 0 (false, (guard_init g).high_water_mark)
        (unfold guard_init in get_or-painted 128 (drop 128 g.words)))
