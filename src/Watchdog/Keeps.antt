-- ===== src/Watchdog/Keeps.antt =====
-- What the others and the waits keep, the collecting of a cycle keeps.
use space_baremetal_skeleton.Common.{
  ℕ, Bool, true, false, ◌||◌, Option, none, some, List, [], ◌∷◌, bit_or, if◌then◌else◌,
}
use space_baremetal_skeleton.Kernel.{Board}
use space_baremetal_skeleton.Firmware.{Firmware}
use space_baremetal_skeleton.Watchdog.{Others, covers, expired, waited, collect}
use space_baremetal_skeleton.Watchdog.Cycle.{All}

-- A predicate of the state in which a collecting ends, if it does.
abbrev pub Holds : (Firmware → Type 0) → Option (Firmware × ℕ) → Type 0
Holds P none = Unit {0}
Holds P (some (t, r)) = P t

Holds-if :
    (P : Firmware → Type 0) (p : Bool) (x y : Option (Firmware × ℕ))
    → Holds P x
    → Holds P y
    → Holds P (if p then x else y)
Holds-if P true x y hx hy = hx
Holds-if P false x y hx hy = hy

Holds-wait :
    (P : Firmware → Type 0) (received : ℕ) (woken : Firmware) (got : Option ℕ)
    (rest : ℕ → Option (Firmware × ℕ))
    → P woken
    → ((bits : ℕ) → Holds P (rest bits))
    → Holds P (elim got [ none ↦ some (woken, received) | some bits ↦ rest bits ])
Holds-wait P received woken none rest h rec = h
Holds-wait P received woken (some bits) rest h rec = rec bits

module _ (b : Board) (P : Firmware → Type 0)
    (wait_keeps : (s : Firmware) → P s → P (waited b s).0) where
  pub collect-Holds :
      (expected deadline : ℕ) (others : List Others) (received : ℕ) (s : Firmware)
      → All (λ o. (s : Firmware) → P s → P (o s)) others
      → P s
      → Holds P (collect b others expected deadline received s)
  unfolding collect
  collect-Holds expected deadline [] received s keep h =
      Holds-if P (covers received expected || expired deadline s.tick) (some (s, received)) none h
        tt
  collect-Holds expected deadline (o ∷ os) received s keep h =
      let after = wait_keeps (o s) (keep.0 s h) in
      Holds-if P (covers received expected || expired deadline s.tick) (some (s, received)) _ h (
        Holds-wait P received (waited b (o s)).0 (waited b (o s)).1
          (λ bits. collect b os expected deadline (bit_or received bits) (waited b (o s)).0) after
          (λ bits.
            collect-Holds expected deadline os (bit_or received bits) (waited b (o s)).0 keep.1
              after))
