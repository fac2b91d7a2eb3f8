-- ===== src/Watchdog/Idle.antt =====
-- Waits of the watchdog in which no task kicks, for concrete runs.
use space_baremetal_skeleton.Common.{ℕ, zero, suc, ◌+◌, ◌≡◌, refl, ap, List, [], ◌∷◌, length, arith}
use space_baremetal_skeleton.Watchdog.{Others}
use space_baremetal_skeleton.Watchdog.Cycle.{All}
use space_baremetal_skeleton.Watchdog.Ends.{Passes}

-- A wait in which a tick passes and no task kicks.
abbrev pub tick_on : Others
tick_on s = record s { tick = s.tick + 1 }

-- So many such waits.
unfoldable pub idle : ℕ → List Others
idle zero = []
idle (suc n) = tick_on ∷ idle n

pub length-idle : (n : ℕ) → length (idle n) ≡ n
unfolding idle
length-idle zero = refl
length-idle (suc n) = ap suc (length-idle n)

pub idle-All {ℓ} : (P : Others → Type ℓ) → P tick_on → (n : ℕ) → All P (idle n)
unfolding idle
idle-All P p zero = tt
idle-All P p (suc n) = (p, idle-All P p n)

pub idle-Passes : All Passes (idle 3500)
idle-Passes = idle-All Passes (λ s. (omega arith, omega arith)) 3500
