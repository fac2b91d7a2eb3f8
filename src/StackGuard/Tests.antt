-- ===== src/StackGuard/Tests.antt =====
-- The check on a guard with one word overwritten.
use space_baremetal_skeleton.Common.{
  ℕ, ◌≤◌, ◌<◌, ◌≡◌, ◌↔◌, false, [], ◌∷◌, arith, get_or, replicate,
}
use space_baremetal_skeleton.StackGuard.{Guard, guard_pattern, guard_check}
use space_baremetal_skeleton.StackGuard.Painted.{guard_check_iff}

abbrev overrun : Guard
overrun = record {
  words = guard_pattern ∷ guard_pattern ∷ 7 ∷ replicate 125 guard_pattern;
  high_water_mark = 0;
  out = [];
}

guard_check_iff_example :
    ((((guard_check overrun).1 ≡ false)
      ↔ ((i : ℕ) → i < 128 → get_or overrun.words i guard_pattern ≡ guard_pattern)))
    × ((guard_check overrun).1 ≡ false → (guard_check overrun).0 ≡ overrun)
    × (0 ≤ (guard_check overrun).0.high_water_mark)
    × ((guard_check overrun).0.high_water_mark ≤ 512)
guard_check_iff_example = guard_check_iff overrun (omega arith)
