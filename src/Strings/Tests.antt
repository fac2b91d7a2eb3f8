-- ===== src/Strings/Tests.antt =====
-- The routines on a small memory.
use space_baremetal_skeleton.Common.{
  ℕ, ◌+◌, ◌≤◌, ◌<◌, ◌≡◌, ◌⊎◌, inr, refl, some, arith, ◌==◌, if◌then◌else◌,
}
use space_baremetal_skeleton.Strings.{Memory, pos, negsuc, memcpy, int_sub, strcmp}
use space_baremetal_skeleton.Strings.Memory.{memcpy_lem}

-- The text OK at 100, and 7 elsewhere.
abbrev ram : Memory
ram x = if x == 100 then b'O' else if x == 101 then b'K' else if x == 102 then 0 else 7

strcmp_equal : strcmp 9 ram 100 100 ≡ some (pos 0)
unfolding strcmp int_sub
strcmp_equal = refl

strcmp_less : strcmp 9 ram 101 100 ≡ some (negsuc 3)
unfolding strcmp int_sub
strcmp_less = refl

memcpy_lem_example :
    ((i : ℕ) → i < 3 → memcpy ram 300 100 3 (300 + i) ≡ ram (100 + i))
    × ((x : ℕ) → (x < 300) ⊎ (300 + 3 ≤ x) → memcpy ram 300 100 3 x ≡ ram x)
memcpy_lem_example = memcpy_lem ram 300 100 3 (inr (omega arith))
