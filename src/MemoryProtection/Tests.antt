-- ===== src/MemoryProtection/Tests.antt =====
-- The theorems on the access check at the running table of regions.
use space_baremetal_skeleton.Common.{
  ℕ, ◌+◌, ◌<◌, ◌≤◌, ◌≡◌, ◌↔◌, [], ◌∷◌, refl, true, false, bit_and, get_or, arith,
}
use space_baremetal_skeleton.Kernel.{plain_board}
use space_baremetal_skeleton.Samples.{running}
use space_baremetal_skeleton.MemoryProtection.{no_region, perm_write, region_overlaps, check_access}
use space_baremetal_skeleton.MemoryProtection.Race.{
  counting, log_count, count_preempted, count_of, entries_of, count_preempted-outcome,
}
use space_baremetal_skeleton.MemoryProtection.Access.{
  permits, all_grant, check_access_iff, check_access_wraps,
}
use space_baremetal_skeleton.MemoryProtection.Violations.{Violated, check_access-Violated}

-- A write into the critical text.
abbrev forbidden : ℕ
forbidden = 0x80000104

check_access_iff_example :
    ((check_access plain_board forbidden 1 perm_write running).1 ≡ true ↔ (
      (k : ℕ)
      → k < 2
      → forbidden < (get_or running.regions k no_region).end
      → (get_or running.regions k no_region).start < forbidden + 1
      → bit_and (get_or running.regions k no_region).permissions perm_write ≡ perm_write))
    × ((check_access plain_board forbidden 1 perm_write running).1 ≡ true
        → (check_access plain_board forbidden 1 perm_write running).0 ≡ running)
check_access_iff_example = check_access_iff plain_board forbidden 1 perm_write running (omega arith)

check_access-Violated_example :
    ((check_access plain_board forbidden 1 perm_write running).1 ≡ false)
    × Violated plain_board running (check_access plain_board forbidden 1 perm_write running).0
check_access-Violated_example =
    check_access-Violated plain_board forbidden 1 perm_write running
      (unfold permits all_grant region_overlaps in refl)

check_access_wraps_example :
    check_access plain_board forbidden 18446744071562067708 perm_write running ≡ (running, true)
check_access_wraps_example =
    check_access_wraps plain_board forbidden perm_write running (omega arith)

-- The third and the fourth violation, the fourth between the first test and the reading of what is logged.
count_preempted-outcome_example :
    ((count_preempted log_count (counting 2)).count ≡ 4)
    × ((count_preempted log_count (counting 2)).logged ≡ 4 ∷ [])
    × (3 ≤ 4 → 0 < (count_preempted log_count (counting 2)).requests)
unfolding count_of entries_of
count_preempted-outcome_example = count_preempted-outcome log_count 2 (omega arith)
