-- ===== src/MemoryScrub/Tests.antt =====
-- The theorems on the scrub at the running firmware, with one bit of the area upset.
use space_baremetal_skeleton.Common.{◌+◌, ◌%◌, ◌≡◌, ◌∙◌, some, set, length-set, arith}
use space_baremetal_skeleton.Kernel.{plain_board}
use space_baremetal_skeleton.Firmware.{FaultEvent, Firmware}
use space_baremetal_skeleton.Samples.{running}
use space_baremetal_skeleton.MemoryProtection.{region_overlaps}
use space_baremetal_skeleton.MemoryProtection.Access.{permits, all_grant}
use space_baremetal_skeleton.MemoryScrub.{count_up, golden_copy, fix_event, scrub}
use space_baremetal_skeleton.MemoryScrub.Access.{IsAccessible}
use space_baremetal_skeleton.MemoryScrub.Correct.{upsets, length-golden_copy, scrub_restores}
use space_baremetal_skeleton.MemoryScrub.Upsets.{Fixed, fix_event-Fixed}

running-IsAccessible : IsAccessible plain_board running
unfolding permits all_grant region_overlaps
running-IsAccessible i h = (ground arith, ground arith)

-- Byte 3 reads 2: bit 0 is upset.
abbrev hit : Firmware
hit = record running { area = set golden_copy 3 2 }

hit-IsAccessible : IsAccessible plain_board hit
hit-IsAccessible = running-IsAccessible

scrub_restores_example :
    ((scrub plain_board hit).area ≡ golden_copy)
    × ((scrub plain_board hit).seu_total % 4294967296 ≡ (0 + upsets hit.area 0 512) % 4294967296)
    × ((scrub plain_board hit).state ≡ hit.state)
    × ((scrub plain_board hit).log ≡ hit.log)
    × ((scrub plain_board hit).violation_count ≡ 0)
scrub_restores_example =
    scrub_restores plain_board hit hit-IsAccessible
      (length-set golden_copy 3 2 ∙ length-golden_copy)

abbrev upset_bit : FaultEvent
upset_bit = record { index = 3; bit = 0 }

fix_event-Fixed_example :
    Fixed plain_board upset_bit hit (fix_event plain_board (some upset_bit) hit)
fix_event-Fixed_example =
    fix_event-Fixed plain_board upset_bit hit hit-IsAccessible (omega arith) (omega arith)
      (unfold golden_copy count_up in omega arith)
