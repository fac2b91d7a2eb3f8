-- ===== src/Image/Tests.antt =====
-- The theorems on the boot image at a small image: eight bytes, the slot at the second to the fifth.
use space_baremetal_skeleton.Common.{
  ℕ, ◌≡◌, ◌≢◌, ◌↔◌, inr, true, false, some, arith, ◌==◌, if◌then◌else◌,
}
use space_baremetal_skeleton.Image.{crc_region_ex, verify, boot_ok, computed_crc, expected_crc}
use space_baremetal_skeleton.Image.Detect.{DifferAt, verify_iff, verify_detects}

abbrev built : ℕ → ℕ
built x = if x == 106 then 17 else 3

abbrev upset : ℕ → ℕ
upset x = if x == 106 then 16 else 3

built-upset-DifferAt : DifferAt 106 built upset
built-upset-DifferAt = record {
  bytes = λ x. ground arith;
  bytes' = λ x. ground arith;
  here = omega arith;
  elsewhere = λ x h. ground arith;
}

verify_detects_example :
    boot_ok (verify (crc_region_ex built (some 100) (some 101) (some 108)) upset 100 101 108).0
    ≡ false
verify_detects_example =
    verify_detects 106 built upset built-upset-DifferAt 100 101 108 (omega arith) (omega arith)
      (inr (omega arith, omega arith))

-- A patched word that is not the checksum.
abbrev patched : ℕ
patched = 7

verify_iff_example :
    ((boot_ok (verify patched built 100 101 108).0 ≡ true)
      ↔ ((patched ≢ 0) × (crc_region_ex built (some 100) (some 101) (some 108) ≡ patched)))
    × (computed_crc (verify patched built 100 101 108).0
        ≡ crc_region_ex built (some 100) (some 101) (some 108))
    × (expected_crc (verify patched built 100 101 108).0 ≡ patched)
verify_iff_example = verify_iff patched built 100 101 108
