-- ===== src/Image.antt =====
-- The boot image check, src/image_integrity.c. The image is memory between addresses that the linker
-- fixes; a null pointer is `none`.
pub mod Detect
pub mod Bounds
mod Tests
use space_baremetal_skeleton.Common.{
  ℕ, zero, suc, ◌+◌, ◌-◌, bit_xor, Bool, true, false, ◌||◌, Option, none, some, List, [], ◌∷◌, ◌++◌,
  ltb, ◌==◌, if◌then◌else◌, text,
}
use space_baremetal_skeleton.Uart.{put_hex, crlf}
use space_baremetal_skeleton.Crc32.{crc32_init, crc32_update}

-- The `n` bytes of memory from an address on.
unfoldable pub bytes_from : (ℕ → ℕ) → ℕ → ℕ → List ℕ
bytes_from mem lo zero = []
bytes_from mem lo (suc n) = mem lo ∷ bytes_from mem (lo + 1) n

-- `image_integrity_crc_region_ex` for three pointers into `mem`.
unfoldable pub crc_region_ex : (ℕ → ℕ) → Option ℕ → Option ℕ → Option ℕ → ℕ
crc_region_ex mem (some start) (some slot) (some end) =
    if ltb slot start || (ltb end slot || ltb end (slot + 4))
    then 0
    else bit_xor
        (crc32_update
          (crc32_update crc32_init (some (bytes_from mem start (slot - start))) (slot - start))
          (some (bytes_from mem (slot + 4) (end - (slot + 4)))) (end - (slot + 4)))
        crc32_init
crc_region_ex mem _ _ _ = 0

-- The static variables: `image_integrity_ok`, `_computed` and `_expected`.
pub record Integrity : Type 0 where
  pub ok : Bool
  pub computed : ℕ
  pub expected : ℕ

abbrev pub unchecked : Integrity
unchecked = record { ok = true; computed = 0; expected = 0 }

-- `image_integrity_verify`, from the patched word, the image and the linker's three addresses: the new
-- statics, which hold the result too, and what is printed.
unfoldable pub verify : ℕ → (ℕ → ℕ) → ℕ → ℕ → ℕ → Integrity × List ℕ
verify expected mem start slot end =
    let computed = crc_region_ex mem (some start) (some slot) (some end) in
    if expected == 0
    then (
      record { ok = false; computed = computed; expected = expected },
      text "[ERROR] image CRC slot not patched (expected=0)\r\n",
    )
    else if computed == expected
    then (
      record { ok = true; computed = computed; expected = expected },
      text "[BOOT] image CRC OK (0x" ++ (put_hex computed ++ text ")\r\n"),
    )
    else (
      record { ok = false; computed = computed; expected = expected },
      text "[ERROR] image CRC mismatch expected=0x"
          ++ (put_hex expected ++ (text " computed=0x" ++ (put_hex computed ++ crlf))),
    )

-- `image_integrity_boot_ok`, `image_integrity_computed_crc` and `image_integrity_expected_crc`.
abbrev pub boot_ok : Integrity → Bool
boot_ok i = i.ok

abbrev pub computed_crc : Integrity → ℕ
computed_crc i = i.computed

abbrev pub expected_crc : Integrity → ℕ
expected_crc i = i.expected
