-- ===== src/Crc32.antt =====
-- CRC-32, src/crc32.c.
pub mod Injective
pub mod Whole
mod Tests
use space_baremetal_skeleton.Common.{
  ℕ, zero, suc, ◌/◌, bit_and, bit_xor, not, Option, none, some, List, [], ◌∷◌, ◌==◌, if◌then◌else◌,
  take,
}

abbrev pub crc32_init : ℕ
crc32_init = 0xffff_ffff

abbrev pub crc32_poly : ℕ
crc32_poly = 0xedb8_8320

-- One round of the inner loop.
unfoldable pub crc32_bit : ℕ → ℕ
crc32_bit crc = if not (bit_and crc 1 == 0) then bit_xor (crc / 2) crc32_poly else crc / 2

unfoldable pub crc32_bits : ℕ → ℕ → ℕ
crc32_bits zero crc = crc
crc32_bits (suc n) crc = crc32_bits n (crc32_bit crc)

unfoldable pub crc32_byte : ℕ → ℕ → ℕ
crc32_byte crc byte = crc32_bits 8 (bit_xor crc byte)

unfoldable pub crc32_bytes : ℕ → List ℕ → ℕ
crc32_bytes crc [] = crc
crc32_bytes crc (byte ∷ bytes) = crc32_bytes (crc32_byte crc byte) bytes

-- `none` is the null pointer.
unfoldable pub crc32_update : ℕ → Option (List ℕ) → ℕ → ℕ
crc32_update crc none length = crc
crc32_update crc (some bytes) length = crc32_bytes crc (take length bytes)

unfoldable pub crc32_compute : Option (List ℕ) → ℕ → ℕ
unfolding crc32_update
crc32_compute bytes length = bit_xor (crc32_update crc32_init bytes length) crc32_init
