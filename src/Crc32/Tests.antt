-- ===== src/Crc32/Tests.antt =====
-- The check value of the checksum, and its theorems at concrete values.
use space_baremetal_skeleton.Common.{◌≡◌, refl, some, codes}
use space_baremetal_skeleton.Crc32.{
  crc32_bit, crc32_bits, crc32_byte, crc32_bytes, crc32_update, crc32_compute,
}

check_value : crc32_compute (some (codes "123456789")) 9 ≡ 0xcbf4_3926
unfolding crc32_compute crc32_update crc32_bytes crc32_byte crc32_bits crc32_bit
check_value = refl
