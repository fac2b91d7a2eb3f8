-- ===== src/Image/Bounds.antt =====
-- The statics of the image check are 32-bit words.
use space_baremetal_skeleton.Common.{
  ℕ, ◌+◌, ◌-◌, ◌^◌, ◌<◌, ltb, ◌||◌, ◌==◌, some, arith, Bool-cases, inl, inr,
}
use space_baremetal_skeleton.Common.Bits.{bit_xor-lt}
use space_baremetal_skeleton.Crc32.{crc32_init, crc32_update}
use space_baremetal_skeleton.Crc32.Injective.{crc32_bytes-lt}
use space_baremetal_skeleton.Image.{bytes_from, crc_region_ex, verify}
use space_baremetal_skeleton.Image.Detect.{take-bytes_from, bytes_from-AreBytes}

module _ (mem : ℕ → ℕ) (bytes : (i : ℕ) → mem i < 256) where
  update-lt : (c lo n : ℕ) → c < 2 ^ 32 → crc32_update c (some (bytes_from mem lo n)) n < 2 ^ 32
  unfolding crc32_update
  update-lt c lo n small =
      rw (take-bytes_from mem lo n)
        (crc32_bytes-lt (bytes_from mem lo n) c (bytes_from-AreBytes mem lo n bytes) small)

  crc_region_ex-lt :
      (start slot end : ℕ) → crc_region_ex mem (some start) (some slot) (some end) < 2 ^ 32
  unfolding crc_region_ex
  crc_region_ex-lt start slot end =
      let before = update-lt crc32_init start (slot - start) (omega arith) in
      let behind = update-lt _ (slot + 4) (end - (slot + 4)) before in
      let checksum = bit_xor-lt 32 _ crc32_init behind (omega arith) in
      elim (Bool-cases (ltb slot start || (ltb end slot || ltb end (slot + 4)))) [
        | inl refused ↦ rw refused (omega arith)
        | inr accepted ↦ rw accepted checksum
      ]

  -- The statics hold the checksum and the patched word.
  pub verify-lt :
      (expected start slot end : ℕ)
      → expected < 2 ^ 32
      → ((verify expected mem start slot end).0.computed < 2 ^ 32)
        × ((verify expected mem start slot end).0.expected < 2 ^ 32)
  unfolding verify
  verify-lt expected start slot end small =
      let computed = crc_region_ex-lt start slot end in
      elim (Bool-cases (expected == 0)) [
        | inl unpatched ↦ rw unpatched (computed, small)
        | inr patched ↦
            elim (Bool-cases (crc_region_ex mem (some start) (some slot) (some end) == expected)) [
              | inl same ↦ rw (patched, same) (computed, small)
              | inr other ↦ rw (patched, other) (computed, small)
            ]
      ]
