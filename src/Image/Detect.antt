-- ===== src/Image/Detect.antt =====
-- The check covers every byte of the image outside the slot: one changed byte is detected.
use space_baremetal_skeleton.Common.{
  ℕ, zero, suc, ◌+◌, ◌-◌, ◌≤◌, ◌<◌, ◌≡◌, ◌≢◌, ◌↔◌, ◌⊎◌, inl, inr, refl, ap, sym, ◌∙◌, List, ◌∷◌,
  ◌++◌, arith, bit_xor, ltb, ◌||◌, true, false, some, take, take-length, length,
}
use native.Mathlib.Decide.{ℕ_discrete}
use space_baremetal_skeleton.Common.Bits.{bit_xor-injective}
use space_baremetal_skeleton.Crc32.{
  crc32_init, crc32_byte, crc32_bytes, crc32_update, crc32_compute,
}
use space_baremetal_skeleton.Crc32.Injective.{
  IsWord, AreBytes, crc32_byte-lt, crc32_byte-detects, crc32_bytes-lt, crc32_bytes-injective,
  crc32_bytes-append,
}
use space_baremetal_skeleton.Image.{
  bytes_from, crc_region_ex, verify, boot_ok, computed_crc, expected_crc,
}

length-bytes_from : (mem : ℕ → ℕ) (lo n : ℕ) → length (bytes_from mem lo n) ≡ n
unfolding bytes_from
length-bytes_from mem lo zero = refl
length-bytes_from mem lo (suc n) = ap suc (length-bytes_from mem (lo + 1) n)

pub take-bytes_from : (mem : ℕ → ℕ) (lo n : ℕ) → take n (bytes_from mem lo n) ≡ bytes_from mem lo n
unfolding bytes_from
take-bytes_from mem lo zero = refl
take-bytes_from mem lo (suc n) = ap (λ l. mem lo ∷ l) (take-bytes_from mem (lo + 1) n)

-- What the checksum of the image is: that of its bytes without the four of the slot.
abbrev pub outside_slot : (ℕ → ℕ) → ℕ → ℕ → ℕ → List ℕ
outside_slot mem start slot end =
    bytes_from mem start (slot - start) ++ bytes_from mem (slot + 4) (end - (slot + 4))

-- The register over an image, without the final inversion.
abbrev register : (ℕ → ℕ) → ℕ → ℕ → ℕ → ℕ
register mem start slot end =
    crc32_bytes (crc32_bytes crc32_init (bytes_from mem start (slot - start)))
      (bytes_from mem (slot + 4) (end - (slot + 4)))

crc_region_ex-register :
    (mem : ℕ → ℕ) (start slot end : ℕ)
    → start ≤ slot
    → slot + 4 ≤ end
    → crc_region_ex mem (some start) (some slot) (some end)
      ≡ bit_xor (register mem start slot end) crc32_init
unfolding crc_region_ex crc32_update
crc_region_ex-register mem start slot end h k = rw (
  accepted,
  take-bytes_from mem start (slot - start),
  take-bytes_from mem (slot + 4) (end - (slot + 4)),
)
  where
    accepted : (ltb slot start || (ltb end slot || ltb end (slot + 4))) ≡ false
    accepted = ground arith

-- For a slot inside the image, the region's checksum is the CRC-32 of the bytes before and behind the
-- slot, so the patched word does not change it.
pub crc_region_ex-crc32_compute :
    (mem : ℕ → ℕ) (start slot end : ℕ)
    → start ≤ slot
    → slot + 4 ≤ end
    → crc_region_ex mem (some start) (some slot) (some end)
      ≡ (let image = outside_slot mem start slot end in crc32_compute (some image) (length image))
unfolding crc32_compute crc32_update
crc_region_ex-crc32_compute mem start slot end h k =
    crc_region_ex-register mem start slot end h k
    ∙ ap (λ c. bit_xor c crc32_init)
        (sym (
          ap (crc32_bytes crc32_init) (take-length (outside_slot mem start slot end))
          ∙ crc32_bytes-append (bytes_from mem start (slot - start))
              (bytes_from mem (slot + 4) (end - (slot + 4))) crc32_init))

-- `image_integrity_verify` accepts exactly a patched, that is nonzero, word that equals the region's
-- checksum; on every branch it stores the checksum and the word.
pub verify_iff :
    (expected : ℕ) (mem : ℕ → ℕ) (start slot end : ℕ)
    → let computed = crc_region_ex mem (some start) (some slot) (some end) in
      let after = (verify expected mem start slot end).0 in
      ((boot_ok after ≡ true) ↔ ((expected ≢ 0) × (computed ≡ expected)))
      × (computed_crc after ≡ computed)
      × (expected_crc after ≡ expected)
unfolding verify
verify_iff expected mem start slot end = ground arith

verify_mismatch :
    (expected : ℕ) (mem : ℕ → ℕ) (start slot end : ℕ)
    → crc_region_ex mem (some start) (some slot) (some end) ≢ expected
    → boot_ok (verify expected mem start slot end).0 ≡ false
unfolding verify
verify_mismatch expected mem start slot end h = ground arith

-- Two memories of bytes that differ at one address alone.
pub record DifferAt (a : ℕ) (mem mem' : ℕ → ℕ) : Type 0 where
  pub bytes : (x : ℕ) → mem x < 256
  pub bytes' : (x : ℕ) → mem' x < 256
  pub here : mem a ≢ mem' a
  pub elsewhere : (x : ℕ) → x ≢ a → mem x ≡ mem' x

pub bytes_from-AreBytes :
    (mem : ℕ → ℕ) (lo n : ℕ) → ((x : ℕ) → mem x < 256) → AreBytes (bytes_from mem lo n)
unfolding bytes_from
bytes_from-AreBytes mem lo zero h = tt
bytes_from-AreBytes mem lo (suc n) h = (h lo, bytes_from-AreBytes mem (lo + 1) n h)

module _ (a : ℕ) (mem mem' : ℕ → ℕ) (d : DifferAt a mem mem') where
  bytes_from-same :
      (lo n : ℕ) → (a < lo) ⊎ (lo + n ≤ a) → bytes_from mem lo n ≡ bytes_from mem' lo n
  unfolding bytes_from
  bytes_from-same lo zero h = refl
  bytes_from-same lo (suc n) h =
      ap (λ b. b ∷ bytes_from mem (lo + 1) n) (d.elsewhere lo (omega arith))
      ∙ ap (λ l. mem' lo ∷ l) (bytes_from-same (lo + 1) n (omega arith))

  -- A stretch that holds the address ends in different registers.
  crc32_bytes-differ :
      (n lo c : ℕ)
      → IsWord c
      → lo ≤ a
      → a < lo + n
      → crc32_bytes c (bytes_from mem lo n) ≢ crc32_bytes c (bytes_from mem' lo n)
  unfolding bytes_from crc32_bytes
  crc32_bytes-differ zero lo c w h k = absurd (omega arith)
  crc32_bytes-differ (suc n) lo c w h k = elim (ℕ_discrete lo a) [
    | yes at ↦ λ e. d.here (
        ap mem (sym at)
        ∙ crc32_byte-detects c (mem lo) (mem' lo) w (d.bytes lo) (d.bytes' lo) (
            crc32_bytes-injective (bytes_from mem' (lo + 1) n) (crc32_byte c (mem lo))
              (crc32_byte c (mem' lo)) (bytes_from-AreBytes mem' (lo + 1) n d.bytes')
              (crc32_byte-lt c (mem lo) w (d.bytes lo)) (crc32_byte-lt c (mem' lo) w (d.bytes' lo))
              (ap (crc32_bytes (crc32_byte c (mem lo)))
                  (sym (bytes_from-same (lo + 1) n (inl (omega arith))))
                ∙ e))
        ∙ ap mem' at)
    | no past ↦ λ e.
        crc32_bytes-differ n (lo + 1) (crc32_byte c (mem lo))
          (crc32_byte-lt c (mem lo) w (d.bytes lo)) (omega arith) (omega arith)
          (e
            ∙ ap (λ b. crc32_bytes (crc32_byte c b) (bytes_from mem' (lo + 1) n))
                (sym (d.elsewhere lo past)))
  ]

  stretch-lt : (lo n c : ℕ) → IsWord c → IsWord (crc32_bytes c (bytes_from mem lo n))
  stretch-lt lo n c w =
      crc32_bytes-lt (bytes_from mem lo n) c (bytes_from-AreBytes mem lo n d.bytes) w

  stretch-lt' : (lo n c : ℕ) → IsWord c → IsWord (crc32_bytes c (bytes_from mem' lo n))
  stretch-lt' lo n c w =
      crc32_bytes-lt (bytes_from mem' lo n) c (bytes_from-AreBytes mem' lo n d.bytes') w

  register-differ :
      (start slot end : ℕ)
      → start ≤ slot
      → slot + 4 ≤ end
      → ((start ≤ a) × (a < slot)) ⊎ ((slot + 4 ≤ a) × (a < end))
      → register mem start slot end ≢ register mem' start slot end
  register-differ start slot end h k (inl before) e =
      crc32_bytes-differ (slot - start) start crc32_init (omega arith) before.0 (omega arith) (
        crc32_bytes-injective (bytes_from mem' (slot + 4) (end - (slot + 4)))
          (crc32_bytes crc32_init (bytes_from mem start (slot - start)))
          (crc32_bytes crc32_init (bytes_from mem' start (slot - start)))
          (bytes_from-AreBytes mem' (slot + 4) (end - (slot + 4)) d.bytes')
          (stretch-lt start (slot - start) crc32_init (omega arith))
          (stretch-lt' start (slot - start) crc32_init (omega arith))
          (ap (crc32_bytes (crc32_bytes crc32_init (bytes_from mem start (slot - start))))
              (sym (bytes_from-same (slot + 4) (end - (slot + 4)) (inl (omega (arith, before.1)))))
            ∙ e))
  register-differ start slot end h k (inr behind) e =
      crc32_bytes-differ (end - (slot + 4)) (slot + 4)
        (crc32_bytes crc32_init (bytes_from mem start (slot - start)))
        (stretch-lt start (slot - start) crc32_init (omega arith)) behind.0 (omega arith)
        (e
          ∙ ap
              (λ l.
                crc32_bytes (crc32_bytes crc32_init l)
                  (bytes_from mem' (slot + 4) (end - (slot + 4))))
              (sym (bytes_from-same start (slot - start) (inr (omega arith)))))

  -- Where the patched word is the checksum of one image, `image_integrity_verify` rejects every image
  -- that differs from it in exactly one byte outside the slot, whatever that byte is.
  pub verify_detects :
      (start slot end : ℕ)
      → start ≤ slot
      → slot + 4 ≤ end
      → ((start ≤ a) × (a < slot)) ⊎ ((slot + 4 ≤ a) × (a < end))
      → boot_ok
          (verify (crc_region_ex mem (some start) (some slot) (some end)) mem' start slot end).0
        ≡ false
  verify_detects start slot end h k inside =
      verify_mismatch (crc_region_ex mem (some start) (some slot) (some end)) mem' start slot end
        differ
    where
      differ :
          crc_region_ex mem' (some start) (some slot) (some end)
          ≢ crc_region_ex mem (some start) (some slot) (some end)
      differ e = register-differ start slot end h k inside (
          bit_xor-injective 32 (register mem start slot end) (register mem' start slot end)
            crc32_init
            (stretch-lt (slot + 4) (end - (slot + 4)) _
              (stretch-lt start (slot - start) crc32_init (omega arith)))
            (stretch-lt' (slot + 4) (end - (slot + 4)) _
              (stretch-lt' start (slot - start) crc32_init (omega arith)))
            (omega arith)
            (sym (crc_region_ex-register mem start slot end h k)
              ∙ sym e
              ∙ crc_region_ex-register mem' start slot end h k))
