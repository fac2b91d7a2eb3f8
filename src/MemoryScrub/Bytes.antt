-- ===== src/MemoryScrub/Bytes.antt =====
-- Single bits of a byte: what the correction and the injection do to them.
use space_baremetal_skeleton.Common.{
  ℕ, zero, suc, ◌+◌, ◌-◌, ◌^◌, ◌<◌, ◌≡◌, ◌≢◌, refl, Bool, true, false, ◌||◌, arith, ◌==◌,
  if◌then◌else◌, get_or, bit_and, bit_or, bit_xor, all_below, all_below_sound, ==_iff,
}
use space_baremetal_skeleton.Common.Words.{u8}
use space_baremetal_skeleton.MemoryScrub.{count_up, golden_copy, golden_read, corrected_byte}

-- The facts about single bits of a byte, by evaluation over all bytes and bits.
at_bit : (ℕ → ℕ → Bool) → Bool
at_bit p = all_below 8 (λ k. all_below 256 (λ a. p k a))

at_bit_sound : (p : ℕ → ℕ → Bool) (k a : ℕ) → at_bit p ≡ true → k < 8 → a < 256 → p k a ≡ true
unfolding at_bit
at_bit_sound p k a h hk ha =
    all_below_sound 256 (λ a. p k a) a (all_below_sound 8 (λ k. all_below 256 (λ a. p k a)) k h hk)
      ha

mask_value : ℕ → ℕ → Bool
mask_value k a = bit_and a (2 ^ k) == 0 || bit_and a (2 ^ k) == 2 ^ k

mask_value_table : at_bit mask_value ≡ true
unfolding at_bit all_below mask_value
mask_value_table = refl

set_bit : ℕ → ℕ → Bool
set_bit k a =
    if bit_and a (2 ^ k) == 0
    then u8 (bit_or (bit_and a (4294967295 - 2 ^ k)) (2 ^ k)) == u8 (bit_xor a (2 ^ k))
    else u8 (bit_or (bit_and a (4294967295 - 2 ^ k)) 0) == u8 (bit_xor a (2 ^ k))

set_bit_table : at_bit set_bit ≡ true
unfolding at_bit all_below set_bit
set_bit_table = refl

flipped : ℕ → ℕ → Bool
flipped k a =
    if bit_and (u8 (bit_xor a (2 ^ k))) (2 ^ k) == bit_and a (2 ^ k)
    then false
    else u8 (bit_xor (u8 (bit_xor a (2 ^ k))) (2 ^ k)) == a

flipped_table : at_bit flipped ≡ true
unfolding at_bit all_below flipped
flipped_table = refl

pub mask_small : (k : ℕ) → k < 8 → u8 (2 ^ k) ≡ 2 ^ k
mask_small k h =
    (==_iff _ (2 ^ k)).0
      (all_below_sound 8 (λ k. u8 (2 ^ k) == 2 ^ k) k (unfold all_below in refl) h)

-- Where a byte and the expected byte differ in a bit, the corrected byte is the byte with that bit
-- flipped: all other bits are kept.
pub corrected_byte-flips :
    (k a e : ℕ)
    → k < 8
    → a < 256
    → e < 256
    → bit_and a (2 ^ k) ≢ bit_and e (2 ^ k)
    → corrected_byte a e (2 ^ k) ≡ u8 (bit_xor a (2 ^ k))
unfolding corrected_byte set_bit mask_value
corrected_byte-flips k a e hk ha he differ = ground (
  arith,
  at_bit_sound mask_value k a mask_value_table hk ha,
  at_bit_sound mask_value k e mask_value_table hk he,
  at_bit_sound set_bit k a set_bit_table hk ha,
)

count_up-lt : (n j i : ℕ) → get_or (count_up n j) i 0 < 256
unfolding count_up
count_up-lt zero j i = omega arith
count_up-lt (suc n) j zero = omega arith
count_up-lt (suc n) j (suc i) = count_up-lt n (j + 1) i

-- The golden copy holds bytes.
pub golden_read-lt : (i : ℕ) → golden_read i < 256
unfolding golden_read golden_copy
golden_read-lt i = count_up-lt 512 0 i

-- A flipped bit differs from what it was, and flipping it again restores the byte.
pub flip_byte :
    (k a : ℕ)
    → k < 8
    → a < 256
    → (bit_and (u8 (bit_xor a (2 ^ k))) (2 ^ k) ≢ bit_and a (2 ^ k))
      × (u8 (bit_xor (u8 (bit_xor a (2 ^ k))) (2 ^ k)) ≡ a)
unfolding flipped
flip_byte k a hk ha = ground (arith, at_bit_sound flipped k a flipped_table hk ha)
