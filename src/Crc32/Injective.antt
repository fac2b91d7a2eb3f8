-- ===== src/Crc32/Injective.antt =====
-- The checksum loses nothing that a single byte carries: every step of the register is injective.
use space_baremetal_skeleton.Common.{
  ℕ, zero, suc, ◌/◌, ◌%◌, ◌^◌, ◌≤◌, ◌<◌, ◌≡◌, ◌⊎◌, refl, sym, ◌∙◌, List, [], ◌∷◌, ◌++◌, arith,
  bit_xor, inl, inr,
}
use space_baremetal_skeleton.Common.Bits.{
  bit_and_one, bit_xor-lt, bit_xor_comm, bit_xor-injective, bit_xor_top,
}
use space_baremetal_skeleton.Crc32.{crc32_poly, crc32_bit, crc32_bits, crc32_byte, crc32_bytes}

abbrev pub IsWord : ℕ → Type 0
IsWord n = n < 2 ^ 32

-- A list of bytes.
abbrev pub AreBytes : List ℕ → Type 0
AreBytes [] = Unit {0}
AreBytes (x ∷ xs) = (x < 256) × AreBytes xs

-- The two branches of a round, told apart by the lowest bit.
crc32_bit-even : (c : ℕ) → c % 2 ≡ 0 → crc32_bit c ≡ c / 2
unfolding crc32_bit
crc32_bit-even c h = ground (arith, bit_and_one c)

crc32_bit-odd : (c : ℕ) → c % 2 ≡ 1 → crc32_bit c ≡ bit_xor (c / 2) crc32_poly
unfolding crc32_bit
crc32_bit-odd c h = ground (arith, bit_and_one c)

poly_word : crc32_poly < 2 ^ 32
poly_word = omega arith

-- After an odd round the top bit of the register is set, after an even one it is clear.
odd_top : (c : ℕ) → IsWord c → c % 2 ≡ 1 → 2 ^ 31 ≤ crc32_bit c
odd_top c h o =
    rw (crc32_bit-odd c o)
      (bit_xor_top 31 (c / 2) crc32_poly (omega arith) (omega arith) (omega arith))

pub crc32_bit-lt : (c : ℕ) → IsWord c → IsWord (crc32_bit c)
crc32_bit-lt c h = elim (parity (c % 2) (omega arith)) [
  | inl e ↦ rw (crc32_bit-even c e) (omega arith)
  | inr o ↦ rw (crc32_bit-odd c o) (bit_xor-lt 32 (c / 2) crc32_poly (omega arith) poly_word)
]
  where
    parity : (p : ℕ) → p < 2 → (p ≡ 0) ⊎ (p ≡ 1)
    parity p h = omega arith

crc32_bit-injective : (c d : ℕ) → IsWord c → IsWord d → crc32_bit c ≡ crc32_bit d → c ≡ d
crc32_bit-injective c d hc hd e = by_parity (c % 2) (d % 2) refl refl
  where
    by_parity : (p q : ℕ) → c % 2 ≡ p → d % 2 ≡ q → c ≡ d
    by_parity zero zero p q = omega (arith, crc32_bit-even c p, crc32_bit-even d q, e)
    by_parity zero (suc zero) p q = absurd (omega (arith, crc32_bit-even c p, odd_top d hd q, e))
    by_parity (suc zero) zero p q = absurd (omega (arith, crc32_bit-even d q, odd_top c hc p, e))
    by_parity (suc zero) (suc zero) p q = omega (
      arith,
      bit_xor-injective 32 (c / 2) (d / 2) crc32_poly (omega arith) (omega arith) poly_word
          (sym (crc32_bit-odd c p) ∙ e ∙ crc32_bit-odd d q),
    )
    by_parity (suc (suc p)) q h k = absurd (omega arith)
    by_parity p (suc (suc q)) h k = absurd (omega arith)

crc32_bits-lt : (n c : ℕ) → IsWord c → IsWord (crc32_bits n c)
unfolding crc32_bits
crc32_bits-lt zero c h = h
crc32_bits-lt (suc n) c h = crc32_bits-lt n (crc32_bit c) (crc32_bit-lt c h)

crc32_bits-injective : (n c d : ℕ) → IsWord c → IsWord d → crc32_bits n c ≡ crc32_bits n d → c ≡ d
unfolding crc32_bits
crc32_bits-injective zero c d hc hd e = e
crc32_bits-injective (suc n) c d hc hd e =
    crc32_bit-injective c d hc hd
      (crc32_bits-injective n (crc32_bit c) (crc32_bit d) (crc32_bit-lt c hc) (crc32_bit-lt d hd) e)

pub crc32_byte-lt : (c b : ℕ) → IsWord c → b < 256 → IsWord (crc32_byte c b)
unfolding crc32_byte
crc32_byte-lt c b h k = crc32_bits-lt 8 (bit_xor c b) (bit_xor-lt 32 c b h (omega arith))

crc32_byte-injective :
    (c d b : ℕ) → IsWord c → IsWord d → b < 256 → crc32_byte c b ≡ crc32_byte d b → c ≡ d
unfolding crc32_byte
crc32_byte-injective c d b hc hd hb e = bit_xor-injective 32 c d b hc hd (omega arith) (
    crc32_bits-injective 8 (bit_xor c b) (bit_xor d b) (bit_xor-lt 32 c b hc (omega arith))
      (bit_xor-lt 32 d b hd (omega arith)) e)

-- From one register, different bytes give different registers.
pub crc32_byte-detects :
    (c a b : ℕ) → IsWord c → a < 256 → b < 256 → crc32_byte c a ≡ crc32_byte c b → a ≡ b
unfolding crc32_byte
crc32_byte-detects c a b hc ha hb e = bit_xor-injective 32 a b c (omega arith) (omega arith) hc (
    bit_xor_comm 32 a c (omega arith) hc
    ∙ crc32_bits-injective 8 (bit_xor c a) (bit_xor c b) (bit_xor-lt 32 c a hc (omega arith))
        (bit_xor-lt 32 c b hc (omega arith)) e
    ∙ bit_xor_comm 32 c b hc (omega arith))

-- Over any bytes the register stays a 32-bit word.
pub crc32_bytes-lt :
    (bytes : List ℕ) (c : ℕ) → AreBytes bytes → IsWord c → IsWord (crc32_bytes c bytes)
unfolding crc32_bytes
crc32_bytes-lt [] c hb h = h
crc32_bytes-lt (b ∷ bytes) c hb h =
    crc32_bytes-lt bytes (crc32_byte c b) hb.1 (crc32_byte-lt c b h hb.0)

-- Over the same bytes, different registers stay different.
pub crc32_bytes-injective :
    (bytes : List ℕ) (c d : ℕ)
    → AreBytes bytes
    → IsWord c
    → IsWord d
    → crc32_bytes c bytes ≡ crc32_bytes d bytes
    → c ≡ d
unfolding crc32_bytes
crc32_bytes-injective [] c d hb hc hd e = e
crc32_bytes-injective (b ∷ bytes) c d hb hc hd e = crc32_byte-injective c d b hc hd hb.0 (
    crc32_bytes-injective bytes (crc32_byte c b) (crc32_byte d b) hb.1 (crc32_byte-lt c b hc hb.0)
      (crc32_byte-lt d b hd hb.0) e)

-- Feeding data in pieces is feeding it whole.
pub crc32_bytes-append :
    (xs ys : List ℕ) (c : ℕ) → crc32_bytes c (xs ++ ys) ≡ crc32_bytes (crc32_bytes c xs) ys
unfolding crc32_bytes
crc32_bytes-append [] ys c = refl
crc32_bytes-append (x ∷ xs) ys c = crc32_bytes-append xs ys (crc32_byte c x)
