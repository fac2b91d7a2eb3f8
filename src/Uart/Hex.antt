-- ===== src/Uart/Hex.antt =====
-- `uart_put_hex` against hexadecimal notation.
use space_baremetal_skeleton.Common.{
  ℕ, ◌+◌, ◌-◌, ◌*◌, ◌/◌, ◌%◌, ◌^◌, ◌<◌, ◌≡◌, refl, ◌∙◌, List, [], ◌∷◌, arith, length, get_or, leb,
  ◌==◌, ==_iff, if◌then◌else◌, all_below, all_below_sound, bit_and, true,
}
use space_baremetal_skeleton.Common.Words.{u8}
use space_baremetal_skeleton.Common.Bits.{bit_and_fifteen}
use space_baremetal_skeleton.Uart.{hex_chars, put_hex}

-- The value of a digit `0`-`9` or `A`-`F`.
unfoldable pub hex_value : ℕ → ℕ
hex_value c = if leb c b'9' then c - b'0' else c - b'A' + 10

unfoldable pub read_hex_onto : ℕ → List ℕ → ℕ
read_hex_onto acc [] = acc
read_hex_onto acc (c ∷ s) = read_hex_onto (acc * 16 + hex_value c) s

unfoldable pub read_hex : List ℕ → ℕ
unfolding read_hex_onto
read_hex s = read_hex_onto 0 s

hex_value-hex_chars : (d : ℕ) → d < 16 → hex_value (get_or hex_chars d 0) ≡ d
hex_value-hex_chars d h =
    (==_iff _ d).0 (all_below_sound 16 (λ d. hex_value (get_or hex_chars d 0) == d) d table h)
  where
    table : all_below 16 (λ d. hex_value (get_or hex_chars d 0) == d) ≡ true
    table = unfold all_below hex_value in refl

-- One digit of the loop, as arithmetic.
hex_value-nibble : (v : ℕ) → hex_value (get_or hex_chars (bit_and (u8 v) 15) 0) ≡ v % 16
hex_value-nibble v =
    hex_value-hex_chars (bit_and (u8 v) 15) (omega (arith, bit_and_fifteen (u8 v)))
    ∙ bit_and_fifteen (u8 v)
    ∙ omega arith

-- `uart_put_hex` transmits exactly eight bytes, and for every 32-bit value they read back as it.
pub read_hex-put_hex : (v : ℕ) → v < 2 ^ 32 → (length (put_hex v) ≡ 8) × (read_hex (put_hex v) ≡ v)
unfolding put_hex read_hex
read_hex-put_hex v h = (
  refl,
  omega (
    arith,
    hex_value-nibble (v / 2 ^ 28),
    hex_value-nibble (v / 2 ^ 24),
    hex_value-nibble (v / 2 ^ 20),
    hex_value-nibble (v / 2 ^ 16),
    hex_value-nibble (v / 2 ^ 12),
    hex_value-nibble (v / 2 ^ 8),
    hex_value-nibble (v / 2 ^ 4),
    hex_value-nibble (v / 2 ^ 0),
  ),
)
