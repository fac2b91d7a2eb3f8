-- ===== src/Uart/Decimal.antt =====
-- `uart_put_dec` against decimal notation: its buffer is long enough for every `uint32_t`, and what
-- it prints reads back as the number.
use native.Mathlib.Nat.{pow-suc}
use space_baremetal_skeleton.Common.{
  ℕ, zero, suc, ◌+◌, ◌-◌, ◌*◌, ◌/◌, ◌%◌, ◌^◌, ◌<◌, ◌≡◌, refl, ap, ◌∙◌, sym, Option, none, some,
  List, [], ◌∷◌, arith, length, set, drop, length-set, leb, ◌&&◌, if◌then◌else◌,
}
use space_baremetal_skeleton.Uart.{c_string, put_dec_loop, printed_from, blank_buffer, put_dec}

-- Reading decimal notation from the left, `none` at a byte that is no digit.
unfoldable pub read_dec_onto : ℕ → List ℕ → Option ℕ
read_dec_onto acc [] = some acc
read_dec_onto acc (c ∷ s) =
    let rest = read_dec_onto (acc * 10 + (c - b'0')) s in
    if leb b'0' c && leb c b'9' then rest else none

unfoldable pub read_dec : List ℕ → Option ℕ
unfolding read_dec_onto
read_dec s = read_dec_onto 0 s

-- The digits of a number in front of a list.
decimal_onto : ℕ → ℕ → List ℕ → List ℕ
decimal_onto zero v tail = tail
decimal_onto (suc k) zero tail = tail
decimal_onto (suc k) (suc v) tail = decimal_onto k (suc v / 10) ((b'0' + suc v % 10) ∷ tail)

drop-set : (buf : List ℕ) (i x : ℕ) → i < length buf → drop i (set buf i x) ≡ x ∷ drop (suc i) buf
drop-set [] i x h = absurd (omega arith)
drop-set (y ∷ buf) zero x h = refl
drop-set (y ∷ buf) (suc i) x h = drop-set buf i x (omega arith)

-- With room for the digits, the loop ends with them written just below the start.
put_dec_loop-decimal :
    (i fuel v : ℕ) (buf : List ℕ)
    → i < fuel
    → v < 10 ^ i
    → i < length buf
    → printed_from (put_dec_loop fuel v i buf) ≡ some (c_string (decimal_onto fuel v (drop i buf)))
unfolding put_dec_loop decimal_onto
put_dec_loop-decimal i zero v buf h fits room = absurd (omega arith)
put_dec_loop-decimal i (suc fuel) zero buf h fits room = refl
put_dec_loop-decimal zero (suc fuel) (suc v) buf h fits room = absurd (omega arith)
put_dec_loop-decimal (suc i) (suc fuel) (suc v) buf h fits room =
    put_dec_loop-decimal i fuel (suc v / 10) (set buf i (b'0' + suc v % 10)) (omega arith)
      (omega (arith, pow-suc 10 i)) (omega (arith, length-set buf i (b'0' + suc v % 10)))
    ∙ ap (λ l. some (c_string (decimal_onto fuel (suc v / 10) l)))
        (drop-set buf i (b'0' + suc v % 10) (omega arith))

-- Decimal notation reads back.
read_dec_onto-digit :
    (acc d : ℕ) (s : List ℕ)
    → d < 10
    → read_dec_onto acc ((b'0' + d) ∷ s) ≡ read_dec_onto (acc * 10 + d) s
unfolding read_dec_onto
read_dec_onto-digit acc d s h = rw value_of_digit (ground arith)
  where
    value_of_digit : b'0' + d - b'0' ≡ d
    value_of_digit = omega arith

c_string-digit : (d : ℕ) (s : List ℕ) → c_string ((b'0' + d) ∷ s) ≡ (b'0' + d) ∷ c_string s
unfolding c_string
c_string-digit d s = ap (λ n. c_string (n ∷ s)) as_suc ∙ ap (λ n. n ∷ c_string s) (sym as_suc)
  where
    as_suc : b'0' + d ≡ suc (47 + d)
    as_suc = omega arith

read_dec-decimal :
    (k v : ℕ) (tail : List ℕ) (shift : ℕ → Option ℕ)
    → v < 10 ^ k
    → ((acc : ℕ) → read_dec_onto acc (c_string tail) ≡ shift acc)
    → read_dec (c_string (decimal_onto k v tail)) ≡ shift v
unfolding decimal_onto read_dec
read_dec-decimal zero v tail shift h e = e 0 ∙ ap shift (omega arith)
read_dec-decimal (suc k) zero tail shift h e = e 0
read_dec-decimal (suc k) (suc v) tail shift h e =
    read_dec-decimal k (suc v / 10) ((b'0' + suc v % 10) ∷ tail)
      (λ acc. shift (acc * 10 + suc v % 10)) (omega (arith, pow-suc 10 k))
      (λ acc.
        ap (read_dec_onto acc) (c_string-digit (suc v % 10) tail)
        ∙ read_dec_onto-digit acc (suc v % 10) (c_string tail) (omega arith)
        ∙ e (acc * 10 + suc v % 10))
    ∙ ap shift (omega arith)

-- For every 32-bit value `uart_put_dec` stays inside its 11-byte buffer, terminates, and transmits
-- decimal digits that read back as the value.
pub read_dec-put_dec :
    (v : ℕ) → v < 2 ^ 32 → (s : List ℕ) × (put_dec v ≡ some s) × (read_dec s ≡ some v)
unfolding put_dec
read_dec-put_dec zero h = (b'0' ∷ [], refl, (unfold read_dec in refl))
read_dec-put_dec (suc v) h = (
  c_string (decimal_onto 11 (suc v) (0 ∷ [])),
  put_dec_loop-decimal 10 11 (suc v) blank_buffer (omega arith) (omega arith) (omega arith),
  read_dec-decimal 11 (suc v) (0 ∷ []) some (omega arith)
      (λ acc. unfold read_dec_onto c_string in refl),
)
