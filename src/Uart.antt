-- ===== src/Uart.antt =====
-- The console driver, src/uart.c: what each output routine transmits, as a list of bytes, and the
-- polling of the line status register by the two byte routines.
pub mod Decimal
pub mod Hex
pub mod Polling
mod Tests
use space_baremetal_skeleton.Common.{
  ℕ, zero, suc, ◌+◌, ◌-◌, ◌*◌, ◌/◌, ◌%◌, ◌^◌, bit_and, Bool, true, false, not, Option, none, some,
  List, [], ◌∷◌, ◌++◌, ◌==◌, if◌then◌else◌, get_or, set, drop, take, codes,
}
use space_baremetal_skeleton.Common.Words.{u8}

-- `uart_puts`: the bytes of a C string, up to its terminator.
unfoldable pub c_string : List ℕ → List ℕ
c_string [] = []
c_string (zero ∷ s) = []
c_string (suc c ∷ s) = suc c ∷ c_string s

-- The conversion loop of `uart_put_dec`. `none`: the buffer is used up or the fuel is.
unfoldable pub put_dec_loop : ℕ → ℕ → ℕ → List ℕ → Option (ℕ × List ℕ)
put_dec_loop zero value i buf = none
put_dec_loop (suc fuel) zero i buf = some (i, buf)
put_dec_loop (suc fuel) (suc v) zero buf = none
put_dec_loop (suc fuel) (suc v) (suc i) buf =
    put_dec_loop fuel (suc v / 10) i (set buf i (b'0' + suc v % 10))

abbrev pub blank_buffer : List ℕ
blank_buffer = 0 ∷ 0 ∷ 0 ∷ 0 ∷ 0 ∷ 0 ∷ 0 ∷ 0 ∷ 0 ∷ 0 ∷ 0 ∷ []

abbrev pub printed_from : Option (ℕ × List ℕ) → Option (List ℕ)
printed_from none = none
printed_from (some (i, buf)) = some (c_string (drop i buf))

-- `uart_put_dec`; `char buf[11]`, and at most ten rounds of the loop.
unfoldable pub put_dec : ℕ → Option (List ℕ)
unfolding put_dec_loop
put_dec zero = some (b'0' ∷ [])
put_dec (suc v) = printed_from (put_dec_loop 11 (suc v) 10 blank_buffer)

abbrev pub hex_chars : List ℕ
hex_chars = codes "0123456789ABCDEF"

-- The loop of `uart_put_hex`; the first argument is `i + 1`.
unfoldable pub put_hex_from : ℕ → ℕ → List ℕ
put_hex_from zero value = []
put_hex_from (suc i) value =
    get_or hex_chars (bit_and (u8 (value / 2 ^ (i * 4))) 15) 0 ∷ put_hex_from i value

unfoldable pub put_hex : ℕ → List ℕ
unfolding put_hex_from
put_hex value = put_hex_from 8 value

unfoldable pub put_hex8 : ℕ → List ℕ
put_hex8 value =
    get_or hex_chars (bit_and (value / 2 ^ 4) 15) 0 ∷ get_or hex_chars (bit_and value 15) 0 ∷ []

abbrev pub crlf : List ℕ
crlf = 13 ∷ 10 ∷ []

-- The loop of `uart_hex_dump` over the bytes from index `i` on.
unfoldable pub hex_dump_from : ℕ → List ℕ → List ℕ
hex_dump_from i [] = crlf
hex_dump_from i (x ∷ xs) =
    put_hex8 x ++ (b' ' ∷ ((if (i + 1) % 16 == 0 then crlf else []) ++ hex_dump_from (i + 1) xs))

unfoldable pub hex_dump : List ℕ → ℕ → List ℕ
unfolding hex_dump_from
hex_dump xs len = hex_dump_from 0 (take len xs)

-- The registers: what successive reads of the line status register give, what the receiver holds,
-- and the bytes written to the transmitter.
pub record Registers : Type 0 where
  pub lsr : List ℕ
  pub rx : List ℕ
  pub tx : List ℕ

-- `UART_LSR_THRE` and `UART_LSR_DR`
abbrev pub lsr_thre : ℕ
lsr_thre = 0x20

abbrev pub lsr_dr : ℕ
lsr_dr = 0x01

-- `while ((uart[5] & mask) == 0) {}`; `none` while no read has shown the flag.
unfoldable pub poll : ℕ → List ℕ → Option (List ℕ)
poll mask [] = none
poll mask (r ∷ reads) = if bit_and r mask == 0 then poll mask reads else some reads

unfoldable pub putc : ℕ → Registers → Option Registers
putc c u = elim (poll lsr_thre u.lsr) [
  | none ↦ none
  | some rest ↦ some (record u { lsr = rest; tx = u.tx ++ (u8 c ∷ []) })
]

-- `uart_puts` over the memory at its pointer, up to the terminator; a list without one stands for a string
-- whose terminator is behind it.
unfoldable pub puts : List ℕ → Registers → Option Registers
puts [] u = some u
puts (zero ∷ s) u = some u
puts (suc c ∷ s) u = elim (putc (suc c) u) [ none ↦ none | some v ↦ puts s v ]

abbrev pub byte_ready : List ℕ → Bool
byte_ready [] = false
byte_ready (r ∷ reads) = not (bit_and r lsr_dr == 0)

-- `uart_rx_ready`: one read of the status register.
unfoldable pub rx_ready : Registers → Bool × Registers
rx_ready u = (byte_ready u.lsr, record u { lsr = drop 1 u.lsr })

-- `uart_getc`
unfoldable pub getc : Registers → Option (ℕ × Registers)
getc u = elim (poll lsr_dr u.lsr) [
  | none ↦ none
  | some rest ↦ some (get_or u.rx 0 0, record u { lsr = rest; rx = drop 1 u.rx })
]
