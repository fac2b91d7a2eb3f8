-- ===== src/Uart/Tests.antt =====
-- The theorems on the console at concrete values.
use space_baremetal_skeleton.Common.{ℕ, ◌≡◌, refl, some, List, [], ◌∷◌, codes, arith}
use space_baremetal_skeleton.Uart.{c_string, put_dec, put_hex, Registers, puts, putc, poll, getc}
use space_baremetal_skeleton.Uart.Decimal.{read_dec, read_dec-put_dec}
use space_baremetal_skeleton.Uart.Polling.{ready_reads, Sent, puts-ready}

put_dec_largest : put_dec 4294967295 ≡ some (codes "4294967295")
unfolding put_dec c_string
put_dec_largest = refl

put_hex_sample : put_hex 0x1a2b3c4d ≡ codes "1A2B3C4D"
unfolding put_hex
put_hex_sample = refl

-- A transmitter that is busy for one read, then free for two.
abbrev line : Registers
line = record { lsr = 0x01 ∷ 0x20 ∷ 0x60 ∷ []; rx = b's' ∷ []; tx = [] }

puts_sample : puts (b'o' ∷ b'k' ∷ []) line ≡ some (record line { lsr = []; tx = b'o' ∷ b'k' ∷ [] })
unfolding puts putc poll
puts_sample = refl

getc_sample : getc line ≡ some (b's', record line { lsr = 0x20 ∷ 0x60 ∷ []; rx = [] })
unfolding getc poll
getc_sample = refl

read_dec-put_dec_example :
    (s : List ℕ) × (put_dec 4294967295 ≡ some s) × (read_dec s ≡ some 4294967295)
read_dec-put_dec_example = read_dec-put_dec 4294967295 (omega arith)

puts-ready_example : Sent (b'o' ∷ b'k' ∷ 0 ∷ b'x' ∷ []) line
puts-ready_example =
    puts-ready (b'o' ∷ b'k' ∷ 0 ∷ b'x' ∷ []) line (unfold ready_reads c_string in omega arith)
