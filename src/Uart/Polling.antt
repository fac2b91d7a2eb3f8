-- ===== src/Uart/Polling.antt =====
-- The polling of `uart_putc`: nothing is sent before the transmitter is free, and all is sent once it is.
use space_baremetal_skeleton.Common.{
  ℕ, zero, suc, ◌+◌, ◌≤◌, ◌<◌, ◌≡◌, refl, ◌∙◌, sym, none, some, List, [], ◌∷◌, ◌++◌, arith, length,
  ◌==◌, if◌then◌else◌, bit_and, Bool-cases, inl, inr,
}
use space_baremetal_skeleton.Common.Words.{u8}
use space_baremetal_skeleton.Uart.{c_string, Registers, lsr_thre, poll, putc, puts}
use mathlib.Core.List.{map, append_assoc, append-nil}

-- How many of the status reads show the transmitter free.
unfoldable pub ready_reads : List ℕ → ℕ
ready_reads [] = 0
ready_reads (r ∷ reads) = (if bit_and r lsr_thre == 0 then 0 else 1) + ready_reads reads

-- What is left of the reads after one poll that succeeds.
poll-ready :
    (reads : List ℕ)
    → 0 < ready_reads reads
    → (rest : List ℕ) × (poll lsr_thre reads ≡ some rest)
      × (suc (ready_reads rest) ≡ ready_reads reads)
unfolding poll ready_reads
poll-ready [] h = absurd (omega arith)
poll-ready (r ∷ reads) h = elim (Bool-cases (bit_and r lsr_thre == 0)) [
  | inl busy ↦ rw busy (skip (poll-ready reads (ground (arith, busy))))
  | inr free ↦ rw free (reads, refl, omega arith)
]
  where
    skip :
        (rest : List ℕ) × (poll lsr_thre reads ≡ some rest)
          × (suc (ready_reads rest) ≡ ready_reads reads)
        → (rest : List ℕ) × (poll lsr_thre reads ≡ some rest)
          × (suc (ready_reads rest) ≡ 0 + ready_reads reads)
    skip (rest, e, n) = (rest, e, omega arith)

poll-busy : (reads : List ℕ) → ready_reads reads ≡ 0 → poll lsr_thre reads ≡ none
unfolding poll ready_reads
poll-busy [] h = refl
poll-busy (r ∷ reads) h = ground (arith, poll-busy reads)

-- The state in which `uart_puts` returns, with what it has transmitted.
abbrev pub Sent : List ℕ → Registers → Type 0
Sent s u =
    (v : Registers) × (puts s u ≡ some v)
    × (v.tx ≡ u.tx ++ map u8 (c_string s))
    × (v.rx ≡ u.rx)
    × (ready_reads v.lsr + length (c_string s) ≡ ready_reads u.lsr)

Sent-cons :
    (c : ℕ) (s : List ℕ) (u : Registers) (rest : List ℕ)
    → poll lsr_thre u.lsr ≡ some rest
    → suc (ready_reads rest) ≡ ready_reads u.lsr
    → Sent s (record u { lsr = rest; tx = u.tx ++ (u8 (suc c) ∷ []) })
    → Sent (suc c ∷ s) u
unfolding puts putc c_string
Sent-cons c s u rest polled fewer (v, done, tx, rx, left) = (
  v,
  rw (polled, puts, putc) done,
  tx ∙ append_assoc u.tx (u8 (suc c) ∷ []) (map u8 (c_string s)),
  rx,
  omega arith,
)

-- When at least as many status reads show the transmitter free as there are bytes before the
-- terminator, the string output returns, has transmitted these bytes in order, each as one byte,
-- and has used one free read for each.
pub puts-ready : (s : List ℕ) (u : Registers) → length (c_string s) ≤ ready_reads u.lsr → Sent s u
unfolding puts c_string
puts-ready [] u h = (u, refl, sym (append-nil u.tx), refl, omega arith)
puts-ready (zero ∷ s) u h = (u, refl, sym (append-nil u.tx), refl, omega arith)
puts-ready (suc c ∷ s) u h =
    let p = poll-ready u.lsr (omega arith) in
    Sent-cons c s u p.0 p.1 p.2
      (puts-ready s (record u { lsr = p.0; tx = u.tx ++ (u8 (suc c) ∷ []) }) (omega (arith, p.2)))

-- Without enough free status reads `uart_puts` does not return.
pub puts-busy :
    (s : List ℕ) (u : Registers) → ready_reads u.lsr < length (c_string s) → puts s u ≡ none
unfolding puts putc c_string
puts-busy [] u h = absurd (omega arith)
puts-busy (zero ∷ s) u h = absurd (omega arith)
puts-busy (suc c ∷ s) u h = elim (Bool-cases (ready_reads u.lsr == 0)) [
  | inl stuck ↦ rw (poll-busy u.lsr (ground arith), puts, putc)
  | inr free ↦
      let p = poll-ready u.lsr (ground arith) in
      rw (p.1, puts, putc)
        (puts-busy s (record u { lsr = p.0; tx = u.tx ++ (u8 (suc c) ∷ []) }) (omega (arith, p.2)))
]
