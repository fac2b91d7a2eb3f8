-- ===== src/TestStub/Around.antt =====
-- Slots that go round at the length of a queue.
use space_baremetal_skeleton.Common.{
  ℕ, suc, ◌+◌, ◌-◌, ◌*◌, ◌%◌, ◌<◌, ◌≤◌, ◌≡◌, ◌≢◌, ◌∙◌, arith, true, false, ltb, if◌then◌else◌,
}
use native.Mathlib.Decide.{dec_lt}
use native.Mathlib.Nat.{mul-le-mul, add-mul, mod-eq_of_lt, mod-eq-sub-mod}

-- A number below twice the length, taken modulo the length.
abbrev pub around : ℕ → ℕ → ℕ
around len x = if ltb x len then x else x - len

pub mod_around : (len x : ℕ) → x < len + len → x % len ≡ around len x
mod_around len x h = elim (dec_lt x len) [
  | yes low ↦ let below : ltb x len ≡ true = ground arith in rw below (mod-eq_of_lt low)
  | no high ↦
      let wraps : ltb x len ≡ false = ground arith in
      rw wraps (mod-eq-sub-mod (omega arith) ∙ mod-eq_of_lt (omega arith))
]

pub around_lt : (len i : ℕ) → i < len → around len (i + 1) < len
around_lt len i h = ground arith

pub around-suc :
    (len i n j : ℕ)
    → i < len
    → suc n < len
    → j ≡ around len (i + suc n)
    → j ≡ around len (around len (i + 1) + n)
around-suc len i n j hi hn e = ground arith

pub around_apart : (len i n j : ℕ) → i < len → suc n < len → j ≡ around len (i + suc n) → i ≢ j
around_apart len i n j hi hn e same = ground arith

pub slot_in : (j len size : ℕ) → j < len → len ≤ 8 → size ≤ 64 → j * size + size ≤ 512
slot_in j len size h l z =
    let last : j + 1 ≤ 8 = omega arith in
    let bound : (j + 1) * size ≤ 8 * 64 = mul-le-mul last z in
    omega (arith, bound, add-mul j 1 size)

pub tail_sent :
    (len head count : ℕ)
    → head < len
    → count < len
    → around len (around len (head + 1) + len - (count + 1)) ≡ around len (head + len - count)
tail_sent len head count h c = ground arith

pub tail_received :
    (len head count : ℕ)
    → head < len
    → 0 < count
    → count ≤ len
    → around len (head + len - (count - 1)) ≡ around len (around len (head + len - count) + 1)
tail_received len head count h z c = ground arith

pub head_behind :
    (len head count : ℕ)
    → head < len
    → count < len
    → head ≡ around len (around len (head + len - count) + count)
head_behind len head count h c = ground arith

pub tail_in :
    (len head count : ℕ) → head < len → count ≤ len → around len (head + len - count) < len
tail_in len head count h c = ground arith
