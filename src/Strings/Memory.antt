-- ===== src/Strings/Memory.antt =====
-- What the routines that write leave in memory.
use space_baremetal_skeleton.Common.{
  ℕ, zero, suc, ◌+◌, ◌≤◌, ◌<◌, ◌≡◌, ◌≢◌, ◌⊎◌, refl, ap, ◌∙◌, arith,
}
use native.Mathlib.Decide.{ℕ_discrete}
use space_baremetal_skeleton.Common.Words.{u8}
use space_baremetal_skeleton.Strings.{Memory, write, memset, memcpy}

write_same : (m : Memory) (p v : ℕ) → write m p v p ≡ v
unfolding write
write_same m p v = ground arith

write_other : (m : Memory) (p v x : ℕ) → x ≢ p → write m p v x ≡ m x
unfolding write
write_other m p v x h = ground arith

memset-outside : (n : ℕ) (m : Memory) (s c x : ℕ) → (x < s) ⊎ (s + n ≤ x) → memset m s c n x ≡ m x
unfolding memset
memset-outside zero m s c x h = refl
memset-outside (suc n) m s c x h =
    memset-outside n (write m s (u8 c)) (s + 1) c x (omega arith)
    ∙ write_other m s (u8 c) x (omega arith)

memset-inside : (n : ℕ) (m : Memory) (s c x : ℕ) → s ≤ x → x < s + n → memset m s c n x ≡ u8 c
unfolding memset
memset-inside zero m s c x h k = absurd (omega arith)
memset-inside (suc n) m s c x h k = elim (ℕ_discrete x s) [
  | yes e ↦
      memset-outside n (write m s (u8 c)) (s + 1) c x (omega arith)
      ∙ ap (write m s (u8 c)) e
      ∙ write_same m s (u8 c)
  | no past ↦ memset-inside n (write m s (u8 c)) (s + 1) c x (omega arith) (omega arith)
]

-- `memset` puts the byte of `c` into each of the `n` addresses from `s` on and changes no other address.
pub memset_lem :
    (m : Memory) (s c n x : ℕ)
    → (s ≤ x → x < s + n → memset m s c n x ≡ u8 c)
      × ((x < s) ⊎ (s + n ≤ x) → memset m s c n x ≡ m x)
memset_lem m s c n x = (memset-inside n m s c x, memset-outside n m s c x)

memcpy-outside :
    (n : ℕ) (m : Memory) (dest src x : ℕ)
    → (x < dest) ⊎ (dest + n ≤ x)
    → memcpy m dest src n x ≡ m x
unfolding memcpy
memcpy-outside zero m dest src x h = refl
memcpy-outside (suc n) m dest src x h =
    memcpy-outside n (write m dest (m src)) (dest + 1) (src + 1) x (omega arith)
    ∙ write_other m dest (m src) x (omega arith)

memcpy-inside :
    (n : ℕ) (m : Memory) (dest src i : ℕ)
    → (dest ≤ src) ⊎ (src + n ≤ dest)
    → i < n
    → memcpy m dest src n (dest + i) ≡ m (src + i)
unfolding memcpy
memcpy-inside zero m dest src i apart h = absurd (omega arith)
memcpy-inside (suc n) m dest src zero apart h =
    memcpy-outside n (write m dest (m src)) (dest + 1) (src + 1) (dest + 0) (omega arith)
    ∙ ap (write m dest (m src)) (omega arith)
    ∙ write_same m dest (m src)
    ∙ ap m (omega arith)
memcpy-inside (suc n) m dest src (suc i) apart h =
    ap (memcpy (write m dest (m src)) (dest + 1) (src + 1) n) (omega arith)
    ∙ memcpy-inside n (write m dest (m src)) (dest + 1) (src + 1) i (omega arith) (omega arith)
    ∙ write_other m dest (m src) (src + 1 + i) (omega arith)
    ∙ ap m (omega arith)

-- When the destination does not start inside the source behind its first byte, `memcpy` leaves at each of
-- `n` addresses the byte that the source had before, and it changes no address outside the destination.
pub memcpy_lem :
    (m : Memory) (dest src n : ℕ)
    → (dest ≤ src) ⊎ (src + n ≤ dest)
    → ((i : ℕ) → i < n → memcpy m dest src n (dest + i) ≡ m (src + i))
      × ((x : ℕ) → (x < dest) ⊎ (dest + n ≤ x) → memcpy m dest src n x ≡ m x)
memcpy_lem m dest src n apart =
    (λ i h. memcpy-inside n m dest src i apart h, λ x h. memcpy-outside n m dest src x h)
