-- ===== src/TestStub/Storage.antt =====
-- The bytes of one item leave those of the others alone.
use space_baremetal_skeleton.Common.{
  ℕ, zero, suc, ◌+◌, ◌*◌, ◌<◌, ◌≤◌, ◌≡◌, ◌≢◌, ◌⊎◌, inl, inr, refl, ◌∙◌, List, [], ◌∷◌, arith,
  length, get_or, set, length-set, get_or-set_self, get_or-set_ne,
}
use mathlib.Core.Path.{ap₂}
use native.Mathlib.Nat.{mul-le-mul_right, add-mul}
use space_baremetal_skeleton.TestStub.{put, slice}

pub length-put : (st : List ℕ) (at : ℕ) (bytes : List ℕ) → length (put st at bytes) ≡ length st
unfolding put
length-put st at [] = refl
length-put st at (b ∷ bytes) = length-put (set st at b) (at + 1) bytes ∙ length-set st at b

-- Outside the bytes written nothing changes.
get_or-put :
    (st : List ℕ) (at : ℕ) (bytes : List ℕ) (j : ℕ)
    → (j < at) ⊎ (at + length bytes ≤ j)
    → get_or (put st at bytes) j 0 ≡ get_or st j 0
unfolding put
get_or-put st at [] j h = refl
get_or-put st at (b ∷ bytes) j h =
    get_or-put (set st at b) (at + 1) bytes j (omega arith)
    ∙ get_or-set_ne st at j b 0 (omega arith)

slice-same :
    (st tt : List ℕ) (at n : ℕ)
    → ((j : ℕ) → at ≤ j → j < at + n → get_or st j 0 ≡ get_or tt j 0)
    → slice st at n ≡ slice tt at n
unfolding slice
slice-same st tt at zero h = refl
slice-same st tt at (suc n) h =
    ap₂ ◌∷◌ (h at (omega arith) (omega arith))
      (slice-same st tt (at + 1) n (λ j lo hi. h j (omega arith) (omega arith)))

pub slice-put_apart :
    (st : List ℕ) (at : ℕ) (bytes : List ℕ) (from n : ℕ)
    → (from + n ≤ at) ⊎ (at + length bytes ≤ from)
    → slice (put st at bytes) from n ≡ slice st from n
slice-put_apart st at bytes from n apart =
    slice-same (put st at bytes) st from n (λ j lo hi. get_or-put st at bytes j (omega arith))

pub slice-put :
    (st : List ℕ) (at : ℕ) (bytes : List ℕ)
    → at + length bytes ≤ length st
    → slice (put st at bytes) at (length bytes) ≡ bytes
unfolding slice put
slice-put st at [] h = refl
slice-put st at (b ∷ bytes) h =
    let size = length-set st at b in
    ap₂ ◌∷◌
      (get_or-put (set st at b) (at + 1) bytes at (omega arith)
        ∙ get_or-set_self st at b 0 (omega arith))
      (slice-put (set st at b) (at + 1) bytes (omega arith))

-- Two slots of the same size lie apart.
pub slots_apart :
    (i j size : ℕ) → i ≢ j → (i * size + size ≤ j * size) ⊎ (j * size + size ≤ i * size)
slots_apart i j size h = by_order (ℕ_order i j h)
  where
    ℕ_order : (i j : ℕ) → i ≢ j → (i + 1 ≤ j) ⊎ (j + 1 ≤ i)
    ℕ_order i j h = omega arith

    by_order :
        (i + 1 ≤ j) ⊎ (j + 1 ≤ i) → (i * size + size ≤ j * size) ⊎ (j * size + size ≤ i * size)
    by_order (inl below) = inl (omega (arith, mul-le-mul_right size below, add-mul i 1 size))
    by_order (inr above) = inr (omega (arith, mul-le-mul_right size above, add-mul j 1 size))
