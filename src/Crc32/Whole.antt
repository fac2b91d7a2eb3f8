-- ===== src/Crc32/Whole.antt =====
-- The checksum of data fed in pieces, and of data with one byte changed.
use space_baremetal_skeleton.Common.{
  ℕ, ◌<◌, ◌≡◌, ◌≢◌, ap, sym, ◌∙◌, some, List, [], ◌∷◌, ◌++◌, arith, length, take-length, bit_xor,
}
use space_baremetal_skeleton.Common.Bits.{bit_xor-injective}
use space_baremetal_skeleton.Crc32.{
  crc32_init, crc32_byte, crc32_bytes, crc32_update, crc32_compute,
}
use space_baremetal_skeleton.Crc32.Injective.{
  IsWord, AreBytes, crc32_byte-lt, crc32_byte-detects, crc32_bytes-lt, crc32_bytes-injective,
  crc32_bytes-append,
}

crc32_update-bytes : (c : ℕ) (xs : List ℕ) → crc32_update c (some xs) (length xs) ≡ crc32_bytes c xs
unfolding crc32_update
crc32_update-bytes c xs = ap (crc32_bytes c) (take-length xs)

-- Feeding two buffers to `crc32_update`, one call after the other, is feeding it their concatenation.
pub crc32_update-append :
    (c : ℕ) (xs ys : List ℕ)
    → crc32_update (crc32_update c (some xs) (length xs)) (some ys) (length ys)
      ≡ crc32_update c (some (xs ++ ys)) (length (xs ++ ys))
crc32_update-append c xs ys = rw (
  crc32_update-bytes c xs,
  crc32_update-bytes (crc32_bytes c xs) ys,
  crc32_update-bytes c (xs ++ ys),
  crc32_bytes-append xs ys c,
)

-- The register behind some bytes, then one byte, then others.
register-differ :
    (c : ℕ) (xs ys : List ℕ) (x y : ℕ)
    → IsWord c
    → AreBytes xs
    → AreBytes ys
    → x < 256
    → y < 256
    → crc32_bytes c (xs ++ (x ∷ ys)) ≡ crc32_bytes c (xs ++ (y ∷ ys))
    → x ≡ y
unfolding crc32_bytes
register-differ c xs ys x y hc hxs hys hx hy e = crc32_byte-detects r x y word hx hy (
    crc32_bytes-injective ys (crc32_byte r x) (crc32_byte r y) hys (crc32_byte-lt r x word hx)
      (crc32_byte-lt r y word hy)
      (sym (crc32_bytes-append xs (x ∷ ys) c) ∙ e ∙ crc32_bytes-append xs (y ∷ ys) c))
  where
    r : ℕ
    r = crc32_bytes c xs

    word : IsWord r
    word = crc32_bytes-lt xs c hxs hc

AreBytes-append : (xs ys : List ℕ) → AreBytes xs → AreBytes ys → AreBytes (xs ++ ys)
AreBytes-append [] ys hx hy = hy
AreBytes-append (x ∷ xs) ys hx hy = (hx.0, AreBytes-append xs ys hx.1 hy)

-- `crc32_compute` tells any two buffers of bytes apart that differ in exactly one byte, wherever it is.
pub crc32_compute-detects :
    (xs ys : List ℕ) (x y : ℕ)
    → AreBytes xs
    → AreBytes ys
    → x < 256
    → y < 256
    → x ≢ y
    → crc32_compute (some (xs ++ (x ∷ ys))) (length (xs ++ (x ∷ ys)))
      ≢ crc32_compute (some (xs ++ (y ∷ ys))) (length (xs ++ (y ∷ ys)))
unfolding crc32_compute
crc32_compute-detects xs ys x y hxs hys hx hy differ e = differ (
    register-differ crc32_init xs ys x y (omega arith) hxs hys hx hy (
      bit_xor-injective 32 _ _ crc32_init
        (crc32_bytes-lt (xs ++ (x ∷ ys)) crc32_init (AreBytes-append xs (x ∷ ys) hxs (hx, hys))
          (omega arith))
        (crc32_bytes-lt (xs ++ (y ∷ ys)) crc32_init (AreBytes-append xs (y ∷ ys) hxs (hy, hys))
          (omega arith))
        (omega arith) (inverted x ∙ e ∙ sym (inverted y))))
  where
    inverted :
        (z : ℕ)
        → bit_xor (crc32_bytes crc32_init (xs ++ (z ∷ ys))) crc32_init
          ≡ bit_xor
              (crc32_update crc32_init (some (xs ++ (z ∷ ys))) (length (xs ++ (z ∷ ys))))
              crc32_init
    inverted z =
        ap (λ r. bit_xor r crc32_init) (sym (crc32_update-bytes crc32_init (xs ++ (z ∷ ys))))
