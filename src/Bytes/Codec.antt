-- ===== src/Bytes/Codec.antt =====
-- The codecs of fixed-width integers.
use pyrealm.Prelude.{
  ℕ, zero, suc, ◌+◌, ◌*◌, ◌/◌, ◌^◌, ◌≤◌, ◌<◌, ◌≡◌, refl, [], ◌∷◌, arith, length, take, drop, ◌-◌,
  get_or, length-take, length-append, drop-append, drop-drop, ◌++◌,
}
use pyrealm.Bytes.{Bytes, IsBytes, le_value, le_bytes, be_value, slice, unpack_qq}
use native.Mathlib.Nat.{pow-suc, pow-le-pow_right, lt_of_lt_of_le}

pub length-le_bytes : (n x : ℕ) → length (le_bytes n x) ≡ n
length-le_bytes zero x = refl
length-le_bytes (suc n) x = omega (arith, length-le_bytes n (x / 256))

-- Decoding what was encoded gives the number back, when the width can hold it.
pub le_value-le_bytes : (n x : ℕ) → x < 256 ^ n → le_value (le_bytes n x) ≡ x
le_value-le_bytes zero x h = omega arith
le_value-le_bytes (suc n) x h =
    omega (arith, pow-suc 256 n, le_value-le_bytes n (x / 256) (omega (arith, pow-suc 256 n)))

pub le_value-lt : (bs : Bytes) → IsBytes bs → le_value bs < 256 ^ length bs
le_value-lt [] h = omega arith
le_value-lt (b ∷ bs) h = omega (arith, pow-suc 256 (length bs), le_value-lt bs h.1)

mul_mono : (a b p : ℕ) → a ≤ b → a * p ≤ b * p
mul_mono a b p h = grind arith

be_step : (acc b p : ℕ) → b < 256 → (acc * 256 + b + 1) * p ≤ (acc + 1) * (p * 256)
be_step acc b p h =
    let step : (acc * 256 + b + 1) * p ≤ ((acc + 1) * 256) * p =
      mul_mono (acc * 256 + b + 1) ((acc + 1) * 256) p (omega arith) in
    omega arith

-- A big-endian value continues the value of the bytes before.
pub be_value-lt :
    (acc : ℕ) (bs : Bytes) → IsBytes bs → be_value acc bs < (acc + 1) * 256 ^ length bs
be_value-lt acc [] h = omega arith
be_value-lt acc (b ∷ bs) h =
    lt_of_lt_of_le (be_value-lt (acc * 256 + b) bs h.1)
      (rw pow-suc (be_step acc b (256 ^ length bs) h.0))

pub take-IsBytes : (n : ℕ) (xs : Bytes) → IsBytes xs → IsBytes (take n xs)
take-IsBytes zero xs h = tt
take-IsBytes (suc n) [] h = tt
take-IsBytes (suc n) (x ∷ xs) h = (h.0, take-IsBytes n xs h.1)

pub drop-IsBytes : (n : ℕ) (xs : Bytes) → IsBytes xs → IsBytes (drop n xs)
drop-IsBytes zero xs h = h
drop-IsBytes (suc n) [] h = tt
drop-IsBytes (suc n) (x ∷ xs) h = drop-IsBytes n xs h.1

pub get_or-lt : (xs : Bytes) (i : ℕ) → IsBytes xs → get_or xs i 0 < 256
get_or-lt [] i h = omega arith
get_or-lt (x ∷ xs) zero h = h.0
get_or-lt (x ∷ xs) (suc i) h = get_or-lt xs i h.1

pub le_value-slice-lt :
    (xs : Bytes) (i j : ℕ) → IsBytes xs → le_value (slice xs i j) < 256 ^ (j - i)
le_value-slice-lt xs i j h =
    let part =
      le_value-lt (slice xs i j) (take-IsBytes (j - i) (drop i xs) (drop-IsBytes i xs h)) in
    lt_of_lt_of_le part
      (pow-le-pow_right {n = 256} (omega arith) (omega (arith, length-take (j - i) (drop i xs))))

-- Two 64-bit numbers behind any bytes, read from the end.
pub unpack_qq-footer :
    (xs : Bytes) (a b : ℕ)
    → a < 2 ^ 64
    → b < 2 ^ 64
    → let whole = xs ++ (le_bytes 8 a ++ le_bytes 8 b) in
      unpack_qq whole (length whole - 16) ≡ (a, b)
unpack_qq-footer xs a b ha hb =
    rw (at, width, width', ← shifted, drop-append)
      (rw (le_value-le_bytes 8 a ha, le_value-le_bytes 8 b hb) refl)
  where
    footer : Bytes
    footer = le_bytes 8 a ++ le_bytes 8 b

    at : length (xs ++ (le_bytes 8 a ++ le_bytes 8 b)) - 16 ≡ length xs
    at = omega (arith, length-append xs footer)

    width : length xs + 8 - length xs ≡ 8
    width = omega arith

    width' : length xs + 16 - (length xs + 8) ≡ 8
    width' = omega arith

    shifted : drop 8 (drop (length xs) (xs ++ footer)) ≡ drop (length xs + 8) (xs ++ footer)
    shifted = drop-drop 8 (length xs) (xs ++ footer)
