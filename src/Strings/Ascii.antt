-- ===== src/Strings/Ascii.antt =====
-- Bytes of payloads and of encodings, by position.
use pyrealm.Prelude.{
  ℕ, zero, suc, ◌+◌, ◌-◌, ◌≤◌, ◌<◌, ◌≡◌, refl, ◌∙◌, ap, [], ◌∷◌, ◌++◌, arith, length, get_or, take,
  drop, suc-add,
}
use pyrealm.Bytes.{Bytes, slice}
use pyrealm.Utf8.{encode_char}

-- The bytes of an encoding behind the first are no ASCII.
pub encode_char-tail :
    (c k : ℕ) → 0 < k → k < length (encode_char c) → 0x80 ≤ get_or (encode_char c) k 0
unfolding encode_char
encode_char-tail c zero h lt = absurd (omega arith)
encode_char-tail c (suc zero) h lt = ground arith
encode_char-tail c (suc (suc zero)) h lt = ground arith
encode_char-tail c (suc (suc (suc zero))) h lt = ground arith
encode_char-tail c (suc (suc (suc (suc k)))) h lt = ground arith

pub get_or-append_left :
    (xs ys : Bytes) (k : ℕ) → k < length xs → get_or (xs ++ ys) k 0 ≡ get_or xs k 0
get_or-append_left [] ys k h = absurd (omega arith)
get_or-append_left (x ∷ xs) ys zero h = refl
get_or-append_left (x ∷ xs) ys (suc k) h = get_or-append_left xs ys k (omega arith)

pub get_or-drop : (i k : ℕ) (xs : Bytes) → get_or (drop i xs) k 0 ≡ get_or xs (i + k) 0
get_or-drop zero k xs = ap (λ (n : ℕ). get_or xs n 0) (omega arith)
get_or-drop (suc i) k [] = refl
get_or-drop (suc i) k (x ∷ xs) =
    get_or-drop i k xs ∙ ap (λ (n : ℕ). get_or (x ∷ xs) n 0) (suc-add i k)

take-one : (i : ℕ) (xs : Bytes) → i < length xs → take 1 (drop i xs) ≡ get_or xs i 0 ∷ []
take-one i [] h = absurd (omega arith)
take-one zero (x ∷ xs) h = refl
take-one (suc i) (x ∷ xs) h = take-one i xs (omega arith)

pub slice-one : (xs : Bytes) (i : ℕ) → i < length xs → slice xs i (i + 1) ≡ get_or xs i 0 ∷ []
slice-one xs i h = let e : i + 1 - i ≡ 1 = omega arith in rw e (take-one i xs h)
