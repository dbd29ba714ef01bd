-- ===== src/Utf8/Exact.antt =====
-- The decoder of one code point, for `_utf8_strings` in src/pyrealm_forensics/parser.py,
-- against the encoder.
use pyrealm.Prelude.{ℕ, ◌≡◌, true, some, [], ◌∷◌, arith, ltb, Bool-cases, inl, inr}
use pyrealm.Bytes.{Bytes}
use pyrealm.Utf8.{is_scalar, decode_char, encode_char}

-- Decoding the UTF-8 encoding of a Unicode scalar value gives the value.
pub decode_char-encode_char : (c : ℕ) → is_scalar c ≡ true → decode_char (encode_char c) ≡ some c
unfolding decode_char encode_char
decode_char-encode_char c h = elim (Bool-cases (ltb c 0x80)) [
  | inl one ↦ rw one (ground arith)
  | inr wide ↦ elim (Bool-cases (ltb c 0x800)) [
    | inl two ↦ rw (wide, two) (ground arith)
    | inr wider ↦ elim (Bool-cases (ltb c 0x10000)) [
      | inl three ↦ rw (wide, wider, three) (ground arith)
      | inr four ↦ rw (wide, wider, four) (ground arith)
    ]
  ]
]

-- What decodes to a code point is its UTF-8 encoding: no other bytes, overlong ones included,
-- decode to it.
pub encode_char-decode_char : (bs : Bytes) (c : ℕ) → decode_char bs ≡ some c → encode_char c ≡ bs
unfolding decode_char encode_char
encode_char-decode_char [] c h = cc
encode_char-decode_char (a ∷ []) c h = ground arith
encode_char-decode_char (a ∷ b ∷ []) c h = ground arith
encode_char-decode_char (a ∷ b ∷ d ∷ []) c h = ground arith
encode_char-decode_char (a ∷ b ∷ d ∷ e ∷ []) c h = ground arith
encode_char-decode_char (a ∷ b ∷ d ∷ e ∷ f ∷ xs) c h = cc
