-- ===== src/Utf8.antt =====
-- What `_utf8_strings` uses of `bytes.decode("utf-8")`: the strict decoding of one code point. A
-- slice that begins with a lead byte and is no longer than that byte's sequence decodes to one code
-- point or raises `UnicodeDecodeError`, which is `none` here.
pub mod Exact
use pyrealm.Prelude.{
  ℕ, ◌+◌, ◌-◌, ◌*◌, ◌/◌, ◌%◌, Bool, true, false, ◌&&◌, ◌||◌, Option, none, some, List, [], ◌∷◌,
  ◌++◌, ltb, leb, if◌then◌else◌,
}
use pyrealm.Bytes.{Bytes}

-- 10xxxxxx
abbrev pub is_continuation : ℕ → Bool
is_continuation b = leb 0x80 b && ltb b 0xC0

-- A code point that UTF-8 can encode: no surrogate.
abbrev pub is_scalar : ℕ → Bool
is_scalar c = ltb c 0xD800 || (leb 0xE000 c && ltb c 0x110000)

decode_two : ℕ → ℕ → Option ℕ
decode_two a b =
    let c = (a - 0xC0) * 64 + (b - 0x80) in
    if leb 0xC0 a && (ltb a 0xE0 && (is_continuation b && leb 0x80 c)) then some c else none

decode_three : ℕ → ℕ → ℕ → Option ℕ
decode_three a b c =
    let p = (a - 0xE0) * 4096 + (b - 0x80) * 64 + (c - 0x80) in
    if leb 0xE0 a
      && (ltb a 0xF0 && (is_continuation b && (is_continuation c && (leb 0x800 p && is_scalar p))))
    then some p
    else none

decode_four : ℕ → ℕ → ℕ → ℕ → Option ℕ
decode_four a b c d =
    let p = (a - 0xF0) * 262144 + (b - 0x80) * 4096 + (c - 0x80) * 64 + (d - 0x80) in
    if leb 0xF0 a
      && (ltb a 0xF8
          && (is_continuation b
              && (is_continuation c && (is_continuation d && (leb 0x10000 p && is_scalar p)))))
    then some p
    else none

unfoldable pub decode_char : Bytes → Option ℕ
unfolding decode_two decode_three decode_four
decode_char [] = none
decode_char (a ∷ []) = if ltb a 0x80 then some a else none
decode_char (a ∷ b ∷ []) = decode_two a b
decode_char (a ∷ b ∷ c ∷ []) = decode_three a b c
decode_char (a ∷ b ∷ c ∷ d ∷ []) = decode_four a b c d
decode_char (a ∷ b ∷ c ∷ d ∷ e ∷ xs) = none

-- The encoding, as RFC 3629 tabulates it.
unfoldable pub encode_char : ℕ → Bytes
encode_char c =
    if ltb c 0x80
    then c ∷ []
    else if ltb c 0x800
    then (0xC0 + c / 64) ∷ (0x80 + c % 64) ∷ []
    else if ltb c 0x10000
    then (0xE0 + c / 4096) ∷ (0x80 + c / 64 % 64) ∷ (0x80 + c % 64) ∷ []
    else (0xF0 + c / 262144) ∷ (0x80 + c / 4096 % 64) ∷ (0x80 + c / 64 % 64) ∷ (0x80 + c % 64) ∷ []

unfoldable pub encode : List ℕ → Bytes
encode [] = []
encode (c ∷ cs) = encode_char c ++ encode cs
