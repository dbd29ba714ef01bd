-- ===== src/Strings/Complete.antt =====
-- What `_extract_strings` in src/pyrealm_forensics/parser.py does not miss.
use pyrealm.Prelude.{
  ℕ, suc, ◌+◌, ◌-◌, ◌*◌, ◌/◌, ◌≤◌, ◌≡◌, refl, ◌∙◌, ap, Bool, true, false, List, [], ◌∷◌, ◌++◌,
  arith, leb, length, length-append, length-take, length-drop, drop, All, inl, inr,
}
use pyrealm.Bytes.{Bytes, slice}
use pyrealm.Models.{ArrayNode, CarvedString, utf8, utf16le}
use pyrealm.Layout.{array_header_size}
use pyrealm.Utf8.{encode}
use pyrealm.Strings.{
  utf8_strings, strings_of, strings_loop, extract_strings, utf16_strings, is_ascii_print,
}
use pyrealm.Strings.Any.{Any, Any-append_left, Any-append_right, Any-map}
use pyrealm.Strings.Utf16Runs.{wide}
use pyrealm.Strings.Utf16Cover.{CoversPairs, utf16_strings-CoversPairs}
use pyrealm.Strings.Utf8Cover.{IsStretch, Covers, utf8_strings-Covers}

-- The payload of an array.
abbrev pub payload_of : Bytes → ArrayNode → Bytes
payload_of xs node =
    let payload_start = node.offset + array_header_size in
    slice xs payload_start (payload_start + node.payload_size)

-- A carved string of an array that covers so many bytes of the file from one on.
pub record IsCover (array at n : ℕ) (s : CarvedString) : Type 0 where
  pub of_array : s.array_offset ≡ array
  pub in_utf8 : s.encoding ≡ utf8
  pub starts : s.file_offset ≤ at
  pub ends : at + n ≤ s.file_offset + length (encode s.value)

-- An array whose payload holds a stretch of text.
pub record HasStretch (isprintable : ℕ → Bool) (xs : Bytes) (minimum array a n : ℕ)
    (node : ArrayNode) : Type 0 where
  pub offset : node.offset ≡ array
  pub data_array : node.has_refs ≡ false
  pub stretch : IsStretch isprintable (payload_of xs node) minimum a n

module _ (isprintable : ℕ → Bool) (xs : Bytes) (minimum array a n : ℕ) where
  abbrev IsFound : CarvedString → Type 0
  IsFound = IsCover array (array + array_header_size + a) n

  strings_of-IsFound :
      (wide_too : Bool) (node : ArrayNode)
      → HasStretch isprintable xs minimum array a n node
      → Any IsFound (strings_of isprintable xs minimum wide_too node)
  unfolding strings_of
  strings_of-IsFound wide_too node h = rw h.data_array (
      Any-append_left IsFound _ _ (
        Any-map (Covers a n) IsFound _ (utf8_strings isprintable (payload_of xs node) minimum)
          (λ run covers. record {
            of_array = h.offset;
            in_utf8 = refl;
            starts = omega (arith, h.offset, covers);
            ends = omega (arith, h.offset, covers);
          })
          (utf8_strings-Covers isprintable (payload_of xs node) minimum a n h.stretch)))

  strings_loop-IsFound :
      (wide_too : Bool) (nodes : List ArrayNode)
      → Any (HasStretch isprintable xs minimum array a n) nodes
      → Any IsFound (strings_loop isprintable xs minimum wide_too nodes)
  unfolding strings_loop
  strings_loop-IsFound wide_too [] h = absurd h
  strings_loop-IsFound wide_too (node ∷ nodes) (inl h) =
      Any-append_left IsFound (strings_of isprintable xs minimum wide_too node) _
        (strings_of-IsFound wide_too node h)
  strings_loop-IsFound wide_too (node ∷ nodes) (inr h) =
      Any-append_right IsFound (strings_of isprintable xs minimum wide_too node) _
        (strings_loop-IsFound wide_too nodes h)

  -- A stretch of printable ASCII bytes at least as long as the minimum, in the payload of an array
  -- without references among those given, is covered by a carved string of this array.
  pub extract_strings-IsCover :
      (nodes : List ArrayNode)
      → Any (HasStretch isprintable xs minimum array a n) nodes
      → Any
          (IsCover array (array + array_header_size + a) n)
          (extract_strings isprintable xs nodes minimum)
  unfolding extract_strings
  extract_strings-IsCover nodes h = strings_loop-IsFound _ nodes h

-- An array whose payload holds the characters `c ∷ cs` as pairs with a zero byte.
pub record HasPairs (xs : Bytes) (minimum array a c : ℕ) (cs : List ℕ) (node : ArrayNode)
    : Type 0 where
  pub offset : node.offset ≡ array
  pub data_array : node.has_refs ≡ false
  pub tail : Bytes
  pub place : drop a (payload_of xs node) ≡ wide (c ∷ cs) ++ tail
  pub printable : All (λ b. is_ascii_print b ≡ true) (c ∷ cs)
  pub long : minimum ≤ suc (length cs)

-- A carved string of an array that covers so many pairs of bytes of the file from one on.
pub record IsPairCover (array at n : ℕ) (s : CarvedString) : Type 0 where
  pub of_array : s.array_offset ≡ array
  pub in_utf16 : s.encoding ≡ utf16le
  pub starts : s.file_offset ≤ at
  pub ends : at + 2 * n ≤ s.file_offset + 2 * length s.value

length-wide : (cs : List ℕ) → length (wide cs) ≡ 2 * length cs
length-wide [] = omega arith
length-wide (c ∷ cs) = omega (arith, length-wide cs)

module _ (isprintable : ℕ → Bool) (xs : Bytes) (minimum array a c : ℕ) (cs : List ℕ) where
  abbrev IsPairFound : CarvedString → Type 0
  IsPairFound = IsPairCover array (array + array_header_size + a) (suc (length cs))

  -- The file has room for the characters, so the pattern is built.
  pattern_built :
      (node : ArrayNode)
      → HasPairs xs minimum array a c cs node
      → leb minimum (length xs / 2) ≡ true
  pattern_built node h =
      let payload = payload_of xs node in
      let room : length (drop a payload) ≡ length (wide (c ∷ cs)) + length h.tail =
        ap (λ (bs : Bytes). length bs) h.place ∙ length-append (wide (c ∷ cs)) h.tail in
      ground (
        arith,
        room,
        length-wide cs,
        length-drop a payload,
        length-take
            (node.offset
              + array_header_size
              + node.payload_size
              - (node.offset + array_header_size))
            (drop (node.offset + array_header_size) xs),
        length-drop (node.offset + array_header_size) xs,
        h.long,
      )

  strings_of-IsPairFound :
      (node : ArrayNode)
      → HasPairs xs minimum array a c cs node
      → Any IsPairFound (strings_of isprintable xs minimum true node)
  unfolding strings_of
  strings_of-IsPairFound node h = rw h.data_array (
      Any-append_right IsPairFound _ _ (
        Any-map (CoversPairs a (suc (length cs))) IsPairFound _
          (utf16_strings (payload_of xs node) minimum)
          (λ run covers. record {
            of_array = h.offset;
            in_utf16 = refl;
            starts = omega (arith, h.offset, covers);
            ends = omega (arith, h.offset, covers);
          })
          (utf16_strings-CoversPairs (payload_of xs node) minimum a c cs h.tail h.place h.printable
            h.long)))

  strings_loop-IsPairFound :
      (nodes : List ArrayNode)
      → Any (HasPairs xs minimum array a c cs) nodes
      → Any IsPairFound (strings_loop isprintable xs minimum true nodes)
  unfolding strings_loop
  strings_loop-IsPairFound [] h = absurd h
  strings_loop-IsPairFound (node ∷ nodes) (inl h) =
      Any-append_left IsPairFound (strings_of isprintable xs minimum true node) _
        (strings_of-IsPairFound node h)
  strings_loop-IsPairFound (node ∷ nodes) (inr h) =
      Any-append_right IsPairFound (strings_of isprintable xs minimum true node) _
        (strings_loop-IsPairFound nodes h)

  some_pattern :
      (nodes : List ArrayNode)
      → Any (HasPairs xs minimum array a c cs) nodes
      → leb minimum (length xs / 2) ≡ true
  some_pattern [] h = absurd h
  some_pattern (node ∷ nodes) (inl h) = pattern_built node h
  some_pattern (node ∷ nodes) (inr h) = some_pattern nodes h

  -- At least `minimum` pairs of a printable ASCII byte and a zero byte, in the payload of an array
  -- without references among those given, are covered by a carved string of this array.
  pub extract_strings-IsPairCover :
      (nodes : List ArrayNode)
      → Any (HasPairs xs minimum array a c cs) nodes
      → Any
          (IsPairCover array (array + array_header_size + a) (suc (length cs)))
          (extract_strings isprintable xs nodes minimum)
  unfolding extract_strings
  extract_strings-IsPairCover nodes h = rw (some_pattern nodes h) (strings_loop-IsPairFound nodes h)
