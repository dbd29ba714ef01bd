-- ===== src/Strings/Extract.antt =====
-- The strings that `_extract_strings` in src/pyrealm_forensics/parser.py returns, and the
-- places that they name.
use pyrealm.Prelude.{
  ℕ, zero, suc, ◌+◌, ◌-◌, ◌≤◌, ◌≡◌, ◌⊎◌, refl, sym, ◌∙◌, ap, inl, inr, Bool, true, false, List, [],
  ◌∷◌, ◌++◌, map, arith, length, take, drop, drop-drop, take-append-drop, All, All-append,
  if◌then◌else◌,
}
use mathlib.Core.List.{append_assoc}
use pyrealm.Bytes.{Bytes, slice}
use pyrealm.Models.{ArrayNode, CarvedString, Encoding, utf8, utf16le}
use pyrealm.Layout.{array_header_size}
use pyrealm.Utf8.{encode}
use pyrealm.Strings.{Run, utf8_strings, strings_of, strings_loop, extract_strings}
use pyrealm.Strings.Utf8Runs.{take-nil, IsRun, utf8_strings-IsRun}
use pyrealm.Strings.Utf16Runs.{wide, IsWideRun, utf16_strings-IsWideRun}

-- The bytes of a text in its encoding.
abbrev pub encoded : Encoding → List ℕ → Bytes
encoded utf8 cs = encode cs
encoded utf16le cs = wide cs

-- `part` stands in the bytes at `at`.
abbrev pub StandsAt : Bytes → ℕ → Bytes → Type 0
StandsAt xs at part = (rest : Bytes) × (drop at xs ≡ part ++ rest)

zero_sub : (n : ℕ) → 0 ≡ 0 - suc n
zero_sub n = omega arith

suc_sub : (n m : ℕ) → n - m ≡ suc n - suc m
suc_sub n m = omega arith

drop-take : (at n : ℕ) (xs : Bytes) → drop at (take n xs) ≡ take (n - at) (drop at xs)
drop-take zero n xs = ap (λ (k : ℕ). take k xs) (omega arith)
drop-take (suc at) zero xs = ap (λ (k : ℕ). take k (drop (suc at) xs)) (zero_sub at)
drop-take (suc at) (suc n) [] = sym (take-nil (suc n - suc at))
drop-take (suc at) (suc n) (x ∷ xs) =
    drop-take at n xs ∙ ap (λ (k : ℕ). take k (drop at xs)) (suc_sub n at)

-- What stands in a payload stands in the file.
stands-slice :
    (xs part : Bytes) (start stop at : ℕ)
    → StandsAt (slice xs start stop) at part
    → StandsAt xs (start + at) part
stands-slice xs part start stop at (rest, e) =
    let whole : drop at (drop start xs)
        ≡ part ++ (rest ++ drop (stop - start - at) (drop at (drop start xs))) =
      sym (take-append-drop (stop - start - at) (drop at (drop start xs)))
      ∙ (ap (λ (bs : Bytes). bs ++ drop (stop - start - at) (drop at (drop start xs)))
            (sym (drop-take at (stop - start) (drop start xs)) ∙ e)
          ∙ append_assoc part rest _) in
    (
      rest ++ drop (stop - start - at) (drop at (drop start xs)),
      sym (drop-drop at start xs) ∙ whole,
    )

-- A string of one array.
pub record IsFrom (xs : Bytes) (minimum : ℕ) (node : ArrayNode) (s : CarvedString) : Type 0 where
  pub data_array : node.has_refs ≡ false
  pub array : s.array_offset ≡ node.offset
  pub label : s.reachability ≡ node.reachability
  pub long : minimum ≤ length s.value
  pub behind : node.offset + array_header_size ≤ s.file_offset
  pub bytes : StandsAt xs s.file_offset (encoded s.encoding s.value)

abbrev pub IsFromAny : Bytes → ℕ → List ArrayNode → CarvedString → Type 0
IsFromAny xs minimum [] s = ⊥
IsFromAny xs minimum (node ∷ nodes) s = IsFrom xs minimum node s ⊎ IsFromAny xs minimum nodes s

All-unless :
    (P : CarvedString → Type 0) (b : Bool) (ss : List CarvedString)
    → (b ≡ false → All P ss)
    → All P (if b then [] else ss)
All-unless P true ss h = tt
All-unless P false ss h = h refl

All-when :
    (P : CarvedString → Type 0) (b : Bool) (ss : List CarvedString)
    → All P ss
    → All P (if b then ss else [])
All-when P true ss h = h
All-when P false ss h = tt

module _ (isprintable : ℕ → Bool) (xs : Bytes) (minimum : ℕ) where
  abbrev payload_of : ArrayNode → Bytes
  payload_of node =
      let payload_start = node.offset + array_header_size in
      slice xs payload_start (payload_start + node.payload_size)

  -- The record that both loops append, of a run of the payload.
  abbrev carve : ArrayNode → Encoding → Run → CarvedString
  carve node encoding (at, text) = record {
    file_offset = node.offset + array_header_size + at;
    array_offset = node.offset;
    encoding = encoding;
    value = text;
    reachability = node.reachability;
  }

  carve-IsFrom :
      (node : ArrayNode) (encoding : Encoding) (run : Run)
      → node.has_refs ≡ false
      → minimum ≤ length run.1
      → StandsAt (payload_of node) run.0 (encoded encoding run.1)
      → IsFrom xs minimum node (carve node encoding run)
  carve-IsFrom node encoding run plain long stands = record {
    data_array = plain;
    array = refl;
    label = refl;
    long = long;
    behind = omega arith;
    bytes =
        stands-slice xs (encoded encoding run.1) (node.offset + array_header_size)
          (node.offset + array_header_size + node.payload_size) run.0 stands;
  }

  carve-utf8 :
      (node : ArrayNode) (runs : List Run)
      → node.has_refs ≡ false
      → All (IsRun isprintable (payload_of node) minimum) runs
      → All (IsFrom xs minimum node) (map (carve node utf8) runs)
  carve-utf8 node [] plain rs = tt
  carve-utf8 node (run ∷ runs) plain rs =
      (carve-IsFrom node utf8 run plain rs.0.long (_, rs.0.bytes), carve-utf8 node runs plain rs.1)

  carve-wide :
      (node : ArrayNode) (runs : List Run)
      → node.has_refs ≡ false
      → All (IsWideRun (payload_of node) minimum) runs
      → All (IsFrom xs minimum node) (map (carve node utf16le) runs)
  carve-wide node [] plain rs = tt
  carve-wide node (run ∷ runs) plain rs = (
    carve-IsFrom node utf16le run plain rs.0.long (_, rs.0.bytes),
    carve-wide node runs plain rs.1,
  )

  strings_of-IsFrom :
      (wide_too : Bool) (node : ArrayNode)
      → All (IsFrom xs minimum node) (strings_of isprintable xs minimum wide_too node)
  unfolding strings_of
  strings_of-IsFrom wide_too node = All-unless (IsFrom xs minimum node) node.has_refs _ (λ plain.
      All-append (IsFrom xs minimum node)
        (map (carve node utf8) (utf8_strings isprintable (payload_of node) minimum)) _
        (carve-utf8 node _ plain (utf8_strings-IsRun isprintable (payload_of node) minimum))
        (All-when (IsFrom xs minimum node) wide_too _
          (carve-wide node _ plain (utf16_strings-IsWideRun (payload_of node) minimum))))

  from_first :
      (node : ArrayNode) (nodes : List ArrayNode) (ss : List CarvedString)
      → All (IsFrom xs minimum node) ss
      → All (IsFromAny xs minimum (node ∷ nodes)) ss
  from_first node nodes [] h = tt
  from_first node nodes (s ∷ ss) h = (inl h.0, from_first node nodes ss h.1)

  from_later :
      (node : ArrayNode) (nodes : List ArrayNode) (ss : List CarvedString)
      → All (IsFromAny xs minimum nodes) ss
      → All (IsFromAny xs minimum (node ∷ nodes)) ss
  from_later node nodes [] h = tt
  from_later node nodes (s ∷ ss) h = (inr h.0, from_later node nodes ss h.1)

  strings_loop-IsFromAny :
      (wide_too : Bool) (nodes : List ArrayNode)
      → All (IsFromAny xs minimum nodes) (strings_loop isprintable xs minimum wide_too nodes)
  unfolding strings_loop
  strings_loop-IsFromAny wide_too [] = tt
  strings_loop-IsFromAny wide_too (node ∷ nodes) =
      All-append (IsFromAny xs minimum (node ∷ nodes))
        (strings_of isprintable xs minimum wide_too node)
        (strings_loop isprintable xs minimum wide_too nodes)
        (from_first node nodes _ (strings_of-IsFrom wide_too node))
        (from_later node nodes _ (strings_loop-IsFromAny wide_too nodes))

-- Every carved string comes from an array without references among those given, carries its offset
-- and its label, has at least the minimum number of characters, lies behind the array's header, and
-- its encoding stands in the file at its offset.
pub extract_strings-IsFromAny :
    (isprintable : ℕ → Bool) (xs : Bytes) (nodes : List ArrayNode) (minimum : ℕ)
    → All (IsFromAny xs minimum nodes) (extract_strings isprintable xs nodes minimum)
unfolding extract_strings
extract_strings-IsFromAny isprintable xs nodes minimum =
    strings_loop-IsFromAny isprintable xs minimum _ nodes
