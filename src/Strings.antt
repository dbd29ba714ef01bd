-- ===== src/Strings.antt =====
-- src/pyrealm_forensics/parser.py, `_utf8_strings`, `_utf16le_pattern` and `_extract_strings`: the
-- printable runs of the payloads. A text is the list of its code points. `str.isprintable` of one
-- code point asks the Unicode database, so it is a parameter; nothing is assumed of it.
pub mod Any
mod Ascii
mod Rounds
pub mod Utf8Runs
pub mod Utf8Cover
pub mod Utf16Runs
pub mod Utf16Cover
pub mod Extract
pub mod Complete
use pyrealm.Prelude.{
  ℕ, zero, suc, ◌+◌, ◌-◌, ◌*◌, ◌/◌, Bool, true, false, not, ◌&&◌, ◌||◌, Option, none, some, List,
  [], ◌∷◌, ◌++◌, map, ltb, leb, ◌==◌, if◌then◌else◌, length, get_or, drop,
}
use pyrealm.Bytes.{Bytes, slice}
use pyrealm.Models.{ArrayNode, CarvedString, utf8, utf16le}
use pyrealm.Layout.{array_header_size}
use pyrealm.Utf8.{decode_char}

-- A run: where it starts, and its text.
abbrev pub Run : Type 0
Run = ℕ × List ℕ

-- `1 if lead < 0x80 else 2 if lead < 0xE0 else 3 if lead < 0xF0 else 4`
abbrev pub lead_width : ℕ → ℕ
lead_width lead =
    if ltb lead 0x80 then 1 else if ltb lead 0xE0 then 2 else if ltb lead 0xF0 then 3 else 4

-- `if start is not None and len(chars) >= minimum: results.append((start, "".join(chars)))`
pub flush : ℕ → Option ℕ → List ℕ → List Run → List Run
flush minimum none chars results = results
flush minimum (some start) chars results =
    if leb minimum (length chars) then results ++ (start, chars) ∷ [] else results

-- `if start is None: start = index`
abbrev pub or_start : Option ℕ → ℕ → ℕ
or_start none index = index
or_start (some start) index = start

module _ (isprintable : ℕ → Bool) where
  -- `char.isprintable() or char in "\t"`
  abbrev pub is_text : ℕ → Bool
  is_text c = isprintable c || c == b'\t'

  -- The code point that starts at an index, if it decodes and passes the test.
  unfoldable pub text_at : Bytes → ℕ → Option ℕ
  text_at payload index =
      let width = lead_width (get_or payload index 0) in
      elim (decode_char (slice payload index (index + width))) [
        | none ↦ none
        | some c ↦ if is_text c then some c else none
      ]

  -- The `while` loop. Each round moves `index` on, so as many rounds as there are bytes are enough;
  -- with none left the code behind the loop runs.
  pub utf8_loop : ℕ → Bytes → ℕ → ℕ → Option ℕ → List ℕ → List Run → List Run
  utf8_loop zero payload minimum index start chars results = flush minimum start chars results
  utf8_loop (suc fuel) payload minimum index start chars results =
      elim (ltb index (length payload)) [
        | false ↦ flush minimum start chars results
        | true ↦ elim (text_at payload index) [
          | some c ↦
              utf8_loop fuel payload minimum (index + lead_width (get_or payload index 0))
                (some (or_start start index)) (chars ++ c ∷ []) results
          | none ↦
              utf8_loop fuel payload minimum (index + 1) none [] (flush minimum start chars results)
        ]
      ]

  unfoldable pub utf8_strings : Bytes → ℕ → List Run
  unfolding utf8_loop flush
  utf8_strings payload minimum = utf8_loop (length payload) payload minimum 0 none [] []

-- `[\x20-\x7e]`
abbrev pub is_ascii_print : ℕ → Bool
is_ascii_print b = leb 0x20 b && leb b 0x7E

-- The characters of the longest match of `(?:[\x20-\x7e]\x00)*` at the head.
unfoldable pub utf16_run : Bytes → List ℕ
utf16_run [] = []
utf16_run (b ∷ []) = []
utf16_run (b ∷ z ∷ rest) =
    let more = b ∷ utf16_run rest in if is_ascii_print b && z == 0 then more else []

-- `finditer` of `(?:[\x20-\x7e]\x00){minimum,}` from a position on: the leftmost match, as long as it
-- can be, then on from its end; behind an empty match one byte further. `rest` is `payload[pos:]`.
pub utf16_loop : ℕ → ℕ → ℕ → Bytes → List Run
utf16_loop zero minimum pos rest = []
utf16_loop (suc fuel) minimum pos rest =
    let chars = utf16_run rest in
    elim rest [
      | [] ↦ if minimum == 0 then (pos, []) ∷ [] else []
      | b ∷ bs ↦ elim (leb minimum (length chars)) [
        | false ↦ utf16_loop fuel minimum (pos + 1) bs
        | true ↦ elim (length chars == 0) [
          | true ↦ (pos, chars) ∷ utf16_loop fuel minimum (pos + 1) bs
          | false ↦
              (pos, chars)
              ∷ utf16_loop fuel minimum (pos + 2 * length chars) (drop (2 * length chars) (b ∷ bs))
        ]
      ]
    ]

-- The matches in a payload; a round for each position, the end included, is enough.
unfoldable pub utf16_strings : Bytes → ℕ → List Run
unfolding utf16_loop utf16_run
utf16_strings payload minimum = utf16_loop (suc (length payload)) minimum 0 payload

module _ (isprintable : ℕ → Bool) where
  -- The body of the loop over the nodes; `wide` says that the UTF-16 pattern was built.
  pub strings_of : Bytes → ℕ → Bool → ArrayNode → List CarvedString
  strings_of xs minimum wide node =
      let payload_start = node.offset + array_header_size in
      let payload = slice xs payload_start (payload_start + node.payload_size) in
      if node.has_refs
      then []
      else (map
            (λ (at, text). record {
              file_offset = payload_start + at;
              array_offset = node.offset;
              encoding = utf8;
              value = text;
              reachability = node.reachability;
            })
            (utf8_strings isprintable payload minimum)
          ++ (if wide
              then map
                  (λ (at, text). record {
                    file_offset = payload_start + at;
                    array_offset = node.offset;
                    encoding = utf16le;
                    value = text;
                    reachability = node.reachability;
                  })
                  (utf16_strings payload minimum)
              else []))

  pub strings_loop : Bytes → ℕ → Bool → List ArrayNode → List CarvedString
  strings_loop xs minimum wide [] = []
  strings_loop xs minimum wide (node ∷ nodes) =
      strings_of xs minimum wide node ++ strings_loop xs minimum wide nodes

  unfoldable pub extract_strings : Bytes → List ArrayNode → ℕ → List CarvedString
  unfolding strings_loop strings_of
  extract_strings xs nodes minimum = strings_loop xs minimum (leb minimum (length xs / 2)) nodes
