-- ===== src/Tests/Carves.antt =====
-- A text in a small file, which a carve finds.
use pyrealm.Prelude.{
  ℕ, ◌++◌, zero, suc, ◌≡◌, ◌≤◌, ◌<◌, refl, true, some, List, [], ◌∷◌, arith, get_or, ok,
}
use pyrealm.Prelude.Dict.{lookup}
use pyrealm.Bytes.{Bytes, find}
use pyrealm.Models.{Analysis, ArrayNode, CarvedString}
use pyrealm.Header.{parse_header}
use pyrealm.Layout.{array_size}
use pyrealm.Scan.{candidate, scan_array_candidates}
use pyrealm.Strings.{is_text}
use pyrealm.Strings.Any.{Any}
use pyrealm.Strings.Utf8Cover.{IsStretch}
use pyrealm.Strings.Complete.{IsCover, IsPairCover, payload_of}
use pyrealm.Analyze.{analyze_bytes}
use pyrealm.Analyze.Complete.{analyze_bytes_covers, analyze_bytes_covers_pairs}
use pyrealm.Header.Laws.{pack_header}
use pyrealm.Tests.Files.{small_realm, small_header, small_platform, ascii_print, text_node}

-- The text "hello" in the second array.
text_found : lookup 48 (scan_array_candidates small_realm) ≡ some text_node
unfolding scan_array_candidates candidate find array_size
text_found = refl

hello-IsStretch : IsStretch ascii_print (payload_of small_realm text_node) 4 0 5
hello-IsStretch = record {
  inside = omega arith;
  ascii = is_ascii;
  text = is_printable;
  long = omega arith;
  some_byte = omega arith;
}
  where
    is_ascii : (k : ℕ) → 0 ≤ k → k < 5 → get_or (payload_of small_realm text_node) k 0 < 0x80
    is_ascii zero low high = omega arith
    is_ascii (suc zero) low high = omega arith
    is_ascii (suc (suc zero)) low high = omega arith
    is_ascii (suc (suc (suc zero))) low high = omega arith
    is_ascii (suc (suc (suc (suc zero)))) low high = omega arith
    is_ascii (suc (suc (suc (suc (suc k))))) low high = absurd (omega arith)

    is_printable :
        (k : ℕ)
        → 0 ≤ k
        → k < 5
        → is_text ascii_print (get_or (payload_of small_realm text_node) k 0) ≡ true
    is_printable zero low high = refl
    is_printable (suc zero) low high = refl
    is_printable (suc (suc zero)) low high = refl
    is_printable (suc (suc (suc zero))) low high = refl
    is_printable (suc (suc (suc (suc zero)))) low high = refl
    is_printable (suc (suc (suc (suc (suc k))))) low high = absurd (omega arith)

small_parsed : parse_header small_realm ≡ some small_header
unfolding parse_header
small_parsed = refl

analyze_bytes_covers_example :
    (result : Analysis ℕ × List CarvedString) × (analyze_bytes small_platform
        ("in.realm" ∷ [])
        small_realm
        (some 4)
      ≡ ok result)
    × Any (IsCover 48 56 5) result.1
analyze_bytes_covers_example =
    analyze_bytes_covers small_platform ("in.realm" ∷ []) small_realm small_header 4 48 text_node 0
      5 small_parsed text_found refl hello-IsStretch

-- A file with one array, of the text "hi" in UTF-16LE.
abbrev wide_realm : Bytes
wide_realm =
    pack_header 24 0 9 9 0 0
    ++ (b'A' ∷ b'A' ∷ b'A' ∷ b'A' ∷ 0x04 ∷ 0 ∷ 0 ∷ 8 ∷ b'h' ∷ 0 ∷ b'i' ∷ 0 ∷ 0 ∷ 0 ∷ 0 ∷ 0 ∷ [])

abbrev wide_node : ArrayNode
wide_node = record text_node { offset = 24 }

wide_parsed : parse_header wide_realm ≡ some small_header
unfolding parse_header
wide_parsed = refl

wide_found : lookup 24 (scan_array_candidates wide_realm) ≡ some wide_node
unfolding scan_array_candidates candidate find array_size
wide_found = refl

analyze_bytes_covers_pairs_example :
    (result : Analysis ℕ × List CarvedString) × (analyze_bytes small_platform
        ("in.realm" ∷ [])
        wide_realm
        (some 2)
      ≡ ok result)
    × Any (IsPairCover 24 32 2) result.1
analyze_bytes_covers_pairs_example =
    analyze_bytes_covers_pairs small_platform ("in.realm" ∷ []) wide_realm small_header 2 24
      wide_node 0 b'h' (b'i' ∷ []) (0 ∷ 0 ∷ 0 ∷ 0 ∷ []) wide_parsed wide_found refl refl
      (refl, (refl, tt)) (omega arith)
