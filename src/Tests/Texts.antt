-- ===== src/Tests/Texts.antt =====
-- Characters and strings at concrete bytes.
use pyrealm.Prelude.{◌≡◌, refl, some, [], ◌∷◌, arith, All}
use pyrealm.Bytes.{Bytes}
use pyrealm.Models.{utf8, orphan}
use pyrealm.Utf8.{decode_char}
use pyrealm.Strings.{text_at, utf8_strings, utf16_strings, extract_strings}
use pyrealm.Strings.Any.{Any}
use pyrealm.Strings.Utf8Runs.{IsRun, utf8_strings-IsRun}
use pyrealm.Strings.Utf16Runs.{IsWideRun, utf16_strings-IsWideRun}
use pyrealm.Strings.Utf16Cover.{CoversPairs, utf16_strings-CoversPairs}
use pyrealm.Strings.Extract.{IsFromAny, extract_strings-IsFromAny}
use pyrealm.Tests.Files.{small_realm, ascii_print, text_node}

euro : decode_char (0xE2 ∷ 0x82 ∷ 0xAC ∷ []) ≡ some 0x20AC
unfolding decode_char
euro = refl

abbrev payload : Bytes
payload = 0xFF ∷ b'h' ∷ b'e' ∷ b'y' ∷ 0 ∷ b'a' ∷ []

payload_strings : utf8_strings ascii_print payload 2 ≡ (1, b'h' ∷ b'e' ∷ b'y' ∷ []) ∷ []
unfolding utf8_strings decode_char text_at
payload_strings = refl

utf8_strings-IsRun_example : All (IsRun ascii_print payload 2) (utf8_strings ascii_print payload 2)
utf8_strings-IsRun_example = utf8_strings-IsRun ascii_print payload 2

abbrev wide_payload : Bytes
wide_payload = 7 ∷ b'h' ∷ 0 ∷ b'i' ∷ 0 ∷ 9 ∷ []

wide_payload_strings : utf16_strings wide_payload 2 ≡ (1, b'h' ∷ b'i' ∷ []) ∷ []
unfolding utf16_strings
wide_payload_strings = refl

utf16_strings-IsWideRun_example : All (IsWideRun wide_payload 2) (utf16_strings wide_payload 2)
utf16_strings-IsWideRun_example = utf16_strings-IsWideRun wide_payload 2

utf16_strings-CoversPairs_example : Any (CoversPairs 1 2) (utf16_strings wide_payload 2)
utf16_strings-CoversPairs_example =
    utf16_strings-CoversPairs wide_payload 2 1 b'h' (b'i' ∷ []) (9 ∷ []) refl (refl, (refl, tt))
      (omega arith)

hello_carved :
    extract_strings ascii_print small_realm (text_node ∷ []) 4
    ≡ record {
      file_offset = 56;
      array_offset = 48;
      encoding = utf8;
      value = b'h' ∷ b'e' ∷ b'l' ∷ b'l' ∷ b'o' ∷ [];
      reachability = orphan;
    }
      ∷ []
unfolding extract_strings utf8_strings text_at decode_char utf16_strings
hello_carved = refl

extract_strings-IsFromAny_example :
    All
      (IsFromAny small_realm 4 (text_node ∷ []))
      (extract_strings ascii_print small_realm (text_node ∷ []) 4)
extract_strings-IsFromAny_example =
    extract_strings-IsFromAny ascii_print small_realm (text_node ∷ []) 4
