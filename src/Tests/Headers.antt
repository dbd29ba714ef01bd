-- ===== src/Tests/Headers.antt =====
-- Headers and array sizes at concrete bytes.
use pyrealm.Prelude.{
  ◌%◌, ◌<◌, ◌≡◌, ◌≢◌, ◌⊎◌, ◌↔◌, refl, inr, true, false, none, some, [], ◌∷◌, ◌++◌, arith, get_or,
}
use pyrealm.Bytes.{le_bytes, unpack_qq}
use pyrealm.Header.{file_header_size, streaming_cookie, null_ref, has_magic, parse_header}
use pyrealm.Header.Laws.{
  pack_header, IsHeader, parse_header-pack_header, parse_header-streaming, parse_header-IsHeader,
  parse_header-none,
}
use pyrealm.Layout.{array_size}
use pyrealm.Layout.Bounds.{IsLayout, array_size-IsLayout}
use pyrealm.Tests.Files.{small_realm, small_header}

small_realm_parsed : parse_header small_realm ≡ some small_header
unfolding parse_header has_magic
small_realm_parsed = refl

too_short : parse_header (0 ∷ 1 ∷ []) ≡ none
unfolding parse_header
too_short = refl

parse_header-pack_header_example :
    parse_header (pack_header 24 0 9 9 0 0 ++ 7 ∷ 8 ∷ []) ≡ some small_header
parse_header-pack_header_example =
    parse_header-pack_header 24 0 9 9 0 0 (7 ∷ 8 ∷ []) (omega arith) (omega arith)
      (inr (omega arith))

parse_header-streaming_example :
    parse_header (
      (pack_header null_ref 5 9 9 0 0 ++ 1 ∷ 2 ∷ 3 ∷ [])
      ++ (le_bytes 8 24 ++ le_bytes 8 streaming_cookie))
    ≡ some record small_header { top_refs = (null_ref, 5); streaming = true }
parse_header-streaming_example =
    parse_header-streaming 5 9 9 0 0 24 (1 ∷ 2 ∷ 3 ∷ []) (omega arith) (omega arith) (omega arith)

parse_header-IsHeader_example : IsHeader small_realm small_header
parse_header-IsHeader_example = parse_header-IsHeader small_realm small_realm_parsed

parse_header-none_example : (parse_header (0 ∷ 1 ∷ []) ≡ none) ↔ (
    ((2 < file_header_size) ⊎ (has_magic (0 ∷ 1 ∷ []) ≡ false))
    ⊎ (get_or (0 ∷ 1 ∷ []) 23 0 % 2 ≡ 0)
      × ((unpack_qq (0 ∷ 1 ∷ []) 0).0 ≡ null_ref)
      × ((2 < 40) ⊎ ((unpack_qq (0 ∷ 1 ∷ []) 0).1 ≢ streaming_cookie)))
parse_header-none_example = parse_header-none (0 ∷ 1 ∷ [])

pair_size : array_size 0x47 2 ≡ some record { byte_size = 24; payload_size = 16; width = 64 }
unfolding array_size
pair_size = refl

array_size-IsLayout_example :
    IsLayout 0x47 2 record { byte_size = 24; payload_size = 16; width = 64 }
array_size-IsLayout_example = array_size-IsLayout 0x47 2 pair_size
