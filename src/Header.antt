-- ===== src/Header.antt =====
-- src/pyrealm_forensics/parser.py, `_parse_header`: the 24-byte file header, and the footer of a
-- streaming file. `x & 1` is written `x % 2`, and `active_slot ^ 1` is `1 - active_slot`.
pub mod Laws
use pyrealm.Prelude.{
  ℕ, ◌+◌, ◌-◌, ◌%◌, Bool, true, false, not, ◌&&◌, ◌||◌, Option, none, some, [], ◌∷◌, ltb, ◌==◌,
  if◌then◌else◌, length, get_or,
}
use pyrealm.Bytes.{Bytes, slice, starts_with, unpack_qq}
use pyrealm.Models.{RealmHeader}

abbrev pub file_header_size : ℕ
file_header_size = 24

abbrev pub streaming_cookie : ℕ
streaming_cookie = 0x3034125237E526C8

abbrev pub null_ref : ℕ
null_ref = 0xFFFFFFFFFFFFFFFF

-- `data[16:20] != REALM_MAGIC`: the four bytes b"T-DB" stand at 16.
unfoldable pub has_magic : Bytes → Bool
unfolding starts_with
has_magic bytes = starts_with (b'T' ∷ b'-' ∷ b'D' ∷ b'B' ∷ []) (slice bytes 16 20)

-- `pair[slot]`
abbrev pub select : ℕ × ℕ → ℕ → ℕ
select (a, b) slot = if slot == 0 then a else b

abbrev header_of : Bytes → Bool → ℕ → ℕ → RealmHeader
header_of bytes streams active inactive = record {
  top_refs = unpack_qq bytes 0;
  format_slots = (get_or bytes 20 0, get_or bytes 21 0);
  reserved = get_or bytes 22 0;
  flags = get_or bytes 23 0;
  active_slot = get_or bytes 23 0 % 2;
  active_top_ref = active;
  inactive_top_ref = inactive;
  streaming = streams;
}

-- The branch of a file whose header says that its root stands in the footer.
unfoldable pub parse_streaming : Bytes → Option RealmHeader
parse_streaming bytes =
    if ltb (length bytes) (file_header_size + 16)
    then none
    else (let (footer_top_ref, cookie) = unpack_qq bytes (length bytes - 16) in
        if not (cookie == streaming_cookie)
        then none
        else some (header_of bytes true footer_top_ref 0))

parse_slots : Bytes → ℕ → RealmHeader
parse_slots bytes active_slot =
    let top_refs = unpack_qq bytes 0 in
    let inactive = select top_refs (1 - active_slot) in
    header_of bytes false (select top_refs active_slot)
      (if inactive == null_ref then 0 else inactive)

unfoldable pub parse_header : Bytes → Option RealmHeader
unfolding has_magic parse_slots
parse_header bytes =
    if ltb (length bytes) file_header_size || not (has_magic bytes)
    then none
    else (let active_slot = get_or bytes 23 0 % 2 in
        if active_slot == 0 && (unpack_qq bytes 0).0 == null_ref
        then parse_streaming bytes
        else some (parse_slots bytes active_slot))
