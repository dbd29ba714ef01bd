-- ===== src/Header/Laws.antt =====
-- `_parse_header` in src/pyrealm_forensics/parser.py, against a packed header and by the places
-- of the fields.
use pyrealm.Prelude.{
  ℕ, ◌-◌, ◌%◌, ◌^◌, ◌≤◌, ◌<◌, ◌≡◌, ◌≢◌, ◌⊎◌, ◌↔◌, true, false, none, some, [], ◌∷◌, ◌++◌, arith,
  ◌==◌, if◌then◌else◌, length, get_or, ap, length-append,
}
use pyrealm.Bytes.{Bytes, le_bytes, unpack_qq}
use pyrealm.Bytes.Codec.{le_value-le_bytes, unpack_qq-footer}
use pyrealm.Models.{RealmHeader}
use pyrealm.Header.{
  file_header_size, streaming_cookie, null_ref, has_magic, select, header_of, parse_streaming,
  parse_header,
}

-- The header on disk, as `struct.pack("<QQ", r0, r1) + b"T-DB" + bytes((f0, f1, reserved, flags))`.
abbrev pub pack_header : ℕ → ℕ → ℕ → ℕ → ℕ → ℕ → Bytes
pack_header r0 r1 f0 f1 reserved flags =
    le_bytes 8 r0
    ++ (le_bytes 8 r1 ++ (b'T' ∷ b'-' ∷ b'D' ∷ b'B' ∷ f0 ∷ f1 ∷ reserved ∷ flags ∷ []))

-- The value that the code gives to an inactive root: the null marker is read as 0.
abbrev pub inactive_ref : ℕ → ℕ
inactive_ref r = if r == null_ref then 0 else r

-- Reading the packed header of a file back gives its fields. The two roots fit 64 bits, and either
-- slot 1 is selected or slot 0 does not hold the null marker. The active root is that of the slot
-- that the low flag selects; the other one is the inactive root, read as 0 if it is the null
-- marker.
pub parse_header-pack_header :
    (r0 r1 f0 f1 reserved flags : ℕ) (rest : Bytes)
    → r0 < 2 ^ 64
    → r1 < 2 ^ 64
    → (flags % 2 ≡ 1) ⊎ (r0 ≢ null_ref)
    → parse_header (pack_header r0 r1 f0 f1 reserved flags ++ rest)
      ≡ some record {
        top_refs = (r0, r1);
        format_slots = (f0, f1);
        reserved = reserved;
        flags = flags;
        active_slot = flags % 2;
        active_top_ref = if flags % 2 == 0 then r0 else r1;
        inactive_top_ref = inactive_ref (if flags % 2 == 0 then r1 else r0);
        streaming = false;
      }
unfolding parse_header
parse_header-pack_header r0 r1 f0 f1 reserved flags rest h0 h1 slot =
    rw (le_value-le_bytes 8 r0 h0, le_value-le_bytes 8 r1 h1) (ground arith)

-- The branch of a streaming file, on bytes that end in a root and the cookie.
parse_streaming_lem :
    (xs : Bytes) (footer : ℕ)
    → 40 ≤ length xs
    → unpack_qq xs (length xs - 16) ≡ (footer, streaming_cookie)
    → parse_streaming xs ≡ some (header_of xs true footer 0)
unfolding parse_streaming
parse_streaming_lem xs footer long e =
    let root : (unpack_qq xs (length xs - 16)).0 ≡ footer = ap (λ (p : ℕ × ℕ). p.0) e in
    let cookie : (unpack_qq xs (length xs - 16)).1 ≡ streaming_cookie = ap (λ (p : ℕ × ℕ). p.1) e in
    ground arith

-- A packed header that selects slot 0 and holds the null marker there, with any body and then a
-- root and the cookie as a footer, is read as a streaming file whose active root is the footer's
-- and which has no inactive root. Slot 1 and the footer's root fit 64 bits.
pub parse_header-streaming :
    (r1 f0 f1 reserved flags footer : ℕ) (body : Bytes)
    → r1 < 2 ^ 64
    → footer < 2 ^ 64
    → flags % 2 ≡ 0
    → parse_header (
        (pack_header null_ref r1 f0 f1 reserved flags ++ body)
        ++ (le_bytes 8 footer ++ le_bytes 8 streaming_cookie))
      ≡ some record {
        top_refs = (null_ref, r1);
        format_slots = (f0, f1);
        reserved = reserved;
        flags = flags;
        active_slot = 0;
        active_top_ref = footer;
        inactive_top_ref = 0;
        streaming = true;
      }
unfolding parse_header
parse_header-streaming r1 f0 f1 reserved flags footer body h1 hf even = ground (
  arith,
  even,
  le_value-le_bytes 8 r1 h1,
  parse_streaming_lem (packed ++ (le_bytes 8 footer ++ le_bytes 8 streaming_cookie)) footer
      (omega (arith, long)) (unpack_qq-footer packed footer streaming_cookie hf (omega arith)),
)
  where
    packed : Bytes
    packed = pack_header null_ref r1 f0 f1 reserved flags ++ body

    long : 40 ≤ length (packed ++ (le_bytes 8 footer ++ le_bytes 8 streaming_cookie))
    long = omega (arith, length-append body (le_bytes 8 footer ++ le_bytes 8 streaming_cookie))

-- What the code makes of the bytes that it accepts.
pub record IsHeader (xs : Bytes) (h : RealmHeader) : Type 0 where
  pub whole : file_header_size ≤ length xs
  pub magic : has_magic xs ≡ true
  pub slots : h.top_refs ≡ unpack_qq xs 0
  pub formats : h.format_slots ≡ (get_or xs 20 0, get_or xs 21 0)
  pub kept : h.reserved ≡ get_or xs 22 0
  pub flagged : h.flags ≡ get_or xs 23 0
  pub slot : h.active_slot ≡ h.flags % 2
  pub source :
      (h.streaming ≡ false)
        × (h.active_top_ref ≡ select h.top_refs h.active_slot)
        × (h.inactive_top_ref ≡ inactive_ref (select h.top_refs (1 - h.active_slot)))
      ⊎ (h.streaming ≡ true)
        × (h.active_top_ref ≡ (unpack_qq xs (length xs - 16)).0)
        × ((unpack_qq xs (length xs - 16)).1 ≡ streaming_cookie)
        × (h.inactive_top_ref ≡ 0)
  pub marked : (h.streaming ≡ true) ↔ ((h.active_slot ≡ 0) × (h.top_refs.0 ≡ null_ref))

-- Whenever bytes are accepted as a Realm file, they are long enough, have the magic, and the fields
-- come from their places: the two slots from byte 0, the format slots from the bytes 20 and 21, the
-- reserved byte and the flags from the bytes 22 and 23, and the roots from the slots, or from the
-- footer with the cookie just if the file is a streaming one.
pub parse_header-IsHeader :
    (xs : Bytes) {h : RealmHeader} → parse_header xs ≡ some h → IsHeader xs h
unfolding parse_header parse_streaming
parse_header-IsHeader xs e = ground arith

-- A file is rejected when it is short, lacks the magic, or claims to be a streaming file and has no
-- room for the footer or another cookie; and in no other case.
pub parse_header-none :
    (xs : Bytes)
    → (parse_header xs ≡ none) ↔ (
        ((length xs < file_header_size) ⊎ (has_magic xs ≡ false))
        ⊎ (get_or xs 23 0 % 2 ≡ 0)
          × ((unpack_qq xs 0).0 ≡ null_ref)
          × ((length xs < 40) ⊎ ((unpack_qq xs (length xs - 16)).1 ≢ streaming_cookie)))
unfolding parse_header parse_streaming
parse_header-none xs = ground arith
