-- ===== src/Scan.antt =====
-- src/pyrealm_forensics/parser.py, `_scan_array_candidates`: every place where the bytes b"AAAA" and
-- a plausible array header stand. `flags & 0x40` is written `flags / 64 % 2`, and so on.
pub mod Exact
pub mod Order
use pyrealm.Prelude.{
  ℕ, zero, suc, ◌+◌, ◌*◌, ◌/◌, ◌%◌, Bool, true, false, ◌&&◌, Option, none, some, List, [], ◌∷◌, leb,
  ◌==◌, if◌then◌else◌, length, get_or,
}
use pyrealm.Prelude.Dict.{Dict, insert}
use pyrealm.Bytes.{Bytes, slice, be_value, find}
use pyrealm.Models.{ArrayNode, orphan}
use pyrealm.Header.{file_header_size}
use pyrealm.Layout.{ArraySize, array_header_size, array_size, scheme_of}

-- b"AAAA"
abbrev pub array_signature : Bytes
array_signature = b'A' ∷ b'A' ∷ b'A' ∷ b'A' ∷ []

-- `bool(flags & 2 ** k)`, with the power given.
abbrev pub flag_bit : ℕ → ℕ → Bool
flag_bit flags power = flags / power % 2 == 1

abbrev pub flags_at : Bytes → ℕ → ℕ
flags_at xs offset = get_or xs (offset + 4) 0

abbrev pub count_at : Bytes → ℕ → ℕ
count_at xs offset = be_value 0 (slice xs (offset + 5) (offset + 8))

node_at : ℕ → ℕ → ℕ → ArraySize → ArrayNode
node_at offset flags element_count size = record {
  offset = offset;
  byte_size = size.byte_size;
  payload_size = size.payload_size;
  element_count = element_count;
  width = size.width;
  width_scheme = scheme_of flags;
  has_refs = flag_bit flags 64;
  inner_bptree = flag_bit flags 128;
  context_flag = flag_bit flags 32;
  child_refs = [];
  reachability = orphan;
}

-- The tests of the loop's body on the sizing, from `if sizing is not None` on.
fitting : Bytes → ℕ → ℕ → ℕ → Option ArraySize → Option ArrayNode
fitting xs offset flags element_count none = none
fitting xs offset flags element_count (some size) =
    if leb array_header_size size.byte_size && leb (offset + size.byte_size) (length xs)
    then some (node_at offset flags element_count size)
    else none

-- The array that the body of the loop finds at an offset with the signature.
unfoldable pub candidate : Bytes → ℕ → Option ArrayNode
unfolding fitting node_at
candidate xs offset =
    if offset % 8 == 0 && leb (offset + array_header_size) (length xs)
    then (let flags = flags_at xs offset in
        let element_count = count_at xs offset in
        fitting xs offset flags element_count (array_size flags element_count))
    else none

-- `candidates[offset] = ...`, if there is an array.
record_candidate : ℕ → Option ArrayNode → Dict ArrayNode → Dict ArrayNode
record_candidate offset none candidates = candidates
record_candidate offset (some node) candidates = insert offset node candidates

-- The body of the loop.
visit : Bytes → ℕ → Dict ArrayNode → Dict ArrayNode
unfolding record_candidate
visit xs offset candidates = record_candidate offset (candidate xs offset) candidates

-- The `while` loop, from an offset that `find` returned. Each round's offset is larger, so as many
-- rounds as there are bytes are enough (`Exact`).
scan_loop : ℕ → Bytes → Option ℕ → Dict ArrayNode → Dict ArrayNode
scan_loop fuel xs none candidates = candidates
scan_loop zero xs (some offset) candidates = candidates
scan_loop (suc fuel) xs (some offset) candidates =
    scan_loop fuel xs (find xs array_signature (offset + 1)) (visit xs offset candidates)

unfoldable pub scan_array_candidates : Bytes → Dict ArrayNode
unfolding scan_loop visit
scan_array_candidates xs = scan_loop (length xs) xs (find xs array_signature file_header_size) []
