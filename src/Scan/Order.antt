-- ===== src/Scan/Order.antt =====
-- The order of the offsets of `_scan_array_candidates` in src/pyrealm_forensics/parser.py, and
-- what is recorded under each.
use pyrealm.Prelude.{
  ℕ, zero, suc, ◌+◌, ◌*◌, ◌%◌, ◌≤◌, ◌<◌, ◌≡◌, refl, Option, none, some, [], ◌∷◌, ◌++◌, arith,
  length, Option-cases, inl, inr, All, All-append, ◌&&◌, leb, leb→le, Bool-cases,
}
use pyrealm.Prelude.Ascending.{IsAscending, IsAscending-append, All-below_mono}
use pyrealm.Prelude.Dict.{Dict, lookup, insert, keys}
use pyrealm.Bytes.{Bytes, find}
use pyrealm.Bytes.Find.{find-some, stands_at}
use pyrealm.Models.{ArrayNode, orphan}
use pyrealm.Header.{file_header_size}
use pyrealm.Layout.{array_size, array_header_size, width_of, scheme_of}
use pyrealm.Layout.Bounds.{payload_bits, array_size-IsLayout}
use pyrealm.Scan.Exact.{lookup-scan_array_candidates}
use pyrealm.Scan.{
  array_signature, flag_bit, flags_at, count_at, candidate, record_candidate, visit, scan_loop,
  scan_array_candidates,
}

-- The array lies in the file at its offset, at an address of a multiple of 8, with room for its
-- elements; it has no children yet and counts as an orphan.
pub record IsCandidate (xs : Bytes) (offset : ℕ) (node : ArrayNode) : Type 0 where
  pub own_offset : node.offset ≡ offset
  pub aligned : offset % 8 ≡ 0
  pub header_added : node.byte_size ≡ array_header_size + node.payload_size
  pub inside : offset + node.byte_size ≤ length xs
  pub counted : node.element_count ≡ count_at xs offset
  pub width_listed : node.width ≡ width_of (flags_at xs offset)
  pub scheme : node.width_scheme ≡ scheme_of (flags_at xs offset)
  pub known_scheme : node.width_scheme < 3
  pub refs_flag : node.has_refs ≡ flag_bit (flags_at xs offset) 64
  pub room : payload_bits node.width_scheme node.width node.element_count ≤ 8 * node.payload_size
  pub no_children : node.child_refs ≡ []
  pub starts_orphan : node.reachability ≡ orphan

pub candidate-IsCandidate :
    (xs : Bytes) (offset : ℕ) {node : ArrayNode}
    → candidate xs offset ≡ some node
    → IsCandidate xs offset node
unfolding candidate
candidate-IsCandidate xs offset {node} h =
    elim (Option-cases (array_size (flags_at xs offset) (count_at xs offset))) [
      | inl e ↦ absurd (ground arith)
      | inr (size, e) ↦
          ground (arith, e, array_size-IsLayout (flags_at xs offset) (count_at xs offset) e)
    ]

-- Appending
keys-insert_new :
    (k : ℕ) (v : ArrayNode) (d : Dict ArrayNode)
    → All (λ j. j < k) (keys d)
    → keys (insert k v d) ≡ keys d ++ k ∷ []
keys-insert_new k v [] h = refl
keys-insert_new k v ((j, w) ∷ d) h = ground (arith, keys-insert_new k v d h.1)

-- What the loop keeps: the keys ascend and lie below the next offset, and each entry was found.
record IsScanned (xs : Bytes) (next : ℕ) (d : Dict ArrayNode) : Type 0 where
  ascending : IsAscending file_header_size (keys d)
  below : All (λ k. k < next) (keys d)

record_candidate-IsScanned :
    (xs : Bytes) (offset : ℕ) (o : Option ArrayNode) (d : Dict ArrayNode)
    → file_header_size ≤ offset
    → IsScanned xs offset d
    → IsScanned xs (offset + 1) (record_candidate offset o d)
unfolding record_candidate
record_candidate-IsScanned xs offset none d low s = record {
  ascending = s.ascending;
  below = All-below_mono offset (offset + 1) (keys d) (omega arith) s.below;
}
record_candidate-IsScanned xs offset (some node) d low s =
    let e = keys-insert_new offset node d s.below in
    record {
      ascending =
          rw e (IsAscending-append file_header_size offset (keys d) s.ascending s.below low);
      below = rw e (
          All-append (λ k. k < offset + 1) (keys d) (offset ∷ [])
            (All-below_mono offset (offset + 1) (keys d) (omega arith) s.below) (omega arith, tt));
    }

scan_loop-IsAscending :
    (fuel : ℕ) (xs : Bytes) (start : ℕ) (d : Dict ArrayNode)
    → file_header_size ≤ start
    → IsScanned xs start d
    → IsAscending file_header_size (keys (scan_loop fuel xs (find xs array_signature start) d))
unfolding scan_loop visit
scan_loop-IsAscending zero xs start d low s = elim (Option-cases (find xs array_signature start)) [
  | inl e ↦ rw e s.ascending
  | inr (o, e) ↦ rw e s.ascending
]
scan_loop-IsAscending (suc fuel) xs start d low s =
    elim (Option-cases (find xs array_signature start)) [
      | inl e ↦ rw e s.ascending
      | inr (o, e) ↦
          let (later, _, _) = find-some xs array_signature start o e in
          rw e (
            scan_loop-IsAscending fuel xs (o + 1) (visit xs o d) (omega arith) (
              record_candidate-IsScanned xs o (candidate xs o) d (omega arith) record {
                ascending = s.ascending;
                below = All-below_mono start o (keys d) later s.below;
              }))
    ]

-- The scan lists the offsets in strictly ascending order, all behind the file header.
pub scan_array_candidates-IsAscending :
    (xs : Bytes) → IsAscending file_header_size (keys (scan_array_candidates xs))
unfolding scan_array_candidates
scan_array_candidates-IsAscending xs =
    scan_loop-IsAscending (length xs) xs file_header_size [] (omega arith)
      (record { ascending = tt; below = tt })

-- What the scan has under an offset describes an array that lies in the file there: aligned,
-- inside the bytes, with the sizes, flags and element count of its header, no children yet and the
-- label of an orphan.
pub lookup-scan-IsCandidate :
    (xs : Bytes) (k : ℕ) {node : ArrayNode}
    → lookup k (scan_array_candidates xs) ≡ some node
    → IsCandidate xs k node
lookup-scan-IsCandidate xs k h =
    elim (Bool-cases (leb file_header_size k && stands_at xs array_signature k)) [
      | inl e ↦ candidate-IsCandidate xs k (ground (arith, lookup-scan_array_candidates xs k))
      | inr e ↦ absurd (ground (arith, lookup-scan_array_candidates xs k))
    ]

pub lookup-scan_behind :
    (xs : Bytes) (k : ℕ) {node : ArrayNode}
    → lookup k (scan_array_candidates xs) ≡ some node
    → file_header_size ≤ k
lookup-scan_behind xs k h = elim (Bool-cases (leb file_header_size k)) [
  | inl e ↦ leb→le file_header_size k e
  | inr e ↦ absurd (ground (arith, lookup-scan_array_candidates xs k))
]
