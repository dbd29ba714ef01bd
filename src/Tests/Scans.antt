-- ===== src/Tests/Scans.antt =====
-- The scan and the references at concrete bytes.
use pyrealm.Prelude.{
  ◌≡◌, ◌↔◌, refl, true, false, none, some, [], ◌∷◌, leb, ◌&&◌, if◌then◌else◌, contains,
}
use pyrealm.Prelude.Dict.{lookup, keys}
use pyrealm.Bytes.{find}
use pyrealm.Bytes.Find.{stands_at}
use pyrealm.Models.{ArrayNode, orphan}
use pyrealm.Header.{file_header_size}
use pyrealm.Layout.{array_size}
use pyrealm.Scan.{array_signature, candidate, scan_array_candidates}
use pyrealm.Scan.Exact.{lookup-scan_array_candidates}
use pyrealm.Scan.Order.{IsCandidate, lookup-scan-IsCandidate}
use pyrealm.References.{child_refs_of, holds_references}
use pyrealm.References.Children.{HasElement, contains-child_refs_of}
use pyrealm.Tests.Files.{small_realm}

abbrev root_node : ArrayNode
root_node = record {
  offset = 24;
  byte_size = 24;
  payload_size = 16;
  element_count = 2;
  width = 64;
  width_scheme = 0;
  has_refs = true;
  inner_bptree = false;
  context_flag = false;
  child_refs = [];
  reachability = orphan;
}

small_keys : keys (scan_array_candidates small_realm) ≡ 24 ∷ 48 ∷ 64 ∷ []
unfolding scan_array_candidates candidate find array_size
small_keys = refl

root_found : lookup 24 (scan_array_candidates small_realm) ≡ some root_node
unfolding scan_array_candidates candidate find array_size
root_found = refl

lookup-scan_array_candidates_example : lookup 24 (scan_array_candidates small_realm) ≡ (
    if leb file_header_size 24 && stands_at small_realm array_signature 24
    then candidate small_realm 24
    else none)
lookup-scan_array_candidates_example = lookup-scan_array_candidates small_realm 24

lookup-scan-IsCandidate_example : IsCandidate small_realm 24 root_node
lookup-scan-IsCandidate_example = lookup-scan-IsCandidate small_realm 24 root_found

root_children : child_refs_of small_realm (scan_array_candidates small_realm) 24 root_node ≡ 48 ∷ []
unfolding child_refs_of scan_array_candidates candidate find array_size
root_children = refl

contains-child_refs_of_example :
    (contains (child_refs_of small_realm (scan_array_candidates small_realm) 24 root_node) 48
      ≡ true)
    ↔ ((holds_references root_node ≡ true)
        × HasElement small_realm (scan_array_candidates small_realm) 32 8 0 2 48)
contains-child_refs_of_example =
    contains-child_refs_of small_realm (scan_array_candidates small_realm) 24 root_node 48
