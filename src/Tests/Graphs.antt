-- ===== src/Tests/Graphs.antt =====
-- The traversal and the labels at a concrete table: two arrays that refer to each other, and a third.
use pyrealm.Prelude.{ℕ, ◌≡◌, ◌↔◌, refl, map, true, false, List, [], ◌∷◌, arith, contains, ok}
use pyrealm.Prelude.Ascending.{IsAscending}
use pyrealm.Prelude.Dict.{Dict, keys}
use pyrealm.Models.{ArrayNode, orphan}
use pyrealm.Header.{file_header_size}
use pyrealm.Scan.{scan_array_candidates}
use pyrealm.Reach.{reachable}
use pyrealm.Reach.Walk.{Reach, IsClosed}
use pyrealm.Reach.Correct.{contains-reachable}
use pyrealm.Classify.{classify_nodes}
use pyrealm.Classify.Labels.{AllClassified}
use pyrealm.Classify.Pipeline.{linked, classify_file}
use pyrealm.Tests.Files.{small_realm, small_header}

abbrev array_at : ℕ → List ℕ → ArrayNode
array_at offset refs = record {
  offset = offset;
  byte_size = 16;
  payload_size = 8;
  element_count = 1;
  width = 64;
  width_scheme = 0;
  has_refs = true;
  inner_bptree = false;
  context_flag = false;
  child_refs = refs;
  reachability = orphan;
}

abbrev cycle : Dict ArrayNode
cycle = (24, array_at 24 (40 ∷ [])) ∷ (40, array_at 40 (24 ∷ [])) ∷ (56, array_at 56 []) ∷ []

cycle_reached : reachable cycle 24 ≡ ok (40 ∷ 24 ∷ [])
unfolding reachable
cycle_reached = refl

contains-reachable_example : (contains (40 ∷ 24 ∷ []) 40 ≡ true) ↔ Reach cycle 24 40
contains-reachable_example = contains-reachable cycle 24 40 cycle_reached

cycle-IsClosed : IsClosed cycle
cycle-IsClosed = record { target = λ u v edge. ground (arith, edge) }

classify_file_example :
    (arrays : List ArrayNode) × (classify_nodes (linked small_realm) small_header ≡ ok arrays)
    × AllClassified
        (linked small_realm)
        small_header
        (keys (scan_array_candidates small_realm))
        arrays
    × (map (λ node. node.offset) arrays ≡ keys (scan_array_candidates small_realm))
    × IsAscending file_header_size (map (λ node. node.offset) arrays)
classify_file_example = classify_file small_realm small_header
