-- ===== src/Classify/Pipeline.antt =====
-- The three passes of `_analyze` over the bytes: scan, references, labels.
use mathlib.Core.Option
use pyrealm.Prelude.{
  ℕ, ◌≡◌, refl, sym, ◌∙◌, ap, true, some, List, [], ◌∷◌, map, arith, ok, Option-cases, inl, inr,
}
use pyrealm.Prelude.Ascending.{IsAscending}
use pyrealm.Prelude.Dict.{Dict, lookup, keys, has_key}
use pyrealm.Bytes.{Bytes}
use pyrealm.Models.{ArrayNode, RealmHeader}
use pyrealm.Header.{file_header_size}
use pyrealm.Scan.{scan_array_candidates}
use pyrealm.Scan.Order.{scan_array_candidates-IsAscending, lookup-scan-IsCandidate}
use pyrealm.References.{add_references, is_reference}
use pyrealm.References.Children.{
  keys-add_references, lookup-add_references, contains-child_refs_of, with_children,
}
use pyrealm.Reach.Walk.{children_of_lookup, children_of_missing, IsClosed}
use pyrealm.Classify.{sorted, classify_nodes}
use pyrealm.Classify.Sort.{sorted-IsAscending}
use pyrealm.Classify.Labels.{AllClassified, classify_nodes_lem}

is_reference-has_key :
    (nodes : Dict ArrayNode) (v : ℕ) → is_reference nodes v ≡ true → has_key nodes v ≡ true
is_reference-has_key nodes v h = ground arith

-- After the references are added to any table, every child of an array is an array of the table.
pub add_references-IsClosed :
    (xs : Bytes) (nodes : Dict ArrayNode) → IsClosed (add_references xs nodes)
add_references-IsClosed xs nodes = record {
  target = λ u v edge.
      let at = lookup-add_references xs nodes u in
      rw keys-add_references (elim (Option-cases (lookup u nodes)) [
        | inl e ↦ cc (rw (children_of_missing (add_references xs nodes) u (rw (at, e))) at edge)
        | inr (node, e) ↦
            let child =
              rw
                (children_of_lookup (add_references xs nodes) u
                  {node = with_children xs nodes u node} (rw (at, e)))
                at edge in
            is_reference-has_key nodes v ((contains-child_refs_of xs nodes u node v).0 child).1.4
      ]);
}

-- `nodes = _add_references(data, _scan_array_candidates(data))`
abbrev pub linked : Bytes → Dict ArrayNode
linked xs = add_references xs (scan_array_candidates xs)

linked-offset :
    (xs : Bytes) (k : ℕ) {node : ArrayNode} → lookup k (linked xs) ≡ some node → node.offset ≡ k
linked-offset xs k {node} h = elim (Option-cases (lookup k (scan_array_candidates xs))) [
  | inl e ↦ cc (h, lookup-add_references xs (scan_array_candidates xs) k, e)
  | inr (before, e) ↦
      let there =
        lookup-add_references xs (scan_array_candidates xs) k
        ∙ ap (Option.map (with_children xs (scan_array_candidates xs) k)) e in
      let same : some node ≡ some (with_children xs (scan_array_candidates xs) k before) =
        sym h ∙ there in
      ground (arith, (lookup-scan-IsCandidate xs k e).own_offset)
]

offsets-AllClassified :
    (xs : Bytes) (header : RealmHeader) (ks : List ℕ) (arrays : List ArrayNode)
    → AllClassified (linked xs) header ks arrays
    → map (λ node. node.offset) arrays ≡ ks
offsets-AllClassified xs header [] [] h = refl
offsets-AllClassified xs header [] (node ∷ arrays) h = absurd h
offsets-AllClassified xs header (k ∷ ks) [] h = absurd h
offsets-AllClassified xs header (k ∷ ks) (node ∷ arrays) (first, rest) =
    let (before, e, same) = first.of_table in
    cc (
      linked-offset xs k e,
      ap (λ (n : ArrayNode). n.offset) same,
      offsets-AllClassified xs header ks arrays rest,
    )

-- For any bytes and any header the three passes return, and report one array for each place where
-- the scan found one, in ascending order of offset, each with its label.
pub classify_file :
    (xs : Bytes) (header : RealmHeader)
    → (arrays : List ArrayNode) × (classify_nodes (linked xs) header ≡ ok arrays)
      × AllClassified (linked xs) header (keys (scan_array_candidates xs)) arrays
      × (map (λ node. node.offset) arrays ≡ keys (scan_array_candidates xs))
      × IsAscending file_header_size (map (λ node. node.offset) arrays)
classify_file xs header =
    let (arrays, returned, labelled) =
      classify_nodes_lem (linked xs) header
        (add_references-IsClosed xs (scan_array_candidates xs)) in
    let ascending = scan_array_candidates-IsAscending xs in
    let e : sorted (keys (linked xs)) ≡ keys (scan_array_candidates xs) =
      rw keys-add_references
        (sorted-IsAscending file_header_size (keys (scan_array_candidates xs)) ascending) in
    let labelled' = rw e at labelled in
    let offsets =
      offsets-AllClassified xs header (keys (scan_array_candidates xs)) arrays labelled' in
    (arrays, returned, labelled', offsets, rw offsets ascending)
