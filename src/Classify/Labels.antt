-- ===== src/Classify/Labels.antt =====
-- The labels of `_classify_nodes` in src/pyrealm_forensics/parser.py, beside the walks from the
-- two roots.
use pyrealm.Prelude.{ℕ, ◌≡◌, refl, ◌↔◌, true, some, List, [], ◌∷◌, arith, contains, ok, All}
use pyrealm.Prelude.Dict.{Dict, lookup, keys, has_key, lookup_of_has_key, has_key-keys}
use pyrealm.Models.{ArrayNode, RealmHeader, Reachability, active, shared, inactive, orphan}
use pyrealm.Reach.Walk.{Reach, IsClosed}
use pyrealm.Reach.Correct.{contains-reachable, reachable_returns}
use pyrealm.Classify.Sort.{sorted-All}
use pyrealm.Classify.{label, node_of, label_all, sorted, classify_nodes}

-- What the label of an offset says of two properties of it.
pub record IsLabelOf {ℓ} (A B : Type ℓ) (r : Reachability) : Type ℓ where
  pub shared_iff : (r ≡ shared) ↔ (A × B)
  pub active_iff : (r ≡ active) ↔ (A × ¬ B)
  pub inactive_iff : (r ≡ inactive) ↔ (¬ A × B)
  pub orphan_iff : (r ≡ orphan) ↔ (¬ A × ¬ B)

label-IsLabelOf :
    {A B : Type 0} (xs ys : List ℕ) (k : ℕ)
    → (contains xs k ≡ true) ↔ A
    → (contains ys k ≡ true) ↔ B
    → IsLabelOf A B (label xs ys k)
unfolding label
label-IsLabelOf xs ys k a b = ground arith

-- The array reported for an offset: the one of the table, with a label that says whether the active
-- and the inactive root lead to it.
pub record IsClassified (nodes : Dict ArrayNode) (header : RealmHeader) (k : ℕ) (node : ArrayNode)
    : Type 0 where
  pub of_table :
      (before : ArrayNode) × (lookup k nodes ≡ some before)
      × (node ≡ record before { reachability = node.reachability })
  pub label_of :
      IsLabelOf
        (Reach nodes header.active_top_ref k)
        (Reach nodes header.inactive_top_ref k)
        node.reachability

-- One array for each offset, in the same order.
abbrev pub AllClassified : Dict ArrayNode → RealmHeader → List ℕ → List ArrayNode → Type 0
AllClassified nodes header [] [] = Unit
AllClassified nodes header [] (node ∷ arrays) = ⊥
AllClassified nodes header (k ∷ ks) [] = ⊥
AllClassified nodes header (k ∷ ks) (node ∷ arrays) =
    IsClassified nodes header k node × AllClassified nodes header ks arrays

label_all_lem :
    (nodes : Dict ArrayNode) (header : RealmHeader) (xs ys ks : List ℕ)
    → ((v : ℕ) → (contains xs v ≡ true) ↔ Reach nodes header.active_top_ref v)
    → ((v : ℕ) → (contains ys v ≡ true) ↔ Reach nodes header.inactive_top_ref v)
    → All (λ k. has_key nodes k ≡ true) ks
    → (arrays : List ArrayNode) × (label_all nodes xs ys ks ≡ ok arrays)
      × AllClassified nodes header ks arrays
unfolding label_all node_of
label_all_lem nodes header xs ys [] a b known = ([], refl, tt)
label_all_lem nodes header xs ys (k ∷ ks) a b known =
    let (node, e) = lookup_of_has_key k nodes known.0 in
    let (arrays, e', rest) = label_all_lem nodes header xs ys ks a b known.1 in
    (
      record node { reachability = label xs ys k } ∷ arrays,
      rw (e, node_of) (rw e'),
      (record { of_table = (node, e, refl); label_of = label-IsLabelOf xs ys k (a k) (b k) }, rest),
    )

-- On a table whose children are arrays the classification returns, and reports one array for each
-- offset of the table, in ascending order, each labelled by the roots that lead to it.
pub classify_nodes_lem :
    (nodes : Dict ArrayNode) (header : RealmHeader)
    → IsClosed nodes
    → (arrays : List ArrayNode) × (classify_nodes nodes header ≡ ok arrays)
      × AllClassified nodes header (sorted (keys nodes)) arrays
unfolding classify_nodes
classify_nodes_lem nodes header closed =
    let (xs, ex) = reachable_returns nodes header.active_top_ref closed in
    let (ys, ey) = reachable_returns nodes header.inactive_top_ref closed in
    rw (ex, ey)
      (label_all_lem nodes header xs ys (sorted (keys nodes))
        (λ v. contains-reachable nodes header.active_top_ref v ex)
        (λ v. contains-reachable nodes header.inactive_top_ref v ey)
        (sorted-All (λ k. has_key nodes k ≡ true) (keys nodes) (has_key-keys nodes)))
