-- ===== src/Classify.antt =====
-- src/pyrealm_forensics/parser.py, `_classify_nodes`: the label of each array, by file offset.
pub mod Sort
pub mod Labels
pub mod Pipeline
use pyrealm.Prelude.{
  ℕ, Bool, true, false, ◌&&◌, Option, none, some, List, [], ◌∷◌, leb, if◌then◌else◌, contains,
  Result, ok, err, key_error, ◌>>=◌,
}
use pyrealm.Prelude.Dict.{Dict, lookup, keys}
use pyrealm.Models.{ArrayNode, RealmHeader, Reachability, active, shared, inactive, orphan}
use pyrealm.Reach.{reachable}

-- `sorted` on integers, as an insertion sort.
insert_sorted : ℕ → List ℕ → List ℕ
insert_sorted x [] = x ∷ []
insert_sorted x (y ∷ ys) = if leb x y then x ∷ y ∷ ys else y ∷ insert_sorted x ys

unfoldable pub sorted : List ℕ → List ℕ
unfolding insert_sorted
sorted [] = []
sorted (x ∷ xs) = insert_sorted x (sorted xs)

-- The `if` chain of the loop, on the two reachable sets.
pub label : List ℕ → List ℕ → ℕ → Reachability
label from_active from_inactive offset =
    if contains from_active offset && contains from_inactive offset
    then shared
    else if contains from_active offset
    then active
    else if contains from_inactive offset
    then inactive
    else orphan

-- `nodes[offset]`
pub node_of : Dict ArrayNode → ℕ → Result ArrayNode
node_of nodes offset = elim (lookup offset nodes) [
  | none ↦ err (key_error offset)
  | some node ↦ ok node
]

-- The loop over the sorted offsets.
pub label_all : Dict ArrayNode → List ℕ → List ℕ → List ℕ → Result (List ArrayNode)
label_all nodes from_active from_inactive [] = ok []
label_all nodes from_active from_inactive (offset ∷ offsets) = do
  node ← node_of nodes offset
  classified ← label_all nodes from_active from_inactive offsets
  ok (record node { reachability = label from_active from_inactive offset } ∷ classified)

unfoldable pub classify_nodes : Dict ArrayNode → RealmHeader → Result (List ArrayNode)
unfolding label_all node_of label
classify_nodes nodes header = do
  from_active ← reachable nodes header.active_top_ref
  from_inactive ← reachable nodes header.inactive_top_ref
  label_all nodes from_active from_inactive (sorted (keys nodes))
