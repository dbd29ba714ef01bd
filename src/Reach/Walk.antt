-- ===== src/Reach/Walk.antt =====
-- What it means for an array to be reachable, with no reference to the traversal.
use pyrealm.Prelude.{ℕ, ◌≡◌, true, none, some, List, [], contains}
use pyrealm.Prelude.Dict.{Dict, lookup, has_key}
use pyrealm.Models.{ArrayNode}

-- The children of an offset; an offset with no array has none.
abbrev pub children : Dict ArrayNode → ℕ → List ℕ
children nodes v = elim (lookup v nodes) [ none ↦ [] | some node ↦ node.child_refs ]

abbrev pub Edge : Dict ArrayNode → ℕ → ℕ → Type 0
Edge nodes u v = contains (children nodes u) v ≡ true

-- The walks from a root that is an array, along the child references.
pub data Reach (nodes : Dict ArrayNode) (root : ℕ) : ℕ → Type 0 where
  here : has_key nodes root ≡ true → Reach nodes root root
  step : {u v : ℕ} → Reach nodes root u → Edge nodes u v → Reach nodes root v

-- Every edge leads to an array.
pub record IsClosed (nodes : Dict ArrayNode) : Type 0 where
  pub target : (u v : ℕ) → Edge nodes u v → has_key nodes v ≡ true

pub Reach-has_key :
    {nodes : Dict ArrayNode} {root v : ℕ}
    → IsClosed nodes
    → Reach nodes root v
    → has_key nodes v ≡ true
Reach-has_key closed (here h) = h
Reach-has_key closed (step {u} {v} w e) = closed.target u v e

pub children_of_lookup :
    (nodes : Dict ArrayNode) (v : ℕ) {node : ArrayNode}
    → lookup v nodes ≡ some node
    → children nodes v ≡ node.child_refs
children_of_lookup nodes v e = rw (e, children)

pub children_of_missing :
    (nodes : Dict ArrayNode) (v : ℕ) → lookup v nodes ≡ none → children nodes v ≡ []
children_of_missing nodes v e = rw (e, children)
