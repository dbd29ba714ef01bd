-- ===== src/Reach.antt =====
-- src/pyrealm_forensics/parser.py, `_reachable`: the arrays that one root leads to.
-- `pending` has its top first, where Python's list has it last: `pop` takes the head, and `extend`
-- puts each item in front. The set `seen` is a list, of which only membership is asked.
mod Rounds
pub mod Walk
pub mod Bound
pub mod Correct
use pyrealm.Prelude.{
  ℕ, zero, suc, ◌+◌, Bool, true, false, Option, none, some, List, [], ◌∷◌, ◌==◌, if◌then◌else◌,
  length, contains, Result, ok, err, key_error, out_of_fuel,
}
use pyrealm.Prelude.Dict.{Dict, lookup, has_key}
use pyrealm.Models.{ArrayNode}

-- `pending.extend(ref for ref in refs if ref not in seen)`
pub push_unseen : List ℕ → List ℕ → List ℕ → List ℕ
push_unseen seen [] pending = pending
push_unseen seen (ref ∷ refs) pending =
    push_unseen seen refs (if contains seen ref then pending else ref ∷ pending)

-- The `while` loop. `nodes[current]` raises `KeyError` for an offset that is not in `nodes`.
pub reach_loop : ℕ → Dict ArrayNode → List ℕ → List ℕ → Result (List ℕ)
reach_loop fuel nodes seen [] = ok seen
reach_loop zero nodes seen (current ∷ pending) = err out_of_fuel
reach_loop (suc fuel) nodes seen (current ∷ pending) = elim (contains seen current) [
  | true ↦ reach_loop fuel nodes seen pending
  | false ↦ elim (lookup current nodes) [
    | none ↦ err (key_error current)
    | some node ↦
        reach_loop fuel nodes (current ∷ seen)
          (push_unseen (current ∷ seen) node.child_refs pending)
  ]
]

-- One round for the root and one for each edge (`Bound`).
abbrev pub edge_count : Dict ArrayNode → ℕ
edge_count [] = 0
edge_count ((_, node) ∷ nodes) = length node.child_refs + edge_count nodes

unfoldable pub reachable : Dict ArrayNode → ℕ → Result (List ℕ)
unfolding reach_loop push_unseen
reachable nodes root =
    if has_key nodes root then reach_loop (1 + edge_count nodes) nodes [] (root ∷ []) else ok []
