-- ===== src/Reach/Bound.antt =====
-- The number of rounds of `_reachable` in src/pyrealm_forensics/parser.py: each takes an item
-- off `pending`, onto which go the root and, once for each array, its children.
use pyrealm.Prelude.{
  ℕ, zero, suc, ◌+◌, ◌≤◌, ◌≡◌, ◌≢◌, ◌⊎◌, refl, false, some, List, [], ◌∷◌, arith, ◌==◌,
  if◌then◌else◌, length, contains, Result, ok, err, key_error, out_of_fuel, Bool-cases,
  Option-cases, inl, inr,
}
use pyrealm.Prelude.Dict.{Dict, lookup, has_key}
use pyrealm.Models.{ArrayNode}
use pyrealm.Reach.Rounds.{round-seen, round-missing, round-new}
use pyrealm.Reach.{push_unseen, reach_loop, edge_count, reachable}

-- The edges out of the arrays that were not seen.
abbrev unseen_edges : List ℕ → Dict ArrayNode → ℕ
unseen_edges seen [] = 0
unseen_edges seen ((k, node) ∷ nodes) =
    (if contains seen k then 0 else length node.child_refs) + unseen_edges seen nodes

length-push_unseen :
    (seen refs pending : List ℕ)
    → length (push_unseen seen refs pending) ≤ length refs + length pending
unfolding push_unseen
length-push_unseen seen [] pending = omega arith
length-push_unseen seen (ref ∷ refs) pending = elim (Bool-cases (contains seen ref)) [
  | inl e ↦ rw e (omega (arith, length-push_unseen seen refs pending))
  | inr e ↦ rw e (omega (arith, length-push_unseen seen refs (ref ∷ pending)))
]

unseen_edges_mono :
    (seen : List ℕ) (k : ℕ) (nodes : Dict ArrayNode)
    → unseen_edges (k ∷ seen) nodes ≤ unseen_edges seen nodes
unseen_edges_mono seen k [] = omega arith
unseen_edges_mono seen k ((j, node) ∷ nodes) = ground (arith, unseen_edges_mono seen k nodes)

unseen_edges-lookup :
    (seen : List ℕ) (k : ℕ) (nodes : Dict ArrayNode) {node : ArrayNode}
    → contains seen k ≡ false
    → lookup k nodes ≡ some node
    → length node.child_refs + unseen_edges (k ∷ seen) nodes ≤ unseen_edges seen nodes
unseen_edges-lookup seen k [] fresh e = cc
unseen_edges-lookup seen k ((j, n) ∷ nodes) fresh e = elim (Bool-cases (j == k)) [
  | inl same ↦ ground (arith, unseen_edges_mono seen k nodes)
  | inr other ↦ ground (arith, unseen_edges-lookup seen k nodes fresh (rw other at e))
]

-- A traversal ends in a set, or at an offset that is not in the table.
abbrev pub Ends : Result (List ℕ) → Type 0
Ends r = ((result : List ℕ) × (r ≡ ok result)) ⊎ ((k : ℕ) × (r ≡ err (key_error k)))

reach_loop-Ends :
    (fuel : ℕ) (nodes : Dict ArrayNode) (seen pending : List ℕ)
    → length pending + unseen_edges seen nodes ≤ fuel
    → Ends (reach_loop fuel nodes seen pending)
unfolding reach_loop
reach_loop-Ends zero nodes seen [] h = inl (seen, refl)
reach_loop-Ends (suc fuel) nodes seen [] h = inl (seen, refl)
reach_loop-Ends zero nodes seen (current ∷ pending) h = absurd (omega arith)
reach_loop-Ends (suc fuel) nodes seen (current ∷ pending) h =
    elim (Bool-cases (contains seen current)) [
      | inl old ↦
          rw (round-seen fuel nodes seen current pending old)
            (reach_loop-Ends fuel nodes seen pending (omega arith))
      | inr new ↦ elim (Option-cases (lookup current nodes)) [
        | inl e ↦ inr (current, round-missing fuel nodes seen current pending new e)
        | inr (node, e) ↦ rw (round-new fuel nodes seen current pending new e) (
            reach_loop-Ends fuel nodes (current ∷ seen)
              (push_unseen (current ∷ seen) node.child_refs pending)
              (omega (
                arith,
                length-push_unseen (current ∷ seen) node.child_refs pending,
                unseen_edges-lookup seen current nodes new e,
              )))
      ]
    ]

unseen_edges-nil : (nodes : Dict ArrayNode) → unseen_edges [] nodes ≡ edge_count nodes
unseen_edges-nil [] = refl
unseen_edges-nil ((k, node) ∷ nodes) = omega (arith, unseen_edges-nil nodes)

-- The bound on the rounds is enough, whatever the graph: cycles, shared children and unknown
-- children included.
pub reachable-Ends : (nodes : Dict ArrayNode) (root : ℕ) → Ends (reachable nodes root)
unfolding reachable
reachable-Ends nodes root = elim (Bool-cases (has_key nodes root)) [
  | inl e ↦ rw e (
      reach_loop-Ends (1 + edge_count nodes) nodes [] (root ∷ [])
        (omega (arith, unseen_edges-nil nodes)))
  | inr e ↦ rw e (inl ([], refl))
]

-- The bound on the rounds of the traversal is enough for any table and any root: cycles, shared
-- children and children that are unknown included.
pub reachable-ne-out_of_fuel :
    (nodes : Dict ArrayNode) (root : ℕ) → reachable nodes root ≢ err out_of_fuel
reachable-ne-out_of_fuel nodes root e = elim (reachable-Ends nodes root) [
  | inl (result, done) ↦ cc
  | inr (k, failed) ↦ cc
]
