-- ===== src/Reach/Correct.antt =====
-- `_reachable` in src/pyrealm_forensics/parser.py, beside the walks from the root.
use pyrealm.Prelude.{
  ℕ, zero, suc, ◌+◌, ◌≡◌, ◌≢◌, ◌↔◌, subst, ◌||◌, ◌&&◌, not, true, false, some, List, [], ◌∷◌, arith,
  contains, contains_eq, ok, err, key_error, Bool-cases, Option-cases, inl, inr,
}
use pyrealm.Prelude.Dict.{Dict, lookup, has_key, lookup_of_has_key}
use pyrealm.Models.{ArrayNode}
use pyrealm.Reach.Walk.{children_of_lookup, Edge, Reach, here, step, IsClosed, Reach-has_key}
use pyrealm.Reach.Rounds.{round-seen, round-missing, round-new}
use pyrealm.Reach.Bound.{reachable-Ends}
use pyrealm.Reach.{push_unseen, reach_loop, edge_count, reachable}

contains-push_unseen :
    (seen refs pending : List ℕ) (v : ℕ)
    → contains (push_unseen seen refs pending) v
      ≡ (contains pending v || (contains refs v && not (contains seen v)))
unfolding push_unseen
contains-push_unseen seen [] pending v = ground arith
contains-push_unseen seen (ref ∷ refs) pending v = elim (Bool-cases (contains seen ref)) [
  | inl e ↦ rw e (ground (arith, contains-push_unseen seen refs pending v, contains_eq seen ref v))
  | inr e ↦
      rw e
        (ground (arith, contains-push_unseen seen refs (ref ∷ pending) v, contains_eq seen ref v))
]

module _ (nodes : Dict ArrayNode) (root : ℕ) where
  record Inv (seen pending : List ℕ) : Type 0 where
    source : (contains seen root || contains pending root) ≡ true
    sound : (v : ℕ) → (contains seen v || contains pending v) ≡ true → Reach nodes root v
    closed :
        (u v : ℕ)
        → contains seen u ≡ true
        → Edge nodes u v
        → (contains seen v || contains pending v) ≡ true

  Inv-seen :
      (seen pending : List ℕ) (current : ℕ)
      → contains seen current ≡ true
      → Inv seen (current ∷ pending)
      → Inv seen pending
  Inv-seen seen pending current old i = record {
    source = ground (arith, i.source, contains_eq seen current root);
    sound = λ v h. i.sound v (ground arith);
    closed = λ u v h e. ground (arith, i.closed u v h e, contains_eq seen current v);
  }

  Inv-new :
      (seen pending : List ℕ) (current : ℕ) (node : ArrayNode)
      → lookup current nodes ≡ some node
      → contains seen current ≡ false
      → Inv seen (current ∷ pending)
      → Inv (current ∷ seen) (push_unseen (current ∷ seen) node.child_refs pending)
  Inv-new seen pending current node e new i =
      let pushed = contains-push_unseen (current ∷ seen) node.child_refs pending in
      record {
        source = ground (arith, i.source, pushed root);
        sound = λ v h. elim (Bool-cases (contains seen v || contains (current ∷ pending) v)) [
          | inl old ↦ i.sound v old
          | inr fresh ↦ step (i.sound current (ground arith)) (
              rw (children_of_lookup nodes current e)
                (ground (arith, pushed v, contains_eq seen current v)))
        ];
        closed = λ u v h edge. elim (Bool-cases (contains seen u)) [
          | inl old ↦ ground (arith, i.closed u v old edge, pushed v, contains_eq seen current v)
          | inr fresh ↦
              let same : current ≡ u = ground arith in
              let child = rw (children_of_lookup nodes current e) at (rw (← same) at edge) in
              ground (arith, pushed v)
        ];
      }

  -- What holds of a traversal that returns.
  reach_loop_rule :
      (fuel : ℕ) (seen pending : List ℕ) {result : List ℕ}
      → Inv seen pending
      → reach_loop fuel nodes seen pending ≡ ok result
      → Inv result []
  unfolding reach_loop
  reach_loop_rule zero seen [] i e = subst (λ s. Inv s []) (cc) i
  reach_loop_rule (suc fuel) seen [] i e = subst (λ s. Inv s []) (cc) i
  reach_loop_rule zero seen (current ∷ pending) i e = cc
  reach_loop_rule (suc fuel) seen (current ∷ pending) i e =
      elim (Bool-cases (contains seen current)) [
        | inl old ↦
            reach_loop_rule fuel seen pending (Inv-seen seen pending current old i)
              (rw (round-seen fuel nodes seen current pending old) at e)
        | inr new ↦ elim (Option-cases (lookup current nodes)) [
          | inl gone ↦ cc (e, round-missing fuel nodes seen current pending new gone)
          | inr (node, there) ↦
              reach_loop_rule fuel (current ∷ seen)
                (push_unseen (current ∷ seen) node.child_refs pending)
                (Inv-new seen pending current node there new i)
                (rw (round-new fuel nodes seen current pending new there) at e)
        ]
      ]

  -- On a closed table no round meets an unknown offset.
  reach_loop-ne-key_error :
      (fuel k : ℕ) (seen pending : List ℕ)
      → IsClosed nodes
      → Inv seen pending
      → reach_loop fuel nodes seen pending ≢ err (key_error k)
  unfolding reach_loop
  reach_loop-ne-key_error zero k seen [] closed i = λ e. cc
  reach_loop-ne-key_error (suc fuel) k seen [] closed i = λ e. cc
  reach_loop-ne-key_error zero k seen (current ∷ pending) closed i = λ e. cc
  reach_loop-ne-key_error (suc fuel) k seen (current ∷ pending) closed i = λ e.
      elim (Bool-cases (contains seen current)) [
        | inl old ↦
            reach_loop-ne-key_error fuel k seen pending closed (Inv-seen seen pending current old i)
              (rw (round-seen fuel nodes seen current pending old) at e)
        | inr new ↦
            let known = Reach-has_key closed (i.sound current (ground arith)) in
            let (node, there) = lookup_of_has_key current nodes known in
            reach_loop-ne-key_error fuel k (current ∷ seen)
              (push_unseen (current ∷ seen) node.child_refs pending) closed
              (Inv-new seen pending current node there new i)
              (rw (round-new fuel nodes seen current pending new there) at e)
      ]

  complete :
      {result : List ℕ} {v : ℕ} → Inv result [] → Reach nodes root v → contains result v ≡ true
  complete i (here h) = ground (arith, i.source)
  complete i (step {u} {v} w edge) = ground (arith, i.closed u v (complete i w) edge)

  Inv-start : has_key nodes root ≡ true → Inv [] (root ∷ [])
  Inv-start known = record {
    source = ground arith;
    sound = λ v h. let e : root ≡ v = ground arith in rw (← e) (here known);
    closed = λ u v h edge. cc;
  }

  no_walk : has_key nodes root ≡ false → {v : ℕ} → ¬ Reach nodes root v
  no_walk absent (here known) = cc
  no_walk absent (step w edge) = no_walk absent w

-- Whenever the traversal returns a set, it holds exactly the arrays that some walk from the root
-- leads to.
pub contains-reachable :
    (nodes : Dict ArrayNode) (root v : ℕ) {result : List ℕ}
    → reachable nodes root ≡ ok result
    → (contains result v ≡ true) ↔ Reach nodes root v
unfolding reachable
contains-reachable nodes root v {result} e = elim (Bool-cases (has_key nodes root)) [
  | inl known ↦
      let i =
        reach_loop_rule nodes root (1 + edge_count nodes) [] (root ∷ [])
          (Inv-start nodes root known) (rw known at e) in
      (λ h. i.sound v (ground arith), complete nodes root i)
  | inr absent ↦
      let empty : [] ≡ result = ground arith in
      (λ h. cc (rw (← empty) at h), λ w. absurd (no_walk nodes root absent w))
]

-- On a table whose children are arrays the traversal returns, from any root.
pub reachable_returns :
    (nodes : Dict ArrayNode) (root : ℕ)
    → IsClosed nodes
    → (result : List ℕ) × (reachable nodes root ≡ ok result)
unfolding reachable
reachable_returns nodes root closed = elim (reachable-Ends nodes root) [
  | inl done ↦ done
  | inr (k, failed) ↦ elim (Bool-cases (has_key nodes root)) [
    | inl known ↦ absurd (
        reach_loop-ne-key_error nodes root (1 + edge_count nodes) k [] (root ∷ []) closed
          (Inv-start nodes root known) (rw known at failed))
    | inr absent ↦ absurd (ground arith)
  ]
]
