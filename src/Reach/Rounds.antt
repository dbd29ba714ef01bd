-- ===== src/Reach/Rounds.antt =====
-- The cases of one round of the traversal.
use pyrealm.Prelude.{
  ℕ, suc, ◌≡◌, arith, true, false, none, some, List, ◌∷◌, contains, err, key_error,
}
use pyrealm.Prelude.Dict.{Dict, lookup}
use pyrealm.Models.{ArrayNode}
use pyrealm.Reach.{push_unseen, reach_loop}

module _ (fuel : ℕ) (nodes : Dict ArrayNode) (seen : List ℕ) (current : ℕ) (pending : List ℕ) where
  pub round-seen :
      contains seen current ≡ true
      → reach_loop (suc fuel) nodes seen (current ∷ pending) ≡ reach_loop fuel nodes seen pending
  unfolding reach_loop
  round-seen old = rw (old, reach_loop)

  pub round-missing :
      contains seen current ≡ false
      → lookup current nodes ≡ none
      → reach_loop (suc fuel) nodes seen (current ∷ pending) ≡ err (key_error current)
  unfolding reach_loop
  round-missing new e = rw (new, reach_loop) (rw (e, reach_loop))

  pub round-new :
      {node : ArrayNode}
      → contains seen current ≡ false
      → lookup current nodes ≡ some node
      → reach_loop (suc fuel) nodes seen (current ∷ pending)
        ≡ reach_loop fuel nodes
            (current ∷ seen)
            (push_unseen (current ∷ seen) node.child_refs pending)
  unfolding reach_loop
  round-new new e = ground arith
