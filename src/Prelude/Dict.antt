-- ===== src/Prelude/Dict.antt =====
-- Python dicts with integer keys, in insertion order.
use Prim.Native.Nat.{ℕ}
use mathlib.Core.Path.{◌≡◌, refl}
use mathlib.Core.Bool.{Bool, true, false}
use mathlib.Core.Option.{Option, none, some}
use mathlib.Core.List.{List, [], ◌∷◌}
use native.Mathlib.Omega.{arith}
use mathlib.Core.Logic.{inl, inr}
use pyrealm.Prelude.Tests.{◌==◌, if◌then◌else◌, Bool-cases}
use pyrealm.Prelude.Lists.{contains, contains-All, All}

abbrev pub Dict {ℓ} : Type ℓ → Type ℓ
Dict V = List (ℕ × V)

module _ {ℓ} {V : Type ℓ} where
  abbrev pub keys : Dict V → List ℕ
  keys [] = []
  keys ((k, _) ∷ d) = k ∷ keys d

  -- `d.get(k)`
  abbrev pub lookup : ℕ → Dict V → Option V
  lookup k [] = none
  lookup k ((j, v) ∷ d) = if j == k then some v else lookup k d

  -- `d[k] = v`: a key that is there keeps its place, a new one goes to the end.
  abbrev pub insert : ℕ → V → Dict V → Dict V
  insert k v [] = (k, v) ∷ []
  insert k v ((j, w) ∷ d) = if j == k then (j, v) ∷ d else (j, w) ∷ insert k v d

  pub lookup-insert :
      (k j : ℕ) (v : V) (d : Dict V)
      → lookup j (insert k v d) ≡ (if k == j then some v else lookup j d)
  lookup-insert k j v [] = refl
  lookup-insert k j v ((i, w) ∷ d) = ground (arith, lookup-insert k j v d)

-- `k in d`
abbrev pub has_key {ℓ} : {V : Type ℓ} → Dict V → ℕ → Bool
has_key d k = contains (keys d) k

module _ {ℓ} {V : Type ℓ} where
  pub lookup_of_has_key :
      (k : ℕ) (d : Dict V) → has_key d k ≡ true → (v : V) × (lookup k d ≡ some v)
  lookup_of_has_key k [] h = cc
  lookup_of_has_key k ((j, v) ∷ d) h = elim (Bool-cases (j == k)) [
    | inl e ↦ (v, rw e)
    | inr e ↦ rw e (lookup_of_has_key k d (rw e at h))
  ]

  pub has_key_of_lookup : (k : ℕ) (d : Dict V) {v : V} → lookup k d ≡ some v → has_key d k ≡ true
  has_key_of_lookup k [] h = cc
  has_key_of_lookup k ((j, w) ∷ d) h = elim (Bool-cases (j == k)) [
    | inl e ↦ rw e
    | inr e ↦ rw e (has_key_of_lookup k d (rw e at h))
  ]

  pub lookup_of_not_has_key : (k : ℕ) (d : Dict V) → has_key d k ≡ false → lookup k d ≡ none
  lookup_of_not_has_key k [] h = refl
  lookup_of_not_has_key k ((j, w) ∷ d) h = ground (arith, lookup_of_not_has_key k d)

  pub has_key-keys : (d : Dict V) → All (λ k. has_key d k ≡ true) (keys d)
  has_key-keys d = contains-All (keys d)
