-- ===== src/Bytes/Find.antt =====
-- `bytes.find`, by the positions at which a pattern stands.
use pyrealm.Prelude.{
  ℕ, zero, suc, ◌+◌, ◌-◌, ◌≤◌, ◌<◌, ◌≡◌, Bool, true, false, none, some, [], ◌∷◌, arith, drop,
  Bool-cases, inl, inr, drop-drop,
}
use pyrealm.Bytes.{Bytes, starts_with, find_from, find}

-- The pattern stands at `k`.
abbrev pub stands_at : Bytes → Bytes → ℕ → Bool
stands_at xs pattern k = starts_with pattern (drop k xs)

find_from-some :
    (pattern xs : Bytes) (pos o : ℕ)
    → find_from pattern xs pos ≡ some o
    → (d : ℕ) × (o ≡ pos + d)
      × (stands_at xs pattern d ≡ true)
      × ((k : ℕ) → k < d → stands_at xs pattern k ≡ false)
unfolding find_from
find_from-some pattern [] pos o h = elim (Bool-cases (starts_with pattern [])) [
  | inl e ↦ (0, ground arith, e, λ k lt. absurd (omega arith))
  | inr e ↦ absurd (ground arith)
]
find_from-some pattern (x ∷ xs) pos o h = elim (Bool-cases (starts_with pattern (x ∷ xs))) [
  | inl e ↦ (0, ground arith, e, λ k lt. absurd (omega arith))
  | inr e ↦
      let (d, at, stands, first) = find_from-some pattern xs (pos + 1) o (rw e at h) in
      (suc d, omega arith, stands, before d e first)
]
  where
    before :
        (d : ℕ)
        → starts_with pattern (x ∷ xs) ≡ false
        → ((k : ℕ) → k < d → stands_at xs pattern k ≡ false)
        → (k : ℕ) → k < suc d
        → stands_at (x ∷ xs) pattern k ≡ false
    before d e first zero lt = e
    before d e first (suc k) lt = first k (omega arith)

find_from-none :
    (pattern xs : Bytes) (pos k : ℕ)
    → find_from pattern xs pos ≡ none
    → stands_at xs pattern k ≡ false
unfolding find_from
find_from-none pattern [] pos zero h = ground arith
find_from-none pattern [] pos (suc k) h = ground arith
find_from-none pattern (x ∷ xs) pos zero h = ground arith
find_from-none pattern (x ∷ xs) pos (suc k) h =
    ground (arith, find_from-none pattern xs (pos + 1) k)

-- The position found is at or after the start, the pattern stands there, and nowhere between.
pub find-some :
    (xs pattern : Bytes) (start o : ℕ)
    → find xs pattern start ≡ some o
    → (start ≤ o)
      × (stands_at xs pattern o ≡ true)
      × ((k : ℕ) → start ≤ k → k < o → stands_at xs pattern k ≡ false)
unfolding find
find-some xs pattern start o h =
    let (d, at, stands, first) = find_from-some pattern (drop start xs) start o h in
    (
      omega arith,
      rw at (rw drop-drop at stands),
      λ k low high.
          let e : start + (k - start) ≡ k = omega arith in
          rw e at (rw drop-drop at (first (k - start) (omega arith))),
    )

-- Nothing found: the pattern stands nowhere at or after the start.
pub find-none :
    (xs pattern : Bytes) (start k : ℕ)
    → find xs pattern start ≡ none
    → start ≤ k
    → stands_at xs pattern k ≡ false
unfolding find
find-none xs pattern start k h low =
    let e : start + (k - start) ≡ k = omega arith in
    rw e at (rw drop-drop at (find_from-none pattern (drop start xs) start (k - start) h))
