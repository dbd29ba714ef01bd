-- ===== src/Cli/Arguments.antt =====
-- `_positive_int` in src/pyrealm_forensics/cli.py.
use pyrealm.Prelude.{
  ℕ, ◌≡◌, ◌≤◌, ◌↔◌, refl, arith, String, Option, some, ltb, Bool-cases, Option-cases, inl, inr,
}
use pyrealm.Prelude.Integers.{ℤ, pos, negsuc}
use pyrealm.Cli.{accepted, positive_int}

-- The type of the `--min-string` argument accepts a text just when `int` reads a number from it that
-- is at least 1, and then it is that number.
pub positive_int-accepted_iff :
    (int : String → Option ℤ) (repr : String → String) (given : String) (n : ℕ)
    → (positive_int int repr given ≡ accepted n) ↔ ((int given ≡ some (pos n)) × (1 ≤ n))
unfolding positive_int
positive_int-accepted_iff int repr given n = (forth, back)
  where
    forth : positive_int int repr given ≡ accepted n → (int given ≡ some (pos n)) × (1 ≤ n)
    forth h = elim (Option-cases (int given)) [
      | inl e ↦ cc (rw (e, positive_int) at h)
      | inr (negsuc m, e) ↦ cc (rw (e, positive_int) at h)
      | inr (pos m, e) ↦ elim (Bool-cases (ltb m 1)) [
        | inl l ↦ cc (rw l at (rw (e, positive_int) at h))
        | inr l ↦
            let same : m ≡ n = cc (rw l at (rw (e, positive_int) at h)) in
            (rw (← same) e, ground arith)
      ]
    ]

    back : (int given ≡ some (pos n)) × (1 ≤ n) → positive_int int repr given ≡ accepted n
    back (e, l) = elim (Bool-cases (ltb n 1)) [
      | inl k ↦ ground arith
      | inr k ↦ rw (e, positive_int, k) refl
    ]
