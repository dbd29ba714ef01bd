-- ===== src/Disk/Making.antt =====
-- Making a directory with its parents, for `carve_realm` in src/pyrealm_forensics/parser.py.

use pyrealm.Prelude.{
  String, ◌≡◌, sym, error_of, error_of-IsHandled, Failure, Result, os_error, Option, refl, ap, ◌∙◌,
  length-append, none, some, [], ◌∷◌, ◌++◌, arith, ok, err, Error, IsHandled, same_error, subst,
  Bool-cases, Option-cases, inl, inr,
}
use pyrealm.Disk.{
  FilePath, path_eq, parent, step_to, directory, file, Disk, entry_at, found, put, place_below,
  place_of, create, mkdir_below, mkdir,
}
use pyrealm.Disk.Laws.{
  parent-append, place-cases, step_to-cases, put-Extends, Extends-refl, entry_at-found,
  found-entry_at, IsThere-put, IsThere, IsTree, Extends, path_eq_refl, eq_of_path_eq,
  path_eq-length, entry_at-put,
}

module _ {R : Type 0} where
  IsThere-parent : (p : FilePath) (d : Disk R) → IsTree d → IsThere p d → IsThere (parent p) d
  unfolding parent
  IsThere-parent p d tree (e, h) = elim (place-cases p) [
    | inl root ↦ subst (λ q. IsThere (parent q) d) (sym root) (directory, refl)
    | inr (c, below) ↦
        tree (parent p) c e
          (found-entry_at (parent p) c d e (subst (λ q. found q d ≡ some e) below h))
  ]

  IsTree-put :
      (p : FilePath) (c : String) (d : Disk R)
      → IsTree d
      → IsThere p d
      → IsTree (put (p ++ c ∷ []) directory d)
  IsTree-put p c d tree there q c' e h = elim (Bool-cases (path_eq (p ++ c ∷ []) (q ++ c' ∷ []))) [
    | inl same ↦
        let one : p ≡ q =
          sym (parent-append p c) ∙ ap parent (eq_of_path_eq _ _ same) ∙ parent-append q c' in
        IsThere-put (p ++ c ∷ []) q directory d (subst (λ r. IsThere r d) one there)
    | inr other ↦
        IsThere-put (p ++ c ∷ []) q directory d (tree q c' e (rw (entry_at-put, other) at h))
  ]

  absent : (p : FilePath) (d : Disk R) → IsThere p d → found p d ≡ none → ⊥
  absent p d (e, h) none_there = cc

  IsTree-step :
      (above : FilePath) (c : String) (d : Disk R)
      → IsTree d
      → IsThere above d
      → found (step_to above c) d ≡ none
      → IsTree (put (step_to above c) directory d)
  IsTree-step above c d tree there fresh = elim (step_to-cases above c) [
    | inl up ↦ absurd (
        absent (parent above) d (IsThere-parent above d tree there)
          (subst (λ q. found q d ≡ none) up fresh))
    | inr down ↦
        subst (λ q. IsTree (put q directory d)) (sym down) (IsTree-put above c d tree there)
  ]

  -- What making the directory `place` changes, from a place that is there: all that was there is
  -- there still, and if it succeeds the directory is there, with nothing in it.
  pub record IsMaking (above place : FilePath) (d : Disk R) (outcome : Result (Unit {0}) × Disk R)
      : Type 0 where
    pub extends : Extends d outcome.1
    pub made : outcome.0 ≡ ok tt → entry_at place outcome.1 ≡ some directory
    pub bare :
        IsTree d
        → IsThere above d
        → outcome.0 ≡ ok tt
        → (c : String) → entry_at (place ++ c ∷ []) outcome.1 ≡ none
    pub failing : (e : Error) → outcome.0 ≡ err e → IsHandled e

  failed-IsMaking :
      (above place : FilePath) (d : Disk R) (e : Error)
      → IsHandled e
      → IsMaking above place d (err e, d)
  failed-IsMaking above place d e handled = record {
    extends = Extends-refl d;
    made = λ h. cc;
    bare = λ tree there h. cc;
    failing = λ f h. subst IsHandled (same_error refl h) handled;
  }

  put-bare :
      (p : FilePath) (c : String) (d : Disk R)
      → IsTree d
      → found p d ≡ none
      → entry_at (p ++ c ∷ []) (put p directory d) ≡ none
  put-bare p c d tree fresh = elim (Option-cases (entry_at (p ++ c ∷ []) d)) [
    | inl e ↦
        rw
          (
            entry_at-put,
            path_eq-length p (p ++ c ∷ []) (λ l. omega (arith, length-append p (c ∷ []))),
          )
          e
    | inr (e, there) ↦ absurd (absent p d (tree p c e there) fresh)
  ]

  create-IsMaking :
      (above p : FilePath) (d : Disk R) (f : Option Failure)
      → found p d ≡ none
      → IsMaking above p d (create f p d)
  create-IsMaking above p d (some f) fresh =
      failed-IsMaking above p d (error_of f) (error_of-IsHandled f)
  create-IsMaking above p d none fresh = record {
    extends = put-Extends p directory d (entry_at-found p d fresh);
    made = λ h. rw (entry_at-put, path_eq_refl) refl;
    bare = λ tree there h c. put-bare p c d tree fresh;
    failing = λ f h. cc;
  }

  IsThere-put_same : (p : FilePath) (d : Disk R) → IsThere p (put p directory d)
  IsThere-put_same [] d = (directory, refl)
  IsThere-put_same (c ∷ p) d = (directory, rw (entry_at-put, path_eq_refl) refl)

  -- After a directory on the way was made.
  next-IsMaking :
      (above : FilePath) (c : String) (place : FilePath) (d : Disk R)
      {outcome : Result (Unit {0}) × Disk R}
      → found (step_to above c) d ≡ none
      → IsMaking (step_to above c) place (put (step_to above c) directory d) outcome
      → IsMaking above place d outcome
  next-IsMaking above c place d fresh m = record {
    extends = λ p e h. m.extends p e (
        put-Extends (step_to above c) directory d (entry_at-found (step_to above c) d fresh) p e h);
    made = m.made;
    bare = λ tree there.
        m.bare (IsTree-step above c d tree there fresh) (IsThere-put_same (step_to above c) d);
    failing = m.failing;
  }

  -- After a directory on the way that is there.
  past-IsMaking :
      (above p place : FilePath) (d : Disk R) {outcome : Result (Unit {0}) × Disk R}
      → IsThere p d
      → IsMaking p place d outcome
      → IsMaking above place d outcome
  past-IsMaking above p place d there m = record {
    extends = m.extends;
    made = m.made;
    bare = λ tree before. m.bare tree there;
    failing = m.failing;
  }

  module _ (making : FilePath → Option Failure) where
    mkdir_below-IsMaking :
        (above rest : FilePath) (d : Disk R)
        → IsMaking above (place_below above rest) d (mkdir_below making above rest d)
    unfolding mkdir_below place_below
    mkdir_below-IsMaking above [] d = failed-IsMaking above above d (os_error "File exists") tt
    mkdir_below-IsMaking above (c ∷ []) d = elim (Option-cases (found (step_to above c) d)) [
      | inl fresh ↦ rw (fresh, mkdir_below) (create-IsMaking above (step_to above c) d _ fresh)
      | inr (e, there) ↦
          rw (there, mkdir_below) (failed-IsMaking above _ d (os_error "File exists") tt)
    ]
    mkdir_below-IsMaking above (c ∷ c' ∷ rest) d = elim (Option-cases (found (step_to above c) d)) [
      | inl fresh ↦ elim (Option-cases (making (step_to above c))) [
        | inl allowed ↦
            rw (fresh, mkdir_below)
              (rw allowed (
                next-IsMaking above c _ d fresh (
                  mkdir_below-IsMaking (step_to above c) (c' ∷ rest)
                    (put (step_to above c) directory d))))
        | inr (f, refused) ↦
            rw (fresh, mkdir_below)
              (rw refused (failed-IsMaking above _ d (error_of f) (error_of-IsHandled f)))
      ]
      | inr (directory, there) ↦
          rw (there, mkdir_below)
            (past-IsMaking above (step_to above c) _ d (directory, there)
              (mkdir_below-IsMaking (step_to above c) (c' ∷ rest) d))
      | inr (file f, there) ↦
          rw (there, mkdir_below) (failed-IsMaking above _ d (os_error "Not a directory") tt)
    ]

    pub mkdir-IsMaking : (p : FilePath) (d : Disk R) → IsMaking [] (place_of p) d (mkdir making p d)
    unfolding mkdir
    mkdir-IsMaking p d = mkdir_below-IsMaking [] p d

  pub root-IsThere : (d : Disk R) → IsThere [] d
  root-IsThere d = (directory, refl)
