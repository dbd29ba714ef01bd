-- ===== src/Analyze/Outcome.antt =====
-- The exceptions of `_analyze` in src/pyrealm_forensics/parser.py.
use pyrealm.Prelude.{
  ℕ, ◌≡◌, refl, subst, String, Option, none, some, List, Error, IsHandled, Failure, error_of,
  error_of-IsHandled, runtime_error, same_error, ok, err, Option-cases, ◌⊎◌, inl, inr, Result-cases,
}
use pyrealm.Models.{Analysis, CarvedString}
use pyrealm.Bytes.{Bytes}
use pyrealm.Disk.{FilePath, raw, summary, lines, table, directory, file, Disk, entry_at}
use pyrealm.Platform.{Platform, Resolution, resolved_to, unresolved, no_home, path_of}
use pyrealm.Analyze.{Real, read_bytes, read_file, read_source, analyze}
use pyrealm.Analyze.Total.{IsAnalysis, analyze_bytes_lem}

ok_is_not_err : {A : Type 0} {a : A} {e : Error} → ok a ≡ err e → ⊥
ok_is_not_err h = cc

module _ (P : Platform) where
  read_bytes-IsHandled :
      (f : Option Failure) (xs : Bytes) (e : Error) → read_bytes P f xs ≡ err e → IsHandled e
  unfolding read_bytes
  read_bytes-IsHandled none xs e h = absurd (ok_is_not_err h)
  read_bytes-IsHandled (some f) xs e h = subst IsHandled (same_error refl h) (error_of-IsHandled f)

  read_file-IsHandled :
      (disk : Disk (Real P)) (path : FilePath) (e : Error)
      → read_file P disk path ≡ err e
      → IsHandled e
  unfolding read_file
  read_file-IsHandled disk path e h = elim (Option-cases (entry_at path disk)) [
    | inl absent ↦ subst IsHandled (same_error refl (rw (absent, read_file) at h)) tt
    | inr (directory, there) ↦ subst IsHandled (same_error refl (rw (there, read_file) at h)) tt
    | inr (file (raw xs), there) ↦ read_bytes-IsHandled _ xs e (rw (there, read_file) at h)
    | inr (file (summary j), there) ↦ read_bytes-IsHandled _ _ e (rw (there, read_file) at h)
    | inr (file (lines js), there) ↦ read_bytes-IsHandled _ _ e (rw (there, read_file) at h)
    | inr (file (table rows), there) ↦ read_bytes-IsHandled _ _ e (rw (there, read_file) at h)
  ]

  -- The `RuntimeError` of resolving the path of the source.
  abbrev pub IsUnresolvable : FilePath → Error → Type 0
  IsUnresolvable path e =
      (text : String) × (P.resolved path ≡ no_home text) × (e ≡ runtime_error text)

  path_of-cases :
      (r : Resolution)
      → ((p : FilePath) × (path_of r ≡ ok p))
        ⊎ ((e : Error) × (path_of r ≡ err e)
            × (IsHandled e ⊎ ((text : String) × (r ≡ no_home text) × (e ≡ runtime_error text))))
  path_of-cases (resolved_to p) = inl (p, refl)
  path_of-cases (unresolved f) = inr (error_of f, refl, inl (error_of-IsHandled f))
  path_of-cases (no_home text) = inr (runtime_error text, refl, inr (text, refl, refl))

  -- An analysis fails only in the way that reading the source fails; once the bytes are read, there
  -- is a result, and it is described by `IsAnalysis`.
  pub analyze_lem :
      (disk : Disk (Real P)) (path : FilePath) (minimum : Option ℕ)
      → ((e : Error) × (read_source P disk path ≡ err e)
          × (analyze P disk path minimum ≡ err e)
          × (IsHandled e ⊎ IsUnresolvable path e))
        ⊎ ((xs : Bytes) × (a : Analysis (Real P)) × (strings : List CarvedString) × (read_source P
                disk path
              ≡ ok xs)
            × (analyze P disk path minimum ≡ ok (a, strings))
            × IsAnalysis P xs minimum a strings)
  unfolding analyze read_source
  analyze_lem disk path minimum = elim (path_of-cases (P.resolved path)) [
    | inr (e, failed, kind) ↦ inl (e, rw failed refl, rw failed refl, kind)
    | inl (p, at_path) ↦ elim (Result-cases (read_file P disk p)) [
      | inr (e, failed) ↦ inl (
        e,
        rw at_path failed,
        rw at_path (rw failed refl),
        inl (read_file-IsHandled disk p e failed),
      )
      | inl (xs, read) ↦
          let (a, strings, returned, described) = analyze_bytes_lem P p xs minimum in
          inr (xs, a, strings, rw at_path read, rw at_path (rw read returned), described)
    ]
  ]
