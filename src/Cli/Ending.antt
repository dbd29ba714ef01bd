-- ===== src/Cli/Ending.antt =====
-- How a run of `main` in src/pyrealm_forensics/cli.py ends: after an exception, and after printing.
use pyrealm.Prelude.{
  ℕ, ◌≡◌, ◌≢◌, ◌⊎◌, refl, subst, ap, String, true, Option, none, some, List, [], ◌∷◌, ◌++◌, Error,
  IsHandled, key_error, value_error, os_error, runtime_error, out_of_fuel, Failure, error_of,
  error_of-IsHandled, same_error, Result, ok, err, Bool-cases, Option-cases, inl, inr,
}
use pyrealm.Bytes.{Bytes}
use pyrealm.Models.{RealmHeader, Analysis}
use pyrealm.Header.{parse_header}
use pyrealm.Disk.{FilePath, Disk}
use pyrealm.Platform.{Platform, Resolution, resolved_to, unresolved, no_home, path_of}
use pyrealm.Analyze.{Real, read_source, analyze_realm}
use pyrealm.Analyze.Outcome.{IsUnresolvable, analyze_lem}
use pyrealm.Cli.{
  exit_recognized, exit_operational_error, exit_no_header, is_caught, error_lines, status, raised,
  status_of, Outcome, failure, success, Printed, text, document, as_result, print_one, complain,
  after_last, print_last,
}

-- The status that the header of the bytes of a source gives.
abbrev pub source_status : Option RealmHeader → ℕ
source_status none = exit_no_header
source_status (some header) = exit_recognized

module _ (P : Platform) where
  caught : (e : Error) → IsHandled e → is_caught e ≡ true
  unfolding is_caught
  caught (key_error offset) h = absurd h
  caught (value_error message) h = refl
  caught (os_error message) h = refl
  caught (runtime_error message) h = absurd h
  caught out_of_fuel h = absurd h

  status_of-header :
      (a : Analysis (Real P)) (header : Option RealmHeader)
      → a.header ≡ header
      → status_of a ≡ source_status header
  unfolding status_of
  status_of-header a none e = rw e refl
  status_of-header a (some header) e = rw e refl

  abbrev pub IsAnalysed : Bytes → Result (Analysis (Real P)) → Type 0
  IsAnalysed xs r = (a : Analysis (Real P)) × (r ≡ ok a) × (a.header ≡ parse_header xs)

  -- Reading the source decides what `analyze_realm` returns.
  pub analyze_realm_lem :
      (disk : Disk (Real P)) (path : FilePath)
      → ((e : Error) × (read_source P disk path ≡ err e)
          × (analyze_realm P disk path ≡ err e)
          × (IsHandled e ⊎ IsUnresolvable P path e))
        ⊎ ((xs : Bytes) × (read_source P disk path ≡ ok xs)
            × IsAnalysed xs (analyze_realm P disk path))
  unfolding analyze_realm
  analyze_realm_lem disk path = elim (analyze_lem P disk path none) [
    | inl (e, failed, returned, kind) ↦ inl (e, failed, rw returned refl, kind)
    | inr (xs, a, strings, read, returned, described) ↦
        inr (xs, read, (a, rw returned refl, described.header_read))
  ]

  -- How `main` ends after an exception in its `try`: it is told and the status is 1, or telling it
  -- raises an exception that leaves `main`, or it is a `RuntimeError`, which is not caught.
  pub data IsFailureOf (e : Error) (outcome : Outcome P) : Type 0 where
    told :
        IsHandled e
        → outcome.exit ≡ status exit_operational_error
        → outcome.stderr ≡ error_lines P e
        → IsFailureOf e outcome
    untold :
        (line : String) (f : Failure)
        → IsHandled e
        → P.print_error line ≡ some f
        → outcome.exit ≡ raised (error_of f)
        → IsFailureOf e outcome
    let_through :
        (message : String)
        → e ≡ runtime_error message
        → outcome.exit ≡ raised e
        → outcome.stderr ≡ []
        → IsFailureOf e outcome

  abbrev pub IsSuccess : Outcome P → Bytes → Type 0
  IsSuccess outcome xs =
      (outcome.exit ≡ status (source_status (parse_header xs)))
      × (outcome.stdout ≢ [])
      × (outcome.stderr ≡ [])

  -- A `print` to the standard output raises the exception.
  abbrev pub IsUnprinted : Error → Type 0
  IsUnprinted e = (item : Printed P) × (print_one P item ≡ err e)

  abbrev pub IsRuntime : Error → Type 0
  IsRuntime e = (message : String) × (e ≡ runtime_error message)

  complain-cases :
      (lines : List String)
      → (complain P lines ≡ (status exit_operational_error, lines))
        ⊎ ((line : String) × (f : Failure) × (P.print_error line ≡ some f)
            × ((complain P lines).0 ≡ raised (error_of f)))
  unfolding complain
  complain-cases [] = inl refl
  complain-cases (line ∷ lines) = elim (Option-cases (P.print_error line)) [
    | inr (f, failed) ↦ inr (line, f, failed, rw (failed, complain) refl)
    | inl printed ↦ elim (complain-cases lines) [
      | inl e ↦ inl (rw (printed, complain) (rw e refl))
      | inr (other, f, failed, e) ↦ inr (other, f, failed, rw (printed, complain) e)
    ]
  ]

  pub failure-IsFailureOf :
      (e : Error) (printed : List (Printed P)) (after : Disk (Real P))
      → IsHandled e ⊎ IsRuntime e
      → IsFailureOf e (failure P e printed after)
  unfolding failure is_caught
  failure-IsFailureOf e printed after (inr (message, same)) =
      let_through message same (rw same refl) (rw same refl)
  failure-IsFailureOf e printed after (inl handled) = elim (complain-cases (error_lines P e)) [
    | inl all_told ↦
        told handled (rw (caught e handled, all_told)) (rw (caught e handled, all_told))
    | inr (line, f, failed, same) ↦ untold line f handled failed (rw (caught e handled) same)
  ]

  pub failure-kept :
      (e : Error) (printed : List (Printed P)) (after : Disk (Real P))
      → ((failure P e printed after).disk ≡ after) × ((failure P e printed after).stdout ≡ printed)
  unfolding failure
  failure-kept e printed after = elim (Bool-cases (is_caught e)) [
    | inl c ↦ rw c (refl, refl)
    | inr c ↦ rw c (refl, refl)
  ]

  pub runtime :
      (path : FilePath) (e : Error)
      → IsHandled e ⊎ IsUnresolvable P path e
      → IsHandled e ⊎ IsRuntime e
  runtime path e (inl handled) = inl handled
  runtime path e (inr (message, r, same)) = inr (message, same)

  pub path_of-kind : (r : Resolution) (e : Error) → path_of r ≡ err e → IsHandled e ⊎ IsRuntime e
  path_of-kind (resolved_to p) e h = cc
  path_of-kind (unresolved f) e h = inl (subst IsHandled (same_error refl h) (error_of-IsHandled f))
  path_of-kind (no_home message) e h = inr (message, same_error h refl)

  as_result-IsHandled : (o : Option Failure) (e : Error) → as_result P o ≡ err e → IsHandled e
  unfolding as_result
  as_result-IsHandled none e h = cc
  as_result-IsHandled (some f) e h = subst IsHandled (same_error refl h) (error_of-IsHandled f)

  pub print_one-IsHandled : (item : Printed P) (e : Error) → print_one P item ≡ err e → IsHandled e
  unfolding print_one
  print_one-IsHandled (text line) e h = as_result-IsHandled _ e h
  print_one-IsHandled (document value) e h = as_result-IsHandled _ e h

  -- How a command ends whose analysis is there: with a status, or by an exception of what it prints.
  unfoldable pub IsShown : (Error → Type 0) → Bytes → Disk (Real P) → Outcome P → Type 0
  IsShown Why xs after outcome =
      (outcome.disk ≡ after)
      × (IsSuccess outcome xs ⊎ ((e : Error) × Why e × IsFailureOf e outcome))

  nonempty : (printed : List (Printed P)) (item : Printed P) → printed ++ item ∷ [] ≢ []
  nonempty [] item h = cc
  nonempty (first ∷ printed) item h = cc

  after_last-IsShown :
      (a : Analysis (Real P)) (printed : List (Printed P)) (item : Printed P)
      (after : Disk (Real P)) (xs : Bytes) (r : Result (Unit {0}))
      → a.header ≡ parse_header xs
      → print_one P item ≡ r
      → IsShown IsUnprinted xs after (after_last P a printed item after r)
  unfolding after_last success IsShown
  after_last-IsShown a printed item after xs (ok done) e shown =
      (refl, inl (ap status (status_of-header a (parse_header xs) e), nonempty printed item, refl))
  after_last-IsShown a printed item after xs (err x) e failed = (
    (failure-kept x printed after).0,
    inr (
      x,
      (item, failed),
      failure-IsFailureOf x printed after (inl (print_one-IsHandled item x failed)),
    ),
  )

  pub print_last-IsShown :
      (a : Analysis (Real P)) (printed : List (Printed P)) (item : Printed P)
      (after : Disk (Real P)) (xs : Bytes)
      → a.header ≡ parse_header xs
      → IsShown IsUnprinted xs after (print_last P a printed item after)
  unfolding print_last
  print_last-IsShown a printed item after xs e =
      after_last-IsShown a printed item after xs (print_one P item) e refl
