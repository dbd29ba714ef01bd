-- ===== src/Cli/Laws.antt =====
-- The exit status of `main` in src/pyrealm_forensics/cli.py, and what it prints and writes.
use pyrealm.Prelude.{
  ℕ, ◌≡◌, ◌⊎◌, String, some, List, [], Error, runtime_error, Failure, error_of, ok, err,
}
use pyrealm.Bytes.{Bytes}
use pyrealm.Models.{Analysis, CarvedString}
use pyrealm.Disk.{FilePath, Disk}
use pyrealm.Platform.{Platform, path_of}
use pyrealm.Analyze.{Real, read_source}
use pyrealm.Carve.{carve_realm}
use pyrealm.Carve.Laws.{IsCarved}
use pyrealm.Cli.{Exit, status, raised, Outcome}
use pyrealm.Cli.Ending.{IsFailureOf, IsSuccess, IsUnprinted}

module _ (P : Platform) where
  -- Printing the results raises, or `output.resolve()` does.
  abbrev pub IsUnreported : FilePath → Error → Type 0
  IsUnreported output e = IsUnprinted P e ⊎ (path_of (P.absolute output) ≡ err e)

  -- What a carve did, and how the run ends after it.
  abbrev pub IsCarveRun : FilePath → FilePath → ℕ → Disk (Real P) → Outcome P → Type 0
  IsCarveRun realm output minimum disk outcome =
      ((e : Error) × ((carve_realm P realm output minimum disk).0 ≡ err e)
        × (outcome.stdout ≡ [])
        × IsFailureOf P e outcome)
      ⊎ ((xs : Bytes) × (a : Analysis (Real P)) × (strings : List CarvedString) × (read_source P
              disk realm
            ≡ ok xs)
          × IsCarved P realm output minimum disk outcome.disk a strings
          × (IsSuccess P outcome xs
              ⊎ ((e : Error) × IsUnreported output e × IsFailureOf P e outcome)))

  -- The exceptions that leave `main`: a `RuntimeError`, or one of a `print` to the standard error.
  abbrev pub IsRaised : Exit → Type 0
  IsRaised exit =
      ((message : String) × (exit ≡ raised (runtime_error message)))
      ⊎ ((line : String) × (f : Failure) × (P.print_error line ≡ some f)
          × (exit ≡ raised (error_of f)))

  abbrev pub IsExit : Exit → Type 0
  IsExit exit = (exit ≡ status 0) ⊎ (exit ≡ status 1) ⊎ (exit ≡ status 3) ⊎ IsRaised exit
