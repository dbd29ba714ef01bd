-- ===== src/Carve.antt =====
-- src/pyrealm_forensics/parser.py, `carve_realm`. The disk is passed through; an exception leaves it
-- as it is at that point, directories and reports that were made before included.
pub mod Reports
pub mod Laws
use Prim.Native.String.{◌++◌ as ◌<>◌}
use pyrealm.Prelude.{
  ℕ, String, Bool, true, false, List, [], ◌∷◌, ◌++◌, map, ltb, if◌then◌else◌, Option, none, some,
  Failure, error_of, Result, ok, err, value_error, os_error,
}
use pyrealm.Models.{Analysis, CarvedString}
use pyrealm.Json.{Json, node_dict, analysis_dict}
use pyrealm.Disk.{
  FilePath, Content, summary, lines, table, Disk, exists, place_of, proceed, ended, mkdir,
}
use pyrealm.Platform.{Platform}
use pyrealm.Analyze.{Real, analyze}

abbrev pub summary_path : FilePath → FilePath
summary_path output = output ++ "summary.json" ∷ []

abbrev pub arrays_path : FilePath → FilePath
arrays_path output = output ++ "arrays.jsonl" ∷ []

abbrev pub strings_path : FilePath → FilePath
strings_path output = output ++ "strings.csv" ∷ []

module _ (P : Platform) where
  abbrev pub exists_message : FilePath → String
  exists_message output = "output directory already exists: " <> P.path_text output

  -- `open("w")` of one report and what is written to it.
  pub write : FilePath → Content (Real P) → Disk (Real P) → Result (Unit {0}) × Disk (Real P)
  write path content disk = ended (P.writing path content) path content disk

  -- The three files, one after the other.
  unfoldable pub write_reports :
      FilePath
      → Analysis (Real P)
      → List CarvedString
      → Disk (Real P)
      → Result (Unit {0}) × Disk (Real P)
  unfolding write
  write_reports place analysis strings disk = proceed (write (strings_path place) (table strings)) (
      proceed (write (arrays_path place) (lines (map node_dict analysis.arrays)))
        (write (summary_path place) (summary (analysis_dict analysis)) disk))

  pub returning :
      Analysis (Real P)
      → Result (Unit {0}) × Disk (Real P)
      → Result (Analysis (Real P)) × Disk (Real P)
  returning analysis (ok done, disk) = (ok analysis, disk)
  returning analysis (err e, disk) = (err e, disk)

  -- From `output.mkdir` on. What was made and written before something is raised stays.
  unfoldable pub finish :
      FilePath
      → Disk (Real P)
      → Analysis (Real P) × List CarvedString
      → Result (Analysis (Real P)) × Disk (Real P)
  unfolding returning
  finish output disk (analysis, strings) =
      returning analysis
        (proceed (write_reports (place_of output) analysis strings) (mkdir P.making output disk))

  unfoldable pub run_carve :
      FilePath
      → Disk (Real P)
      → Result (Analysis (Real P) × List CarvedString)
      → Result (Analysis (Real P)) × Disk (Real P)
  run_carve output disk (err e) = (err e, disk)
  run_carve output disk (ok result) = finish output disk result

  -- `output.exists()`
  pub tested : FilePath → Disk (Real P) → Option Failure → Result Bool
  tested output disk none = ok (exists disk output)
  tested output disk (some f) = err (error_of f)

  unfoldable pub carve_realm :
      FilePath → FilePath → ℕ → Disk (Real P) → Result (Analysis (Real P)) × Disk (Real P)
  unfolding tested
  carve_realm path output minimum disk =
      if ltb minimum 1
      then (err (value_error "minimum_string must be at least 1"), disk)
      else elim (tested output disk (P.testing output)) [
        | err e ↦ (err e, disk)
        | ok true ↦ (err (os_error (exists_message output)), disk)
        | ok false ↦ run_carve output disk (analyze P disk path (some minimum))
      ]
