-- ===== src/Cli.antt =====
-- src/pyrealm_forensics/cli.py, from the arguments that `argparse` has read to the exit status.
pub mod Arguments
pub mod Ending
pub mod Laws
use Prim.Native.String.{◌++◌ as ◌<>◌}
use pyrealm.Prelude.{
  ℕ, zero, suc, String, Bool, true, false, Option, none, some, List, [], ◌∷◌, ◌++◌, map, length,
  ltb, if◌then◌else◌, Error, key_error, value_error, os_error, runtime_error, out_of_fuel, Failure,
  error_of, Result, ok, err,
}
use pyrealm.Prelude.Integers.{ℤ, pos, negsuc}
use pyrealm.Models.{RealmHeader, Analysis}
use pyrealm.Json.{Json, analysis_dict}
use pyrealm.Disk.{FilePath, Disk}
use pyrealm.Platform.{Platform, path_of}
use pyrealm.Analyze.{Real, analyze_realm}
use pyrealm.Carve.{carve_realm}

abbrev pub exit_recognized : ℕ
exit_recognized = 0

abbrev pub exit_operational_error : ℕ
exit_operational_error = 1

abbrev pub exit_no_header : ℕ
exit_no_header = 3

-- The number, or the text of the `ArgumentTypeError`.
pub data Argument : Type 0 where
  accepted : ℕ → Argument
  refused : String → Argument

abbrev pub too_small : String
too_small = "must be at least 1"

-- `_positive_int`, over `int` and `repr` of a text.
unfoldable pub positive_int : (String → Option ℤ) → (String → String) → String → Argument
positive_int int repr text = elim (int text) [
  | none ↦ refused ("invalid int value: " <> repr text)
  | some (pos n) ↦ if ltb n 1 then refused too_small else accepted n
  | some (negsuc n) ↦ refused too_small
]

-- What `_parser` makes of the arguments.
pub data Command : Type 0 where
  inspect : FilePath → Bool → Command
  carve : FilePath → FilePath → ℕ → Command

-- `"\n".join(lines)`
pub join_lines : List String → String
join_lines [] = ""
join_lines (line ∷ []) = line
join_lines (line ∷ next ∷ rest) = line <> "\n" <> join_lines (next ∷ rest)

-- `except (OSError, ValueError)`
unfoldable pub is_caught : Error → Bool
is_caught (key_error offset) = false
is_caught (value_error text) = true
is_caught (os_error text) = true
is_caught (runtime_error text) = false
is_caught out_of_fuel = false

-- `str(error)` of a caught error.
unfoldable pub error_text : Error → String
error_text (key_error offset) = ""
error_text (value_error text) = text
error_text (os_error text) = text
error_text (runtime_error text) = ""
error_text out_of_fuel = ""

abbrev pub suggestion : String
suggestion =
    "suggestion: preserve the source and try another copy; malformed data prevented safe analysis"

unfoldable pub suggestion_of : Error → List String
suggestion_of (key_error offset) = []
suggestion_of (value_error text) = suggestion ∷ []
suggestion_of (os_error text) = []
suggestion_of (runtime_error text) = []
suggestion_of out_of_fuel = []

-- `main` returns a status, or lets an exception through.
pub data Exit : Type 0 where
  status : ℕ → Exit
  raised : Error → Exit

pub status_of : {R : Type 0} → Analysis R → ℕ
status_of analysis = elim analysis.header [ none ↦ exit_no_header | some header ↦ exit_recognized ]

module _ (P : Platform) where
  pub header_lines : Option RealmHeader → List String
  header_lines none = []
  header_lines (some header) =
      ("Format slots: ("
        <> P.decimal header.format_slots.0
        <> ", "
        <> P.decimal header.format_slots.1
        <> ")")
      ∷ ("Active root: 0x" <> P.hexadecimal header.active_top_ref)
      ∷ ("Inactive root: 0x" <> P.hexadecimal header.inactive_top_ref)
      ∷ []

  unfoldable pub human_summary : Analysis (Real P) → String
  human_summary analysis = join_lines (
      (("Classification: " <> analysis.classification)
        ∷ ("Path: " <> analysis.path)
        ∷ ("SHA-256: " <> analysis.sha256)
        ∷ ("Size: " <> P.decimal analysis.file_size <> " bytes")
        ∷ ("Entropy: " <> P.three_places analysis.entropy <> " bits/byte")
        ∷ ("Arrays: " <> P.decimal (length analysis.arrays))
        ∷ [])
      ++ header_lines analysis.header
      ++ map (λ warning. "Warning: " <> warning) analysis.warnings)

  -- What one `print` writes to the standard output: a text, or a value by `json.dumps`.
  pub data Printed : Type 0 where
    text : String → Printed
    document : Json (Real P) → Printed

  -- What was printed before an exception left the `print`s is in `stdout` and `stderr`.
  pub record Outcome : Type 0 where
    pub exit : Exit
    pub stdout : List Printed
    pub stderr : List String
    pub disk : Disk (Real P)

  pub as_result : Option Failure → Result (Unit {0})
  as_result none = ok tt
  as_result (some f) = err (error_of f)

  -- `print(...)`
  pub print_one : Printed → Result (Unit {0})
  print_one (text line) = as_result (P.print_text line)
  print_one (document value) = as_result (P.print_document value)

  -- The `print`s of the `except` clause and the `return` after them. An exception of one of them
  -- leaves `main`.
  pub complain : List String → Exit × List String
  complain [] = (status exit_operational_error, [])
  complain (line ∷ lines) = elim (P.print_error line) [
    | some f ↦ (raised (error_of f), [])
    | none ↦ let (exit, rest) = complain lines in (exit, line ∷ rest)
  ]

  abbrev pub error_lines : Error → List String
  error_lines error = ("error: " <> error_text error) ∷ suggestion_of error

  -- The `except` clause.
  unfoldable pub failure : Error → List Printed → Disk (Real P) → Outcome
  unfolding complain is_caught
  failure error printed after =
      if is_caught error
      then record {
        exit = (complain (error_lines error)).0;
        stdout = printed;
        stderr = (complain (error_lines error)).1;
        disk = after;
      }
      else record { exit = raised error; stdout = printed; stderr = []; disk = after }

  unfoldable pub success : Analysis (Real P) → List Printed → Disk (Real P) → Outcome
  success analysis printed after = record {
    exit = status (status_of analysis);
    stdout = printed;
    stderr = [];
    disk = after;
  }

  pub after_last :
      Analysis (Real P) → List Printed → Printed → Disk (Real P) → Result (Unit {0}) → Outcome
  after_last analysis printed item after (ok done) = success analysis (printed ++ item ∷ []) after
  after_last analysis printed item after (err e) = failure e printed after

  -- The last `print` of a command, after those that have `printed`.
  pub print_last : Analysis (Real P) → List Printed → Printed → Disk (Real P) → Outcome
  print_last analysis printed item after = after_last analysis printed item after (print_one item)

  abbrev pub report_of : Bool → Analysis (Real P) → Printed
  report_of json analysis =
      if json then document (analysis_dict analysis) else text (human_summary analysis)

  unfoldable pub inspected : Bool → Disk (Real P) → Result (Analysis (Real P)) → Outcome
  inspected json before (err e) = failure e [] before
  inspected json before (ok analysis) = print_last analysis [] (report_of json analysis) before

  pub print_results : Analysis (Real P) → Result FilePath → Disk (Real P) → Outcome
  print_results analysis (err e) after = failure e (text (human_summary analysis) ∷ []) after
  print_results analysis (ok path) after =
      print_last analysis (text (human_summary analysis) ∷ [])
        (text ("Results: " <> P.path_text path)) after

  pub after_summary : FilePath → Analysis (Real P) → Disk (Real P) → Result (Unit {0}) → Outcome
  after_summary output analysis after (err e) = failure e [] after
  after_summary output analysis after (ok done) =
      print_results analysis (path_of (P.absolute output)) after

  unfoldable pub reported : FilePath → Result (Analysis (Real P)) × Disk (Real P) → Outcome
  unfolding print_results print_last after_last after_summary print_one as_result
  reported output (err e, after) = failure e [] after
  reported output (ok analysis, after) =
      after_summary output analysis after (print_one (text (human_summary analysis)))

  unfoldable pub main : Command → Disk (Real P) → Outcome
  main (inspect realm json) before = inspected json before (analyze_realm P before realm)
  main (carve realm output minimum) before =
      reported output (carve_realm P realm output minimum before)
