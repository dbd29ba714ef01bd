-- ===== src/Analyze.antt =====
-- src/pyrealm_forensics/parser.py, `_top_reference_warning`, `_classify_headerless`, `_analyze` and
-- `analyze_realm`. The mapped file is its bytes.
pub mod Warnings
pub mod Total
pub mod Complete
pub mod Outcome
use Prim.Native.String.{◌++◌ as ◌<>◌}
use text.Mathlib.Text.{◌==◌ as str_eq}
use pyrealm.Prelude.{
  ℕ, ◌+◌, ◌%◌, String, Bool, true, false, not, ◌&&◌, Option, none, some, List, [], ◌∷◌, ◌++◌, ltb,
  leb, ◌==◌, if◌then◌else◌, length, Result, ok, err, os_error, Failure, error_of, ◌>>=◌,
}
use pyrealm.Prelude.Dict.{Dict, has_key}
use pyrealm.Bytes.{Bytes}
use pyrealm.Models.{Analysis, ArrayNode, CarvedString, RealmHeader}
use pyrealm.Header.{file_header_size, parse_header}
use pyrealm.Scan.{scan_array_candidates}
use pyrealm.References.{add_references}
use pyrealm.Classify.{classify_nodes}
use pyrealm.Strings.{extract_strings}
use pyrealm.Hash.{sha256}
use pyrealm.Entropy.{sample_entropy}
use pyrealm.Disk.{FilePath, Content, raw, Entry, directory, file, Disk, entry_at}
use pyrealm.Platform.{Platform, path_of}

abbrev pub misaligned : String
misaligned = "is not 8-byte aligned"

abbrev pub in_header : String
in_header = "points inside the file header"

abbrev pub past_end : String
past_end = "points beyond the end of the file"

-- The text of the warning, from its label and its reason.
pub root_warning : String → String → String
root_warning label reason =
    "The " <> label <> " top reference " <> reason <> "; the file is damaged or incomplete. "
    <> "Preserve the source and try carving orphan arrays or obtaining another copy."

unfoldable pub top_reference_warning : String → ℕ → ℕ → Option String
top_reference_warning label reference file_size =
    if reference == 0
    then none
    else if not (reference % 8 == 0)
    then some (root_warning label misaligned)
    else if ltb reference file_header_size
    then some (root_warning label in_header)
    else if leb file_size reference
    then some (root_warning label past_end)
    else none

-- `warnings.append(warning)`, if there is one.
abbrev pub append_some : List String → Option String → List String
append_some warnings none = warnings
append_some warnings (some warning) = warnings ++ warning ∷ []

abbrev pub append_if : Bool → String → List String → List String
append_if test warning warnings = if test then warnings ++ warning ∷ [] else warnings

abbrev pub active_unresolved : String
active_unresolved =
    "The active top reference did not resolve to a recognized array; the file may use an unsupported format or be damaged."

abbrev pub inactive_unresolved : String
inactive_unresolved = "The inactive top reference did not resolve to a recognized array."

abbrev pub reserved_set : String
reserved_set = "The reserved Realm header byte is non-zero."

-- The warnings of a file with a header, in the order in which they are appended.
unfoldable pub header_warnings : RealmHeader → Dict ArrayNode → ℕ → List String
header_warnings header nodes file_size =
    let warned =
      append_some (append_some [] (top_reference_warning "active" header.active_top_ref file_size))
        (top_reference_warning "inactive" header.inactive_top_ref file_size) in
    append_if (not (header.reserved == 0)) reserved_set (
      append_if (not (header.inactive_top_ref == 0) && not (has_key nodes header.inactive_top_ref))
        inactive_unresolved
        (append_if (not (has_key nodes header.active_top_ref)) active_unresolved warned))

abbrev pub empty_class : String
empty_class = "empty"

abbrev pub plaintext_class : String
plaintext_class = "plaintext-realm"

abbrev pub encrypted_class : String
encrypted_class = "possible-encrypted-or-unsupported-realm"

abbrev pub other_class : String
other_class = "not-a-plain-realm"

abbrev pub encrypted_warning : String
encrypted_warning =
    "The T-DB header is absent, but high byte entropy and a 4096-byte-aligned size are consistent with an encrypted, damaged, or unsupported Realm; these signals alone cannot distinguish them."

abbrev pub absent_warning : String
absent_warning = "The T-DB header is absent; this is not a recognized plaintext Realm."

abbrev pub suffix_warning : String
suffix_warning =
    "The filename suffix is .realm, but the content does not resemble an encrypted Realm."

-- `if minimum_string is not None and arrays: strings = _extract_strings(...)`
pub carved : (ℕ → Bool) → Bytes → List ArrayNode → Option ℕ → List CarvedString
carved isprintable xs arrays none = []
carved isprintable xs [] (some minimum) = []
carved isprintable xs (node ∷ arrays) (some minimum) =
    extract_strings isprintable xs (node ∷ arrays) minimum

module _ (P : Platform) where
  abbrev pub Real : Type 0
  Real = P.floats.Real

  abbrev pub digest : Bytes → String
  digest xs = (sha256 P.hashing (record { contents = xs; position = 0 })).0

  abbrev pub encrypted_layout : Bytes → Bool
  encrypted_layout xs =
      P.floats.at_least (sample_entropy P.floats xs) P.floats.threshold && length xs % 4096 == 0

  unfoldable pub classify_headerless : FilePath → Bytes → Analysis Real
  classify_headerless path xs = record {
    path = P.path_text path;
    sha256 = digest xs;
    file_size = length xs;
    classification = if encrypted_layout xs then encrypted_class else other_class;
    entropy = sample_entropy P.floats xs;
    header = none;
    arrays = [];
    warnings =
        append_if (str_eq (P.suffix_lower path) ".realm" && not (encrypted_layout xs))
          suffix_warning ((if encrypted_layout xs then encrypted_warning else absent_warning) ∷ []);
  }

  abbrev pub empty_analysis : FilePath → Analysis Real
  empty_analysis path = record {
    path = P.path_text path;
    sha256 = digest [];
    file_size = 0;
    classification = empty_class;
    entropy = P.floats.zero_real;
    header = none;
    arrays = [];
    warnings = "The file is empty." ∷ [];
  }

  abbrev pub plaintext_analysis :
      FilePath → Bytes → RealmHeader → Dict ArrayNode → List ArrayNode → Analysis Real
  plaintext_analysis path xs header nodes arrays = record {
    path = P.path_text path;
    sha256 = digest xs;
    file_size = length xs;
    classification = plaintext_class;
    entropy = sample_entropy P.floats xs;
    header = some header;
    arrays = arrays;
    warnings = header_warnings header nodes (length xs);
  }

  -- The branch of a file with a header.
  pub analyze_plaintext :
      FilePath → Bytes → RealmHeader → Option ℕ → Result (Analysis Real × List CarvedString)
  analyze_plaintext path xs header minimum = do
    let nodes = add_references xs (scan_array_candidates xs)
    arrays ← classify_nodes nodes header
    ok (plaintext_analysis path xs header nodes arrays, carved P.isprintable xs arrays minimum)

  -- `_analyze` from the open file on: its resolved path and its bytes.
  unfoldable pub analyze_bytes :
      FilePath → Bytes → Option ℕ → Result (Analysis Real × List CarvedString)
  unfolding analyze_plaintext carved
  analyze_bytes path xs minimum =
      if length xs == 0 then ok (empty_analysis path, []) else elim (parse_header xs) [
        | none ↦ ok (classify_headerless path xs, [])
        | some header ↦ analyze_plaintext path xs header minimum
      ]

  pub read_bytes : Option Failure → Bytes → Result Bytes
  read_bytes none xs = ok xs
  read_bytes (some f) xs = err (error_of f)

  -- `resolved.open("rb")` and the reads that follow: a missing file and a directory raise an
  -- `OSError`, and so may the reading of a file that is there.
  unfoldable pub read_file : Disk Real → FilePath → Result Bytes
  unfolding read_bytes
  read_file disk path = elim (entry_at path disk) [
    | none ↦ err (os_error "No such file or directory")
    | some directory ↦ err (os_error "Is a directory")
    | some (file (raw xs)) ↦ read_bytes (P.reading path) xs
    | some (file other) ↦ read_bytes (P.reading path) (P.content_bytes other)
  ]

  -- The bytes of the source.
  unfoldable pub read_source : Disk Real → FilePath → Result Bytes
  read_source disk path = do resolved ← path_of (P.resolved path); read_file disk resolved

  unfoldable pub analyze :
      Disk Real → FilePath → Option ℕ → Result (Analysis Real × List CarvedString)
  analyze disk path minimum = do
    resolved ← path_of (P.resolved path)
    xs ← read_file disk resolved
    analyze_bytes resolved xs minimum

  -- `analyze_realm`: `_analyze(path, None)[0]`
  unfoldable pub analyze_realm : Disk Real → FilePath → Result (Analysis Real)
  analyze_realm disk path = do result ← analyze disk path none; ok result.0
