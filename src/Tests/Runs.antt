-- ===== src/Tests/Runs.antt =====
-- Whole runs of the tool on a small disk.
use pyrealm.Prelude.{
  ℕ, ◌≡◌, ◌⊎◌, ◌↔◌, refl, true, false, some, List, [], ◌∷◌, ◌++◌, arith, length-append, os_error,
  runtime_error, value_failure, none, ok, err,
}
use pyrealm.Prelude.Dict.{has_key}
use pyrealm.Bytes.{Bytes, find}
use pyrealm.Models.{Analysis, ArrayNode, CarvedString, active, orphan, utf8}
use pyrealm.Header.{parse_header, has_magic}
use pyrealm.Layout.{array_size}
use pyrealm.Utf8.{decode_char}
use pyrealm.Scan.{candidate, scan_array_candidates}
use pyrealm.References.{child_refs_of, add_references}
use pyrealm.Reach.{reachable}
use pyrealm.Classify.{sorted, classify_nodes}
use pyrealm.Classify.Pipeline.{linked}
use pyrealm.Strings.{text_at, utf8_strings, utf16_strings, extract_strings}
use pyrealm.Hash.{sha256}
use pyrealm.Entropy.{counter, sample, sample_entropy}
use pyrealm.Disk.{
  FilePath, path_eq, directory, file, raw, Disk, entry_at, exists, put, mkdir, ended, step_to,
  place_below,
}
use pyrealm.Disk.Laws.{Extends, IsTree, path_eq-length, entry_at-put}
use pyrealm.Platform.{Platform, no_home}
use pyrealm.Analyze.{
  plaintext_class, header_warnings, top_reference_warning, analyze_bytes, read_file, analyze,
  analyze_realm,
}
use pyrealm.Analyze.Warnings.{IsPossibleRoot, header_warnings-nil_iff}
use pyrealm.Carve.{write_reports, finish, run_carve, carve_realm}
use pyrealm.Carve.Laws.{IsCarved, carve_realm-IsCarved, carve_realm-Extends}
use pyrealm.Cli.{
  inspect, status, raised, is_caught, error_text, suggestion_of, failure, inspected, reported, main,
}
use pyrealm.Tests.Files.{small_realm, small_header, small_platform, small_disk}

header_warnings-nil_iff_example : (header_warnings small_header (linked small_realm) 80 ≡ []) ↔ (
    IsPossibleRoot 24 80
    × IsPossibleRoot 0 80
    × (has_key (linked small_realm) 24 ≡ true)
    × ((small_header.inactive_top_ref ≡ 0) ⊎ (has_key (linked small_realm) 0 ≡ true))
    × (small_header.reserved ≡ 0))
header_warnings-nil_iff_example = header_warnings-nil_iff small_header (linked small_realm) 80

root_known : has_key (linked small_realm) 24 ≡ true
unfolding add_references scan_array_candidates candidate find array_size child_refs_of
root_known = refl

abbrev input : FilePath
input = "in.realm" ∷ []

abbrev output : FilePath
output = "out" ∷ []

abbrev text_node : ℕ → ArrayNode
text_node offset = record {
  offset = offset;
  byte_size = 16;
  payload_size = 8;
  element_count = 8;
  width = 8;
  width_scheme = 0;
  has_refs = false;
  inner_bptree = false;
  context_flag = false;
  child_refs = [];
  reachability = orphan;
}

abbrev small_analysis : Analysis ℕ
small_analysis = record {
  path = "path";
  sha256 = "digest";
  file_size = 80;
  classification = plaintext_class;
  entropy = 80;
  header = some small_header;
  arrays =
      record {
        offset = 24;
        byte_size = 24;
        payload_size = 16;
        element_count = 2;
        width = 64;
        width_scheme = 0;
        has_refs = true;
        inner_bptree = false;
        context_flag = false;
        child_refs = 48 ∷ [];
        reachability = active;
      }
      ∷ record (text_node 48) { reachability = active }
      ∷ text_node 64
      ∷ [];
  warnings = [];
}

abbrev hello_at : ℕ → ArrayNode → CarvedString
hello_at offset node = record {
  file_offset = offset;
  array_offset = node.offset;
  encoding = utf8;
  value = b'h' ∷ b'e' ∷ b'l' ∷ b'l' ∷ b'o' ∷ [];
  reachability = node.reachability;
}

abbrev small_strings : List CarvedString
small_strings =
    hello_at 56 (record (text_node 48) { reachability = active }) ∷ hello_at 72 (text_node 64) ∷ []

small_analyzed :
    analyze small_platform small_disk input (some 4) ≡ ok (small_analysis, small_strings)
unfolding analyze analyze_bytes read_file entry_at parse_header has_magic add_references
    scan_array_candidates candidate find array_size child_refs_of reachable classify_nodes sorted
    utf8_strings utf16_strings extract_strings text_at decode_char sha256 counter sample
    sample_entropy header_warnings top_reference_warning
small_analyzed = refl

abbrev carved_disk : Disk ℕ
carved_disk =
    (write_reports small_platform output small_analysis small_strings
      (put output directory small_disk)).1

small_carved :
    carve_realm small_platform input output 4 small_disk ≡ (ok small_analysis, carved_disk)
unfolding carve_realm run_carve finish exists entry_at mkdir write_reports ended step_to place_below
small_carved = rw small_analyzed refl

carve_realm-IsCarved_example :
    (strings : List CarvedString) × IsCarved small_platform input output 4 small_disk carved_disk
      small_analysis strings
carve_realm-IsCarved_example =
    carve_realm-IsCarved small_platform input output 4 small_disk carved_disk small_analysis
      small_carved

small_disk-IsTree : IsTree small_disk
unfolding entry_at
small_disk-IsTree [] c e h = (directory, refl)
small_disk-IsTree (b ∷ p) c e h =
    let other : path_eq input ((b ∷ p) ++ c ∷ []) ≡ false =
      path_eq-length input ((b ∷ p) ++ c ∷ []) (λ l. omega (arith, length-append p (c ∷ []))) in
    cc (rw (entry_at-put input ((b ∷ p) ++ c ∷ []) (file (raw small_realm)) [], other) at h)

carve_realm-Extends_example :
    Extends small_disk (carve_realm small_platform input output 4 small_disk).1
carve_realm-Extends_example =
    carve_realm-Extends small_platform input output 4 small_disk small_disk-IsTree

-- A path that goes up again from a directory that is not there yet, to one that is there.
abbrev roundabout : FilePath
roundabout = "x" ∷ ".." ∷ "out" ∷ []

abbrev with_out : Disk ℕ
with_out = ("out" ∷ [], directory) ∷ small_disk

roundabout_fresh : exists with_out roundabout ≡ false
unfolding exists entry_at step_to
roundabout_fresh = refl

-- It is refused only after `x` was made.
roundabout_refused :
    mkdir (λ p. none) roundabout with_out
    ≡ (err (os_error "File exists"), put ("x" ∷ []) directory with_out)
unfolding mkdir entry_at step_to
roundabout_refused = refl

-- A source under the home of a user who is not there.
abbrev homeless : Platform
homeless = record small_platform { resolved = λ p. no_home "Could not determine home directory." }

homeless_raises :
    (main homeless (inspect input true) small_disk).exit
    ≡ raised (runtime_error "Could not determine home directory.")
unfolding main inspected analyze_realm analyze failure is_caught
homeless_raises = refl

-- A standard output that cannot encode the path.
abbrev unprintable : Platform
unprintable = record small_platform {
  print_text = λ line. some (value_failure "ordinal not in range");
}

unprintable_fails : (reported unprintable output (ok small_analysis, carved_disk)).exit ≡ status 1
unfolding reported failure is_caught suggestion_of error_text
unprintable_fails = refl
