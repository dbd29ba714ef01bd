-- ===== src/Analyze/Complete.antt =====
-- What a carve of src/pyrealm_forensics/parser.py, `_analyze` with a minimum length, does not miss.
use mathlib.Core.Option
use pyrealm.Prelude.{
  ℕ, suc, ◌+◌, ◌≡◌, refl, sym, ◌∙◌, ap, subst, true, false, none, some, List, [], ◌∷◌, arith,
  contains, length, ◌++◌, ◌≤◌, drop, All, ◌==◌, ==_iff, Bool-cases, ok, inl, inr,
}
use pyrealm.Prelude.Dict.{keys, lookup, has_key_of_lookup}
use pyrealm.Bytes.{Bytes}
use pyrealm.Models.{Analysis, ArrayNode, CarvedString, RealmHeader, Reachability}
use pyrealm.References.{child_refs_of}
use pyrealm.Strings.{is_ascii_print, extract_strings}
use pyrealm.Strings.Utf16Runs.{wide}
use pyrealm.Header.{parse_header}
use pyrealm.Header.Laws.{parse_header-none}
use pyrealm.Layout.{array_header_size}
use pyrealm.Scan.{scan_array_candidates}
use pyrealm.Scan.Order.{lookup-scan-IsCandidate}
use pyrealm.References.Children.{lookup-add_references, with_children}
use pyrealm.Classify.Labels.{IsClassified, AllClassified}
use pyrealm.Classify.Pipeline.{linked, classify_file}
use pyrealm.Strings.Any.{Any}
use pyrealm.Strings.Complete.{
  IsCover, HasStretch, payload_of, extract_strings-IsCover, IsPairCover, HasPairs,
  extract_strings-IsPairCover,
}
use pyrealm.Strings.Utf8Cover.{IsStretch}
use pyrealm.Disk.{FilePath}
use pyrealm.Platform.{Platform}
use pyrealm.Analyze.{Real, carved, plaintext_analysis, analyze_plaintext, analyze_bytes}

bytes-parsed :
    (xs : Bytes) (header : RealmHeader) → parse_header xs ≡ some header → (length xs == 0) ≡ false
bytes-parsed [] header there =
    let absent : parse_header [] ≡ none = (parse_header-none []).1 (inl (inl (omega arith))) in cc
bytes-parsed (x ∷ xs) header there = ground arith

-- A property of an array that its children and its label do not matter to.
abbrev IsKept : (ArrayNode → Type 0) → Type 0
IsKept Q =
    (node : ArrayNode) (refs : List ℕ) (reached : Reachability)
    → Q node
    → Q (record node { child_refs = refs; reachability = reached })

module _ (xs : Bytes) (array : ℕ) (node : ArrayNode)
    (found : lookup array (scan_array_candidates xs) ≡ some node) (Q : ArrayNode → Type 0)
    (kept : IsKept Q) (holds : Q node) where
  -- The array of the scan, as it is reported.
  reported-kept :
      (header : RealmHeader) (reported : ArrayNode)
      → IsClassified (linked xs) header array reported
      → Q reported
  reported-kept header reported classified =
      let (before, e, same) = classified.of_table in
      let scan = scan_array_candidates xs in
      let table : some before ≡ some (with_children xs scan array node) =
        sym e
        ∙ lookup-add_references xs scan array
        ∙ ap (Option.map (with_children xs scan array)) found in
      let before_is : before ≡ with_children xs scan array node = cc in
      let labelled : record (with_children xs scan array node) {
        reachability = reported.reachability;
      }
          ≡ reported =
        sym (
          same
          ∙ ap (λ (b : ArrayNode). record b { reachability = reported.reachability }) before_is) in
      subst Q labelled (kept node (child_refs_of xs scan array node) reported.reachability holds)

  arrays-kept :
      (header : RealmHeader) (ks : List ℕ) (arrays : List ArrayNode)
      → AllClassified (linked xs) header ks arrays
      → contains ks array ≡ true
      → Any Q arrays
  arrays-kept header [] arrays labelled there = cc
  arrays-kept header (k ∷ ks) [] labelled there = absurd labelled
  arrays-kept header (k ∷ ks) (reported ∷ arrays) (first, rest) there =
      elim (Bool-cases (k == array)) [
        | inl e ↦
            let here : IsClassified (linked xs) header array reported =
              subst (λ j. IsClassified (linked xs) header j reported) ((==_iff k array).0 e)
                first in
            inl (reported-kept header reported here)
        | inr e ↦ inr (arrays-kept header ks arrays rest (rw e at there))
      ]

  module _ (P : Platform) (minimum : ℕ) (C : CarvedString → Type 0)
      (carve : (nodes : List ArrayNode)
        → Any Q nodes
        → Any C (extract_strings P.isprintable xs nodes minimum)) where
    carved-kept :
        (arrays : List ArrayNode)
        → Any Q arrays
        → Any C (carved P.isprintable xs arrays (some minimum))
    unfolding carved
    carved-kept [] h = absurd h
    carved-kept (first ∷ arrays) h = carve (first ∷ arrays) h

    plaintext-kept :
        (path : FilePath) (header : RealmHeader)
        → (result : Analysis (Real P) × List CarvedString) × (analyze_plaintext P path xs header
              (some minimum)
            ≡ ok result)
          × Any C result.1
    unfolding analyze_plaintext
    plaintext-kept path header =
        let (arrays, returned, labelled, _, _) = classify_file xs header in
        let there = has_key_of_lookup array (scan_array_candidates xs) found in
        (
          (
            plaintext_analysis P path xs header (linked xs) arrays,
            carved P.isprintable xs arrays (some minimum),
          ),
          rw returned refl,
          carved-kept arrays
              (arrays-kept header (keys (scan_array_candidates xs)) arrays labelled there),
        )

    -- What holds of some carved string of each list of arrays with the array of the scan holds of some
    -- carved string of the analysis.
    analysis-kept :
        (path : FilePath) (header : RealmHeader)
        → parse_header xs ≡ some header
        → (result : Analysis (Real P) × List CarvedString) × (analyze_bytes P path xs (some minimum)
            ≡ ok result)
          × Any C result.1
    unfolding analyze_bytes
    analysis-kept path header there =
        let (result, returned, covers) = plaintext-kept path header in
        let some_bytes : (length xs == 0) ≡ false = bytes-parsed xs header there in
        (result, rw some_bytes (rw there returned), covers)

module _ (P : Platform) (path : FilePath) (xs : Bytes) (header : RealmHeader) (minimum array : ℕ)
    (node : ArrayNode) where
  -- In a file with a header, a stretch of printable ASCII bytes at least as long as the minimum, in the
  -- payload of an array without references that the scan finds, is covered by one of the carved strings
  -- of the whole analysis, at its absolute place in the file.
  pub analyze_bytes_covers :
      (a n : ℕ)
      → parse_header xs ≡ some header
      → lookup array (scan_array_candidates xs) ≡ some node
      → node.has_refs ≡ false
      → IsStretch P.isprintable (payload_of xs node) minimum a n
      → (result : Analysis (Real P) × List CarvedString) × (analyze_bytes P path xs (some minimum)
          ≡ ok result)
        × Any (IsCover array (array + array_header_size + a) n) result.1
  analyze_bytes_covers a n there found plain stretch =
      analysis-kept xs array node found (HasStretch P.isprintable xs minimum array a n)
        (λ other refs reached h. record {
          offset = h.offset;
          data_array = h.data_array;
          stretch = h.stretch;
        })
        (record {
          offset = (lookup-scan-IsCandidate xs array found).own_offset;
          data_array = plain;
          stretch = stretch;
        })
        P minimum (IsCover array (array + array_header_size + a) n)
        (extract_strings-IsCover P.isprintable xs minimum array a n) path header there

  -- In a file with a header, at least `minimum` pairs of a printable ASCII byte and a zero byte, at any
  -- place of the payload of an array without references that the scan finds, are covered by one of the
  -- carved strings of the whole analysis, at its absolute place in the file.
  pub analyze_bytes_covers_pairs :
      (a c : ℕ) (cs : List ℕ) (tail : Bytes)
      → parse_header xs ≡ some header
      → lookup array (scan_array_candidates xs) ≡ some node
      → node.has_refs ≡ false
      → drop a (payload_of xs node) ≡ wide (c ∷ cs) ++ tail
      → All (λ b. is_ascii_print b ≡ true) (c ∷ cs)
      → minimum ≤ suc (length cs)
      → (result : Analysis (Real P) × List CarvedString) × (analyze_bytes P path xs (some minimum)
          ≡ ok result)
        × Any (IsPairCover array (array + array_header_size + a) (suc (length cs))) result.1
  analyze_bytes_covers_pairs a c cs tail there found plain place printable long =
      analysis-kept xs array node found (HasPairs xs minimum array a c cs)
        (λ other refs reached h. record {
          offset = h.offset;
          data_array = h.data_array;
          tail = h.tail;
          place = h.place;
          printable = h.printable;
          long = h.long;
        })
        (record {
          offset = (lookup-scan-IsCandidate xs array found).own_offset;
          data_array = plain;
          tail = tail;
          place = place;
          printable = printable;
          long = long;
        })
        P minimum (IsPairCover array (array + array_header_size + a) (suc (length cs)))
        (extract_strings-IsPairCover P.isprintable xs minimum array a c cs) path header there
