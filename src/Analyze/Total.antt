-- ===== src/Analyze/Total.antt =====
-- The results of `_analyze` in src/pyrealm_forensics/parser.py.
use pyrealm.Prelude.{
  ℕ, suc, ◌+◌, ◌≡◌, ◌⊎◌, refl, sym, if◌then◌else◌, Bool, true, false, Option, none, some, List, [],
  ◌∷◌, arith, length, All, ok, ◌==◌, String, Option-cases, inl, inr,
}
use pyrealm.Prelude.Dict.{keys}
use pyrealm.Bytes.{Bytes}
use pyrealm.Models.{Analysis, ArrayNode, CarvedString, RealmHeader}
use pyrealm.Header.{parse_header}
use pyrealm.Header.Laws.{parse_header-none}
use pyrealm.Scan.{scan_array_candidates}
use pyrealm.Classify.Labels.{AllClassified}
use pyrealm.Classify.Pipeline.{linked, classify_file}
use pyrealm.Strings.Extract.{IsFromAny, extract_strings-IsFromAny}
use pyrealm.Layout.{array_header_size}
use pyrealm.Strings.Any.{Any}
use pyrealm.Strings.Complete.{
  IsCover, HasStretch, extract_strings-IsCover, IsPairCover, HasPairs, extract_strings-IsPairCover,
}
use pyrealm.Disk.{FilePath}
use pyrealm.Platform.{Platform}
use pyrealm.Analyze.{
  plaintext_class, encrypted_class, other_class, carved, Real, digest, encrypted_layout,
  empty_analysis, plaintext_analysis, classify_headerless, analyze_plaintext, analyze_bytes,
}

-- The strings carved from the arrays: each is from one of them, and each stretch of printable ASCII bytes
-- and each stretch of pairs of such a byte and a zero byte, of the least length or longer, in an array
-- without references is covered.
pub record AreAll (isprintable : ℕ → Bool) (xs : Bytes) (least : ℕ) (arrays : List ArrayNode)
    (strings : List CarvedString) : Type 0 where
  pub sound : All (IsFromAny xs least arrays) strings
  pub covers :
      (array a n : ℕ)
      → Any (HasStretch isprintable xs least array a n) arrays
      → Any (IsCover array (array + array_header_size + a) n) strings
  pub covers_pairs :
      (array a c : ℕ) (cs : List ℕ)
      → Any (HasPairs xs least array a c cs) arrays
      → Any (IsPairCover array (array + array_header_size + a) (suc (length cs))) strings

-- Strings come only if they were asked for.
abbrev pub AreCarved : (ℕ → Bool) → Bytes → Option ℕ → List ArrayNode → List CarvedString → Type 0
AreCarved isprintable xs none arrays strings = strings ≡ []
AreCarved isprintable xs (some least) arrays strings = AreAll isprintable xs least arrays strings

-- The class that the code gives to bytes, from the header that is read from them and from whether their
-- entropy and their size are those of an encrypted file.
abbrev pub class_of : Bytes → Option RealmHeader → Bool → String
class_of [] header encrypted = "empty"
class_of (x ∷ xs) (some header) encrypted = "plaintext-realm"
class_of (x ∷ xs) none true = "possible-encrypted-or-unsupported-realm"
class_of (x ∷ xs) none false = "not-a-plain-realm"

-- What a result says of the bytes. Without a header there are no arrays and no strings; with one,
-- the arrays are those of the scan with their labels.
pub record IsAnalysis (P : Platform) (xs : Bytes) (minimum : Option ℕ) (a : Analysis (Real P))
    (strings : List CarvedString) : Type 0 where
  pub header_read : a.header ≡ parse_header xs
  pub size : a.file_size ≡ length xs
  pub hashed : a.sha256 ≡ digest P xs
  pub class : a.classification ≡ class_of xs (parse_header xs) (encrypted_layout P xs)
  pub classified :
      (a.header ≡ none) × (a.arrays ≡ []) × (strings ≡ [])
      ⊎ ((header : RealmHeader) × (a.header ≡ some header)
          × AllClassified (linked xs) header (keys (scan_array_candidates xs)) a.arrays)
  pub carved_strings : AreCarved P.isprintable xs minimum a.arrays strings

nothing_carved :
    (isprintable : ℕ → Bool) (xs : Bytes) (minimum : Option ℕ)
    → AreCarved isprintable xs minimum [] []
nothing_carved isprintable xs none = refl
nothing_carved isprintable xs (some least) = record {
  sound = tt;
  covers = λ array a n h. absurd h;
  covers_pairs = λ array a c cs h. absurd h;
}

suc-eq-zero : (n : ℕ) → (suc n == 0) ≡ false
suc-eq-zero n = ground arith

module _ (P : Platform) where
  empty-IsAnalysis :
      (path : FilePath) (minimum : Option ℕ) → IsAnalysis P [] minimum (empty_analysis P path) []
  empty-IsAnalysis path minimum =
      let absent : parse_header [] ≡ none = (parse_header-none []).1 (inl (inl (omega arith))) in
      record {
        header_read = sym absent;
        size = refl;
        hashed = refl;
        class = refl;
        classified = inl (refl, refl, refl);
        carved_strings = nothing_carved P.isprintable _ minimum;
      }

  headerless_class :
      (x : ℕ) (xs : Bytes) (header : Option RealmHeader) (encrypted : Bool)
      → header ≡ none
      → (if encrypted then encrypted_class else other_class) ≡ class_of (x ∷ xs) header encrypted
  headerless_class x xs none true e = refl
  headerless_class x xs none false e = refl
  headerless_class x xs (some header) encrypted e = cc

  headerless-IsAnalysis :
      (path : FilePath) (x : ℕ) (xs : Bytes) (minimum : Option ℕ)
      → parse_header (x ∷ xs) ≡ none
      → IsAnalysis P (x ∷ xs) minimum (classify_headerless P path (x ∷ xs)) []
  unfolding classify_headerless
  headerless-IsAnalysis path x xs minimum absent = record {
    header_read = sym absent;
    size = refl;
    hashed = refl;
    class = headerless_class x xs (parse_header (x ∷ xs)) (encrypted_layout P (x ∷ xs)) absent;
    classified = inl (refl, refl, refl);
    carved_strings = nothing_carved P.isprintable _ minimum;
  }

  carved-AreCarved :
      (xs : Bytes) (arrays : List ArrayNode) (minimum : Option ℕ)
      → AreCarved P.isprintable xs minimum arrays (carved P.isprintable xs arrays minimum)
  unfolding carved
  carved-AreCarved xs arrays none = refl
  carved-AreCarved xs [] (some least) = nothing_carved P.isprintable xs (some least)
  carved-AreCarved xs (node ∷ arrays) (some least) = record {
    sound = extract_strings-IsFromAny P.isprintable xs (node ∷ arrays) least;
    covers = λ array a n. extract_strings-IsCover P.isprintable xs least array a n (node ∷ arrays);
    covers_pairs = λ array a c cs.
        extract_strings-IsPairCover P.isprintable xs least array a c cs (node ∷ arrays);
  }

  plaintext_class_lem :
      (x : ℕ) (xs : Bytes) (header : RealmHeader) (read : Option RealmHeader) (encrypted : Bool)
      → read ≡ some header
      → plaintext_class ≡ class_of (x ∷ xs) read encrypted
  plaintext_class_lem x xs header none encrypted e = cc
  plaintext_class_lem x xs header (some read) encrypted e = refl

  plaintext-IsAnalysis :
      (path : FilePath) (x : ℕ) (xs : Bytes) (header : RealmHeader) (minimum : Option ℕ)
      → parse_header (x ∷ xs) ≡ some header
      → (a : Analysis (Real P)) × (strings : List CarvedString) × (analyze_plaintext P path
            (x ∷ xs)
            header
            minimum
          ≡ ok (a, strings))
        × IsAnalysis P (x ∷ xs) minimum a strings
  unfolding analyze_plaintext
  plaintext-IsAnalysis path x xs header minimum there =
      let (arrays, returned, labelled, _, _) = classify_file (x ∷ xs) header in
      (
        plaintext_analysis P path (x ∷ xs) header (linked (x ∷ xs)) arrays,
        carved P.isprintable (x ∷ xs) arrays minimum,
        rw returned refl,
        record {
          header_read = sym there;
          size = refl;
          hashed = refl;
          class =
              plaintext_class_lem x xs header (parse_header (x ∷ xs)) (encrypted_layout P (x ∷ xs))
                there;
          classified = inr (header, refl, labelled);
          carved_strings = carved-AreCarved (x ∷ xs) arrays minimum;
        },
      )

  pub analyze_bytes_lem :
      (path : FilePath) (xs : Bytes) (minimum : Option ℕ)
      → (a : Analysis (Real P)) × (strings : List CarvedString) × (analyze_bytes P path xs minimum
          ≡ ok (a, strings))
        × IsAnalysis P xs minimum a strings
  unfolding analyze_bytes
  analyze_bytes_lem path [] minimum =
      (empty_analysis P path, [], refl, empty-IsAnalysis path minimum)
  analyze_bytes_lem path (x ∷ xs) minimum = elim (Option-cases (parse_header (x ∷ xs))) [
    | inl absent ↦ (
      classify_headerless P path (x ∷ xs),
      [],
      rw (suc-eq-zero (length xs)) (rw absent refl),
      headerless-IsAnalysis path x xs minimum absent,
    )
    | inr (header, there) ↦
        let (a, strings, returned, described) =
          plaintext-IsAnalysis path x xs header minimum there in
        (a, strings, rw (suc-eq-zero (length xs)) (rw there returned), described)
  ]
