-- ===== src/Carve/Reports.antt =====
-- The three reports of `carve_realm` in src/pyrealm_forensics/parser.py on the disk.
use pyrealm.Prelude.{
  ◌≡◌, ◌≢◌, refl, sym, ◌∙◌, String, false, some, List, [], ◌∷◌, ◌++◌, map, Result, ok, err,
  Bool-cases, Error, IsHandled, error_of-IsHandled, same_error, subst, inl, inr,
}
use pyrealm.Models.{Analysis, CarvedString}
use pyrealm.Json.{node_dict, analysis_dict}
use pyrealm.Disk.{
  FilePath, path_eq, Content, summary, lines, table, Writing, complete, not_opened, broken_off,
  file, Disk, entry_at, proceed, ended,
}
use pyrealm.Disk.Laws.{path_eq_refl, path_eq-append, eq_of_path_eq, entry_at-put}
use pyrealm.Platform.{Platform}
use pyrealm.Analyze.{Real}
use pyrealm.Carve.{summary_path, arrays_path, strings_path, write, write_reports}

-- What writing one file changes.
record IsWriting {R : Type 0} (path : FilePath) (content : Content R) (disk : Disk R)
    (outcome : Result (Unit {0}) × Disk R) : Type 0 where
  pub beside : (q : FilePath) → path_eq path q ≡ false → entry_at q outcome.1 ≡ entry_at q disk
  pub written : outcome.0 ≡ ok tt → entry_at path outcome.1 ≡ some (file content)
  pub failing : (e : Error) → outcome.0 ≡ err e → IsHandled e

ended-IsWriting :
    {R : Type 0} (w : Writing) (path : FilePath) (content : Content R) (disk : Disk R)
    → IsWriting path content disk (ended w path content disk)
unfolding ended
ended-IsWriting complete path content disk = record {
  beside = λ q other. rw (entry_at-put, other) refl;
  written = λ h. rw (entry_at-put, path_eq_refl) refl;
  failing = λ e h. cc;
}
ended-IsWriting (not_opened f) path content disk = record {
  beside = λ q other. refl;
  written = λ h. cc;
  failing = λ e h. subst IsHandled (same_error refl h) (error_of-IsHandled f);
}
ended-IsWriting (broken_off f xs) path content disk = record {
  beside = λ q other. rw (entry_at-put, other) refl;
  written = λ h. cc;
  failing = λ e h. subst IsHandled (same_error refl h) (error_of-IsHandled f);
}

proceed-beside :
    {R : Type 0} (path : FilePath) (content : Content R)
    (next : Disk R → Result (Unit {0}) × Disk R)
    → ((d : Disk R) → IsWriting path content d (next d))
    → (outcome : Result (Unit {0}) × Disk R) (q : FilePath) → path_eq path q ≡ false
    → entry_at q (proceed next outcome).1 ≡ entry_at q outcome.1
proceed-beside path content next writes (ok done, d) q other = (writes d).beside q other
proceed-beside path content next writes (err e, d) q other = refl

-- What comes before has succeeded, if what follows has.
proceed-written :
    {R : Type 0} (path : FilePath) (content : Content R)
    (next : Disk R → Result (Unit {0}) × Disk R)
    → ((d : Disk R) → IsWriting path content d (next d))
    → (outcome : Result (Unit {0}) × Disk R) → (proceed next outcome).0 ≡ ok tt
    → (outcome.0 ≡ ok tt) × (entry_at path (proceed next outcome).1 ≡ some (file content))
proceed-written path content next writes (ok done, d) h = (refl, (writes d).written h)
proceed-written path content next writes (err e, d) h = cc

proceed-failing :
    {R : Type 0} (path : FilePath) (content : Content R)
    (next : Disk R → Result (Unit {0}) × Disk R)
    → ((d : Disk R) → IsWriting path content d (next d))
    → (outcome : Result (Unit {0}) × Disk R) → ((e : Error) → outcome.0 ≡ err e → IsHandled e)
    → (e : Error) → (proceed next outcome).0 ≡ err e
    → IsHandled e
proceed-failing path content next writes (ok done, d) before e h = (writes d).failing e h
proceed-failing path content next writes (err e', d) before e h = before e h

module _ (P : Platform) where
  write-IsWriting :
      (path : FilePath) (content : Content (Real P)) (disk : Disk (Real P))
      → IsWriting path content disk (write P path content disk)
  unfolding write
  write-IsWriting path content disk = ended-IsWriting (P.writing path content) path content disk

  -- What writing the reports changes: nothing but the three files, which are there if it succeeds.
  pub record AreReports (place : FilePath) (a : Analysis (Real P)) (strings : List CarvedString)
      (disk : Disk (Real P)) (outcome : Result (Unit {0}) × Disk (Real P)) : Type 0 where
    pub beside :
        (q : FilePath)
        → ((c : String) → q ≢ place ++ c ∷ [])
        → entry_at q outcome.1 ≡ entry_at q disk
    pub written :
        outcome.0 ≡ ok tt
        → (entry_at (summary_path place) outcome.1 ≡ some (file (summary (analysis_dict a))))
          × (entry_at (arrays_path place) outcome.1 ≡ some (file (lines (map node_dict a.arrays))))
          × (entry_at (strings_path place) outcome.1 ≡ some (file (table strings)))
    pub failing : (e : Error) → outcome.0 ≡ err e → IsHandled e

  pub write_reports-AreReports :
      (place : FilePath) (a : Analysis (Real P)) (strings : List CarvedString)
      (disk : Disk (Real P))
      → AreReports place a strings disk (write_reports P place a strings disk)
  unfolding write_reports
  write_reports-AreReports place a strings disk = record {
    beside = λ q apart.
        proceed-beside _ _ _ third second q (apart_from q apart "strings.csv")
        ∙ proceed-beside _ _ _ next first q (apart_from q apart "arrays.jsonl")
        ∙ (write-IsWriting _ _ disk).beside q (apart_from q apart "summary.json");
    written = λ h.
        let (second_done, third_there) = proceed-written _ _ _ third second h in
        let (first_done, second_there) = proceed-written _ _ _ next first second_done in
        (
          proceed-beside _ _ _ third second (summary_path place)
                (path_eq-append place "strings.csv" "summary.json")
              ∙ proceed-beside _ _ _ next first (summary_path place)
                  (path_eq-append place "arrays.jsonl" "summary.json")
              ∙ (write-IsWriting _ _ disk).written first_done,
          proceed-beside _ _ _ third second (arrays_path place)
                (path_eq-append place "strings.csv" "arrays.jsonl")
              ∙ second_there,
          third_there,
        );
    failing =
        proceed-failing _ _ _ third second
          (proceed-failing _ _ _ next first (write-IsWriting _ _ disk).failing);
  }
    where
      apart_from :
          (q : FilePath)
          → ((c : String) → q ≢ place ++ c ∷ [])
          → (c : String) → path_eq (place ++ c ∷ []) q ≡ false
      apart_from q apart c = elim (Bool-cases (path_eq (place ++ c ∷ []) q)) [
        | inl same ↦ absurd (apart c (sym (eq_of_path_eq (place ++ c ∷ []) q same)))
        | inr other ↦ other
      ]

      first : Result (Unit {0}) × Disk (Real P)
      first = write P (summary_path place) (summary (analysis_dict a)) disk

      next :
          (d : Disk (Real P))
          → IsWriting
              (arrays_path place)
              (lines (map node_dict a.arrays))
              d
              (write P (arrays_path place) (lines (map node_dict a.arrays)) d)
      next d = write-IsWriting _ _ d

      second : Result (Unit {0}) × Disk (Real P)
      second = proceed (write P (arrays_path place) (lines (map node_dict a.arrays))) first

      third :
          (d : Disk (Real P))
          → IsWriting
              (strings_path place)
              (table strings)
              d
              (write P (strings_path place) (table strings) d)
      third d = write-IsWriting _ _ d
