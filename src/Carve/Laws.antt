-- ===== src/Carve/Laws.antt =====
-- The disk before and after `carve_realm` in src/pyrealm_forensics/parser.py.
use pyrealm.Prelude.{
  ℕ, ◌≡◌, ◌≢◌, ◌≤◌, ◌⊎◌, refl, sym, ◌∙◌, ap, String, true, false, Option, none, some, List, [], ◌∷◌,
  ◌++◌, map, arith, length, length-append, ltb, Result, ok, err, value_error, os_error, Bool-cases,
  Error, IsHandled, Failure, error_of, error_of-IsHandled, subst, inl, inr,
}
use pyrealm.Models.{Analysis, CarvedString}
use pyrealm.Json.{node_dict, analysis_dict}
use pyrealm.Disk.{
  FilePath, summary, lines, table, directory, file, Disk, entry_at, exists, place_of, proceed,
  mkdir,
}
use pyrealm.Disk.Laws.{Extends, Extends-refl, IsTree}
use pyrealm.Disk.Making.{IsMaking, mkdir-IsMaking, root-IsThere}
use pyrealm.Platform.{Platform}
use pyrealm.Analyze.{Real, analyze}
use pyrealm.Analyze.Outcome.{IsUnresolvable, analyze_lem}
use pyrealm.Carve.{
  summary_path, arrays_path, strings_path, write_reports, returning, finish, run_carve, tested,
  carve_realm, exists_message,
}
use pyrealm.Carve.Reports.{AreReports, write_reports-AreReports}

module _ (P : Platform) where
  -- What a carve that succeeded has done. The two preconditions held, the analysis is that of the
  -- source as it was before, and the reports are in the new directory.
  pub record IsCarved (path output : FilePath) (minimum : ℕ) (disk disk' : Disk (Real P))
      (a : Analysis (Real P)) (strings : List CarvedString) : Type 0 where
    pub asked : 1 ≤ minimum
    pub fresh : exists disk output ≡ false
    pub analysed : analyze P disk path (some minimum) ≡ ok (a, strings)
    pub place : entry_at (place_of output) disk' ≡ some directory
    pub summary_written :
        entry_at (summary_path (place_of output)) disk' ≡ some (file (summary (analysis_dict a)))
    pub arrays_written :
        entry_at (arrays_path (place_of output)) disk'
        ≡ some (file (lines (map node_dict a.arrays)))
    pub strings_written :
        entry_at (strings_path (place_of output)) disk' ≡ some (file (table strings))

  -- The preconditions held and the analysis was made.
  abbrev pub IsStarted :
      FilePath → FilePath → ℕ → Disk (Real P) → Analysis (Real P) → List CarvedString → Type 0
  IsStarted path output minimum disk a strings =
      (1 ≤ minimum)
      × (exists disk output ≡ false)
      × (analyze P disk path (some minimum) ≡ ok (a, strings))

  -- A carve that was refused, or whose analysis failed.
  abbrev Stopped : FilePath → FilePath → ℕ → Disk (Real P) → Type 0
  Stopped path output minimum disk =
      (e : Error) × (carve_realm P path output minimum disk ≡ (err e, disk))
      × (IsHandled e ⊎ IsUnresolvable P path e)

  abbrev Finished : FilePath → FilePath → ℕ → Disk (Real P) → Type 0
  Finished path output minimum disk =
      (a : Analysis (Real P)) × (strings : List CarvedString) × IsStarted path output minimum disk a
        strings
      × (carve_realm P path output minimum disk ≡ finish P output disk (a, strings))

  after_checks :
      (path output : FilePath) (minimum : ℕ) (disk : Disk (Real P))
      → ltb minimum 1 ≡ false
      → tested P output disk (P.testing output) ≡ ok false
      → exists disk output ≡ false
      → Stopped path output minimum disk ⊎ Finished path output minimum disk
  unfolding carve_realm run_carve
  after_checks path output minimum disk e f g = elim (analyze_lem P disk path (some minimum)) [
    | inl (x, _, failed, kind) ↦ inl (x, rw (e, f, failed) refl, kind)
    | inr (xs, a, strings, _, returned, _) ↦
        inr (a, strings, (ground arith, g, returned), rw (e, f, returned) refl)
  ]

  tested-cases :
      (output : FilePath) (disk : Disk (Real P)) (f : Option Failure)
      → ((e : Error) × (tested P output disk f ≡ err e) × IsHandled e)
        ⊎ (tested P output disk f ≡ ok true)
        ⊎ ((tested P output disk f ≡ ok false) × (exists disk output ≡ false))
  unfolding tested
  tested-cases output disk (some f) = inl (error_of f, refl, error_of-IsHandled f)
  tested-cases output disk none = elim (Bool-cases (exists disk output)) [
    | inl e ↦ inr (inl (ap ok e))
    | inr e ↦ inr (inr (ap ok e, e))
  ]

  carve_realm-cases :
      (path output : FilePath) (minimum : ℕ) (disk : Disk (Real P))
      → Stopped path output minimum disk ⊎ Finished path output minimum disk
  unfolding carve_realm
  carve_realm-cases path output minimum disk = elim (Bool-cases (ltb minimum 1)) [
    | inl e ↦ inl (value_error "minimum_string must be at least 1", rw e refl, inl tt)
    | inr e ↦ elim (tested-cases output disk (P.testing output)) [
      | inl (x, f, handled) ↦ inl (x, rw (e, f) refl, inl handled)
      | inr (inl f) ↦ inl (os_error (exists_message P output), rw (e, f) refl, inl tt)
      | inr (inr (f, g)) ↦ after_checks path output minimum disk e f g
    ]
  ]

  not_below : (place : FilePath) (c : String) → place ≢ place ++ c ∷ []
  not_below place c e = omega (arith, length-append place (c ∷ []), ap length e)

  -- How `finish` ends: the reports are in the new directory, or something was raised.
  pub record IsFinish (output : FilePath) (disk : Disk (Real P)) (a : Analysis (Real P))
      (strings : List CarvedString) (outcome : Result (Analysis (Real P)) × Disk (Real P))
      : Type 0 where
    pub result :
        ((outcome.0 ≡ ok a)
          × (entry_at (place_of output) outcome.1 ≡ some directory)
          × (entry_at (summary_path (place_of output)) outcome.1
              ≡ some (file (summary (analysis_dict a))))
          × (entry_at (arrays_path (place_of output)) outcome.1
              ≡ some (file (lines (map node_dict a.arrays))))
          × (entry_at (strings_path (place_of output)) outcome.1 ≡ some (file (table strings))))
        ⊎ ((e : Error) × (outcome.0 ≡ err e) × IsHandled e)
    pub extends : IsTree disk → Extends disk outcome.1

  reported-IsFinish :
      (output : FilePath) (disk : Disk (Real P)) (a : Analysis (Real P))
      (strings : List CarvedString) (made : Disk (Real P))
      (outcome : Result (Unit {0}) × Disk (Real P))
      → IsMaking [] (place_of output) disk (ok tt, made)
      → AreReports P (place_of output) a strings made outcome
      → IsFinish output disk a strings (returning P a outcome)
  unfolding returning
  reported-IsFinish output disk a strings made (ok done, after) m r = record {
    result = inl (
      refl,
      r.beside (place_of output) (not_below (place_of output)) ∙ m.made refl,
      (r.written refl).0,
      (r.written refl).1,
      (r.written refl).2,
    );
    extends = λ tree q e there.
        r.beside q (λ c same. cc (
          m.bare tree (root-IsThere disk) refl c,
          m.extends q e there,
          ap (λ p. entry_at p made) same,
        ))
        ∙ m.extends q e there;
  }
  reported-IsFinish output disk a strings made (err e, after) m r = record {
    result = inr (e, refl, r.failing e refl);
    extends = λ tree q f there.
        r.beside q (λ c same. cc (
          m.bare tree (root-IsThere disk) refl c,
          m.extends q f there,
          ap (λ p. entry_at p made) same,
        ))
        ∙ m.extends q f there;
  }

  made-IsFinish :
      (output : FilePath) (disk : Disk (Real P)) (a : Analysis (Real P))
      (strings : List CarvedString) (making : Result (Unit {0}) × Disk (Real P))
      → IsMaking [] (place_of output) disk making
      → IsFinish output disk a strings
          (returning P a (proceed (write_reports P (place_of output) a strings) making))
  unfolding returning
  made-IsFinish output disk a strings (ok done, made) m =
      reported-IsFinish output disk a strings made _ m
        (write_reports-AreReports P (place_of output) a strings made)
  made-IsFinish output disk a strings (err e, made) m = record {
    result = inr (e, refl, m.failing e refl);
    extends = λ tree. m.extends;
  }

  finish-IsFinish :
      (output : FilePath) (disk : Disk (Real P)) (a : Analysis (Real P))
      (strings : List CarvedString)
      → IsFinish output disk a strings (finish P output disk (a, strings))
  unfolding finish
  finish-IsFinish output disk a strings =
      made-IsFinish output disk a strings (mkdir P.making output disk)
        (mkdir-IsMaking P.making output disk)

  -- A carve that succeeds has checked its two preconditions, returns the analysis of the source as it
  -- was before, and leaves the directory with the three reports of that analysis and of its strings.
  pub carve_realm-IsCarved :
      (path output : FilePath) (minimum : ℕ) (disk disk' : Disk (Real P)) (a : Analysis (Real P))
      → carve_realm P path output minimum disk ≡ (ok a, disk')
      → (strings : List CarvedString) × IsCarved path output minimum disk disk' a strings
  carve_realm-IsCarved path output minimum disk disk' a h =
      elim (carve_realm-cases path output minimum disk) [
        | inl (x, failed, _) ↦ cc
        | inr (b, strings, (asked, fresh, analysed), returned) ↦
            let done =
              subst (IsFinish output disk b strings) (sym returned ∙ h)
                (finish-IsFinish output disk b strings) in
            elim done.result [
              | inr (e, failed, _) ↦ cc
              | inl (same, place, first, second, third) ↦
                  let one : b ≡ a = cc in
                  (
                    strings,
                    record {
                      asked = asked;
                      fresh = fresh;
                      analysed = rw (← one) analysed;
                      place = place;
                      summary_written = rw (← one) first;
                      arrays_written = rw (← one) second;
                      strings_written = third;
                    },
                  )
            ]
      ]

  -- Whatever a carve ends in, each entry that was on the disk is there still and is the same. This
  -- supposes that each entry has its directory.
  pub carve_realm-Extends :
      (path output : FilePath) (minimum : ℕ) (disk : Disk (Real P))
      → IsTree disk
      → Extends disk (carve_realm P path output minimum disk).1
  carve_realm-Extends path output minimum disk tree =
      elim (carve_realm-cases path output minimum disk) [
        | inl (x, failed, _) ↦ subst (λ o. Extends disk o.1) (sym failed) (Extends-refl disk)
        | inr (a, strings, started, returned) ↦
            subst (λ o. Extends disk o.1) (sym returned)
              ((finish-IsFinish output disk a strings).extends tree)
      ]
