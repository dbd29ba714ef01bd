-- ===== src/Disk/Laws.antt =====
-- Writing files and making directories, for `carve_realm` in src/pyrealm_forensics/parser.py.
use text.Mathlib.TextEquality.{eq_iff}
use text.Mathlib.Text.{◌==◌ as str_eq}
use pyrealm.Prelude.{
  String, ◌≡◌, ◌≢◌, ◌⊎◌, refl, ap, length, true, false, ◌&&◌, none, some, [], ◌∷◌, ◌++◌, arith,
  if◌then◌else◌, Bool-cases, inl, inr,
}
use pyrealm.Disk.{FilePath, path_eq, parent, step_to, Entry, directory, Disk, entry_at, found, put}

pub path_eq_refl : (p : FilePath) → path_eq p p ≡ true
unfolding path_eq
path_eq_refl [] = refl
path_eq_refl (c ∷ p) = ground (arith, eq_iff c c, path_eq_refl p)

pub eq_of_path_eq : (p q : FilePath) → path_eq p q ≡ true → p ≡ q
unfolding path_eq
eq_of_path_eq [] [] h = refl
eq_of_path_eq [] (d ∷ q) h = cc
eq_of_path_eq (c ∷ p) [] h = cc
eq_of_path_eq (c ∷ p) (d ∷ q) h = ground (arith, eq_iff c d, eq_of_path_eq p q)

-- Two names in one directory.
pub path_eq-append :
    (p : FilePath) (c d : String) → path_eq (p ++ c ∷ []) (p ++ d ∷ []) ≡ (str_eq c d && true)
unfolding path_eq
path_eq-append [] c d = refl
path_eq-append (b ∷ p) c d = rw (path_eq-append p c d, (eq_iff b b).1 refl) refl

pub path_eq-length : (p q : FilePath) → length p ≢ length q → path_eq p q ≡ false
path_eq-length p q other = elim (Bool-cases (path_eq p q)) [
  | inl same ↦ absurd (other (ap length (eq_of_path_eq p q same)))
  | inr e ↦ e
]

pub parent-append : (p : FilePath) (c : String) → parent (p ++ c ∷ []) ≡ p
unfolding parent
parent-append [] c = refl
parent-append (b ∷ []) c = refl
parent-append (b ∷ b' ∷ p) c = ap (λ q. b ∷ q) (parent-append (b' ∷ p) c)

-- A place is the root or stands below its parent.
pub place-cases : (p : FilePath) → (p ≡ []) ⊎ ((c : String) × (p ≡ parent p ++ c ∷ []))
unfolding parent
place-cases [] = inl refl
place-cases (c ∷ []) = inr (c, refl)
place-cases (b ∷ b' ∷ p) = elim (place-cases (b' ∷ p)) [
  | inl e ↦ cc
  | inr (c, e) ↦ inr (c, ap (λ q. b ∷ q) e)
]

pub step_to-cases :
    (p : FilePath) (c : String) → (step_to p c ≡ parent p) ⊎ (step_to p c ≡ p ++ c ∷ [])
unfolding step_to
step_to-cases p c = elim (Bool-cases (str_eq c "..")) [
  | inl e ↦ inl (rw e refl)
  | inr e ↦ inr (rw e refl)
]

module _ {R : Type 0} where
  pub entry_at-put :
      (p q : FilePath) (e : Entry R) (d : Disk R)
      → entry_at q (put p e d) ≡ (if path_eq p q then some e else entry_at q d)
  unfolding entry_at
  entry_at-put p q e d = refl

  -- All that was there is there still.
  abbrev pub Extends : Disk R → Disk R → Type 0
  Extends d d' = (p : FilePath) (e : Entry R) → entry_at p d ≡ some e → entry_at p d' ≡ some e

  pub put-Extends :
      (p : FilePath) (e : Entry R) (d : Disk R) → entry_at p d ≡ none → Extends d (put p e d)
  put-Extends p e d fresh q f there = elim (Bool-cases (path_eq p q)) [
    | inl same ↦ cc (eq_of_path_eq p q same, fresh, there)
    | inr other ↦ rw (entry_at-put, other) there
  ]

  pub Extends-refl : (d : Disk R) → Extends d d
  Extends-refl d p e h = h

  abbrev pub IsThere : FilePath → Disk R → Type 0
  IsThere p d = (e : Entry R) × (found p d ≡ some e)

  -- Where there is an entry, there is what it stands in.
  abbrev pub IsTree : Disk R → Type 0
  IsTree d =
      (p : FilePath) (c : String) (e : Entry R) → entry_at (p ++ c ∷ []) d ≡ some e → IsThere p d

  pub entry_at-found : (p : FilePath) (d : Disk R) → found p d ≡ none → entry_at p d ≡ none
  entry_at-found [] d h = cc
  entry_at-found (c ∷ p) d h = h

  pub found-entry_at :
      (p : FilePath) (c : String) (d : Disk R) (e : Entry R)
      → found (p ++ c ∷ []) d ≡ some e
      → entry_at (p ++ c ∷ []) d ≡ some e
  found-entry_at [] c d e h = h
  found-entry_at (b ∷ p) c d e h = h

  pub IsThere-put :
      (p q : FilePath) (e : Entry R) (d : Disk R) → IsThere q d → IsThere q (put p e d)
  IsThere-put p [] e d there = (directory, refl)
  IsThere-put p (c ∷ q) e d (f, h) = elim (Bool-cases (path_eq p (c ∷ q))) [
    | inl same ↦ (e, rw (entry_at-put, same) refl)
    | inr other ↦ (f, rw (entry_at-put, other) h)
  ]
