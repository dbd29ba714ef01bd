-- ===== src/Disk.antt =====
-- The file system that `carve_realm` reads from and writes to. A path is the list of its components
-- from the root; the empty path is the root. There are no symbolic links. A place is a path without
-- `..`. What a report file holds is the value that was handed to `json` or to
-- `csv`, whose text is the standard library's.
pub mod Laws
pub mod Making
use text.Mathlib.Text.{◌==◌ as str_eq}
use pyrealm.Prelude.{
  ℕ, String, Bool, true, false, ◌&&◌, Option, none, some, List, [], ◌∷◌, ◌++◌, if◌then◌else◌,
  Result, ok, err, os_error, Failure, error_of,
}
use pyrealm.Bytes.{Bytes}
use pyrealm.Models.{CarvedString}
use pyrealm.Json.{Json}

abbrev pub FilePath : Type 0
FilePath = List String

pub path_eq : FilePath → FilePath → Bool
path_eq [] [] = true
path_eq [] (d ∷ q) = false
path_eq (c ∷ p) [] = false
path_eq (c ∷ p) (d ∷ q) = str_eq c d && path_eq p q

-- The directory above a place, and the root above the root.
pub parent : FilePath → FilePath
parent [] = []
parent (c ∷ []) = []
parent (c ∷ d ∷ p) = c ∷ parent (d ∷ p)

-- Where one component leads from a place.
unfoldable pub step_to : FilePath → String → FilePath
unfolding parent
step_to above c = if str_eq c ".." then parent above else above ++ c ∷ []

-- Where a path leads from a place.
unfoldable pub place_below : FilePath → FilePath → FilePath
place_below above [] = above
place_below above (c ∷ rest) = place_below (step_to above c) rest

abbrev pub place_of : FilePath → FilePath
place_of p = place_below [] p

-- How writing a file ends: all is written, `open` raises, or a write raises with so much of it written.
pub data Writing : Type 0 where
  complete : Writing
  not_opened : Failure → Writing
  broken_off : Failure → Bytes → Writing

module _ (R : Type 0) where
  -- `json.dump(..., indent=2)` with a newline, `json.dumps(..., sort_keys=True)` for each line, and
  -- the header row with a row for each string.
  pub data Content : Type 0 where
    raw : Bytes → Content
    summary : Json R → Content
    lines : List (Json R) → Content
    table : List CarvedString → Content

  pub data Entry : Type 0 where
    directory : Entry
    file : Content → Entry

abbrev pub Disk : Type 0 → Type 0
Disk R = List (FilePath × Entry R)

module _ {R : Type 0} where
  unfoldable pub entry_at : FilePath → Disk R → Option (Entry R)
  unfolding path_eq
  entry_at p [] = none
  entry_at p ((q, e) ∷ d) = if path_eq q p then some e else entry_at p d

  -- What is at a place; the root is always there.
  abbrev pub found : FilePath → Disk R → Option (Entry R)
  found [] d = some directory
  found (c ∷ p) d = entry_at (c ∷ p) d

  -- `path.exists()`, below a place that is there.
  pub exists_below : FilePath → FilePath → Disk R → Bool
  exists_below above [] d = true
  exists_below above (c ∷ rest) d = elim (found (step_to above c) d) [
    | none ↦ false
    | some directory ↦ exists_below (step_to above c) rest d
    | some (file f) ↦ elim rest [ [] ↦ true | c' ∷ tail ↦ false ]
  ]

  unfoldable pub exists : Disk R → FilePath → Bool
  unfolding exists_below
  exists d p = exists_below [] p d

  abbrev pub put : FilePath → Entry R → Disk R → Disk R
  put p e d = (p, e) ∷ d

  -- What is done next, unless something was raised.
  abbrev pub proceed :
      (Disk R → Result (Unit {0}) × Disk R)
      → Result (Unit {0}) × Disk R
      → Result (Unit {0}) × Disk R
  proceed next (ok done, d) = next d
  proceed next (err e, d) = (err e, d)

  -- `os.mkdir` where there is nothing yet.
  abbrev pub create : Option Failure → FilePath → Disk R → Result (Unit {0}) × Disk R
  create none p d = (ok tt, put p directory d)
  create (some f) p d = (err (error_of f), d)

  -- Writing a file, from `open("w")` on: what was written is there.
  unfoldable pub ended : Writing → FilePath → Content R → Disk R → Result (Unit {0}) × Disk R
  ended complete p content d = (ok tt, put p (file content) d)
  ended (not_opened f) p content d = (err (error_of f), d)
  ended (broken_off f xs) p content d = (err (error_of f), put p (file (raw xs)) d)

  module _ (making : FilePath → Option Failure) where
    -- `mkdir(parents=True, exist_ok=False)` of `rest` below `above`, which is there. A parent that is
    -- missing is made, and stays if something is raised then.
    pub mkdir_below : FilePath → FilePath → Disk R → Result (Unit {0}) × Disk R
    mkdir_below above [] d = (err (os_error "File exists"), d)
    mkdir_below above (c ∷ []) d = elim (found (step_to above c) d) [
      | none ↦ create (making (step_to above c)) (step_to above c) d
      | some e ↦ (err (os_error "File exists"), d)
    ]
    mkdir_below above (c ∷ c' ∷ rest) d = elim (found (step_to above c) d) [
      | none ↦
          proceed (mkdir_below (step_to above c) (c' ∷ rest))
            (create (making (step_to above c)) (step_to above c) d)
      | some directory ↦ mkdir_below (step_to above c) (c' ∷ rest) d
      | some (file f) ↦ (err (os_error "Not a directory"), d)
    ]

    unfoldable pub mkdir : FilePath → Disk R → Result (Unit {0}) × Disk R
    unfolding mkdir_below
    mkdir p d = mkdir_below [] p d
