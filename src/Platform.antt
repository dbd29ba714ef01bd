-- ===== src/Platform.antt =====
-- What the recovery tool takes from Python's standard library without looking into it.
use pyrealm.Prelude.{ℕ, String, Bool, Option, Failure, error_of, runtime_error, Result, ok, err}
use pyrealm.Bytes.{Bytes}
use pyrealm.Hash.{Sha256}
use pyrealm.Entropy.{Float}
use pyrealm.Json.{Json}
use pyrealm.Disk.{FilePath, Content, Writing}

-- Resolving a path: `no_home` is the `RuntimeError` of `expanduser()` for a user without a home and of
-- `resolve()` for links that go round.
pub data Resolution : Type 0 where
  resolved_to : FilePath → Resolution
  unresolved : Failure → Resolution
  no_home : String → Resolution

abbrev pub path_of : Resolution → Result FilePath
path_of (resolved_to p) = ok p
path_of (unresolved f) = err (error_of f)
path_of (no_home text) = err (runtime_error text)

pub record Platform : Type 1 where
  pub hashing : Sha256
  pub floats : Float
  -- `str.isprintable` of one code point.
  pub isprintable : ℕ → Bool
  -- `path.expanduser().resolve(strict=True)`, `path.resolve()`, and the text of a path.
  pub resolved : FilePath → Resolution
  pub absolute : FilePath → Resolution
  pub path_text : FilePath → String
  -- What `path.exists()` raises, what reading a file that is there raises, and what `os.mkdir` raises
  -- where there is nothing yet.
  pub testing : FilePath → Option Failure
  pub reading : FilePath → Option Failure
  pub making : FilePath → Option Failure
  -- How writing a file ends.
  pub writing : FilePath → Content floats.Real → Writing
  -- What `print` raises, of a text or of `json.dumps`, and to the standard error.
  pub print_text : String → Option Failure
  pub print_document : Json floats.Real → Option Failure
  pub print_error : String → Option Failure
  -- `path.suffix.lower()`
  pub suffix_lower : FilePath → String
  -- The bytes of a file whose content was written as a value.
  pub content_bytes : Content floats.Real → Bytes
  -- `str(n)`, `f"{n:x}"` and `f"{x:.3f}"`.
  pub decimal : ℕ → String
  pub hexadecimal : ℕ → String
  pub three_places : floats.Real → String
