-- ===== src/Reader/Open.antt =====
-- src/pyrealm/reader.py, `open_realm`: the checks of its arguments, and the native realm, which is
-- closed again if it cannot be used. `Handle` is the native realm; `schema` stands for `Realm(resolved,
-- native)`, which reads the schema. Paths are resolved and key files read by parameters.
pub mod Closing
use Prim.Native.String.{◌++◌ as ◌<>◌}
use pyrealm.Prelude.{
  ℕ, String, Bool, true, false, ◌||◌, Option, none, some, List, [], ◌∷◌, ◌++◌, ◌==◌, if◌then◌else◌,
  length,
}
use pyrealm.Bytes.{Bytes}
use pyrealm.Reader.{
  Fault, realm_error, query_error, open_error, native_error, os_fault, type_fault, unicode_fault,
  missing_key, bad_value, Answer, answer, raised, ◌>>=◌,
}

-- `except (_native.NativeError, KeyError, TypeError, UnicodeError)`
-- The text of a `KeyError` is the `repr` of the key.
unfoldable pub open_failure : (String → String) → Fault → Option String
open_failure repr (native_error e) = some e
open_failure repr (missing_key key) = some (repr key)
open_failure repr (type_fault e) = some e
open_failure repr (unicode_fault e) = some e
open_failure repr other = none

-- What is done with the native module.
pub data Action : Type 0 where
  opened : String → Bytes → Action
  closed : Action
  -- `native.close()` raised.
  close_failed : Action

abbrev pub recovery_advice : String → String
recovery_advice path =
    " Preserve the original file, verify the encryption key and source copy, then run `pyrealm-recover inspect "
    <> path <> "`; use `pyrealm-recover carve` if logical access still fails."

pub open_fault : String → Fault → Option String → Fault
open_fault path fault none = fault
open_fault path fault (some e) = open_error (e <> "." <> recovery_advice path)

pub is_native : Fault → Bool
is_native (native_error e) = true
is_native other = false

-- `with contextlib.suppress(_native.NativeError): native.close()`, and then `raise` of a fault: what is
-- raised, and what was done.
pub close_then : Fault → Answer (Unit {0}) → Fault × List Action
close_then fault (answer done) = (fault, closed ∷ [])
close_then fault (raised other) = (if is_native other then fault else other, close_failed ∷ [])

-- `native.close()` stands only in the `except` clause, for the faults that it names.
pub close_after : String → Fault → Option String → Answer (Unit {0}) → Fault × List Action
close_after path fault none closing = (fault, [])
close_after path fault (some e) closing = close_then (open_fault path fault (some e)) closing

module _ {Location Handle View : Type 0} (repr : String → String)
    (resolve_strict : Location → Answer String) (read_key : Location → Answer Bytes)
    (native_open : String → Bytes → Answer Handle) (native_close : Handle → Answer (Unit {0}))
    (schema : String → Handle → Answer View) where
  -- `key_data`, if it is not missing.
  pub key_data : Option Bytes → Option Location → Answer Bytes
  key_data key (some file) = read_key file
  key_data (some key) none = answer key
  key_data none none = answer []

  pub with_schema : String → Bytes → Handle → Answer View → Answer View × List Action
  with_schema path key handle (answer view) = (answer view, opened path key ∷ [])
  with_schema path key handle (raised fault) =
      let (left, actions) =
        close_after path fault (open_failure repr fault) (native_close handle) in
      (raised left, opened path key ∷ actions)

  -- The `try` statement.
  pub try_open : String → Bytes → Answer Handle → Answer View × List Action
  try_open path key (answer handle) = with_schema path key handle (schema path handle)
  try_open path key (raised fault) = (raised (open_fault path fault (open_failure repr fault)), [])

  pub with_key : String → Answer Bytes → Answer View × List Action
  with_key path (raised fault) = (raised fault, [])
  with_key path (answer key) =
      if length key == 0 || length key == 64
      then try_open path key (native_open path key)
      else (raised (bad_value "Realm encryption keys must contain exactly 64 bytes"), [])

  pub with_path : Option Bytes → Option Location → Answer String → Answer View × List Action
  with_path key key_file (raised fault) = (raised fault, [])
  with_path key key_file (answer path) = with_key path (key_data key key_file)

  -- The answer, and what was done with the native module: an `opened` is an open that succeeded.
  unfoldable pub open_realm : Location → Option Bytes → Option Location → Answer View × List Action
  unfolding with_path with_key try_open with_schema close_after close_then key_data open_fault
  open_realm path (some key) (some file) =
      (raised (bad_value "pass either key or key_file, not both"), [])
  open_realm path (some key) none = with_path (some key) none (resolve_strict path)
  open_realm path none key_file = with_path none key_file (resolve_strict path)
