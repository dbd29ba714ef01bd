-- ===== src/Reader/Realm/Opening.antt =====
-- src/pyrealm/reader.py, `open_realm` with the `Realm` that it returns.
use pyrealm.Prelude.{String, ◌≡◌, refl, Bool, false, Option, some, List}
use pyrealm.Bytes.{Bytes}
use pyrealm.Reader.{
  Fault, realm_error, query_error, open_error, native_error, os_fault, type_fault, unicode_fault,
  missing_key, bad_value, out_of_range, Answer, answer, raised,
}
use pyrealm.Reader.Faults.{Only, Only-then, Only-raised}
use pyrealm.Reader.Open.{Action, open_failure, open_realm}
use pyrealm.Reader.Open.Closing.{IsSettled, open_realm-IsSettled}
use pyrealm.Reader.Schema.{PropertyRow, read_schema}
use pyrealm.Reader.Schema.Faults.{IsMalformed, read_schema-Only}
use pyrealm.Reader.Realm.{Native, Realm, new_realm}

-- The exceptions that `open_realm` catches.
abbrev pub IsCaught : (String → String) → Fault → Type 0
IsCaught repr fault = (e : String) × (open_failure repr fault ≡ some e)

IsMalformed-IsCaught :
    (repr : String → String) (fault : Fault) → IsMalformed fault → IsCaught repr fault
unfolding open_failure
IsMalformed-IsCaught repr (missing_key key) malformed = (repr key, refl)
IsMalformed-IsCaught repr (type_fault e) malformed = (e, refl)
IsMalformed-IsCaught repr (realm_error e) malformed = absurd malformed
IsMalformed-IsCaught repr (query_error e) malformed = absurd malformed
IsMalformed-IsCaught repr (open_error e) malformed = absurd malformed
IsMalformed-IsCaught repr (native_error e) malformed = absurd malformed
IsMalformed-IsCaught repr (os_fault e) malformed = absurd malformed
IsMalformed-IsCaught repr (unicode_fault e) malformed = absurd malformed
IsMalformed-IsCaught repr (bad_value e) malformed = absurd malformed
IsMalformed-IsCaught repr (out_of_range e) malformed = absurd malformed

Only-weaken :
    {A : Type 0} (P Q : Fault → Type 0) (asked : Answer A)
    → ((fault : Fault) → P fault → Q fault)
    → Only P asked
    → Only Q asked
Only-weaken P Q (answer a) weaker only = tt
Only-weaken P Q (raised fault) weaker only = weaker fault only

new_realm-Only :
    {R Parameter Listing : Type 0} (D : Type 0) (repr : String → String)
    (native : Bool → Native R Parameter Listing) (wrong_arguments : PropertyRow → String)
    (path : String)
    → Only (IsCaught repr) (native false).schema
    → Only {A = Realm R D} (IsCaught repr) (new_realm native wrong_arguments path)
unfolding new_realm
new_realm-Only D repr native wrong_arguments path caught =
    Only-then (IsCaught repr) (native false).schema _ caught (λ rows.
      Only-then (IsCaught repr) (read_schema wrong_arguments rows) _
        (Only-weaken IsMalformed (IsCaught repr) (read_schema wrong_arguments rows)
          (IsMalformed-IsCaught repr) (read_schema-Only wrong_arguments rows))
        (λ tables. tt))

-- `native.close()` of a realm that is open.
abbrev pub native_close :
    {R Parameter Listing Handle : Type 0}
    → (Handle → Bool → Native R Parameter Listing)
    → Handle
    → Answer (Unit {0})
native_close native_of handle = (native_of handle false).close

module _ {R D Parameter Listing Location Handle : Type 0} (repr : String → String)
    (wrong_arguments : PropertyRow → String) (resolve_strict : Location → Answer String)
    (read_key : Location → Answer Bytes) (native_open : String → Bytes → Answer Handle)
    (native_of : Handle → Bool → Native R Parameter Listing) where
  -- `Realm(resolved, native)`
  abbrev pub realm_of : String → Handle → Answer (Realm R D)
  realm_of path handle = new_realm (native_of handle) wrong_arguments path

  unfoldable pub open_realm_file :
      Location → Option Bytes → Option Location → Answer (Realm R D) × List Action
  open_realm_file path key key_file =
      open_realm repr resolve_strict read_key native_open (native_close native_of) realm_of path key
        key_file

  -- However an open ends, no native realm is left open but that of the realm that is returned, if the
  -- schema of the native module raises only exceptions that are caught and closing the native realm
  -- raises none; an open that fails after the native realm was opened raises a `RealmOpenError` and has
  -- closed it.
  pub open_realm_file-IsSettled :
      ((handle : Handle) → Only (IsCaught repr) (native_of handle false).schema)
      → ((handle : Handle) → (native_of handle false).close ≡ answer tt)
      → (path : Location) (key : Option Bytes) (key_file : Option Location)
      → IsSettled repr resolve_strict read_key native_open
          (native_close native_of)
          realm_of
          (open_realm_file path key key_file)
  unfolding open_realm_file
  open_realm_file-IsSettled caught closes path key key_file =
      open_realm-IsSettled repr resolve_strict read_key native_open (native_close native_of)
        realm_of
        (
          λ path handle fault e.
              Only-raised (IsCaught repr) (realm_of path handle) fault
                (new_realm-Only D repr (native_of handle) wrong_arguments path (caught handle)) e,
          closes,
        )
        path key key_file
