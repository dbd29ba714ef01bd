-- ===== src/Reader/Realm.antt =====
-- src/pyrealm/reader.py, `Realm`, `Table` and `RealmLink`: the tables of an open realm, its queries, its
-- records and links, and its close. The native realm is a record of its operations, while it is open
-- and after its close. `alive` says whether the weak reference of a record or a link still has its realm.
pub mod Requests
pub mod Opening
pub mod Tables
pub mod Plain
use Prim.Native.String.{◌++◌ as ◌<>◌}
use text.Mathlib.Text.{◌==◌ as str_eq}
use pyrealm.Prelude.{ℕ, String, Bool, true, false, ◌&&◌, Option, none, some, List, [], ◌∷◌, length}
use pyrealm.Prelude.Integers.{ℤ, int_eq}
use pyrealm.Prelude.Printing.{int_text}
use pyrealm.Reader.{
  Raw, Value, Codec, realm_error, query_error, native_error, missing_key, Answer, answer, raised,
  ◌>>=◌, Identity, same_identity, Mapping,
}
use pyrealm.Reader.Records.{Record, get_item, owner}
use pyrealm.Reader.Cache.{native_errors, RecordCache, store, fetch}
use pyrealm.Reader.Expand.{names}
use pyrealm.Reader.Schema.{
  PropertyRow, ClassRow, TableSchema, lookup, read_schema, schema_by_name, schema_by_key,
}

-- The operations of `NativeRealm` and of `NativeResults`, whose type is `Listing`. A parameter of a
-- query is a `Parameter`.
pub record Native (R Parameter Listing : Type 0) : Type 0 where
  pub schema : Answer (List ClassRow)
  pub count : String → Answer ℕ
  pub all : String → Answer Listing
  pub query : String → String → List Parameter → Answer Listing
  pub record_at : ℤ → ℤ → Answer (Mapping (Raw R))
  pub size : Listing → Answer ℕ
  pub item : Listing → ℤ → Answer (Mapping (Raw R))
  pub close : Answer (Unit {0})

pub record Realm (R D : Type 0) : Type 0 where
  pub path : String
  pub schema : List TableSchema
  pub closed : Bool
  pub cache : RecordCache R D

-- `except _native.NativeError as error: raise RealmQueryError(str(error))`
abbrev pub query_errors : {A : Type 0} → Answer A → Answer A
query_errors (raised (native_error e)) = raised (query_error e)
query_errors asked = asked

abbrev pub released_link : String
released_link = "the Realm owning this link has been released"

-- `RealmLink._realm`
unfoldable pub link_owner : Bool → Answer (Unit {0})
link_owner true = answer tt
link_owner false = raised (realm_error released_link)

-- The message of `table_name`, for a link or a record.
abbrev pub unknown_table : String → ℤ → String
unknown_table what key =
    what <> " refers to unknown Realm table key " <> int_text key <> "; the record may be damaged"

-- `__eq__` of two links; `same_realm` says whether their realms are one object.
abbrev pub link_eq : Bool → Identity → Identity → Bool
link_eq same_realm a b = same_realm && same_identity a b

module _ {R D : Type 0} where
  -- `_schema_by_key[key].name`, with the `KeyError` translated.
  unfoldable pub name_of_key : String → Realm R D → ℤ → Answer String
  name_of_key what realm key = elim (lookup int_eq key (schema_by_key realm.schema)) [
    | none ↦ raised (realm_error (unknown_table what key))
    | some table ↦ answer table.name
  ]

  -- `RealmLink.table_name`
  unfoldable pub link_table_name : Bool → Realm R D → ℤ → Answer String
  link_table_name alive realm key = link_owner alive >>= λ _. name_of_key "link" realm key

  -- `Record.table_name`
  unfoldable pub record_table_name : Bool → Realm R D → ℤ → Answer String
  record_table_name alive realm key = owner alive >>= λ _. name_of_key "record" realm key

  -- `Realm.table`
  unfoldable pub table : Realm R D → String → Answer TableSchema
  table realm name = elim (lookup str_eq name (schema_by_name realm.schema)) [
    | none ↦ raised (missing_key ("Realm table not found: " <> name))
    | some found ↦ answer found
  ]

  -- An operation on the cache, as one on the realm.
  abbrev pub on_cache : {A : Type 0} → Realm R D → A × RecordCache R D → A × Realm R D
  on_cache realm (a, cache) = (a, record realm { cache = cache })

  module _ {Parameter Listing : Type 0} (native : Bool → Native R Parameter Listing) where
    -- `Realm(path, native)`
    unfoldable pub new_realm : (PropertyRow → String) → String → Answer (Realm R D)
    new_realm wrong_arguments path = do
      rows ← (native false).schema
      tables ← read_schema wrong_arguments rows
      answer record { path = path; schema = tables; closed = false; cache = [] }

    -- `Table.__len__`
    unfoldable pub table_len : Realm R D → TableSchema → Answer ℕ
    table_len realm t = native_errors ((native realm.closed).count t.name)

    -- `Table.all`
    unfoldable pub table_all : Realm R D → TableSchema → Answer Listing
    table_all realm t = native_errors ((native realm.closed).all t.name)

    -- `Table.where`
    unfoldable pub table_where : Realm R D → TableSchema → String → List Parameter → Answer Listing
    table_where realm t query parameters =
        query_errors ((native realm.closed).query t.name query parameters)

    -- `Realm._record`
    unfoldable pub realm_record : ℤ → ℤ → Realm R D → Answer (Record R D) × Realm R D
    realm_record table_key object_key realm =
        on_cache realm (fetch (native realm.closed).record_at table_key object_key realm.cache)

    -- `Table.get_by_key`
    abbrev pub get_by_key : TableSchema → ℤ → Realm R D → Answer (Record R D) × Realm R D
    get_by_key t object_key realm = realm_record t.key object_key realm

    -- `RealmLink.resolve`
    unfoldable pub resolve_owned :
        Answer (Unit {0}) → ℤ → ℤ → Realm R D → Answer (Record R D) × Realm R D
    resolve_owned (raised fault) table_key object_key realm = (raised fault, realm)
    resolve_owned (answer owned) table_key object_key realm =
        realm_record table_key object_key realm

    unfoldable pub resolve : Bool → ℤ → ℤ → Realm R D → Answer (Record R D) × Realm R D
    unfolding resolve_owned
    resolve alive table_key object_key realm =
        resolve_owned (link_owner alive) table_key object_key realm

    -- The field of a record that is in the cache: what the record keeps then is kept there.
    unfoldable pub read_field :
        Codec R D → Bool → String → Answer (Record R D) × Realm R D → Answer (Value R D) × Realm R D
    read_field codec alive key (raised fault, realm) = (raised fault, realm)
    read_field codec alive key (answer r, realm) =
        let (value, after) = get_item codec alive r key in
        (value, record realm { cache = store (r.table_key, r.object_key) after realm.cache })

    -- `RealmLink.__getitem__`
    unfoldable pub link_item :
        Codec R D → Bool → ℤ → ℤ → String → Realm R D → Answer (Value R D) × Realm R D
    unfolding read_field
    link_item codec alive table_key object_key key realm =
        read_field codec alive key (resolve alive table_key object_key realm)

    -- `iter(link)`, of which `len(link)` is the length.
    unfoldable pub link_keys : Bool → ℤ → ℤ → Realm R D → Answer (List String) × Realm R D
    link_keys alive table_key object_key realm =
        let (asked, after) = resolve alive table_key object_key realm in
        (do r ← asked; answer (names r.raw), after)

    abbrev pub link_len : Bool → ℤ → ℤ → Realm R D → Answer ℕ × Realm R D
    link_len alive table_key object_key realm =
        let (asked, after) = link_keys alive table_key object_key realm in
        (do keys ← asked; answer (length keys), after)

    -- What a close leaves: a realm that is closed, if the native close did not raise.
    unfoldable pub closed_by : Answer (Unit {0}) → Realm R D → Answer (Unit {0}) × Realm R D
    closed_by (raised fault) realm = (raised fault, realm)
    closed_by (answer done) realm = (answer done, record realm { closed = true })

    -- `Realm.close`, and `Realm.__exit__`
    unfoldable pub close : Realm R D → Answer (Unit {0}) × Realm R D
    unfolding closed_by
    close realm = closed_by (native_errors (native realm.closed).close) realm
