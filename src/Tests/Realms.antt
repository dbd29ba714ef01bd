-- ===== src/Tests/Realms.antt =====
-- The reader over a realm with one table.
use Prim.Native.String.{◌++◌ as ◌<>◌}
use pyrealm.Prelude.{ℕ, String, ◌≡◌, ◌≢◌, ◌↔◌, refl, Bool, true, none, List, [], All}
use pyrealm.Prelude.Integers.{pos}
use pyrealm.Bytes.{Bytes}
use pyrealm.Reader.{query_error, missing_key, Answer, answer, raised}
use pyrealm.Reader.Records.{record_identity, get_item}
use pyrealm.Reader.Cache.{record_from_raw, from_reply, fetch}
use pyrealm.Reader.Cache.Coherent.{IsRecordOf}
use pyrealm.Reader.Open.{Action}
use pyrealm.Reader.Open.Closing.{IsSettled}
use pyrealm.Reader.Faults.{IsPublic}
use pyrealm.Reader.Schema.{TableSchema}
use pyrealm.Reader.Schema.Lookup.{IsLatest}
use pyrealm.Reader.Realm.{
  Native, Realm, realm_record, table, table_where, resolve, link_owner, link_item, close,
}
use pyrealm.Reader.Realm.Tables.{table_lem}
use pyrealm.Reader.Realm.Opening.{
  realm_of, native_close, open_realm_file, open_realm_file-IsSettled,
}
use pyrealm.Reader.Realm.Requests.{ask_where, ask_link_item, ask_close, perform, at_start, asked}
use pyrealm.Reader.Realm.Requests.Public.{perform-IsPublic}
use pyrealm.Reader.Realm.Requests.States.{Runs-realm_record}
use pyrealm.Tests.Natives.{codec, plain_repr, native}
use pyrealm.Tests.SmallRealm.{
  person, wrong_arguments, native_realm, native_realm-IsImmutable, start, started, read_record,
}

abbrev after_requests : Realm ℕ ℕ
after_requests =
    (perform codec native_realm ask_close
      (perform codec native_realm (ask_link_item true (pos 1) (pos 2) "name") start).1).1

-- After the close the record that was read is still there, with the field that it keeps.
record_kept : (realm_record native_realm (pos 1) (pos 2) after_requests).0 ≡ answer read_record
unfolding perform close link_item realm_record fetch record_identity get_item resolve link_owner
    from_reply record_from_raw
record_kept = refl

Runs-realm_record_example : IsRecordOf codec native (pos 1, pos 2) read_record
Runs-realm_record_example =
    Runs-realm_record codec native_realm native_realm-IsImmutable wrong_arguments "in.realm"
      {start = start} started
      (asked ask_close (asked (ask_link_item true (pos 1) (pos 2) "name") at_start)) (pos 1) (pos 2)
      read_record record_kept

query_refused :
    (perform codec native_realm (ask_where person "not valid" []) start).0
    ≡ raised (query_error "parse Realm query")
unfolding perform table_where
query_refused = refl

perform-IsPublic_example : IsPublic (query_error "parse Realm query")
perform-IsPublic_example =
    perform-IsPublic codec native_realm (ask_where person "not valid" []) start
      (query_error "parse Realm query") query_refused

abbrev same_path : String → Answer String
same_path path = answer path

abbrev no_key : String → Answer Bytes
no_key path = answer []

abbrev opened_once : String → Bytes → Answer ℕ
opened_once path key = answer 1

abbrev realm_behind : ℕ → Bool → Native ℕ ℕ ℕ
realm_behind handle = native_realm

abbrev small_open : Answer (Realm ℕ ℕ) × List Action
small_open =
    open_realm_file plain_repr wrong_arguments same_path no_key opened_once realm_behind "in.realm"
      none none

open_realm_file-IsSettled_example :
    IsSettled plain_repr same_path no_key opened_once
      (native_close realm_behind)
      (realm_of plain_repr wrong_arguments same_path no_key opened_once realm_behind)
      small_open
open_realm_file-IsSettled_example =
    open_realm_file-IsSettled plain_repr wrong_arguments same_path no_key opened_once realm_behind
      (λ handle. tt) (λ handle. refl) "in.realm" none none

table_lem_example :
    ((t : TableSchema)
      → (table start "Person" ≡ answer t) ↔ IsLatest (λ other. other.name) "Person" start.schema t)
    × ((table start "Person" ≡ raised (missing_key ("Realm table not found: " <> "Person")))
        ↔ All (λ (other : TableSchema). other.name ≢ "Person") start.schema)
table_lem_example = table_lem start "Person"
