-- ===== src/Reader/Realm/Requests/States.antt =====
-- The states that a realm of src/pyrealm/reader.py comes to.
use pyrealm.Prelude.{◌≡◌, refl, subst, String, Bool, true, false, some, [], inl, inr}
use pyrealm.Prelude.Integers.{ℤ}
use pyrealm.Reader.{Raw, Codec, Mapping, Answer, answer, raised, Identity}
use pyrealm.Reader.Records.{Record, get_item}
use pyrealm.Reader.Records.Memo.{Answer-cases}
use pyrealm.Reader.Cache.{
  native_errors, RecordCache, cached, store, fetch, field_read, collected, Steps, stay, then_step,
}
use pyrealm.Reader.Cache.Coherent.{
  HasKeys, IsRecordOf, IsAnswered, cached-IsRecordOf, Steps-IsCoherent, fetch_lem,
}
use pyrealm.Reader.Schema.{PropertyRow, read_schema}
use pyrealm.Reader.Realm.{
  Native, Realm, new_realm, realm_record, link_owner, resolve_owned, resolve, read_field, link_item,
  link_keys, closed_by, close,
}
use pyrealm.Reader.Realm.Requests.{
  Request, ask_table, ask_count, ask_all, ask_where, ask_by_key, ask_len, ask_index, ask_slice,
  ask_link_table, ask_record_table, ask_link, ask_link_item, ask_link_keys, ask_link_len, ask_close,
  perform, Runs, at_start, asked, lost,
}
use pyrealm.Reader.Realm.Requests.Coherent.{
  fetch-Steps, fetch-cached, result_at-Steps, result_slice-Steps,
}

module _ {R D Parameter Listing : Type 0} (codec : Codec R D)
    (native : Bool → Native R Parameter Listing) where
  -- What the reader supposes of the native module, open or closed: each record that it gives is the one
  -- that the open realm has for the keys in it, and is so for the keys that it was asked by.
  pub record IsImmutable : Type 0 where
    pub keyed : HasKeys codec (native false).record_at
    pub backed :
        (closed : Bool) (table_key object_key : ℤ) (raw : Mapping (Raw R))
        → (native closed).record_at table_key object_key ≡ answer raw
        → (native false).record_at table_key object_key ≡ answer raw
    pub listed_record :
        (closed : Bool) (listing : Listing) (index : ℤ) (raw : Mapping (Raw R))
        → (native closed).item listing index ≡ answer raw
        → (table_key : ℤ) × (object_key : ℤ) × ((native false).record_at table_key object_key
            ≡ answer raw)

  abbrev Reached : RecordCache R D → Type 0
  Reached cache = Steps codec (native false).record_at [] cache

  module _ (immutable : IsImmutable) where
    realm_record-Reached :
        (table_key object_key : ℤ) (realm : Realm R D)
        → Reached realm.cache
        → Reached (realm_record native table_key object_key realm).1.cache
    unfolding realm_record
    realm_record-Reached table_key object_key realm steps =
        fetch-Steps codec (native false).record_at (native realm.closed).record_at
          (immutable.backed realm.closed) table_key object_key realm.cache steps

    resolve-Reached :
        (alive : Bool) (table_key object_key : ℤ) (realm : Realm R D)
        → Reached realm.cache
        → Reached (resolve native alive table_key object_key realm).1.cache
    unfolding resolve resolve_owned link_owner
    resolve-Reached true table_key object_key realm steps =
        realm_record-Reached table_key object_key realm steps
    resolve-Reached false table_key object_key realm steps = steps

    read_field-Reached :
        (table_key object_key : ℤ) (key : String) (outcome : Answer (Record R D) × Realm R D)
        → ((r : Record R D)
            → outcome.0 ≡ answer r
            → cached (table_key, object_key) outcome.1.cache ≡ some r)
        → Reached outcome.1.cache
        → Reached (read_field native codec true key outcome).1.cache
    unfolding read_field
    read_field-Reached table_key object_key key (raised fault, realm) there steps = steps
    read_field-Reached table_key object_key key (answer r, realm) there steps =
        let identity : Identity = (table_key, object_key) in
        let entry = there r refl in
        let record_of =
          cached-IsRecordOf codec (native false).record_at identity realm.cache r
            (Steps-IsCoherent codec (native false).record_at immutable.keyed steps) entry in
        let same : identity ≡ (r.table_key, r.object_key) =
          rw (record_of.table, record_of.object) refl in
        subst (λ (k : Identity). Reached (store k (get_item codec true r key).1 realm.cache)) same
          (then_step steps (field_read identity r key realm.cache entry))

    link_item-Reached :
        (alive : Bool) (table_key object_key : ℤ) (key : String) (realm : Realm R D)
        → Reached realm.cache
        → Reached (link_item native codec alive table_key object_key key realm).1.cache
    unfolding link_item read_field resolve resolve_owned link_owner realm_record
    link_item-Reached false table_key object_key key realm steps = steps
    link_item-Reached true table_key object_key key realm steps =
        read_field-Reached table_key object_key key (realm_record native table_key object_key realm)
          (λ r e.
            fetch-cached codec (native false).record_at (native realm.closed).record_at
              (immutable.backed realm.closed) immutable.keyed table_key object_key realm.cache r e)
          (realm_record-Reached table_key object_key realm steps)

    close-Reached :
        (realm : Realm R D) (done : Answer (Unit {0}))
        → Reached realm.cache
        → Reached (closed_by native done realm).1.cache
    unfolding closed_by
    close-Reached realm (raised fault) steps = steps
    close-Reached realm (answer done) steps = steps

    perform-Reached :
        (request : Request Parameter Listing) (realm : Realm R D)
        → Reached realm.cache
        → Reached (perform codec native request realm).1.cache
    unfolding perform link_keys close
    perform-Reached (ask_table name) realm steps = steps
    perform-Reached (ask_count t) realm steps = steps
    perform-Reached (ask_all t) realm steps = steps
    perform-Reached (ask_where t query parameters) realm steps = steps
    perform-Reached (ask_by_key t key) realm steps = realm_record-Reached t.key key realm steps
    perform-Reached (ask_len listing) realm steps = steps
    perform-Reached (ask_index listing index) realm steps =
        result_at-Steps codec (native false).record_at (native realm.closed).size
          (native realm.closed).item listing (immutable.listed_record realm.closed listing) index
          realm.cache steps
    perform-Reached (ask_slice listing s) realm steps =
        result_slice-Steps codec (native false).record_at (native realm.closed).size
          (native realm.closed).item listing (immutable.listed_record realm.closed listing) s
          realm.cache steps
    perform-Reached (ask_link_table alive key) realm steps = steps
    perform-Reached (ask_record_table alive key) realm steps = steps
    perform-Reached (ask_link alive table_key object_key) realm steps =
        resolve-Reached alive table_key object_key realm steps
    perform-Reached (ask_link_item alive table_key object_key key) realm steps =
        link_item-Reached alive table_key object_key key realm steps
    perform-Reached (ask_link_keys alive table_key object_key) realm steps =
        resolve-Reached alive table_key object_key realm steps
    perform-Reached (ask_link_len alive table_key object_key) realm steps =
        resolve-Reached alive table_key object_key realm steps
    perform-Reached ask_close realm steps =
        close-Reached realm (native_errors (native realm.closed).close) steps

    Runs-Reached :
        {start realm : Realm R D}
        → Reached start.cache
        → Runs codec native start realm
        → Reached realm.cache
    Runs-Reached steps at_start = steps
    Runs-Reached steps (asked {realm} request runs) =
        perform-Reached request realm (Runs-Reached steps runs)
    Runs-Reached steps (lost cache runs collection) =
        then_step (Runs-Reached steps runs) (collected collection)

    new_realm-Reached :
        (wrong_arguments : PropertyRow → String) (path : String) (start : Realm R D)
        → new_realm native wrong_arguments path ≡ answer start
        → Reached start.cache
    unfolding new_realm
    new_realm-Reached wrong_arguments path start e = elim (Answer-cases (native false).schema) [
      | inr (fault, f) ↦ cc (rw f at e)
      | inl (rows, f) ↦ elim (Answer-cases (read_schema wrong_arguments rows)) [
        | inr (fault, g) ↦ cc (rw (f, g) at e)
        | inl (tables, g) ↦
            let fresh : Realm R D = record {
              path = path;
              schema = tables;
              closed = false;
              cache = [];
            } in
            let same : fresh ≡ start = cc (rw (f, g) at e) in
            subst (λ (realm : Realm R D). Reached realm.cache) same stay
      ]
    ]

    -- Whatever was asked of a realm since it was opened, and whatever its cache has lost, also after its
    -- close: a record that it answers for two keys is the one of what the open native realm has for
    -- these keys, with what it keeps in agreement. This supposes an immutable native realm.
    pub Runs-realm_record :
        (wrong_arguments : PropertyRow → String) (path : String) {start realm : Realm R D}
        → new_realm native wrong_arguments path ≡ answer start
        → Runs codec native start realm
        → (table_key object_key : ℤ) (r : Record R D)
        → (realm_record native table_key object_key realm).0 ≡ answer r
        → IsRecordOf codec (native false).record_at (table_key, object_key) r
    unfolding realm_record
    Runs-realm_record wrong_arguments path {start} {realm} opened runs table_key object_key r e =
        let steps = Runs-Reached (new_realm-Reached wrong_arguments path start opened) runs in
        let after = (fetch (native realm.closed).record_at table_key object_key realm.cache).1 in
        cached-IsRecordOf codec (native false).record_at (table_key, object_key) after r
          (Steps-IsCoherent codec (native false).record_at immutable.keyed
            (realm_record-Reached table_key object_key realm steps))
          (fetch-cached codec (native false).record_at (native realm.closed).record_at
            (immutable.backed realm.closed) immutable.keyed table_key object_key realm.cache r e)

    -- As long as the realm is open, it answers a record just when the native realm has one for the keys,
    -- and otherwise raises the native exception translated, as if nothing had been asked before.
    pub Runs-IsAnswered :
        (wrong_arguments : PropertyRow → String) (path : String) {start realm : Realm R D}
        → new_realm native wrong_arguments path ≡ answer start
        → Runs codec native start realm
        → (table_key object_key : ℤ)
        → IsAnswered codec (native false).record_at table_key object_key realm.cache
    Runs-IsAnswered wrong_arguments path {start} {realm} opened runs =
        fetch_lem codec (native false).record_at immutable.keyed
          (Runs-Reached (new_realm-Reached wrong_arguments path start opened) runs)
