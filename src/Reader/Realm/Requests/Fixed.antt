-- ===== src/Reader/Realm/Requests/Fixed.antt =====
-- What requests leave of a realm of src/pyrealm/reader.py: its path and its schema.
use pyrealm.Prelude.{String, ◌≡◌, refl, ◌∙◌, Bool, true, false}
use pyrealm.Prelude.Integers.{ℤ}
use pyrealm.Reader.{Codec, Answer, answer, raised}
use pyrealm.Reader.Records.{Record}
use pyrealm.Reader.Cache.{native_errors}
use pyrealm.Reader.Realm.{
  Native, Realm, realm_record, link_owner, resolve_owned, resolve, read_field, link_item, link_keys,
  closed_by, close,
}
use pyrealm.Reader.Realm.Requests.{
  Request, ask_table, ask_count, ask_all, ask_where, ask_by_key, ask_len, ask_index, ask_slice,
  ask_link_table, ask_record_table, ask_link, ask_link_item, ask_link_keys, ask_link_len, ask_close,
  perform, Runs, at_start, asked, lost,
}

module _ {R D Parameter Listing : Type 0} (codec : Codec R D)
    (native : Bool → Native R Parameter Listing) where
  abbrev IsFixed : Realm R D → Realm R D → Type 0
  IsFixed before after = (after.schema ≡ before.schema) × (after.path ≡ before.path)

  resolve-IsFixed :
      (alive : Bool) (table_key object_key : ℤ) (realm : Realm R D)
      → IsFixed realm (resolve native alive table_key object_key realm).1
  unfolding resolve resolve_owned link_owner realm_record
  resolve-IsFixed true table_key object_key realm = (refl, refl)
  resolve-IsFixed false table_key object_key realm = (refl, refl)

  read_field-IsFixed :
      (alive : Bool) (key : String) (before : Realm R D) (outcome : Answer (Record R D) × Realm R D)
      → IsFixed before outcome.1
      → IsFixed before (read_field native codec alive key outcome).1
  unfolding read_field
  read_field-IsFixed alive key before (raised fault, realm) fixed = fixed
  read_field-IsFixed alive key before (answer r, realm) fixed = fixed

  close-IsFixed :
      (realm : Realm R D) (done : Answer (Unit {0})) → IsFixed realm (closed_by native done realm).1
  unfolding closed_by
  close-IsFixed realm (raised fault) = (refl, refl)
  close-IsFixed realm (answer done) = (refl, refl)

  perform-IsFixed :
      (request : Request Parameter Listing) (realm : Realm R D)
      → IsFixed realm (perform codec native request realm).1
  unfolding perform realm_record link_item link_keys close
  perform-IsFixed (ask_table name) realm = (refl, refl)
  perform-IsFixed (ask_count t) realm = (refl, refl)
  perform-IsFixed (ask_all t) realm = (refl, refl)
  perform-IsFixed (ask_where t query parameters) realm = (refl, refl)
  perform-IsFixed (ask_by_key t key) realm = (refl, refl)
  perform-IsFixed (ask_len listing) realm = (refl, refl)
  perform-IsFixed (ask_index listing index) realm = (refl, refl)
  perform-IsFixed (ask_slice listing s) realm = (refl, refl)
  perform-IsFixed (ask_link_table alive key) realm = (refl, refl)
  perform-IsFixed (ask_record_table alive key) realm = (refl, refl)
  perform-IsFixed (ask_link alive table_key object_key) realm =
      resolve-IsFixed alive table_key object_key realm
  perform-IsFixed (ask_link_item alive table_key object_key key) realm =
      read_field-IsFixed alive key realm (resolve native alive table_key object_key realm)
        (resolve-IsFixed alive table_key object_key realm)
  perform-IsFixed (ask_link_keys alive table_key object_key) realm =
      resolve-IsFixed alive table_key object_key realm
  perform-IsFixed (ask_link_len alive table_key object_key) realm =
      resolve-IsFixed alive table_key object_key realm
  perform-IsFixed ask_close realm = close-IsFixed realm (native_errors (native realm.closed).close)

  -- No request changes the schema or the path of a realm.
  pub Runs-IsFixed :
      {start realm : Realm R D}
      → Runs codec native start realm
      → (realm.schema ≡ start.schema) × (realm.path ≡ start.path)
  Runs-IsFixed at_start = (refl, refl)
  Runs-IsFixed (asked {realm} request runs) =
      let before = Runs-IsFixed runs in
      let step = perform-IsFixed request realm in (step.0 ∙ before.0, step.1 ∙ before.1)
  Runs-IsFixed (lost cache runs collection) = Runs-IsFixed runs
