-- ===== src/Reader/Realm/Requests/Public.antt =====
-- The exceptions that requests to a realm in src/pyrealm/reader.py raise.
use text.Mathlib.Text.{◌==◌ as str_eq}
use pyrealm.Prelude.{
  ℕ, zero, suc, String, ◌≡◌, Bool, true, false, List, [], ◌∷◌, Option-cases, inl, inr,
}
use pyrealm.Prelude.Integers.{ℤ, pos, negsuc, int_eq}
use pyrealm.Reader.{
  Raw, Codec, Mapping, Fault, Answer, answer, raised, realm_error, query_error, open_error,
  native_error, os_fault, type_fault, unicode_fault, missing_key, bad_value, out_of_range,
}
use pyrealm.Reader.Records.{Record, owner}
use pyrealm.Reader.Cache.{native_errors, RecordCache}
use pyrealm.Reader.Slices.{Slice, step_of, indices_by, slice_indices}
use pyrealm.Reader.Results.Items.{
  result_len, result_at, add_item, read_items, sliced, read_sliced, result_slice,
}
use pyrealm.Reader.Faults.{Only-then, Only-raised, IsPublic}
use pyrealm.Reader.Faults.Identities.{from_reply-Only}
use pyrealm.Reader.Faults.Public.{
  OnlyPublic, native_errors-OnlyPublic, fetch-OnlyPublic, owner-OnlyPublic, get_item-OnlyPublic,
}
use pyrealm.Reader.Schema.{lookup, schema_by_name, schema_by_key}
use pyrealm.Reader.Realm.{
  Native, Realm, query_errors, link_owner, name_of_key, link_table_name, record_table_name, table,
  table_len, table_all, table_where, realm_record, resolve_owned, resolve, read_field, closed_by,
  link_item, link_keys, close,
}
use pyrealm.Reader.Realm.Requests.{
  Request, ask_table, ask_count, ask_all, ask_where, ask_by_key, ask_len, ask_index, ask_slice,
  ask_link_table, ask_record_table, ask_link, ask_link_item, ask_link_keys, ask_link_len, ask_close,
  Reply, replied, perform,
}

query_errors-OnlyPublic : {A : Type 0} (asked : Answer A) → OnlyPublic (query_errors asked)
query_errors-OnlyPublic (answer a) = tt
query_errors-OnlyPublic (raised (native_error e)) = tt
query_errors-OnlyPublic (raised (realm_error e)) = tt
query_errors-OnlyPublic (raised (query_error e)) = tt
query_errors-OnlyPublic (raised (open_error e)) = tt
query_errors-OnlyPublic (raised (os_fault e)) = tt
query_errors-OnlyPublic (raised (type_fault e)) = tt
query_errors-OnlyPublic (raised (unicode_fault e)) = tt
query_errors-OnlyPublic (raised (missing_key e)) = tt
query_errors-OnlyPublic (raised (bad_value e)) = tt
query_errors-OnlyPublic (raised (out_of_range e)) = tt

link_owner-OnlyPublic : (alive : Bool) → OnlyPublic (link_owner alive)
unfolding link_owner
link_owner-OnlyPublic true = tt
link_owner-OnlyPublic false = tt

indices_by-OnlyPublic : (s : Slice) (length : ℕ) (step : ℤ) → OnlyPublic (indices_by s length step)
unfolding indices_by
indices_by-OnlyPublic s length (pos zero) = tt
indices_by-OnlyPublic s length (pos (suc k)) = tt
indices_by-OnlyPublic s length (negsuc k) = tt

-- The exception of a reply is that of what was asked.
replied-OnlyPublic :
    {R D Listing A : Type 0} (reply : A → Reply R D Listing) (asked : Answer A)
    → OnlyPublic asked
    → OnlyPublic (replied reply asked)
replied-OnlyPublic reply asked only = Only-then IsPublic asked _ only (λ a. tt)

module _ {R D Listing : Type 0} (size : Listing → Answer ℕ)
    (item : Listing → ℤ → Answer (Mapping (Raw R))) (listing : Listing) where
  result_at-OnlyPublic :
      (index : ℤ) (cache : RecordCache R D) → OnlyPublic (result_at size item listing index cache).0
  unfolding result_at
  result_at-OnlyPublic index cache =
      from_reply-Only IsPublic (λ e. tt) cache _ (native_errors-OnlyPublic (item listing index))

  add_item-OnlyPublic :
      (asked : Answer (Record R D)) (cache : RecordCache R D)
      (rest : Answer (List (Record R D)) × RecordCache R D)
      → OnlyPublic asked
      → OnlyPublic rest.0
      → OnlyPublic (add_item size item asked cache rest).0
  unfolding add_item
  add_item-OnlyPublic (raised fault) cache rest only only_rest = only
  add_item-OnlyPublic (answer r) cache rest only only_rest =
      Only-then IsPublic rest.0 _ only_rest (λ rs. tt)

  read_items-OnlyPublic :
      (indices : List ℤ) (cache : RecordCache R D)
      → OnlyPublic (read_items size item listing indices cache).0
  unfolding read_items
  read_items-OnlyPublic [] cache = tt
  read_items-OnlyPublic (index ∷ indices) cache =
      let outcome = result_at size item listing index cache in
      add_item-OnlyPublic outcome.0 outcome.1 _ (result_at-OnlyPublic index cache)
        (read_items-OnlyPublic indices outcome.1)

  read_sliced-OnlyPublic :
      (cache : RecordCache R D) (indices : Answer (List ℤ))
      → OnlyPublic indices
      → OnlyPublic (read_sliced size item listing cache indices).0
  unfolding read_sliced
  read_sliced-OnlyPublic cache (raised fault) only = only
  read_sliced-OnlyPublic cache (answer indices) only = read_items-OnlyPublic indices cache

  result_slice-OnlyPublic :
      (s : Slice) (cache : RecordCache R D) → OnlyPublic (result_slice size item listing s cache).0
  unfolding result_slice sliced result_len
  result_slice-OnlyPublic s cache = read_sliced-OnlyPublic cache _ (
      Only-then IsPublic (native_errors (size listing)) _ (native_errors-OnlyPublic (size listing))
        (λ length.
          Only-then IsPublic (slice_indices s length) _
            (indices_by-OnlyPublic s length (step_of s.step)) (λ r. tt)))

module _ {R D Parameter Listing : Type 0} (codec : Codec R D)
    (native : Bool → Native R Parameter Listing) where
  table-OnlyPublic : (realm : Realm R D) (name : String) → OnlyPublic (table realm name)
  unfolding table
  table-OnlyPublic realm name =
      elim (Option-cases (lookup str_eq name (schema_by_name realm.schema))) [
        | inl e ↦ rw (e, table) tt
        | inr (found, e) ↦ rw (e, table) tt
      ]

  name_of_key-OnlyPublic :
      (what : String) (realm : Realm R D) (key : ℤ) → OnlyPublic (name_of_key what realm key)
  unfolding name_of_key
  name_of_key-OnlyPublic what realm key =
      elim (Option-cases (lookup int_eq key (schema_by_key realm.schema))) [
        | inl e ↦ rw (e, name_of_key) tt
        | inr (found, e) ↦ rw (e, name_of_key) tt
      ]

  resolve-OnlyPublic :
      (alive : Bool) (table_key object_key : ℤ) (realm : Realm R D)
      → OnlyPublic (resolve native alive table_key object_key realm).0
  unfolding resolve resolve_owned link_owner realm_record
  resolve-OnlyPublic true table_key object_key realm =
      fetch-OnlyPublic (native realm.closed).record_at table_key object_key realm.cache
  resolve-OnlyPublic false table_key object_key realm = tt

  read_field-OnlyPublic :
      (alive : Bool) (key : String) (outcome : Answer (Record R D) × Realm R D)
      → OnlyPublic outcome.0
      → OnlyPublic (read_field native codec alive key outcome).0
  unfolding read_field
  read_field-OnlyPublic alive key (raised fault, realm) only = only
  read_field-OnlyPublic alive key (answer r, realm) only = get_item-OnlyPublic codec alive r key

  close-OnlyPublic :
      (realm : Realm R D) (asked : Answer (Unit {0}))
      → OnlyPublic asked
      → OnlyPublic (closed_by native asked realm).0
  unfolding closed_by
  close-OnlyPublic realm (raised fault) only = only
  close-OnlyPublic realm (answer done) only = tt

  perform-OnlyPublic :
      (request : Request Parameter Listing) (realm : Realm R D)
      → OnlyPublic (perform codec native request realm).0
  unfolding perform result_len table_len table_all table_where realm_record link_table_name
      record_table_name link_item link_keys close
  perform-OnlyPublic (ask_table name) realm =
      replied-OnlyPublic _ (table realm name) (table-OnlyPublic realm name)
  perform-OnlyPublic (ask_count t) realm =
      replied-OnlyPublic _ _ (native_errors-OnlyPublic ((native realm.closed).count t.name))
  perform-OnlyPublic (ask_all t) realm =
      replied-OnlyPublic _ _ (native_errors-OnlyPublic ((native realm.closed).all t.name))
  perform-OnlyPublic (ask_where t query parameters) realm =
      replied-OnlyPublic _ _
        (query_errors-OnlyPublic ((native realm.closed).query t.name query parameters))
  perform-OnlyPublic (ask_by_key t key) realm =
      replied-OnlyPublic _ _
        (fetch-OnlyPublic (native realm.closed).record_at t.key key realm.cache)
  perform-OnlyPublic (ask_len listing) realm =
      replied-OnlyPublic _ _ (native_errors-OnlyPublic ((native realm.closed).size listing))
  perform-OnlyPublic (ask_index listing index) realm = replied-OnlyPublic _ _ (
      result_at-OnlyPublic (native realm.closed).size (native realm.closed).item listing index
        realm.cache)
  perform-OnlyPublic (ask_slice listing s) realm = replied-OnlyPublic _ _ (
      result_slice-OnlyPublic (native realm.closed).size (native realm.closed).item listing s
        realm.cache)
  perform-OnlyPublic (ask_link_table alive key) realm = replied-OnlyPublic _ _ (
      Only-then IsPublic (link_owner alive) _ (link_owner-OnlyPublic alive)
        (λ _. name_of_key-OnlyPublic "link" realm key))
  perform-OnlyPublic (ask_record_table alive key) realm = replied-OnlyPublic _ _ (
      Only-then IsPublic (owner alive) _ (owner-OnlyPublic alive)
        (λ _. name_of_key-OnlyPublic "record" realm key))
  perform-OnlyPublic (ask_link alive table_key object_key) realm =
      replied-OnlyPublic _ _ (resolve-OnlyPublic alive table_key object_key realm)
  perform-OnlyPublic (ask_link_item alive table_key object_key key) realm = replied-OnlyPublic _ _ (
      read_field-OnlyPublic alive key (resolve native alive table_key object_key realm)
        (resolve-OnlyPublic alive table_key object_key realm))
  perform-OnlyPublic (ask_link_keys alive table_key object_key) realm = replied-OnlyPublic _ _ (
      Only-then IsPublic (resolve native alive table_key object_key realm).0 _
        (resolve-OnlyPublic alive table_key object_key realm) (λ r. tt))
  perform-OnlyPublic (ask_link_len alive table_key object_key) realm = replied-OnlyPublic _ _ (
      Only-then IsPublic (link_keys native alive table_key object_key realm).0 _
        (Only-then IsPublic (resolve native alive table_key object_key realm).0 _
          (resolve-OnlyPublic alive table_key object_key realm) (λ r. tt))
        (λ keys. tt))
  perform-OnlyPublic ask_close realm = replied-OnlyPublic _ (close native realm).0 (
      close-OnlyPublic realm (native_errors (native realm.closed).close)
        (native_errors-OnlyPublic (native realm.closed).close))

  -- No request to a realm, open or closed, raises the private exception of the native module, whatever
  -- the native module raises.
  pub perform-IsPublic :
      (request : Request Parameter Listing) (realm : Realm R D) (fault : Fault)
      → (perform codec native request realm).0 ≡ raised fault
      → IsPublic fault
  perform-IsPublic request realm fault e =
      Only-raised IsPublic _ fault (perform-OnlyPublic request realm) e
