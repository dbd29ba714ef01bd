-- ===== src/Reader/Realm/Requests.antt =====
-- What a caller asks of an open realm, a table, a result set or a link in src/pyrealm/reader.py, and the
-- states that a realm comes to. A request that changes no state leaves the realm as it was.
pub mod Public
pub mod Coherent
pub mod States
pub mod Fixed
use pyrealm.Prelude.{ℕ, String, Bool, List}
use pyrealm.Prelude.Integers.{ℤ}
use pyrealm.Reader.{Value, Codec, Answer, answer, raised, ◌>>=◌}
use pyrealm.Reader.Records.{Record}
use pyrealm.Reader.Cache.{RecordCache, Collected}
use pyrealm.Reader.Slices.{Slice}
use pyrealm.Reader.Results.Items.{result_len, result_at, result_slice}
use pyrealm.Reader.Schema.{TableSchema}
use pyrealm.Reader.Realm.{
  Native, Realm, on_cache, link_table_name, record_table_name, table, table_len, table_all,
  table_where, get_by_key, resolve, link_item, link_keys, link_len, close,
}

-- The Boolean of a request to a link or a record says whether its realm is still there.
pub data Request (Parameter Listing : Type 0) : Type 0 where
  ask_table : String → Request Parameter Listing
  ask_count : TableSchema → Request Parameter Listing
  ask_all : TableSchema → Request Parameter Listing
  ask_where : TableSchema → String → List Parameter → Request Parameter Listing
  ask_by_key : TableSchema → ℤ → Request Parameter Listing
  ask_len : Listing → Request Parameter Listing
  ask_index : Listing → ℤ → Request Parameter Listing
  ask_slice : Listing → Slice → Request Parameter Listing
  ask_link_table : Bool → ℤ → Request Parameter Listing
  ask_record_table : Bool → ℤ → Request Parameter Listing
  ask_link : Bool → ℤ → ℤ → Request Parameter Listing
  ask_link_item : Bool → ℤ → ℤ → String → Request Parameter Listing
  ask_link_keys : Bool → ℤ → ℤ → Request Parameter Listing
  ask_link_len : Bool → ℤ → ℤ → Request Parameter Listing
  ask_close : Request Parameter Listing

pub data Reply (R D Listing : Type 0) : Type 0 where
  given_table : TableSchema → Reply R D Listing
  given_count : ℕ → Reply R D Listing
  given_results : Listing → Reply R D Listing
  given_record : Record R D → Reply R D Listing
  given_records : List (Record R D) → Reply R D Listing
  given_name : String → Reply R D Listing
  given_names : List String → Reply R D Listing
  given_value : Value R D → Reply R D Listing
  given_nothing : Unit {0} → Reply R D Listing

module _ {R D Listing : Type 0} where
  abbrev pub replied :
      {A : Type 0} → (A → Reply R D Listing) → Answer A → Answer (Reply R D Listing)
  replied reply asked = asked >>= λ a. answer (reply a)

  -- The outcome of an operation that changes the realm, as a reply.
  abbrev pub with_reply :
      {A : Type 0}
      → (A → Reply R D Listing)
      → Answer A × Realm R D
      → Answer (Reply R D Listing) × Realm R D
  with_reply reply (asked, realm) = (replied reply asked, realm)

  module _ {Parameter : Type 0} (codec : Codec R D)
      (native : Bool → Native R Parameter Listing) where
    unfoldable pub perform :
        Request Parameter Listing → Realm R D → Answer (Reply R D Listing) × Realm R D
    perform (ask_table name) realm = (replied given_table (table realm name), realm)
    perform (ask_count t) realm = (replied given_count (table_len native realm t), realm)
    perform (ask_all t) realm = (replied given_results (table_all native realm t), realm)
    perform (ask_where t query parameters) realm =
        (replied given_results (table_where native realm t query parameters), realm)
    perform (ask_by_key t key) realm = with_reply given_record (get_by_key native t key realm)
    perform (ask_len listing) realm =
        (replied given_count (result_len (native realm.closed).size listing), realm)
    perform (ask_index listing index) realm = with_reply given_record (
        on_cache realm (
          result_at (native realm.closed).size (native realm.closed).item listing index
            realm.cache))
    perform (ask_slice listing s) realm = with_reply given_records (
        on_cache realm (
          result_slice (native realm.closed).size (native realm.closed).item listing s realm.cache))
    perform (ask_link_table alive key) realm =
        (replied given_name (link_table_name alive realm key), realm)
    perform (ask_record_table alive key) realm =
        (replied given_name (record_table_name alive realm key), realm)
    perform (ask_link alive table_key object_key) realm =
        with_reply given_record (resolve native alive table_key object_key realm)
    perform (ask_link_item alive table_key object_key key) realm =
        with_reply given_value (link_item native codec alive table_key object_key key realm)
    perform (ask_link_keys alive table_key object_key) realm =
        with_reply given_names (link_keys native alive table_key object_key realm)
    perform (ask_link_len alive table_key object_key) realm =
        with_reply given_count (link_len native alive table_key object_key realm)
    perform ask_close realm = with_reply given_nothing (close native realm)

    -- The states that a realm comes to, by requests and by collections of its cache.
    pub data Runs (start : Realm R D) : Realm R D → Type 0 where
      at_start : Runs start start
      asked :
          {realm : Realm R D} (request : Request Parameter Listing)
          → Runs start realm
          → Runs start (perform request realm).1
      lost :
          {realm : Realm R D} (cache : RecordCache R D)
          → Runs start realm
          → Collected realm.cache cache
          → Runs start (record realm { cache = cache })
