-- ===== src/Reader/Cache.antt =====
-- src/pyrealm/reader.py, `_native_errors`, `Realm._record` and `Realm._record_from_raw`: the cache of
-- records by their identity. Its references are weak, so any entry may be gone at any later time. A
-- record that the caller reads is the one in the cache, so what it keeps is kept there.
pub mod Coherent
use pyrealm.Prelude.{
  ◌≡◌, String, Bool, true, false, Option, none, some, List, [], ◌∷◌, if◌then◌else◌,
}
use pyrealm.Prelude.Integers.{ℤ}
use pyrealm.Reader.{
  Codec, Raw, Value, Fault, realm_error, query_error, native_error, missing_key, bad_value, Answer,
  answer, raised, Identity, same_identity, Mapping,
}
use pyrealm.Reader.Records.{Record, fresh_record, record_identity, get_item}

-- `with _native_errors()`
unfoldable pub translated : Fault → Fault
translated (native_error e) = realm_error e
translated other = other

abbrev pub native_errors : {A : Type 0} → Answer A → Answer A
native_errors (answer a) = answer a
native_errors (raised fault) = raised (translated fault)

abbrev pub RecordCache : Type 0 → Type 0 → Type 0
RecordCache R D = List (Identity × Record R D)

module _ {R D : Type 0} where
  -- `self._record_cache.get(identity)`
  abbrev pub cached : Identity → RecordCache R D → Option (Record R D)
  cached identity [] = none
  cached identity ((key, r) ∷ cache) =
      if same_identity key identity then some r else cached identity cache

  -- A new entry stands in front; only the entry of an identity is asked for.
  abbrev pub store : Identity → Record R D → RecordCache R D → RecordCache R D
  store identity r cache = (identity, r) ∷ cache

  unfoldable pub stored_or_new :
      Identity
      → Mapping (Raw R)
      → RecordCache R D
      → Option (Record R D)
      → Answer (Record R D) × RecordCache R D
  stored_or_new identity raw cache (some r) = (answer r, cache)
  stored_or_new identity raw cache none =
      (answer (fresh_record identity raw), store identity (fresh_record identity raw) cache)

  unfoldable pub from_identity :
      Mapping (Raw R) → RecordCache R D → Answer Identity → Answer (Record R D) × RecordCache R D
  from_identity raw cache (raised fault) = (raised fault, cache)
  from_identity raw cache (answer identity) =
      stored_or_new identity raw cache (cached identity cache)

  -- `_record_from_raw`
  unfoldable pub record_from_raw :
      Mapping (Raw R) → RecordCache R D → Answer (Record R D) × RecordCache R D
  unfolding from_identity stored_or_new
  record_from_raw raw cache = from_identity raw cache (record_identity raw)

  unfoldable pub from_reply :
      RecordCache R D → Answer (Mapping (Raw R)) → Answer (Record R D) × RecordCache R D
  from_reply cache (raised fault) = (raised fault, cache)
  from_reply cache (answer raw) = record_from_raw raw cache

  module _ (native : ℤ → ℤ → Answer (Mapping (Raw R))) where
    unfoldable pub cached_or_read :
        ℤ → ℤ → RecordCache R D → Option (Record R D) → Answer (Record R D) × RecordCache R D
    cached_or_read table object cache (some r) = (answer r, cache)
    cached_or_read table object cache none = from_reply cache (native_errors (native table object))

    -- `_record`, over `self._native.record`.
    unfoldable pub fetch : ℤ → ℤ → RecordCache R D → Answer (Record R D) × RecordCache R D
    unfolding cached_or_read
    fetch table object cache = cached_or_read table object cache (cached (table, object) cache)

  -- Some entries are gone.
  pub data Collected : RecordCache R D → RecordCache R D → Type 0 where
    nothing_left : Collected [] []
    kept :
        {entry : Identity × Record R D} {before after : RecordCache R D}
        → Collected before after
        → Collected (entry ∷ before) (entry ∷ after)
    gone :
        {entry : Identity × Record R D} {before after : RecordCache R D}
        → Collected before after
        → Collected (entry ∷ before) after

  module _ (codec : Codec R D) (native : ℤ → ℤ → Answer (Mapping (Raw R))) where
    -- What happens to the cache of an open realm: a record is asked for, or comes with a result of a
    -- query, a field of a record in the cache is read, or entries are collected.
    pub data Step : RecordCache R D → RecordCache R D → Type 0 where
      fetched :
          (table object : ℤ) (cache : RecordCache R D)
          → Step cache (fetch native table object cache).1
      listed :
          (table object : ℤ) (raw : Mapping (Raw R)) (cache : RecordCache R D)
          → native table object ≡ answer raw
          → Step cache (record_from_raw raw cache).1
      field_read :
          (identity : Identity) (r : Record R D) (key : String) (cache : RecordCache R D)
          → cached identity cache ≡ some r
          → Step cache (store identity (get_item codec true r key).1 cache)
      collected : {before after : RecordCache R D} → Collected before after → Step before after

    pub data Steps : RecordCache R D → RecordCache R D → Type 0 where
      stay : {cache : RecordCache R D} → Steps cache cache
      then_step : {a b c : RecordCache R D} → Steps a b → Step b c → Steps a c
