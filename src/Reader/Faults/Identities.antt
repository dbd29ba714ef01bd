-- ===== src/Reader/Faults/Identities.antt =====
-- The exceptions of `_record_identity` and `_record_from_raw` in src/pyrealm/reader.py: all their own are
-- `RealmError`s.
use pyrealm.Prelude.{String, Option, none, some, Option-cases, inl, inr}
use pyrealm.Reader.{
  Raw, raw_none, raw_bool, raw_int, raw_real, raw_text, raw_binary, raw_uuid, native_link,
  native_timestamp, native_object_id, native_decimal, raw_list, raw_set, raw_dict, Fault,
  realm_error, Answer, answer, raised, Mapping, field_at, Identity,
}
use pyrealm.Reader.Records.{
  Record, table_key_name, object_key_name, invalid_keys, metadata, integer_key, record_identity,
}
use pyrealm.Reader.Cache.{
  RecordCache, cached, stored_or_new, from_identity, record_from_raw, from_reply,
}
use pyrealm.Reader.Faults.{Only, Only-then}

module _ {R : Type 0} (P : Fault → Type 0) (ours : (e : String) → P (realm_error e)) where
  metadata-Only : (name : String) (raw : Mapping (Raw R)) → Only P (metadata name raw)
  unfolding metadata
  metadata-Only name raw = elim (Option-cases (field_at name raw)) [
    | inl e ↦ rw (e, metadata) (ours _)
    | inr (value, e) ↦ rw (e, metadata) tt
  ]

  integer_key-Only : (raw : Raw R) → Only P (integer_key raw)
  unfolding integer_key
  integer_key-Only raw_none = ours invalid_keys
  integer_key-Only (raw_bool b) = ours invalid_keys
  integer_key-Only (raw_int n) = tt
  integer_key-Only (raw_real x) = ours invalid_keys
  integer_key-Only (raw_text s) = ours invalid_keys
  integer_key-Only (raw_binary bs) = ours invalid_keys
  integer_key-Only (raw_uuid s) = ours invalid_keys
  integer_key-Only (native_link t o) = ours invalid_keys
  integer_key-Only (native_timestamp s n) = ours invalid_keys
  integer_key-Only (native_object_id s) = ours invalid_keys
  integer_key-Only (native_decimal s) = ours invalid_keys
  integer_key-Only (raw_list rs) = ours invalid_keys
  integer_key-Only (raw_set rs) = ours invalid_keys
  integer_key-Only (raw_dict rs) = ours invalid_keys

  record_identity-Only : (raw : Mapping (Raw R)) → Only P (record_identity raw)
  unfolding record_identity
  record_identity-Only raw =
      Only-then P (metadata table_key_name raw) _ (metadata-Only table_key_name raw) (λ table_value.
        Only-then P (metadata object_key_name raw) _ (metadata-Only object_key_name raw)
          (λ object_value.
            Only-then P (integer_key table_value) _ (integer_key-Only table_value) (λ table.
              Only-then P (integer_key object_value) _ (integer_key-Only object_value)
                (λ object. tt))))

module _ {R D : Type 0} (P : Fault → Type 0) (ours : (e : String) → P (realm_error e)) where
  pub from_reply-Only :
      (cache : RecordCache R D) (asked : Answer (Mapping (Raw R)))
      → Only P asked
      → Only P (from_reply cache asked).0
  unfolding from_reply record_from_raw
  from_reply-Only cache (raised fault) only = only
  from_reply-Only cache (answer raw) only =
      from_identity-Only raw cache (record_identity raw) (record_identity-Only P ours raw)
    where
      stored_or_new-Only :
          (identity : Identity) (raw : Mapping (Raw R)) (cache : RecordCache R D)
          (o : Option (Record R D))
          → Only P (stored_or_new identity raw cache o).0
      stored_or_new-Only identity raw cache none = tt
      stored_or_new-Only identity raw cache (some r) = tt

      from_identity-Only :
          (raw : Mapping (Raw R)) (cache : RecordCache R D) (identity : Answer Identity)
          → Only P identity
          → Only P (from_identity raw cache identity).0
      from_identity-Only raw cache (raised fault) only = only
      from_identity-Only raw cache (answer identity) only =
          stored_or_new-Only identity raw cache (cached identity cache)
