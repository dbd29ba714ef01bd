-- ===== src/Reader/Faults/Public.antt =====
-- The records, fields and results of src/pyrealm/reader.py raise no exception of the native module.
use pyrealm.Prelude.{String, Bool, true, false, Option, none, some, Option-cases, inl, inr}
use pyrealm.Prelude.Integers.{ℤ}
use pyrealm.Reader.{
  Raw, raw_none, raw_bool, raw_int, raw_real, raw_text, raw_binary, raw_uuid, native_link,
  native_timestamp, native_object_id, native_decimal, raw_list, raw_set, raw_dict, Raws, no_raws,
  more_raws, RawFields, no_raw_fields, more_raw_fields, Value, Codec, realm_text, Fault, Answer,
  answer, raised, Mapping, field_at, ◌>>=◌, realm_error, query_error, open_error, native_error,
  os_fault, type_fault, unicode_fault, missing_key, bad_value, out_of_range,
}
use pyrealm.Reader.Convert.{convert_decimal, convert, convert_items, convert_fields}
use pyrealm.Reader.Records.{
  Record, decode_fault, owner, decode, remember, convert_owned, convert_field, kept_or_converted,
  get_item,
}
use pyrealm.Reader.Cache.{translated, native_errors, RecordCache, cached, cached_or_read, fetch}
use pyrealm.Reader.Faults.{Only, Only-then, IsPublic}
use pyrealm.Reader.Faults.Identities.{from_reply-Only}

abbrev pub OnlyPublic : {A : Type 0} → Answer A → Type 0
OnlyPublic asked = Only IsPublic asked

pub native_errors-OnlyPublic : {A : Type 0} (asked : Answer A) → OnlyPublic (native_errors asked)
unfolding translated
native_errors-OnlyPublic (answer a) = tt
native_errors-OnlyPublic (raised (native_error e)) = tt
native_errors-OnlyPublic (raised (realm_error e)) = tt
native_errors-OnlyPublic (raised (query_error e)) = tt
native_errors-OnlyPublic (raised (open_error e)) = tt
native_errors-OnlyPublic (raised (os_fault e)) = tt
native_errors-OnlyPublic (raised (type_fault e)) = tt
native_errors-OnlyPublic (raised (unicode_fault e)) = tt
native_errors-OnlyPublic (raised (missing_key e)) = tt
native_errors-OnlyPublic (raised (bad_value e)) = tt
native_errors-OnlyPublic (raised (out_of_range e)) = tt

pub owner-OnlyPublic : (alive : Bool) → OnlyPublic (owner alive)
owner-OnlyPublic true = tt
owner-OnlyPublic false = tt

module _ {R D : Type 0} where
  pub fetch-OnlyPublic :
      (native : ℤ → ℤ → Answer (Mapping (Raw R))) (table object : ℤ) (cache : RecordCache R D)
      → OnlyPublic (fetch native table object cache).0
  unfolding fetch cached_or_read
  fetch-OnlyPublic native table object cache = elim (Option-cases (cached (table, object) cache)) [
    | inl e ↦ rw e (
        from_reply-Only IsPublic (λ e. tt) cache (native_errors (native table object))
          (native_errors-OnlyPublic (native table object)))
    | inr (r, e) ↦ rw e tt
  ]

  module _ (codec : Codec R D) where
    convert_decimal-OnlyPublic :
        (source : String) (o : Option D) → OnlyPublic (convert_decimal codec source o)
    convert_decimal-OnlyPublic source none = tt
    convert_decimal-OnlyPublic source (some d) = tt

    mutual
      unfolding convert

      pub convert-OnlyPublic : (raw : Raw R) → OnlyPublic (convert codec raw)
      convert-OnlyPublic raw_none = tt
      convert-OnlyPublic (raw_bool b) = tt
      convert-OnlyPublic (raw_int n) = tt
      convert-OnlyPublic (raw_real x) = tt
      convert-OnlyPublic (raw_text s) = tt
      convert-OnlyPublic (raw_binary bs) = tt
      convert-OnlyPublic (raw_uuid s) = tt
      convert-OnlyPublic (native_link t o) = tt
      convert-OnlyPublic (native_timestamp s n) = tt
      convert-OnlyPublic (native_object_id s) = tt
      convert-OnlyPublic (native_decimal s) = convert_decimal-OnlyPublic s (codec.parse_decimal s)
      convert-OnlyPublic (raw_list rs) =
          Only-then IsPublic (convert_items codec rs) _ (convert_items-OnlyPublic rs) (λ values. tt)
      convert-OnlyPublic (raw_set rs) =
          Only-then IsPublic (convert_items codec rs) _ (convert_items-OnlyPublic rs) (λ values. tt)
      convert-OnlyPublic (raw_dict rs) =
          Only-then IsPublic (convert_fields codec rs) _ (convert_fields-OnlyPublic rs)
            (λ values. tt)

      convert_items-OnlyPublic : (raws : Raws R) → OnlyPublic (convert_items codec raws)
      convert_items-OnlyPublic no_raws = tt
      convert_items-OnlyPublic (more_raws raw raws) =
          Only-then IsPublic (convert codec raw) _ (convert-OnlyPublic raw) (λ value.
            Only-then IsPublic (convert_items codec raws) _ (convert_items-OnlyPublic raws)
              (λ values. tt))

      convert_fields-OnlyPublic : (raws : RawFields R) → OnlyPublic (convert_fields codec raws)
      convert_fields-OnlyPublic no_raw_fields = tt
      convert_fields-OnlyPublic (more_raw_fields key raw raws) =
          Only-then IsPublic (convert codec raw) _ (convert-OnlyPublic raw) (λ value.
            Only-then IsPublic (convert_fields codec raws) _ (convert_fields-OnlyPublic raws)
              (λ values. tt))

    decode_fault-IsPublic :
        (key : String) (fault : Fault) (o : Option String)
        → IsPublic fault
        → IsPublic (decode_fault codec.repr key fault o)
    unfolding decode_fault
    decode_fault-IsPublic key fault none public = public
    decode_fault-IsPublic key fault (some e) public = tt

    remember-OnlyPublic :
        (r : Record R D) (key : String) (asked : Answer (Value R D))
        → OnlyPublic asked
        → OnlyPublic (remember codec r key (decode codec key asked)).0
    unfolding remember decode
    remember-OnlyPublic r key (answer value) only = tt
    remember-OnlyPublic r key (raised fault) only =
        decode_fault-IsPublic key fault (realm_text fault) only

    convert_field-OnlyPublic :
        (alive : Bool) (r : Record R D) (key : String) (o : Option (Raw R))
        → OnlyPublic (convert_field codec alive r key o).0
    unfolding convert_field convert_owned
    convert_field-OnlyPublic alive r key none = tt
    convert_field-OnlyPublic alive r key (some raw) =
        remember-OnlyPublic r key (owner alive >>= λ _. convert codec raw) (
          Only-then IsPublic (owner alive) _ (owner-OnlyPublic alive) (λ _. convert-OnlyPublic raw))

    pub get_item-OnlyPublic :
        (alive : Bool) (r : Record R D) (key : String) → OnlyPublic (get_item codec alive r key).0
    unfolding get_item kept_or_converted
    get_item-OnlyPublic alive r key = elim (Option-cases (field_at key r.converted)) [
      | inl e ↦ rw e (convert_field-OnlyPublic alive r key (field_at key r.raw))
      | inr (value, e) ↦ rw e tt
    ]
