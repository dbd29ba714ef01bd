-- ===== src/Reader/Records.antt =====
-- src/pyrealm/reader.py, `_record_identity` and `Record`: a record of the native module, whose fields
-- are converted when they are read first and are kept then.
pub mod Memo
use Prim.Native.String.{◌++◌ as ◌<>◌}
use pyrealm.Prelude.{String, Bool, true, false, Option, none, some, List, [], ◌∷◌, ◌++◌, map}
use pyrealm.Prelude.Integers.{ℤ}
use pyrealm.Reader.{
  Raw, raw_none, raw_bool, raw_int, raw_real, raw_text, raw_binary, raw_uuid, native_link,
  native_timestamp, native_object_id, native_decimal, raw_list, raw_dict, Value, Fault, realm_text,
  Codec, realm_error, query_error, native_error, missing_key, bad_value, Answer, answer, raised,
  ◌>>=◌, Identity, Mapping, field_at, pop_field,
}
use pyrealm.Reader.Convert.{convert}

abbrev pub table_key_name : String
table_key_name = "__table_key__"

abbrev pub object_key_name : String
object_key_name = "__object_key__"

abbrev pub invalid_keys : String
invalid_keys = "record has invalid native table or object key metadata"

-- `raw[name]`, with the `KeyError` translated.
unfoldable pub metadata : {R : Type 0} → String → Mapping (Raw R) → Answer (Raw R)
metadata name raw = elim (field_at name raw) [
  | none ↦ raised (realm_error ("record is missing native metadata '" <> name <> "'"))
  | some value ↦ answer value
]

-- The test of the two types: `isinstance(key, int)` and no `bool`.
unfoldable pub integer_key : {R : Type 0} → Raw R → Answer ℤ
integer_key (raw_int n) = answer n
integer_key other = raised (realm_error invalid_keys)

unfoldable pub record_identity : {R : Type 0} → Mapping (Raw R) → Answer Identity
unfolding metadata integer_key
record_identity raw = do
  table_value ← metadata table_key_name raw
  object_value ← metadata object_key_name raw
  table_key ← integer_key table_value
  object_key ← integer_key object_value
  answer (table_key, object_key)

pub record Record (R D : Type 0) : Type 0 where
  pub table_key : ℤ
  pub object_key : ℤ
  pub raw : Mapping (Raw R)
  pub converted : Mapping (Value R D)

-- The fields that are left when the two keys are popped.
abbrev pub own_fields : {R : Type 0} → Mapping (Raw R) → Mapping (Raw R)
own_fields raw = pop_field object_key_name (pop_field table_key_name raw)

abbrev pub fresh_record : {R D : Type 0} → Identity → Mapping (Raw R) → Record R D
fresh_record (table, object) raw = record {
  table_key = table;
  object_key = object;
  raw = own_fields raw;
  converted = [];
}

-- `Record(realm, raw)`
unfoldable pub new_record : {R D : Type 0} → Mapping (Raw R) → Answer (Record R D)
new_record raw = do identity ← record_identity raw; answer (fresh_record identity raw)

unfoldable pub decode_fault : (String → String) → String → Fault → Option String → Fault
decode_fault repr key fault none = fault
decode_fault repr key fault (some e) = realm_error ("cannot decode field " <> repr key <> ": " <> e)

abbrev pub released_record : String
released_record = "the Realm owning this record has been released"

-- `self._realm()`: the weak reference to the realm, which `alive` says is still there.
abbrev pub owner : Bool → Answer (Unit {0})
owner true = answer tt
owner false = raised (realm_error released_record)

module _ {R D : Type 0} (codec : Codec R D) where
  -- `except RealmError as error: raise RealmError(...)`
  unfoldable pub decode : String → Answer (Value R D) → Answer (Value R D)
  decode key (answer value) = answer value
  decode key (raised fault) = raised (decode_fault codec.repr key fault (realm_text fault))

  -- `self._converted[key] = converted`, if the conversion did not raise.
  unfoldable pub remember :
      Record R D → String → Answer (Value R D) → Answer (Value R D) × Record R D
  remember r key (answer value) =
      (answer value, record r { converted = (key, value) ∷ r.converted })
  remember r key (raised fault) = (raised fault, r)

  -- `self._realm()._convert(raw)`
  unfoldable pub convert_owned : Bool → Raw R → Answer (Value R D)
  convert_owned alive raw = owner alive >>= λ _. convert codec raw

  -- The second half of `__getitem__`, on `self._raw[key]`.
  unfoldable pub convert_field :
      Bool → Record R D → String → Option (Raw R) → Answer (Value R D) × Record R D
  convert_field alive r key none = (raised (missing_key key), r)
  convert_field alive r key (some raw) = remember r key (decode key (convert_owned alive raw))

  unfoldable pub kept_or_converted :
      Bool → Record R D → String → Option (Value R D) → Answer (Value R D) × Record R D
  kept_or_converted alive r key none = convert_field alive r key (field_at key r.raw)
  kept_or_converted alive r key (some value) = (answer value, r)

  -- `record[key]`, and the record after it.
  unfoldable pub get_item : Bool → Record R D → String → Answer (Value R D) × Record R D
  unfolding kept_or_converted convert_field remember decode convert convert_owned decode_fault
      realm_text
  get_item alive r key = kept_or_converted alive r key (field_at key r.converted)
