-- ===== src/Reader/Convert.antt =====
-- src/pyrealm/reader.py, `Realm._convert`.
use pyrealm.Prelude.{String, Option, none, some}
use Prim.Native.String.{◌++◌ as ◌<>◌}
use pyrealm.Reader.{
  Raw, raw_none, raw_bool, raw_int, raw_real, raw_text, raw_binary, raw_uuid, native_link,
  native_timestamp, native_object_id, native_decimal, raw_list, raw_set, raw_dict, Raws, no_raws,
  more_raws, RawFields, no_raw_fields, more_raw_fields, Value, no_value, boolean, integer, real,
  string, binary, uuid, link, timestamp, object_id, decimal, tuple, frozen_set, dict, Values,
  no_values, more_values, ValueFields, no_fields, more_fields, Codec, realm_error, Answer, answer,
  raised, ◌>>=◌,
}

module _ {R D : Type 0} (codec : Codec R D) where
  -- `decimal.Decimal(value.value)`
  abbrev pub convert_decimal : String → Option D → Answer (Value R D)
  convert_decimal source none =
      raised (realm_error ("invalid Decimal128 value " <> codec.repr source))
  convert_decimal source (some d) = answer (decimal d)

  unfoldable mutual
    pub convert : Raw R → Answer (Value R D)
    convert raw_none = answer no_value
    convert (raw_bool b) = answer (boolean b)
    convert (raw_int n) = answer (integer n)
    convert (raw_real x) = answer (real x)
    convert (raw_text s) = answer (string s)
    convert (raw_binary bs) = answer (binary bs)
    convert (raw_uuid s) = answer (uuid s)
    convert (native_link table object) = answer (link table object)
    convert (native_timestamp seconds nanoseconds) = answer (timestamp seconds nanoseconds)
    convert (native_object_id s) = answer (object_id s)
    convert (native_decimal s) = convert_decimal s (codec.parse_decimal s)
    convert (raw_list items) = do values ← convert_items items; answer (tuple values)
    convert (raw_set items) = do
      values ← convert_items items
      answer (frozen_set (codec.frozen values))
    convert (raw_dict fields) = do values ← convert_fields fields; answer (dict values)

    pub convert_items : Raws R → Answer (Values R D)
    convert_items no_raws = answer no_values
    convert_items (more_raws raw raws) = do
      value ← convert raw
      values ← convert_items raws
      answer (more_values value values)

    pub convert_fields : RawFields R → Answer (ValueFields R D)
    convert_fields no_raw_fields = answer no_fields
    convert_fields (more_raw_fields key raw raws) = do
      value ← convert raw
      values ← convert_fields raws
      answer (more_fields key value values)
