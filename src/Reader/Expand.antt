-- ===== src/Reader/Expand.antt =====
-- src/pyrealm/reader.py, `Record.to_dict`, `Record._to_dict` and `Realm._plain_value`. The set `seen` is
-- passed along as a list: `add` puts an identity in front and `remove` takes its first place out.
-- Python's `str` of a decimal and `b64encode` are parameters, and so are the records by their keys, the
-- reading of a field, and the names of the tables as a record and as a link ask for them.
pub mod Seen
pub mod Stable
use pyrealm.Prelude.{ℕ, zero, suc, String, Bool, true, false, ◌||◌, List, [], ◌∷◌, if◌then◌else◌}
use pyrealm.Prelude.Integers.{ℤ, pos, negsuc}
use pyrealm.Bytes.{Bytes}
use pyrealm.Reader.{
  Raw, Value, no_value, boolean, integer, real, string, binary, uuid, link, timestamp, object_id,
  decimal, tuple, frozen_set, dict, Values, no_values, more_values, ValueFields, no_fields,
  more_fields, bad_value, Answer, answer, raised, ◌>>=◌, Identity, same_identity, Mapping,
}
use pyrealm.Reader.Records.{Record}

mutual
  pub data Plain (R : Type 0) : Type 0 where
    plain_none : Plain R
    plain_bool : Bool → Plain R
    plain_int : ℤ → Plain R
    plain_real : R → Plain R
    plain_text : String → Plain R
    plain_list : Plains R → Plain R
    plain_dict : PlainFields R → Plain R

  pub data Plains (R : Type 0) : Type 0 where
    no_plains : Plains R
    more_plains : Plain R → Plains R → Plains R

  pub data PlainFields (R : Type 0) : Type 0 where
    no_plain_fields : PlainFields R
    more_plain_fields : String → Plain R → PlainFields R → PlainFields R

abbrev pub Seen : Type 0
Seen = List Identity

abbrev pub is_seen : Identity → Seen → Bool
is_seen identity [] = false
is_seen identity (other ∷ seen) = same_identity other identity || is_seen identity seen

abbrev pub remove_seen : Identity → Seen → Seen
remove_seen identity [] = []
remove_seen identity (other ∷ seen) =
    if same_identity other identity then seen else other ∷ remove_seen identity seen

abbrev pub names : {A : Type 0} → Mapping A → List String
names [] = []
names ((name, value) ∷ fields) = name ∷ names fields

abbrev pub one_field : {R : Type 0} → String → Plain R → Plain R
one_field name value = plain_dict (more_plain_fields name value no_plain_fields)

abbrev pub two_fields : {R : Type 0} → String → Plain R → String → Plain R → Plain R
two_fields name value name' value' =
    plain_dict (more_plain_fields name value (more_plain_fields name' value' no_plain_fields))

-- A link that is met while `seen` is passed along.
abbrev pub Follow : Type 0 → Type 0
Follow R = ℤ → ℤ → Seen → Answer (Plain R × Seen)

-- `{"$ref": {"table": ..., "key": ...}}`, with the `table_name` of a link or of a record.
pub reference : {R : Type 0} → (ℤ → Answer String) → Follow R
reference table_name table object seen = do
  name ← table_name table
  answer (one_field "$ref" (two_fields "table" (plain_text name) "key" (plain_int object)), seen)

module _ {R D : Type 0} (decimal_text : D → String) (base64 : Bytes → String) where
  mutual
    -- `_plain_value`, with `follow` for its first case.
    pub plain_value : Follow R → Value R D → Seen → Answer (Plain R × Seen)
    plain_value follow no_value seen = answer (plain_none, seen)
    plain_value follow (boolean b) seen = answer (plain_bool b, seen)
    plain_value follow (integer n) seen = answer (plain_int n, seen)
    plain_value follow (real x) seen = answer (plain_real x, seen)
    plain_value follow (string s) seen = answer (plain_text s, seen)
    plain_value follow (binary bs) seen =
        answer (one_field "$binary" (plain_text (base64 bs)), seen)
    plain_value follow (uuid s) seen = answer (one_field "$uuid" (plain_text s), seen)
    plain_value follow (link table object) seen = follow table object seen
    plain_value follow (timestamp seconds nanoseconds) seen = answer (
      one_field "$timestamp"
          (two_fields "seconds" (plain_int seconds) "nanoseconds" (plain_int nanoseconds)),
      seen,
    )
    plain_value follow (object_id s) seen = answer (one_field "$objectId" (plain_text s), seen)
    plain_value follow (decimal d) seen =
        answer (one_field "$decimal128" (plain_text (decimal_text d)), seen)
    plain_value follow (tuple values) seen = do
      (plains, after) ← plain_items follow values seen
      answer (plain_list plains, after)
    plain_value follow (frozen_set values) seen = do
      (plains, after) ← plain_items follow values seen
      answer (plain_list plains, after)
    plain_value follow (dict fields) seen = do
      (plains, after) ← plain_fields follow fields seen
      answer (plain_dict plains, after)

    pub plain_items : Follow R → Values R D → Seen → Answer (Plains R × Seen)
    plain_items follow no_values seen = answer (no_plains, seen)
    plain_items follow (more_values value values) seen = do
      (plain, between) ← plain_value follow value seen
      (plains, after) ← plain_items follow values between
      answer (more_plains plain plains, after)

    pub plain_fields : Follow R → ValueFields R D → Seen → Answer (PlainFields R × Seen)
    plain_fields follow no_fields seen = answer (no_plain_fields, seen)
    plain_fields follow (more_fields key value fields) seen = do
      (plain, between) ← plain_value follow value seen
      (plains, after) ← plain_fields follow fields between
      answer (more_plain_fields key plain plains, after)

  module _ (item : Record R D → String → Answer (Value R D)) (record_name : ℤ → Answer String) where
    -- The comprehension over the record's keys.
    pub record_fields : Follow R → Record R D → List String → Seen → Answer (PlainFields R × Seen)
    record_fields follow r [] seen = answer (no_plain_fields, seen)
    record_fields follow r (key ∷ keys) seen = do
      value ← item r key
      (plain, between) ← plain_value follow value seen
      (plains, after) ← record_fields follow r keys between
      answer (more_plain_fields key plain plains, after)

    -- The record that is not in `seen`.
    pub expand_fresh : Follow R → Record R D → Seen → Answer (Plain R × Seen)
    expand_fresh follow r seen = do
      (plains, after) ← record_fields follow r (names r.raw) ((r.table_key, r.object_key) ∷ seen)
      answer (plain_dict plains, remove_seen (r.table_key, r.object_key) after)

    pub expand_record : Follow R → Record R D → Seen → Answer (Plain R × Seen)
    expand_record follow r seen = elim (is_seen (r.table_key, r.object_key) seen) [
      | true ↦ reference record_name r.table_key r.object_key seen
      | false ↦ expand_fresh follow r seen
    ]

    module _ (link_name : ℤ → Answer String) (record_of : ℤ → ℤ → Answer (Record R D)) where
      -- `if expand_links and remaining_depth > 0`
      pub follow_link : Bool → ℕ → Follow R
      follow_link expand_links zero table object seen = reference link_name table object seen
      follow_link false (suc depth) table object seen = reference link_name table object seen
      follow_link true (suc depth) table object seen = do
        target ← record_of table object
        expand_record (follow_link true depth) target seen

      -- `_to_dict`
      unfoldable pub to_plain : Bool → ℕ → Record R D → Seen → Answer (Plain R × Seen)
      unfolding follow_link expand_record expand_fresh record_fields reference plain_value
      to_plain expand_links depth r seen = expand_record (follow_link expand_links depth) r seen

      -- `to_dict`
      unfoldable pub to_dict : Record R D → Bool → ℤ → Answer (Plain R)
      to_dict r expand_links (negsuc n) = raised (bad_value "max_depth must be at least 0")
      to_dict r expand_links (pos depth) = do
        (plain, after) ← to_plain expand_links depth r []
        answer plain
