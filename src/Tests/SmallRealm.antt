-- ===== src/Tests/SmallRealm.antt =====
-- A realm with one table, whose records have a name and a link to the record 1, 2.

use pyrealm.Prelude.{ℕ, String, ◌≡◌, refl, Bool, true, false, none, some, [], ◌∷◌}
use pyrealm.Prelude.Integers.{pos}
use pyrealm.Reader.{native_error, answer, raised}
use pyrealm.Reader.Records.{Record, get_item}
use pyrealm.Reader.Schema.{
  PropertyRow, ClassRow, TableSchema, property_schema, property_schemas, table_schema, read_schema,
}
use pyrealm.Reader.Realm.{Native, Realm, new_realm}
use pyrealm.Reader.Realm.Requests.States.{IsImmutable}
use pyrealm.Tests.Natives.{codec, native, one_record, native-HasKeys}

abbrev pub name_row : PropertyRow
name_row = record {
  name = some "name";
  public_name = some none;
  key = some (pos 0);
  property_type = some "string";
  collection = some "none";
  nullable = some false;
  primary_key = some true;
  indexed = some true;
  link_target = some none;
  link_origin_property = some none;
  others = [];
}

abbrev pub person_row : ClassRow
person_row = record {
  name = some "Person";
  key = some (pos 1);
  primary_key = some (some "name");
  embedded = some false;
  asymmetric = some false;
  properties = some (name_row ∷ []);
}

abbrev pub person : TableSchema
person = record {
  name = "Person";
  key = pos 1;
  primary_key = some "name";
  embedded = false;
  asymmetric = false;
  properties =
      record {
        name = "name";
        public_name = none;
        key = pos 0;
        property_type = "string";
        collection = "none";
        nullable = false;
        primary_key = true;
        indexed = true;
        link_target = none;
        link_origin_property = none;
      }
      ∷ [];
}

abbrev pub wrong_arguments : PropertyRow → String
wrong_arguments row = "wrong arguments"

-- The results of a query are their number; their records are those of the table 1.
abbrev pub native_realm : Bool → Native ℕ ℕ ℕ
native_realm closed = record {
  schema = answer (person_row ∷ []);
  count = λ name. answer 2;
  all = λ name. answer 2;
  query = λ name query parameters. raised (native_error "parse Realm query");
  record_at = native;
  size = λ count. answer count;
  item = λ count index. native (pos 1) index;
  close = answer tt;
}

pub native_realm-IsImmutable : IsImmutable codec native_realm
native_realm-IsImmutable = record {
  keyed = native-HasKeys;
  backed = λ closed table_key object_key raw e. e;
  listed_record = λ closed listing index raw e. (pos 1, index, e);
}

abbrev pub start : Realm ℕ ℕ
start = record { path = "in.realm"; schema = person ∷ []; closed = false; cache = [] }

pub started : new_realm native_realm wrong_arguments "in.realm" ≡ answer start
unfolding new_realm read_schema table_schema property_schemas property_schema
started = refl

abbrev pub read_record : Record ℕ ℕ
read_record = (get_item codec true one_record "name").1
