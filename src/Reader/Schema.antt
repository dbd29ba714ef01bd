-- ===== src/Reader/Schema.antt =====
-- src/pyrealm/reader.py, `PropertySchema`, `TableSchema` and the schema that `Realm.__init__` builds
-- from the dicts of the native module, with the two dicts of its tables.
pub mod Lookup
pub mod Faults
use Prim.Native.String.{◌++◌ as ◌<>◌}
use text.Mathlib.Text.{◌==◌ as str_eq}
use pyrealm.Prelude.{
  String, Bool, true, false, Option, none, some, List, [], ◌∷◌, ◌++◌, map, if◌then◌else◌,
}
use pyrealm.Prelude.Integers.{ℤ, int_eq}
use pyrealm.Reader.{missing_key, type_fault, Answer, answer, raised, ◌>>=◌}

-- A dict of a property as it comes from the native module: what it has under the names of the fields,
-- each of which may be missing, and the other names that it has.
pub record PropertyRow : Type 0 where
  pub name : Option String
  pub public_name : Option (Option String)
  pub key : Option ℤ
  pub property_type : Option String
  pub collection : Option String
  pub nullable : Option Bool
  pub primary_key : Option Bool
  pub indexed : Option Bool
  pub link_target : Option (Option String)
  pub link_origin_property : Option (Option String)
  pub others : List String

pub record PropertySchema : Type 0 where
  pub name : String
  pub public_name : Option String
  pub key : ℤ
  pub property_type : String
  pub collection : String
  pub nullable : Bool
  pub primary_key : Bool
  pub indexed : Bool
  pub link_target : Option String
  pub link_origin_property : Option String

-- A dict of a class; a name that is not asked for is not kept here.
pub record ClassRow : Type 0 where
  pub name : Option String
  pub key : Option ℤ
  pub primary_key : Option (Option String)
  pub embedded : Option Bool
  pub asymmetric : Option Bool
  pub properties : Option (List PropertyRow)

pub record TableSchema : Type 0 where
  pub name : String
  pub key : ℤ
  pub primary_key : Option String
  pub embedded : Bool
  pub asymmetric : Bool
  pub properties : List PropertySchema

-- `item[name]`
abbrev pub entry_of : {A : Type 0} → String → Option A → Answer A
entry_of name none = raised (missing_key name)
entry_of name (some value) = answer value

-- `PropertySchema(**prop)`, whose `TypeError` has the text `wrong_arguments`.
module _ (wrong_arguments : PropertyRow → String) where
  abbrev pub argument : {A : Type 0} → PropertyRow → Option A → Answer A
  argument row none = raised (type_fault (wrong_arguments row))
  argument row (some value) = answer value

  abbrev pub no_others : PropertyRow → List String → Answer (List String)
  no_others row [] = answer []
  no_others row (other ∷ others) = raised (type_fault (wrong_arguments row))

  unfoldable pub property_schema : PropertyRow → Answer PropertySchema
  property_schema row = do
    others ← no_others row row.others
    name ← argument row row.name
    public_name ← argument row row.public_name
    key ← argument row row.key
    property_type ← argument row row.property_type
    collection ← argument row row.collection
    nullable ← argument row row.nullable
    primary_key ← argument row row.primary_key
    indexed ← argument row row.indexed
    link_target ← argument row row.link_target
    link_origin_property ← argument row row.link_origin_property
    answer record {
      name = name;
      public_name = public_name;
      key = key;
      property_type = property_type;
      collection = collection;
      nullable = nullable;
      primary_key = primary_key;
      indexed = indexed;
      link_target = link_target;
      link_origin_property = link_origin_property;
    }

  unfoldable pub property_schemas : List PropertyRow → Answer (List PropertySchema)
  property_schemas [] = answer []
  property_schemas (row ∷ rows) = do
    property ← property_schema row
    properties ← property_schemas rows
    answer (property ∷ properties)

  unfoldable pub table_schema : ClassRow → Answer TableSchema
  table_schema row = do
    name ← entry_of "name" row.name
    key ← entry_of "key" row.key
    primary_key ← entry_of "primary_key" row.primary_key
    embedded ← entry_of "embedded" row.embedded
    asymmetric ← entry_of "asymmetric" row.asymmetric
    rows ← entry_of "properties" row.properties
    properties ← property_schemas rows
    answer record {
      name = name;
      key = key;
      primary_key = primary_key;
      embedded = embedded;
      asymmetric = asymmetric;
      properties = properties;
    }

  unfoldable pub read_schema : List ClassRow → Answer (List TableSchema)
  read_schema [] = answer []
  read_schema (row ∷ rows) = do
    table ← table_schema row
    tables ← read_schema rows
    answer (table ∷ tables)

-- `table_names`
abbrev pub table_names : List TableSchema → List String
table_names tables = map (λ (table : TableSchema). table.name) tables

-- A dict with the tables under their keys, in insertion order, over an equality of the keys.
module _ {K : Type 0} (same : K → K → Bool) where
  -- `d[key] = table`
  unfoldable pub assign : K → TableSchema → List (K × TableSchema) → List (K × TableSchema)
  assign key table [] = (key, table) ∷ []
  assign key table ((other, there) ∷ d) =
      let rest = assign key table d in
      if same other key then (other, table) ∷ d else (other, there) ∷ rest

  abbrev pub lookup : K → List (K × TableSchema) → Option TableSchema
  lookup key [] = none
  lookup key ((other, table) ∷ d) = if same other key then some table else lookup key d

  -- `{key_of(item): item for item in schema}`, from a dict on.
  unfoldable pub index_from :
      (TableSchema → K) → List TableSchema → List (K × TableSchema) → List (K × TableSchema)
  index_from key_of [] d = d
  index_from key_of (table ∷ tables) d = index_from key_of tables (assign (key_of table) table d)

-- `_schema_by_name`
abbrev pub schema_by_name : List TableSchema → List (String × TableSchema)
schema_by_name tables = index_from str_eq (λ table. table.name) tables []

-- `_schema_by_key`
abbrev pub schema_by_key : List TableSchema → List (ℤ × TableSchema)
schema_by_key tables = index_from int_eq (λ table. table.key) tables []
