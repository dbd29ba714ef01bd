-- ===== src/Reader/Schema/Faults.antt =====
-- The exceptions of the schema that `Realm.__init__` in src/pyrealm/reader.py builds.
use pyrealm.Prelude.{String, Option, none, some, List, [], ◌∷◌}
use pyrealm.Reader.{Fault, missing_key, type_fault, Answer, ◌>>=◌}
use pyrealm.Reader.Faults.{Only, Only-then}
use pyrealm.Reader.Schema.{
  PropertyRow, ClassRow, entry_of, argument, no_others, property_schema, property_schemas,
  table_schema, read_schema,
}

-- What a malformed dict of the native module leads to.
abbrev pub IsMalformed : Fault → Type 0
IsMalformed (missing_key key) = Unit
IsMalformed (type_fault e) = Unit
IsMalformed other = ⊥

entry_of-Only : {A : Type 0} (name : String) (o : Option A) → Only IsMalformed (entry_of name o)
entry_of-Only name none = tt
entry_of-Only name (some value) = tt

module _ (wrong_arguments : PropertyRow → String) where
  argument-Only :
      {A : Type 0} (row : PropertyRow) (o : Option A)
      → Only IsMalformed (argument wrong_arguments row o)
  argument-Only row none = tt
  argument-Only row (some value) = tt

  no_others-Only :
      (row : PropertyRow) (others : List String)
      → Only IsMalformed (no_others wrong_arguments row others)
  no_others-Only row [] = tt
  no_others-Only row (other ∷ others) = tt

  -- One argument before the rest.
  then_argument :
      {A B : Type 0} (row : PropertyRow) (o : Option A) (next : A → Answer B)
      → ((a : A) → Only IsMalformed (next a))
      → Only IsMalformed (argument wrong_arguments row o >>= next)
  then_argument row o next only =
      Only-then IsMalformed (argument wrong_arguments row o) next (argument-Only row o) only

  property_schema-Only :
      (row : PropertyRow) → Only IsMalformed (property_schema wrong_arguments row)
  unfolding property_schema
  property_schema-Only row =
      Only-then IsMalformed (no_others wrong_arguments row row.others) _
        (no_others-Only row row.others)
        (λ _. then_argument row row.name _ (λ name.
          then_argument row row.public_name _ (λ public_name. then_argument row row.key _ (λ key.
            then_argument row row.property_type _ (λ property_type.
              then_argument row row.collection _ (λ collection.
                then_argument row row.nullable _ (λ nullable.
                  then_argument row row.primary_key _ (λ primary_key.
                    then_argument row row.indexed _ (λ indexed.
                      then_argument row row.link_target _ (λ link_target.
                        then_argument row row.link_origin_property _ (λ origin. tt)))))))))))

  property_schemas-Only :
      (rows : List PropertyRow) → Only IsMalformed (property_schemas wrong_arguments rows)
  unfolding property_schemas
  property_schemas-Only [] = tt
  property_schemas-Only (row ∷ rows) =
      Only-then IsMalformed (property_schema wrong_arguments row) _ (property_schema-Only row)
        (λ property.
          Only-then IsMalformed (property_schemas wrong_arguments rows) _
            (property_schemas-Only rows) (λ properties. tt))

  -- One entry before the rest.
  then_entry :
      {A B : Type 0} (name : String) (o : Option A) (next : A → Answer B)
      → ((a : A) → Only IsMalformed (next a))
      → Only IsMalformed (entry_of name o >>= next)
  then_entry name o next only =
      Only-then IsMalformed (entry_of name o) next (entry_of-Only name o) only

  table_schema-Only : (row : ClassRow) → Only IsMalformed (table_schema wrong_arguments row)
  unfolding table_schema
  table_schema-Only row = then_entry "name" row.name _ (λ name. then_entry "key" row.key _ (λ key.
      then_entry "primary_key" row.primary_key _ (λ primary_key.
        then_entry "embedded" row.embedded _ (λ embedded.
          then_entry "asymmetric" row.asymmetric _ (λ asymmetric.
            then_entry "properties" row.properties _ (λ rows.
              Only-then IsMalformed (property_schemas wrong_arguments rows) _
                (property_schemas-Only rows) (λ properties. tt)))))))

  -- A schema that cannot be built raises a `KeyError` or a `TypeError`.
  pub read_schema-Only :
      (rows : List ClassRow) → Only IsMalformed (read_schema wrong_arguments rows)
  unfolding read_schema
  read_schema-Only [] = tt
  read_schema-Only (row ∷ rows) =
      Only-then IsMalformed (table_schema wrong_arguments row) _ (table_schema-Only row) (λ table.
        Only-then IsMalformed (read_schema wrong_arguments rows) _ (read_schema-Only rows)
          (λ tables. tt))
