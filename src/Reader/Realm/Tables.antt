-- ===== src/Reader/Realm/Tables.antt =====
-- The tables that a realm of src/pyrealm/reader.py finds by a name or a key.
use Prim.Native.String.{◌++◌ as ◌<>◌}
use text.Mathlib.Text.{◌==◌ as str_eq}
use pyrealm.Prelude.{
  ◌≡◌, ◌≢◌, ◌↔◌, ◌⊎◌, refl, ◌∙◌, ap, String, true, some, All, Option-cases, inl, inr,
}
use pyrealm.Prelude.Integers.{ℤ, int_eq}
use pyrealm.Reader.{realm_error, missing_key, answer, raised}
use pyrealm.Reader.Schema.{TableSchema, lookup, schema_by_name, schema_by_key}
use pyrealm.Reader.Schema.Lookup.{IsLatest, schema_by_name_lem, schema_by_key_lem}
use pyrealm.Reader.Realm.{Realm, unknown_table, name_of_key, link_owner, link_table_name, table}

module _ {R D : Type 0} (realm : Realm R D) where
  -- A table is answered for a name exactly if it is the last one of the schema with this name; if the
  -- schema has none, and only then, there is a `KeyError` that names it.
  pub table_lem :
      (name : String)
      → ((t : TableSchema)
          → (table realm name ≡ answer t) ↔ IsLatest (λ other. other.name) name realm.schema t)
        × ((table realm name ≡ raised (missing_key ("Realm table not found: " <> name)))
            ↔ All (λ (other : TableSchema). other.name ≢ name) realm.schema)
  unfolding table
  table_lem name =
      let (found, absent) = schema_by_name_lem name realm.schema in
      elim (Option-cases (lookup str_eq name (schema_by_name realm.schema))) [
        | inl e ↦
            rw (e, table)
              (λ t. (λ h. cc, λ latest. cc (e, (found t).1 latest)), (λ h. absent.0 e, λ h. refl))
        | inr (there, e) ↦
            rw (e, table)
              (
                λ t. (
                  λ h. (found t).0 (e ∙ ap some (let same : there ≡ t = cc in same)),
                  λ latest. ap answer (let same : there ≡ t = cc (e, (found t).1 latest) in same),
                ),
                (λ h. cc, λ h. cc (e, absent.1 h)),
              )
      ]

  -- A link names the last table of the schema with its table key, or raises a `RealmError` if the schema
  -- has none, as long as its realm is there.
  pub link_table_name_lem :
      (key : ℤ)
      → ((t : TableSchema) × IsLatest (λ other. other.key) key realm.schema t
          × (link_table_name true realm key ≡ answer t.name))
        ⊎ (All (λ (other : TableSchema). other.key ≢ key) realm.schema
            × (link_table_name true realm key ≡ raised (realm_error (unknown_table "link" key))))
  unfolding link_table_name link_owner name_of_key
  link_table_name_lem key =
      let (found, absent) = schema_by_key_lem key realm.schema in
      elim (Option-cases (lookup int_eq key (schema_by_key realm.schema))) [
        | inl e ↦ inr (absent.0 e, rw (e, name_of_key) refl)
        | inr (t, e) ↦ inl (t, (found t).0 e, rw (e, name_of_key) refl)
      ]
