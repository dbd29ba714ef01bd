-- ===== src/Reader/Schema/Lookup.antt =====
-- The tables of `Realm._schema_by_name` and `Realm._schema_by_key` in src/pyrealm/reader.py.
use text.Mathlib.Text.{◌==◌ as str_eq}
use text.Mathlib.TextEquality.{eq_iff}
use pyrealm.Prelude.{
  ◌≡◌, ◌≢◌, ◌↔◌, refl, sym, ◌∙◌, ap, subst, String, Bool, true, false, Option, none, some, List, [],
  ◌∷◌, ◌++◌, if◌then◌else◌, All, Bool-cases, Option-cases, inl, inr,
}
use pyrealm.Prelude.Integers.{ℤ, int_eq, int_eq_refl, eq_of_int_eq}
use pyrealm.Reader.Schema.{TableSchema, assign, lookup, index_from, schema_by_name, schema_by_key}

-- The Boolean test decides equality.
abbrev IsEquality : {K : Type 0} → (K → K → Bool) → Type 0
IsEquality {K} same = (a b : K) → (same a b ≡ true) ↔ (a ≡ b)

str_eq-IsEquality : IsEquality str_eq
str_eq-IsEquality a b = ((eq_iff a b).0, (eq_iff a b).1)

int_eq-IsEquality : IsEquality int_eq
int_eq-IsEquality a b = (eq_of_int_eq a b, λ e. subst (λ c. int_eq a c ≡ true) e (int_eq_refl a))

-- The last table of a schema with a key.
pub record IsLatest {K : Type 0} (key_of : TableSchema → K) (key : K) (tables : List TableSchema)
    (table : TableSchema) : Type 0 where
  pub before : List TableSchema
  pub after : List TableSchema
  pub there : tables ≡ before ++ table ∷ after
  pub keyed : key_of table ≡ key
  pub latest : All (λ (other : TableSchema). key_of other ≢ key) after

-- A choice between a table and an earlier one.
abbrev or_earlier : Option TableSchema → Option TableSchema → Option TableSchema
or_earlier none earlier = earlier
or_earlier (some table) earlier = some table

or_earlier_assoc :
    (a b c : Option TableSchema) → or_earlier (or_earlier a b) c ≡ or_earlier a (or_earlier b c)
or_earlier_assoc none b c = refl
or_earlier_assoc (some table) b c = refl

module _ {K : Type 0} (same : K → K → Bool) (lawful : IsEquality same) (key_of : TableSchema → K)
    (key : K) where
  abbrev if_keyed : TableSchema → Option TableSchema
  if_keyed table = if same (key_of table) key then some table else none

  abbrev find_last : List TableSchema → Option TableSchema
  find_last [] = none
  find_last (table ∷ tables) = or_earlier (find_last tables) (if_keyed table)

  lookup-assign :
      (table : TableSchema) (d : List (K × TableSchema))
      → lookup same key (assign same (key_of table) table d)
        ≡ or_earlier (if_keyed table) (lookup same key d)
  unfolding assign
  lookup-assign table [] = elim (Bool-cases (same (key_of table) key)) [
    | inl e ↦ rw e refl
    | inr e ↦ rw e refl
  ]
  lookup-assign table ((other, there) ∷ d) = elim (Bool-cases (same other (key_of table))) [
    | inl e ↦
        let eq = (lawful other (key_of table)).0 e in
        rw (e, eq)
          (elim (Bool-cases (same (key_of table) key)) [ inl f ↦ rw f refl | inr f ↦ rw f refl ])
    | inr e ↦ rw e (elim (Bool-cases (same other key)) [
      | inl f ↦
          let differs : same (key_of table) key ≡ false =
            elim (Bool-cases (same (key_of table) key)) [
              | inl g ↦
                  let eq : other ≡ key_of table =
                    (lawful other key).0 f ∙ sym ((lawful (key_of table) key).0 g) in
                  cc ((lawful other (key_of table)).1 eq, e)
              | inr g ↦ g
            ] in
          rw (f, differs) refl
      | inr f ↦ rw f (lookup-assign table d)
    ])
  ]

  lookup-index_from :
      (tables : List TableSchema) (d : List (K × TableSchema))
      → lookup same key (index_from same key_of tables d)
        ≡ or_earlier (find_last tables) (lookup same key d)
  unfolding index_from
  lookup-index_from [] d = refl
  lookup-index_from (table ∷ tables) d =
      lookup-index_from tables (assign same (key_of table) table d)
      ∙ ap (or_earlier (find_last tables)) (lookup-assign table d)
      ∙ sym (or_earlier_assoc (find_last tables) (if_keyed table) (lookup same key d))

  find_last-none :
      (tables : List TableSchema)
      → find_last tables ≡ none
      → All (λ (other : TableSchema). key_of other ≢ key) tables
  find_last-none [] h = tt
  find_last-none (table ∷ tables) h = elim (Option-cases (find_last tables)) [
    | inr (found, e) ↦ cc (rw e at h)
    | inl e ↦ elim (Bool-cases (same (key_of table) key)) [
      | inl f ↦ cc (rw (e, f) at h)
      | inr f ↦ (λ eq. cc ((lawful (key_of table) key).1 eq, f), find_last-none tables e)
    ]
  ]

  find_last-absent :
      (tables : List TableSchema)
      → All (λ (other : TableSchema). key_of other ≢ key) tables
      → find_last tables ≡ none
  find_last-absent [] h = refl
  find_last-absent (table ∷ tables) (differs, others) =
      rw (find_last-absent tables others) (elim (Bool-cases (same (key_of table) key)) [
        | inl f ↦ absurd (differs ((lawful (key_of table) key).0 f))
        | inr f ↦ rw f refl
      ])

  find_last-IsLatest :
      (tables : List TableSchema) (table : TableSchema)
      → find_last tables ≡ some table
      → IsLatest key_of key tables table
  find_last-IsLatest [] table h = cc
  find_last-IsLatest (first ∷ tables) table h = elim (Option-cases (find_last tables)) [
    | inr (found, e) ↦
        let same_one : found ≡ table = cc (rw e at h) in
        let rest = find_last-IsLatest tables table (e ∙ ap some same_one) in
        record {
          before = first ∷ rest.before;
          after = rest.after;
          there = ap (λ (others : List TableSchema). first ∷ others) rest.there;
          keyed = rest.keyed;
          latest = rest.latest;
        }
    | inl e ↦ elim (Bool-cases (same (key_of first) key)) [
      | inl f ↦
          let same_one : first ≡ table = cc (rw (e, f) at h) in
          subst (IsLatest key_of key (first ∷ tables)) same_one record {
            before = [];
            after = tables;
            there = refl;
            keyed = (lawful (key_of first) key).0 f;
            latest = find_last-none tables e;
          }
      | inr f ↦ cc (rw (e, f) at h)
    ]
  ]

  find_last-append :
      (before after : List TableSchema) (table : TableSchema)
      → key_of table ≡ key
      → All (λ (other : TableSchema). key_of other ≢ key) after
      → find_last (before ++ table ∷ after) ≡ some table
  find_last-append [] after table keyed latest =
      rw (find_last-absent after latest, (lawful (key_of table) key).1 keyed) refl
  find_last-append (first ∷ before) after table keyed latest =
      rw (find_last-append before after table keyed latest) refl

  or_earlier-none : (o : Option TableSchema) → or_earlier o none ≡ o
  or_earlier-none none = refl
  or_earlier-none (some table) = refl

  lookup-IsLatest_iff :
      (tables : List TableSchema) (table : TableSchema)
      → (lookup same key (index_from same key_of tables []) ≡ some table)
        ↔ IsLatest key_of key tables table
  lookup-IsLatest_iff tables table =
      let whole = lookup-index_from tables [] ∙ or_earlier-none (find_last tables) in
      (
        λ h. find_last-IsLatest tables table (sym whole ∙ h),
        λ latest.
            whole
            ∙ ap find_last latest.there
            ∙ find_last-append latest.before latest.after table latest.keyed latest.latest,
      )

  lookup-absent_iff :
      (tables : List TableSchema)
      → (lookup same key (index_from same key_of tables []) ≡ none)
        ↔ All (λ (other : TableSchema). key_of other ≢ key) tables
  lookup-absent_iff tables =
      let whole = lookup-index_from tables [] ∙ or_earlier-none (find_last tables) in
      (λ h. find_last-none tables (sym whole ∙ h), λ absent. whole ∙ find_last-absent tables absent)

-- The table under a name is the last table of the schema with this name, and a name is missing exactly
-- if no table has it.
pub schema_by_name_lem :
    (name : String) (tables : List TableSchema)
    → ((table : TableSchema)
        → (lookup str_eq name (schema_by_name tables) ≡ some table)
          ↔ IsLatest (λ other. other.name) name tables table)
      × ((lookup str_eq name (schema_by_name tables) ≡ none)
          ↔ All (λ (other : TableSchema). other.name ≢ name) tables)
schema_by_name_lem name tables = (
  lookup-IsLatest_iff str_eq str_eq-IsEquality (λ other. other.name) name tables,
  lookup-absent_iff str_eq str_eq-IsEquality (λ other. other.name) name tables,
)

-- The table under a key is the last table of the schema with this key, and a key is missing exactly if
-- no table has it.
pub schema_by_key_lem :
    (key : ℤ) (tables : List TableSchema)
    → ((table : TableSchema)
        → (lookup int_eq key (schema_by_key tables) ≡ some table)
          ↔ IsLatest (λ other. other.key) key tables table)
      × ((lookup int_eq key (schema_by_key tables) ≡ none)
          ↔ All (λ (other : TableSchema). other.key ≢ key) tables)
schema_by_key_lem key tables = (
  lookup-IsLatest_iff int_eq int_eq-IsEquality (λ other. other.key) key tables,
  lookup-absent_iff int_eq int_eq-IsEquality (λ other. other.key) key tables,
)
