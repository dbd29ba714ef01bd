-- ===== src/Tests/Natives.antt =====
-- A native module in which each record has a name and a link to the record 1, 2.
use pyrealm.Prelude.{ℕ, String, ◌≡◌, refl, subst, Option, some, [], ◌∷◌}
use pyrealm.Prelude.Integers.{ℤ, pos}
use pyrealm.Reader.{Raw, Codec, Values, raw_int, raw_text, native_link, Answer, answer, Mapping}
use pyrealm.Reader.Records.{Record, record_identity, fresh_record}
use pyrealm.Reader.Cache.Coherent.{HasKeys}

abbrev pub parse_number : String → Option ℕ
parse_number s = some 7

abbrev pub plain_repr : String → String
plain_repr s = s

-- The items of a set in the order in which they came.
abbrev pub same_items : Values ℕ ℕ → Values ℕ ℕ
same_items values = values

abbrev pub codec : Codec ℕ ℕ
codec = record { parse_decimal = parse_number; repr = plain_repr; frozen = same_items }

abbrev pub stored_fields : ℤ → ℤ → Mapping (Raw ℕ)
stored_fields table object =
    ("__table_key__", raw_int table)
    ∷ ("__object_key__", raw_int object)
    ∷ ("name", raw_text "a")
    ∷ ("next", native_link (pos 1) (pos 2))
    ∷ []

abbrev pub native : ℤ → ℤ → Answer (Mapping (Raw ℕ))
native table object = answer (stored_fields table object)

abbrev pub one_record : Record ℕ ℕ
one_record = fresh_record (pos 1, pos 2) (stored_fields (pos 1) (pos 2))

pub native-HasKeys : HasKeys codec native
unfolding record_identity
native-HasKeys table object raw h =
    let same : stored_fields table object ≡ raw = cc in
    subst (λ fields. record_identity fields ≡ answer (table, object)) same refl
