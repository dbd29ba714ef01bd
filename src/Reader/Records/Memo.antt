-- ===== src/Reader/Records/Memo.antt =====
-- `Record.__getitem__` in src/pyrealm/reader.py, beside a record that keeps nothing.
use text.Mathlib.TextEquality.{eq_iff}
use text.Mathlib.Text.{◌==◌ as str_eq}
use pyrealm.Prelude.{
  String, ◌≡◌, refl, subst, sym, ap, ◌∙◌, Option, none, some, Bool, true, ◌∷◌, Bool-cases, inl, inr,
  ◌⊎◌,
}
use pyrealm.Reader.{
  Codec, Raw, Value, Fault, missing_key, Answer, answer, raised, Mapping, field_at,
}
use pyrealm.Reader.Convert.{convert}
use pyrealm.Reader.Records.{
  Record, decode, remember, convert_owned, convert_field, kept_or_converted, get_item,
}

pub Answer-cases :
    {A : Type 0} (asked : Answer A)
    → ((a : A) × (asked ≡ answer a)) ⊎ ((fault : Fault) × (asked ≡ raised fault))
Answer-cases (answer a) = inl (a, refl)
Answer-cases (raised fault) = inr (fault, refl)

module _ {R D : Type 0} (codec : Codec R D) where
  -- A field as a record that keeps nothing reads it.
  abbrev pub value_of : String → Option (Raw R) → Answer (Value R D)
  value_of key none = raised (missing_key key)
  value_of key (some raw) = decode codec key (convert codec raw)

  abbrev pub field_of : Mapping (Raw R) → String → Answer (Value R D)
  field_of raw key = value_of key (field_at key raw)

  -- What is kept is what would be read.
  abbrev pub IsMemo : Record R D → Type 0
  IsMemo r =
      (key : String) (value : Value R D)
      → field_at key r.converted ≡ some value
      → field_of r.raw key ≡ answer value

  -- What reading a field does.
  pub record IsRead (r : Record R D) (key : String) (asked : Answer (Value R D))
      (after : Record R D) : Type 0 where
    pub value : asked ≡ field_of r.raw key
    pub memo : IsMemo after
    pub same_raw : after.raw ≡ r.raw
    pub same_table : after.table_key ≡ r.table_key
    pub same_object : after.object_key ≡ r.object_key

  remember-IsRead :
      (r : Record R D) (key : String) (asked : Answer (Value R D))
      → IsMemo r
      → asked ≡ field_of r.raw key
      → IsRead r key (remember codec r key asked).0 (remember codec r key asked).1
  unfolding remember
  remember-IsRead r key (raised fault) memo e = record {
    value = e;
    memo = memo;
    same_raw = refl;
    same_table = refl;
    same_object = refl;
  }
  remember-IsRead r key (answer value) memo e = record {
    value = e;
    memo = kept;
    same_raw = refl;
    same_table = refl;
    same_object = refl;
  }
    where
      kept : IsMemo (record r { converted = (key, value) ∷ r.converted })
      kept name found h = elim (Bool-cases (str_eq key name)) [
        | inl same ↦
            let here : value ≡ found = cc (rw same at h) in
            subst (λ k. field_of r.raw k ≡ answer found) ((eq_iff key name).0 same)
              (sym e ∙ ap answer here)
        | inr other ↦ memo name found (rw other at h)
      ]

  convert_field-IsRead :
      (r : Record R D) (key : String) (o : Option (Raw R))
      → IsMemo r
      → field_at key r.raw ≡ o
      → IsRead r key (convert_field codec true r key o).0 (convert_field codec true r key o).1
  unfolding convert_field convert_owned
  convert_field-IsRead r key none memo e = record {
    value = sym (ap (value_of key) e);
    memo = memo;
    same_raw = refl;
    same_table = refl;
    same_object = refl;
  }
  convert_field-IsRead r key (some raw) memo e =
      remember-IsRead r key _ memo (sym (ap (value_of key) e))

  kept_or_converted-IsRead :
      (r : Record R D) (key : String) (o : Option (Value R D))
      → IsMemo r
      → field_at key r.converted ≡ o
      → IsRead r key
          (kept_or_converted codec true r key o).0
          (kept_or_converted codec true r key o).1
  unfolding kept_or_converted
  kept_or_converted-IsRead r key none memo e =
      convert_field-IsRead r key (field_at key r.raw) memo refl
  kept_or_converted-IsRead r key (some value) memo e = record {
    value = sym (memo key value e);
    memo = memo;
    same_raw = refl;
    same_table = refl;
    same_object = refl;
  }

  -- Reading a field of a record whose realm is still there gives what a record that keeps nothing gives,
  -- whatever was read before, and the record keeps its identity, its fields and the agreement of what it
  -- keeps with them. This supposes that what it kept before agrees with its fields.
  pub get_item-IsRead :
      (r : Record R D) (key : String)
      → IsMemo r
      → IsRead r key (get_item codec true r key).0 (get_item codec true r key).1
  unfolding get_item
  get_item-IsRead r key memo = kept_or_converted-IsRead r key (field_at key r.converted) memo refl

  -- A value that was answered is kept.
  abbrev Keeps : String → Value R D → Answer (Value R D) × Record R D → Type 0
  Keeps key value outcome =
      outcome.0 ≡ answer value → field_at key (outcome.1).converted ≡ some value

  remember-Keeps :
      (r : Record R D) (key : String) (value : Value R D) (asked : Answer (Value R D))
      → Keeps key value (remember codec r key asked)
  unfolding remember
  remember-Keeps r key value (answer found) h =
      rw ((eq_iff key key).1 refl) (let same : found ≡ value = cc in ap some same)
  remember-Keeps r key value (raised fault) h = cc

  get_item-Keeps :
      (alive : Bool) (r : Record R D) (key : String) (value : Value R D)
      → Keeps key value (get_item codec alive r key)
  unfolding get_item
  get_item-Keeps alive r key value = kept_or_converted-Keeps (field_at key r.converted) refl
    where
      convert_field-Keeps :
          (o : Option (Raw R)) → Keeps key value (convert_field codec alive r key o)
      convert_field-Keeps none h = cc
      convert_field-Keeps (some raw) h = remember-Keeps r key value _ h

      kept_or_converted-Keeps :
          (o : Option (Value R D))
          → field_at key r.converted ≡ o
          → Keeps key value (kept_or_converted codec alive r key o)
      kept_or_converted-Keeps none e h = convert_field-Keeps (field_at key r.raw) h
      kept_or_converted-Keeps (some found) e h = let same : found ≡ value = cc in e ∙ ap some same

  -- A field that was read with an answer is read with the same answer ever after, and the record stays
  -- as it is, also when its realm was released.
  pub get_item-again :
      (before alive : Bool) (r : Record R D) (key : String) (value : Value R D)
      → (get_item codec before r key).0 ≡ answer value
      → get_item codec alive (get_item codec before r key).1 key
        ≡ (answer value, (get_item codec before r key).1)
  unfolding get_item kept_or_converted
  get_item-again before alive r key value h =
      ap (kept_or_converted codec alive (get_item codec before r key).1 key)
        (get_item-Keeps before r key value h)
