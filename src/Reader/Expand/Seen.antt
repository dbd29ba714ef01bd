-- ===== src/Reader/Expand/Seen.antt =====
-- The set `seen` of `Record._to_dict` in src/pyrealm/reader.py.
use pyrealm.Prelude.{
  ℕ, zero, suc, String, ◌≡◌, refl, sym, ap, ◌∙◌, subst, Bool, true, false, List, [], ◌∷◌,
  Bool-cases, inl, inr,
}
use pyrealm.Prelude.Integers.{ℤ, int_eq_refl}
use pyrealm.Bytes.{Bytes}
use pyrealm.Reader.{
  Value, no_value, boolean, integer, real, string, binary, uuid, link, timestamp, object_id,
  decimal, tuple, frozen_set, dict, Values, no_values, more_values, ValueFields, no_fields,
  more_fields, Answer, answer, raised, ◌>>=◌, Identity, same_identity,
}
use pyrealm.Reader.Records.{Record}
use pyrealm.Reader.Expand.{
  plain_dict, Seen, is_seen, remove_seen, names, Follow, plain_value, plain_items, plain_fields,
  reference, record_fields, expand_fresh, expand_record, follow_link, to_plain,
}

same_identity_refl : (a : Identity) → same_identity a a ≡ true
same_identity_refl (a, b) = rw (int_eq_refl a, int_eq_refl b) refl

-- Whatever is returned, `seen` is returned with it as it was.
abbrev pub Restores : {A : Type 0} → Seen → Answer (A × Seen) → Type 0
Restores seen (answer (a, after)) = after ≡ seen
Restores seen (raised fault) = Unit

-- One action after another that restores.
Restores-then :
    {A B : Type 0} (seen : Seen) (asked : Answer (A × Seen)) (next : A × Seen → Answer (B × Seen))
    → Restores seen asked
    → ((a : A) → Restores seen (next (a, seen)))
    → Restores seen (asked >>= next)
Restores-then seen (raised fault) next h k = tt
Restores-then seen (answer (a, after)) next h k =
    subst (λ s. Restores seen (next (a, s))) (sym h) (k a)

Restores-after :
    {A B : Type 0} (seen : Seen) (asked : Answer A) (next : A → Answer (B × Seen))
    → ((a : A) → Restores seen (next a))
    → Restores seen (asked >>= next)
Restores-after seen (raised fault) next k = tt
Restores-after seen (answer a) next k = k a

-- Behind the comprehension the record is taken out again.
removed :
    {A B : Type 0} (identity : Identity) (seen : Seen) (asked : Answer (A × Seen)) (f : A → B)
    → Restores (identity ∷ seen) asked
    → Restores seen (asked >>= λ (a, after). answer (f a, remove_seen identity after))
removed identity seen (raised fault) f h = tt
removed identity seen (answer (a, after)) f h =
    ap (remove_seen identity) h ∙ rw (same_identity_refl identity) refl

reference-Restores :
    (R : Type 0) (table_name : ℤ → Answer String) (table object : ℤ) (seen : Seen)
    → Restores seen (reference {R = R} table_name table object seen)
unfolding reference
reference-Restores R table_name table object seen =
    Restores-after seen (table_name table) _ (λ name. refl)

module _ {R D : Type 0} (decimal_text : D → String) (base64 : Bytes → String) where
  abbrev FollowRestores : Follow R → Type 0
  FollowRestores follow =
      (table object : ℤ) (seen : Seen) → Restores seen (follow table object seen)

  mutual
    unfolding plain_value

    plain_value-Restores :
        (follow : Follow R)
        → FollowRestores follow
        → (value : Value R D) (seen : Seen)
        → Restores seen (plain_value decimal_text base64 follow value seen)
    plain_value-Restores follow f no_value seen = refl
    plain_value-Restores follow f (boolean b) seen = refl
    plain_value-Restores follow f (integer n) seen = refl
    plain_value-Restores follow f (real x) seen = refl
    plain_value-Restores follow f (string s) seen = refl
    plain_value-Restores follow f (binary bs) seen = refl
    plain_value-Restores follow f (uuid s) seen = refl
    plain_value-Restores follow f (link table object) seen = f table object seen
    plain_value-Restores follow f (timestamp a b) seen = refl
    plain_value-Restores follow f (object_id s) seen = refl
    plain_value-Restores follow f (decimal d) seen = refl
    plain_value-Restores follow f (tuple values) seen =
        Restores-then seen (plain_items decimal_text base64 follow values seen) _
          (plain_items-Restores follow f values seen) (λ a. refl)
    plain_value-Restores follow f (frozen_set values) seen =
        Restores-then seen (plain_items decimal_text base64 follow values seen) _
          (plain_items-Restores follow f values seen) (λ a. refl)
    plain_value-Restores follow f (dict fields) seen =
        Restores-then seen (plain_fields decimal_text base64 follow fields seen) _
          (plain_fields-Restores follow f fields seen) (λ a. refl)

    plain_items-Restores :
        (follow : Follow R)
        → FollowRestores follow
        → (values : Values R D) (seen : Seen)
        → Restores seen (plain_items decimal_text base64 follow values seen)
    plain_items-Restores follow f no_values seen = refl
    plain_items-Restores follow f (more_values value values) seen =
        Restores-then seen (plain_value decimal_text base64 follow value seen) _
          (plain_value-Restores follow f value seen)
          (λ a.
            Restores-then seen (plain_items decimal_text base64 follow values seen) _
              (plain_items-Restores follow f values seen) (λ b. refl))

    plain_fields-Restores :
        (follow : Follow R)
        → FollowRestores follow
        → (fields : ValueFields R D) (seen : Seen)
        → Restores seen (plain_fields decimal_text base64 follow fields seen)
    plain_fields-Restores follow f no_fields seen = refl
    plain_fields-Restores follow f (more_fields key value fields) seen =
        Restores-then seen (plain_value decimal_text base64 follow value seen) _
          (plain_value-Restores follow f value seen)
          (λ a.
            Restores-then seen (plain_fields decimal_text base64 follow fields seen) _
              (plain_fields-Restores follow f fields seen) (λ b. refl))

  module _ (item : Record R D → String → Answer (Value R D)) (record_name : ℤ → Answer String) where
    record_fields-Restores :
        (follow : Follow R)
        → FollowRestores follow
        → (r : Record R D) (keys : List String) (seen : Seen)
        → Restores seen (record_fields decimal_text base64 item record_name follow r keys seen)
    unfolding record_fields
    record_fields-Restores follow f r [] seen = refl
    record_fields-Restores follow f r (key ∷ keys) seen =
        Restores-after seen (item r key) _ (λ value.
          Restores-then seen (plain_value decimal_text base64 follow value seen) _
            (plain_value-Restores follow f value seen)
            (λ plain.
              Restores-then seen
                (record_fields decimal_text base64 item record_name follow r keys seen) _
                (record_fields-Restores follow f r keys seen) (λ plains. refl)))

    expand_record-Restores :
        (follow : Follow R)
        → FollowRestores follow
        → (r : Record R D) (seen : Seen)
        → Restores seen (expand_record decimal_text base64 item record_name follow r seen)
    unfolding expand_record expand_fresh
    expand_record-Restores follow f r seen =
        elim (Bool-cases (is_seen (r.table_key, r.object_key) seen)) [
          | inl there ↦
              rw (there, expand_record)
                (reference-Restores R record_name r.table_key r.object_key seen)
          | inr fresh ↦
              rw (fresh, expand_record)
                (removed (r.table_key, r.object_key) seen _ plain_dict
                  (record_fields-Restores follow f r (names r.raw)
                    ((r.table_key, r.object_key) ∷ seen)))
        ]

    module _ (link_name : ℤ → Answer String) (record_of : ℤ → ℤ → Answer (Record R D)) where
      follow_link-Restores :
          (expand_links : Bool) (depth : ℕ)
          → FollowRestores (
              follow_link decimal_text base64 item record_name link_name record_of expand_links
                depth)
      unfolding follow_link
      follow_link-Restores expand_links zero table object seen =
          reference-Restores R link_name table object seen
      follow_link-Restores false (suc depth) table object seen =
          reference-Restores R link_name table object seen
      follow_link-Restores true (suc depth) table object seen =
          Restores-after seen (record_of table object) _ (λ target.
            expand_record-Restores
              (follow_link decimal_text base64 item record_name link_name record_of true depth)
              (follow_link-Restores true depth) target seen)

      -- Converting a record to plain values, with links expanded or not and to any depth, leaves the set
      -- of the records around it as it was, whenever it returns.
      pub to_plain-Restores :
          (expand_links : Bool) (depth : ℕ) (r : Record R D) (seen : Seen)
          → Restores seen (
              to_plain decimal_text base64 item record_name link_name record_of expand_links depth r
                seen)
      unfolding to_plain
      to_plain-Restores expand_links depth r seen =
          expand_record-Restores
            (follow_link decimal_text base64 item record_name link_name record_of expand_links
              depth)
            (follow_link-Restores expand_links depth) r seen
