-- ===== src/Reader/Expand/Stable.antt =====
-- What the conversion in src/pyrealm/reader.py, `Record._to_dict`, takes of the records: their keys, their
-- fields, and what reading a field answers.
use pyrealm.Prelude.{
  ℕ, zero, suc, String, ◌≡◌, ◌⊎◌, refl, sym, ◌∙◌, Bool, true, false, List, [], ◌∷◌, Bool-cases, inl,
  inr,
}
use pyrealm.Prelude.Integers.{ℤ, pos, negsuc}
use pyrealm.Bytes.{Bytes}
use pyrealm.Reader.{Value, Fault, Answer, answer, raised, ◌>>=◌}
use pyrealm.Reader.Records.{Record}
use pyrealm.Reader.Expand.{
  Seen, is_seen, remove_seen, names, Follow, more_plain_fields, plain_dict, plain_value, reference,
  record_fields, expand_fresh, expand_record, follow_link, to_plain, to_dict,
}

module _ {R D : Type 0} (decimal_text : D → String) (base64 : Bytes → String)
    (item : Record R D → String → Answer (Value R D)) (record_name : ℤ → Answer String) where
  -- Two records of one identity with the same fields, whatever they keep.
  pub record AreSame (r other : Record R D) : Type 0 where
    pub table : r.table_key ≡ other.table_key
    pub object : r.object_key ≡ other.object_key
    pub raw : r.raw ≡ other.raw
    pub items : (key : String) → item r key ≡ item other key

  record_fields-same :
      (follow next : Follow R)
      → follow ≡ next
      → (r other : Record R D) → ((key : String) → item r key ≡ item other key)
      → (keys : List String) (seen : Seen)
      → record_fields decimal_text base64 item record_name follow r keys seen
        ≡ record_fields decimal_text base64 item record_name next other keys seen
  unfolding record_fields
  record_fields-same follow next e r other items [] seen = refl
  record_fields-same follow next e r other items (key ∷ keys) seen = λ i. items key i >>= λ value.
      plain_value decimal_text base64 (e i) value seen >>= λ a.
      record_fields-same follow next e r other items keys a.1 i >>= λ b.
      answer (more_plain_fields key a.0 b.0, b.1)

  expand_fresh-same :
      (follow next : Follow R)
      → follow ≡ next
      → (r other : Record R D) → AreSame r other
      → (seen : Seen)
      → expand_fresh decimal_text base64 item record_name follow r seen
        ≡ expand_fresh decimal_text base64 item record_name next other seen
  unfolding expand_fresh
  expand_fresh-same follow next e r other same seen =
      let fields =
        record_fields-same follow next e r other same.items (names r.raw)
          ((r.table_key, r.object_key) ∷ seen) in
      let moved : record_fields decimal_text base64 item record_name next other (names r.raw)
            ((r.table_key, r.object_key) ∷ seen)
          ≡ record_fields decimal_text base64 item record_name next other (names other.raw)
              ((other.table_key, other.object_key) ∷ seen) =
        (λ i.
          record_fields decimal_text base64 item record_name next other (names (same.raw i))
            ((same.table i, same.object i) ∷ seen)) in
      let whole = fields ∙ moved in
      λ i. whole i >>= λ a. answer (plain_dict a.0, remove_seen (same.table i, same.object i) a.1)

  expand_record-same :
      (follow next : Follow R)
      → follow ≡ next
      → (r other : Record R D) → AreSame r other
      → (seen : Seen)
      → expand_record decimal_text base64 item record_name follow r seen
        ≡ expand_record decimal_text base64 item record_name next other seen
  unfolding expand_record
  expand_record-same follow next e r other same seen =
      let moved : is_seen (r.table_key, r.object_key) seen
          ≡ is_seen (other.table_key, other.object_key) seen =
        (λ i. is_seen (same.table i, same.object i) seen) in
      elim (Bool-cases (is_seen (r.table_key, r.object_key) seen)) [
        | inl there ↦
            let there_too : is_seen (other.table_key, other.object_key) seen ≡ true =
              sym moved ∙ there in
            rw (there, there_too, expand_record)
              (λ i. reference record_name (same.table i) (same.object i) seen)
        | inr fresh ↦
            let fresh_too : is_seen (other.table_key, other.object_key) seen ≡ false =
              sym moved ∙ fresh in
            rw (fresh, fresh_too, expand_record) (expand_fresh-same follow next e r other same seen)
      ]

  -- Two answers with the same exception, or with records that are the same.
  abbrev pub AreSameAnswers : Answer (Record R D) → Answer (Record R D) → Type 0
  AreSameAnswers asked other =
      ((fault : Fault) × (asked ≡ raised fault) × (other ≡ raised fault))
      ⊎ ((r : Record R D) × (s : Record R D) × (asked ≡ answer r)
          × (other ≡ answer s)
          × AreSame r s)

  module _ (link_name : ℤ → Answer String) (record_of other_of : ℤ → ℤ → Answer (Record R D))
      (records : (table object : ℤ)
        → AreSameAnswers (record_of table object) (other_of table object)) where
    follow_link-same :
        (expand_links : Bool) (depth : ℕ) (table object : ℤ) (seen : Seen)
        → follow_link decimal_text base64 item record_name link_name record_of expand_links depth
            table object seen
          ≡ follow_link decimal_text base64 item record_name link_name other_of expand_links depth
              table object seen
    unfolding follow_link
    follow_link-same expand_links zero table object seen = refl
    follow_link-same false (suc depth) table object seen = refl
    follow_link-same true (suc depth) table object seen = elim (records table object) [
      | inl (fault, e, f) ↦ rw (e, f) refl
      | inr (r, s, e, f, same) ↦
          rw (e, f)
            (expand_record-same _ _
              (λ i table object seen. follow_link-same true depth table object seen i) r s same
              seen)
    ]

    -- The conversion of a record is the same for records that are the same and whatever the records that
    -- the links lead to keep.
    pub to_dict-same :
        (r other : Record R D)
        → AreSame r other
        → (expand_links : Bool) (max_depth : ℤ)
        → to_dict decimal_text base64 item record_name link_name record_of r expand_links max_depth
          ≡ to_dict decimal_text base64 item record_name link_name other_of other expand_links
              max_depth
    unfolding to_dict to_plain
    to_dict-same r other same expand_links (negsuc n) = refl
    to_dict-same r other same expand_links (pos depth) =
        let expanded =
          expand_record-same _ _
            (λ i table object seen. follow_link-same expand_links depth table object seen i) r other
            same [] in
        λ i. expanded i >>= λ a. answer a.0
