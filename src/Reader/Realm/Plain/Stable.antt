-- ===== src/Reader/Realm/Plain/Stable.antt =====
-- What `Record.to_dict` in src/pyrealm/reader.py gives in the states that a realm comes to.
use pyrealm.Prelude.{String, ◌≡◌, sym, ◌∙◌, ap, Bool, true, false, inl, inr}
use pyrealm.Prelude.Integers.{ℤ}
use pyrealm.Bytes.{Bytes}
use pyrealm.Reader.{Codec, Answer, answer, raised}
use pyrealm.Reader.Records.{Record, own_fields}
use pyrealm.Reader.Records.Memo.{field_of, get_item-IsRead}
use pyrealm.Reader.Cache.{translated}
use pyrealm.Reader.Cache.Coherent.{IsRecordOf, IsAnswered}
use pyrealm.Reader.Expand.{to_dict}
use pyrealm.Reader.Expand.Stable.{AreSame, AreSameAnswers, to_dict-same}
use pyrealm.Reader.Schema.{PropertyRow}
use pyrealm.Reader.Realm.{
  Native, Realm, new_realm, realm_record, link_owner, resolve_owned, resolve, name_of_key,
  link_table_name, record_table_name,
}
use pyrealm.Reader.Realm.Requests.{Runs}
use pyrealm.Reader.Realm.Requests.Fixed.{Runs-IsFixed}
use pyrealm.Reader.Realm.Requests.States.{IsImmutable, Runs-IsAnswered}
use pyrealm.Reader.Realm.Plain.{plain_item, plain_target, record_to_dict}

name_of_key-schema :
    {R D : Type 0} (what : String) (a b : Realm R D) (key : ℤ)
    → a.schema ≡ b.schema
    → name_of_key what a key ≡ name_of_key what b key
unfolding name_of_key
name_of_key-schema what a b key e =
    ap (λ schema. name_of_key what (record a { schema = schema }) key) e

module _ {R D Parameter Listing : Type 0} (codec : Codec R D) (decimal_text : D → String)
    (base64 : Bytes → String) (native : Bool → Native R Parameter Listing) where
  IsRecordOf-AreSame :
      (record_name : ℤ → Answer String) (table_key object_key : ℤ) (r other : Record R D)
      → IsRecordOf codec (native false).record_at (table_key, object_key) r
      → IsRecordOf codec (native false).record_at (table_key, object_key) other
      → AreSame decimal_text base64 (plain_item codec true) record_name r other
  IsRecordOf-AreSame record_name table_key object_key r other here there =
      let same_source : here.raw ≡ there.raw = cc (here.source, there.source) in
      let same_raw : r.raw ≡ other.raw =
        here.fields ∙ ap own_fields same_source ∙ sym there.fields in
      record {
        table = here.table ∙ sym there.table;
        object = here.object ∙ sym there.object;
        raw = same_raw;
        items = λ key.
            (get_item-IsRead codec r key here.memo).value
            ∙ ap (λ raw. field_of codec raw key) same_raw
            ∙ sym (get_item-IsRead codec other key there.memo).value;
      }

  IsAnswered-AreSame :
      (record_name : ℤ → Answer String) (table_key object_key : ℤ) (a b : Realm R D)
      → a.closed ≡ false
      → b.closed ≡ false
      → IsAnswered codec (native false).record_at table_key object_key a.cache
      → IsAnswered codec (native false).record_at table_key object_key b.cache
      → AreSameAnswers decimal_text base64
          (plain_item codec true)
          record_name
          (plain_target native true a table_key object_key)
          (plain_target native true b table_key object_key)
  unfolding resolve resolve_owned link_owner realm_record
  IsAnswered-AreSame record_name table_key object_key a b open_a open_b (inl (raw, e, here))
        (inl (other, f, there)) =
      inr (
        here.fetched_record,
        there.fetched_record,
        rw open_a here.returned,
        rw open_b there.returned,
        IsRecordOf-AreSame record_name table_key object_key here.fetched_record there.fetched_record
            here.record_of there.record_of,
      )
  IsAnswered-AreSame record_name table_key object_key a b open_a open_b (inr (fault, e, here))
        (inr (other, f, there)) =
      let same : fault ≡ other = cc in
      inl (
        translated fault,
        rw open_a (ap (λ outcome. outcome.0) here),
        rw open_b (ap (λ outcome. outcome.0) there) ∙ ap raised (ap translated (sym same)),
      )
  IsAnswered-AreSame record_name table_key object_key a b open_a open_b (inl (raw, e, here))
        (inr (fault, f, there)) =
      cc (e, f)
  IsAnswered-AreSame record_name table_key object_key a b open_a open_b (inr (fault, e, here))
        (inl (raw, f, there)) =
      cc (e, f)

  -- The conversion of a record does not depend on what was asked of the realm before: in any two states
  -- that an open realm comes to, by requests and by losses of its cache, two records for the same keys
  -- are converted to the same plain value, or with the same exception. This supposes an immutable native
  -- realm, and a realm that is there.
  pub record_to_dict-stable :
      IsImmutable codec native
      → (wrong_arguments : PropertyRow → String) (path : String) (start a b : Realm R D)
      → new_realm native wrong_arguments path ≡ answer start
      → Runs codec native start a
      → Runs codec native start b
      → a.closed ≡ false
      → b.closed ≡ false
      → (table_key object_key : ℤ) (r other : Record R D)
      → IsRecordOf codec (native false).record_at (table_key, object_key) r
      → IsRecordOf codec (native false).record_at (table_key, object_key) other
      → (expand_links : Bool) (max_depth : ℤ)
      → record_to_dict codec decimal_text base64 native true a r expand_links max_depth
        ≡ record_to_dict codec decimal_text base64 native true b other expand_links max_depth
  unfolding record_to_dict record_table_name link_table_name link_owner
  record_to_dict-stable immutable wrong_arguments path start a b opened to_a to_b open_a open_b
        table_key object_key r other here there expand_links max_depth =
      let same_schema : a.schema ≡ b.schema =
        (Runs-IsFixed codec native to_a).0 ∙ sym (Runs-IsFixed codec native to_b).0 in
      let at_a =
        Runs-IsAnswered codec native immutable wrong_arguments path {realm = a} opened to_a in
      let at_b =
        Runs-IsAnswered codec native immutable wrong_arguments path {realm = b} opened to_b in
      let named : record_to_dict codec decimal_text base64 native true a r expand_links max_depth
          ≡ to_dict decimal_text base64 (plain_item codec true) (record_table_name true b)
              (link_table_name true b) (plain_target native true a) r expand_links max_depth =
        (λ i.
          to_dict decimal_text base64 (plain_item codec true)
            (λ key. name_of_key-schema "record" a b key same_schema i)
            (λ key. name_of_key-schema "link" a b key same_schema i) (plain_target native true a) r
            expand_links max_depth) in
      named
      ∙ to_dict-same decimal_text base64 (plain_item codec true) (record_table_name true b)
          (link_table_name true b) (plain_target native true a) (plain_target native true b)
          (λ table object.
            IsAnswered-AreSame (record_table_name true b) table object a b open_a open_b
              (at_a table object) (at_b table object))
          r other
          (IsRecordOf-AreSame (record_table_name true b) table_key object_key r other here there)
          expand_links max_depth
