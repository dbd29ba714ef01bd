-- ===== src/Reader/Realm/Plain.antt =====
-- src/pyrealm/reader.py, `Record.to_dict` of a record of a realm. The conversion takes what fields and
-- links answer from the state of the realm at its start; what it adds to the cache on its way is left out.
pub mod Stable
use pyrealm.Prelude.{ℕ, String, refl, Bool, []}
use pyrealm.Prelude.Integers.{ℤ, pos}
use pyrealm.Bytes.{Bytes}
use pyrealm.Reader.{Value, Codec, Answer, ◌>>=◌}
use pyrealm.Reader.Records.{Record, owner, get_item}
use pyrealm.Reader.Expand.{Plain, to_dict}
use pyrealm.Reader.Realm.{Native, Realm, link_table_name, record_table_name, resolve}

-- `self._realm()` and then `self[key]`
abbrev pub plain_item : {R D : Type 0} → Codec R D → Bool → Record R D → String → Answer (Value R D)
plain_item codec alive r key = owner alive >>= λ _. (get_item codec alive r key).0

-- `value.resolve()`
abbrev pub plain_target :
    {R D Parameter Listing : Type 0}
    → (Bool → Native R Parameter Listing)
    → Bool
    → Realm R D
    → ℤ
    → ℤ
    → Answer (Record R D)
plain_target native alive realm table_key object_key =
    (resolve native alive table_key object_key realm).0

module _ {R D Parameter Listing : Type 0} (codec : Codec R D) (decimal_text : D → String)
    (base64 : Bytes → String) (native : Bool → Native R Parameter Listing) (alive : Bool)
    (realm : Realm R D) where
  unfoldable pub record_to_dict : Record R D → Bool → ℤ → Answer (Plain R)
  record_to_dict r expand_links max_depth =
      to_dict decimal_text base64 (plain_item codec alive) (record_table_name alive realm)
        (link_table_name alive realm) (plain_target native alive realm) r expand_links max_depth
