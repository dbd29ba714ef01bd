-- ===== src/Tests/Conversions.antt =====
-- Records of a realm as plain values.

use pyrealm.Prelude.{ℕ, String, ◌≡◌, refl, true, false}
use pyrealm.Prelude.Integers.{pos}
use pyrealm.Bytes.{Bytes}
use pyrealm.Reader.{answer}
use pyrealm.Reader.Records.{Record, record_identity, get_item}
use pyrealm.Reader.Cache.{record_from_raw, from_reply, fetch}
use pyrealm.Reader.Cache.Coherent.{IsRecordOf}
use pyrealm.Reader.Realm.{Realm, realm_record, resolve, link_owner, link_item}
use pyrealm.Reader.Realm.Plain.{record_to_dict}
use pyrealm.Reader.Realm.Plain.Stable.{record_to_dict-stable}
use pyrealm.Reader.Realm.Requests.{ask_link_item, perform, Runs, at_start, asked}
use pyrealm.Reader.Realm.Requests.States.{Runs-realm_record}
use pyrealm.Tests.Natives.{codec, native, one_record}
use pyrealm.Tests.SmallRealm.{
  wrong_arguments, native_realm, native_realm-IsImmutable, start, started, read_record,
}

abbrev number_text : ℕ → String
number_text n = "n"

abbrev bytes_text : Bytes → String
bytes_text bs = "b"

abbrev after_read : Realm ℕ ℕ
after_read = (perform codec native_realm (ask_link_item true (pos 1) (pos 2) "name") start).1

after_read_open : after_read.closed ≡ false
unfolding perform link_item resolve link_owner realm_record fetch from_reply record_from_raw
    record_identity
after_read_open = refl

fresh_answered : (realm_record native_realm (pos 1) (pos 2) start).0 ≡ answer one_record
unfolding realm_record fetch record_identity from_reply record_from_raw
fresh_answered = refl

read_answered : (realm_record native_realm (pos 1) (pos 2) after_read).0 ≡ answer read_record
unfolding perform link_item realm_record fetch record_identity get_item resolve link_owner
    from_reply record_from_raw
read_answered = refl

record_to_dict-stable_example :
    record_to_dict codec number_text bytes_text native_realm true start one_record true (pos 3)
    ≡ record_to_dict codec number_text bytes_text native_realm true after_read read_record true
        (pos 3)
record_to_dict-stable_example =
    record_to_dict-stable codec number_text bytes_text native_realm native_realm-IsImmutable
      wrong_arguments "in.realm" start start after_read started at_start
      (asked (ask_link_item true (pos 1) (pos 2) "name") at_start) refl after_read_open (pos 1)
      (pos 2) one_record read_record (answered_of at_start one_record fresh_answered)
      (answered_of (asked (ask_link_item true (pos 1) (pos 2) "name") at_start) read_record
        read_answered)
      true (pos 3)
  where
    answered_of :
        {realm : Realm ℕ ℕ}
        → Runs codec native_realm start realm
        → (r : Record ℕ ℕ) → (realm_record native_realm (pos 1) (pos 2) realm).0 ≡ answer r
        → IsRecordOf codec native (pos 1, pos 2) r
    answered_of runs r e =
        Runs-realm_record codec native_realm native_realm-IsImmutable wrong_arguments "in.realm"
          started runs (pos 1) (pos 2) r e
