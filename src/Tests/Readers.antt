-- ===== src/Tests/Readers.antt =====
-- The reader over a native module in which each record has a name and a link to the record 1, 2.
use pyrealm.Prelude.{ℕ, List, zero, suc, ◌+◌, String, ◌≡◌, refl, true, none, [], ◌∷◌}
use pyrealm.Prelude.Integers.{ℤ, pos, negsuc}
use pyrealm.Prelude.Printing.{int_text}
use pyrealm.Bytes.{Bytes}
use pyrealm.Reader.{Value, string, realm_error, native_error, realm_text, Answer, answer, raised}
use pyrealm.Tests.Natives.{codec, plain_repr, stored_fields, native, one_record, native-HasKeys}
use pyrealm.Reader.Records.{Record, fresh_record, get_item}
use pyrealm.Reader.Records.Memo.{IsRead, get_item-IsRead}
use pyrealm.Reader.Cache.{RecordCache, fetch, fetched, stay, then_step}
use pyrealm.Reader.Cache.Coherent.{IsAnswered, fetch_lem}
use pyrealm.Reader.Expand.{
  one_field, two_fields, plain_text, plain_int, plain_dict, more_plain_fields, no_plain_fields,
  to_plain, to_dict,
}
use pyrealm.Reader.Expand.Seen.{Restores, to_plain-Restores}
use pyrealm.Reader.Results.{yielded, reported, finished, iterate, iterate_valid}
use pyrealm.Reader.Open.{Action, open_realm}
use pyrealm.Reader.Open.Closing.{IsOpening, open_realm-IsOpening}

number_printed : (int_text (pos 1203) ≡ "1203") × (int_text (negsuc 41) ≡ "-42")
unfolding int_text
number_printed = (refl, refl)

name_read : (get_item codec true one_record "name").0 ≡ answer (string "a")
unfolding get_item
name_read = refl

get_item-IsRead_example :
    IsRead codec one_record "name"
      (get_item codec true one_record "name").0
      (get_item codec true one_record "name").1
get_item-IsRead_example = get_item-IsRead codec one_record "name" (λ key value h. cc)

abbrev after_one : RecordCache ℕ ℕ
after_one = (fetch native (pos 1) (pos 2) []).1

fetch_lem_example : IsAnswered codec native (pos 1) (pos 2) after_one
fetch_lem_example =
    fetch_lem codec native native-HasKeys (then_step stay (fetched (pos 1) (pos 2) [])) (pos 1)
      (pos 2)

abbrev number_text : ℕ → String
number_text n = "n"

abbrev bytes_text : Bytes → String
bytes_text bs = "b"

abbrev items : Record ℕ ℕ → String → Answer (Value ℕ ℕ)
items r key = (get_item codec true r key).0

abbrev person_name : ℤ → Answer String
person_name table = answer "Person"

abbrev records : ℤ → ℤ → Answer (Record ℕ ℕ)
records table object = answer (fresh_record (table, object) (stored_fields table object))

-- A record that refers to itself, expanded: the inner one is a reference.
cycle_expanded :
    to_dict number_text bytes_text items person_name person_name records one_record true (pos 5)
    ≡ answer (
        plain_dict (
          more_plain_fields "name" (plain_text "a") (
            more_plain_fields "next"
              (one_field "$ref"
                (two_fields "table" (plain_text "Person") "key" (plain_int (pos 2))))
              no_plain_fields)))
unfolding to_dict to_plain get_item
cycle_expanded = refl

to_plain-Restores_example :
    Restores []
      (to_plain number_text bytes_text items person_name person_name records true 5 one_record [])
to_plain-Restores_example =
    to_plain-Restores number_text bytes_text items person_name person_name records true 5 one_record
      []

-- The item 1 is damaged.
abbrev damaged : ℕ → ℕ → Answer ℕ × ℕ
damaged (suc zero) state = (raised (realm_error "damaged"), state)
damaged index state = (answer index, state)

damaged_skipped :
    iterate_valid damaged 3 0 0
    ≡ (yielded 0 ∷ reported 1 (realm_error "damaged") ∷ yielded 2 ∷ [], finished 0)
unfolding iterate_valid realm_text
damaged_skipped = refl

abbrev intact : ℕ → ℕ → Answer ℕ × ℕ
intact index state = (answer index, state + 1)

intact_ended : (iterate intact 2 0 0).1 ≡ finished 2
unfolding iterate
intact_ended = refl

abbrev unreadable_schema : String → ℕ → Answer ℕ
unreadable_schema path handle = raised (native_error "damaged")

-- The native realm cannot be closed.
abbrev stuck_close : ℕ → Answer (Unit {0})
stuck_close handle = raised (native_error "close Realm")

abbrev open_damaged : Answer ℕ × List Action
open_damaged =
    open_realm plain_repr (λ path. answer path) (λ path. answer []) (λ path key. answer 1)
      stuck_close unreadable_schema "in.realm" none none

open_realm-IsOpening_example : IsOpening plain_repr stuck_close unreadable_schema open_damaged
open_realm-IsOpening_example =
    open_realm-IsOpening plain_repr (λ path. answer path) (λ path. answer []) (λ path key. answer 1)
      stuck_close unreadable_schema "in.realm" none none
