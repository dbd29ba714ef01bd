-- ===== src/Reader/Results/Items/Salvage.antt =====
-- `Results.iter_valid` in src/pyrealm/reader.py, over the results of the native module.
use pyrealm.Prelude.{ℕ, ◌<◌, ◌≡◌, refl, String, some, arith}
use pyrealm.Prelude.Integers.{ℤ, pos}
use pyrealm.Reader.{Raw, Fault, realm_text, native_error, Answer, answer, raised, Mapping}
use pyrealm.Reader.Cache.{translated, native_errors, RecordCache}
use pyrealm.Reader.Faults.{Only, Only-raised}
use pyrealm.Reader.Faults.Identities.{from_reply-Only}
use pyrealm.Reader.Results.Iteration.{IsThrough, iterate_valid-IsThrough}
use pyrealm.Reader.Results.Items.{result_len, read_at, result_at, over_items, result_iter_valid}

-- A `RealmError`, its subclasses included.
abbrev IsRealmError : Fault → Type 0
IsRealmError fault = (e : String) × (realm_text fault ≡ some e)

-- What was asked is answered, or the exception is that of the native module.
abbrev pub IsNative : {A : Type 0} → Answer A → Type 0
IsNative asked = Only (λ fault. (e : String) × (fault ≡ native_error e)) asked

translated-Only :
    {A : Type 0} (asked : Answer A) → IsNative asked → Only IsRealmError (native_errors asked)
unfolding translated realm_text
translated-Only (answer a) native = tt
translated-Only (raised fault) (e, same) = rw same (e, refl)

module _ {R D Listing : Type 0} (size : Listing → Answer ℕ)
    (item : Listing → ℤ → Answer (Mapping (Raw R))) (listing : Listing) where
  result_at-Only :
      (index : ℤ) (cache : RecordCache R D)
      → IsNative (item listing index)
      → Only IsRealmError (result_at size item listing index cache).0
  unfolding result_at realm_text
  result_at-Only index cache native =
      from_reply-Only IsRealmError (λ e. (e, refl)) cache (native_errors (item listing index))
        (translated-Only (item listing index) native)

  -- However damaged the records are, `iter_valid` comes to the end of the results: each index from 0 to
  -- the length, in turn, is yielded with the record that reading it answers, or reported with the
  -- exception that reading it raises. This supposes that the results have a length and that the native
  -- module answers for each of its indices or raises its own exception.
  pub result_iter_valid-IsThrough :
      (length : ℕ)
      → size listing ≡ answer length
      → ((index : ℕ) → index < length → IsNative (item listing (pos index)))
      → (cache : RecordCache R D)
      → IsThrough
          (read_at size item listing)
          length
          0
          cache
          (result_iter_valid size item listing cache)
  unfolding result_iter_valid over_items result_len
  result_iter_valid-IsThrough length known native cache = rw known (
      iterate_valid-IsThrough (read_at size item listing) length
        (λ index state fault within e.
          Only-raised IsRealmError _ fault (result_at-Only (pos index) state (native index within))
            e)
        length 0 cache (omega arith))
