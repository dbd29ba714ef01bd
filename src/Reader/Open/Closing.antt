-- ===== src/Reader/Open/Closing.antt =====
-- What `open_realm` in src/pyrealm/reader.py does with the native realm.
use pyrealm.Prelude.{
  ◌≡◌, refl, subst, true, false, ◌⊎◌, inl, inr, String, Option, none, some, List, [], ◌∷◌, length,
  ◌==◌, ==_iff, Bool-cases,
}
use pyrealm.Bytes.{Bytes}
use pyrealm.Reader.{
  Fault, realm_error, query_error, open_error, native_error, os_fault, type_fault, unicode_fault,
  missing_key, bad_value, out_of_range, Answer, answer, raised,
}
use pyrealm.Reader.Open.{
  open_failure, Action, opened, closed, close_failed, is_native, open_fault, close_then,
  close_after, with_schema, try_open, with_key, with_path, open_realm,
}

-- A key that the native module is given.
abbrev pub IsKey : Bytes → Type 0
IsKey key = (length key ≡ 0) ⊎ (length key ≡ 64)

-- What an open that failed has done: nothing; or it has opened the native realm and closed it again and
-- tells so by a `RealmOpenError`; or closing it has raised the native module's exception, which is
-- suppressed, or another one, which leaves the open; or it has opened it and reading the schema has
-- raised an exception that it does not catch.
pub data IsUndone {Handle View : Type 0} (repr : String → String)
    (native_close : Handle → Answer (Unit {0})) (schema : String → Handle → Answer View)
    : Fault → List Action → Type 0 where
  untouched : {fault : Fault} → IsUndone repr native_close schema fault []
  closed_again :
      {message path : String} {key : Bytes} (handle : Handle)
      → IsKey key
      → native_close handle ≡ answer tt
      → IsUndone repr native_close schema (open_error message) (opened path key ∷ closed ∷ [])
  suppressed :
      {message path e : String} {key : Bytes} (handle : Handle)
      → IsKey key
      → native_close handle ≡ raised (native_error e)
      → IsUndone repr native_close schema (open_error message) (opened path key ∷ close_failed ∷ [])
  close_raised :
      {fault : Fault} {path : String} {key : Bytes} (handle : Handle)
      → IsKey key
      → native_close handle ≡ raised fault
      → is_native fault ≡ false
      → IsUndone repr native_close schema fault (opened path key ∷ close_failed ∷ [])
  uncaught :
      {fault : Fault} {path : String} {key : Bytes} (handle : Handle)
      → IsKey key
      → schema path handle ≡ raised fault
      → open_failure repr fault ≡ none
      → IsUndone repr native_close schema fault (opened path key ∷ [])

-- What an open has done.
pub data IsOpening {Handle View : Type 0} (repr : String → String)
    (native_close : Handle → Answer (Unit {0})) (schema : String → Handle → Answer View)
    : Answer View × List Action → Type 0 where
  open_now :
      {view : View} {path : String} {key : Bytes}
      → IsKey key
      → IsOpening repr native_close schema (answer view, opened path key ∷ [])
  failed :
      {fault : Fault} {actions : List Action}
      → IsUndone repr native_close schema fault actions
      → IsOpening repr native_close schema (raised fault, actions)

module _ {Handle View : Type 0} (repr : String → String) (native_close : Handle → Answer (Unit {0}))
    (schema : String → Handle → Answer View) where
  native_fault : (fault : Fault) → is_native fault ≡ true → (e : String) × (fault ≡ native_error e)
  unfolding is_native
  native_fault (native_error e) h = (e, refl)
  native_fault (realm_error e) h = cc
  native_fault (query_error e) h = cc
  native_fault (open_error e) h = cc
  native_fault (os_fault e) h = cc
  native_fault (type_fault e) h = cc
  native_fault (unicode_fault e) h = cc
  native_fault (missing_key e) h = cc
  native_fault (bad_value e) h = cc
  native_fault (out_of_range e) h = cc

  close_then-IsUndone :
      (message path : String) (key : Bytes) (handle : Handle) (closing : Answer (Unit {0}))
      → IsKey key
      → native_close handle ≡ closing
      → let (left, actions) = close_then (open_error message) closing in
        IsUndone repr native_close schema left (opened path key ∷ actions)
  unfolding close_then
  close_then-IsUndone message path key handle (answer done) k e = closed_again handle k e
  close_then-IsUndone message path key handle (raised other) k e =
      elim (Bool-cases (is_native other)) [
        | inl native ↦
            let (text, same) = native_fault other native in
            rw native (suppressed handle k (subst (λ f. native_close handle ≡ raised f) same e))
        | inr foreign ↦ rw foreign (close_raised handle k e foreign)
      ]

  schema_failed :
      (path : String) (key : Bytes) (handle : Handle) (fault : Fault) (o : Option String)
      → IsKey key
      → schema path handle ≡ raised fault
      → open_failure repr fault ≡ o
      → let (left, actions) = close_after path fault o (native_close handle) in
        IsUndone repr native_close schema left (opened path key ∷ actions)
  unfolding open_fault close_after
  schema_failed path key handle fault none k e f = uncaught handle k e f
  schema_failed path key handle fault (some text) k e f =
      close_then-IsUndone _ path key handle (native_close handle) k refl

module _ {Location Handle View : Type 0} (repr : String → String)
    (resolve_strict : Location → Answer String) (read_key : Location → Answer Bytes)
    (native_open : String → Bytes → Answer Handle) (native_close : Handle → Answer (Unit {0}))
    (schema : String → Handle → Answer View) where
  with_schema-IsOpening :
      (path : String) (key : Bytes) (handle : Handle) (read : Answer View)
      → IsKey key
      → schema path handle ≡ read
      → IsOpening repr native_close schema (
          with_schema repr resolve_strict read_key native_open native_close schema path key handle
            read)
  unfolding with_schema
  with_schema-IsOpening path key handle (answer view) k e = open_now k
  with_schema-IsOpening path key handle (raised fault) k e = failed (
      schema_failed repr native_close schema path key handle fault (open_failure repr fault) k e
        refl)

  try_open-IsOpening :
      (path : String) (key : Bytes) (handle : Answer Handle)
      → IsKey key
      → IsOpening repr native_close schema
          (try_open repr resolve_strict read_key native_open native_close schema path key handle)
  unfolding try_open
  try_open-IsOpening path key (answer handle) k =
      with_schema-IsOpening path key handle (schema path handle) k refl
  try_open-IsOpening path key (raised fault) k = failed untouched

  with_key-IsOpening :
      (path : String) (read : Answer Bytes)
      → IsOpening repr native_close schema
          (with_key repr resolve_strict read_key native_open native_close schema path read)
  unfolding with_key
  with_key-IsOpening path (raised fault) = failed untouched
  with_key-IsOpening path (answer key) = elim (Bool-cases (length key == 0)) [
    | inl e ↦
        rw (e, with_key)
          (try_open-IsOpening path key (native_open path key) (inl ((==_iff (length key) 0).0 e)))
    | inr e ↦ elim (Bool-cases (length key == 64)) [
      | inl f ↦
          rw (e, with_key)
            (rw (f, with_key)
              (try_open-IsOpening path key (native_open path key)
                (inr ((==_iff (length key) 64).0 f))))
      | inr f ↦ rw (e, with_key) (rw (f, with_key) (failed untouched))
    ]
  ]

  with_path-IsOpening :
      (key : Option Bytes) (key_file : Option Location) (path : Answer String)
      → IsOpening repr native_close schema
          (with_path repr resolve_strict read_key native_open native_close schema key key_file path)
  unfolding with_path
  with_path-IsOpening key key_file (raised fault) = failed untouched
  with_path-IsOpening key key_file (answer path) = with_key-IsOpening path _

  -- However an open ends, the native realm was opened at most once, and with a key of 0 or 64 bytes. If
  -- the open succeeds it is open. If it fails it was not opened; or it was closed again and the exception
  -- is a `RealmOpenError`; or closing it raised, and the exception is a `RealmOpenError` if that was the
  -- native module's own and otherwise that one; or reading the schema raised one that is not caught.
  pub open_realm-IsOpening :
      (path : Location) (key : Option Bytes) (key_file : Option Location)
      → IsOpening repr native_close schema (
          open_realm repr resolve_strict read_key native_open native_close schema path key key_file)
  unfolding open_realm
  open_realm-IsOpening path (some key) (some file) = failed untouched
  open_realm-IsOpening path (some key) none =
      with_path-IsOpening (some key) none (resolve_strict path)
  open_realm-IsOpening path none none = with_path-IsOpening none none (resolve_strict path)
  open_realm-IsOpening path none (some file) =
      with_path-IsOpening none (some file) (resolve_strict path)

  -- An open that has come to an end with nothing left open but what is returned.
  pub data IsSettled : Answer View × List Action → Type 0 where
    left_open :
        {view : View} {path : String} {key : Bytes}
        → IsKey key
        → IsSettled (answer view, opened path key ∷ [])
    left_untouched : {fault : Fault} → IsSettled (raised fault, [])
    left_closed :
        {message path : String} {key : Bytes}
        → IsKey key
        → IsSettled (raised (open_error message), opened path key ∷ closed ∷ [])

  -- The schema raises only exceptions that the open catches, and the native realm can be closed.
  abbrev pub ClosesWell : Type 0
  ClosesWell =
      ((path : String) (handle : Handle) (fault : Fault)
        → schema path handle ≡ raised fault
        → (e : String) × (open_failure repr fault ≡ some e))
      × ((handle : Handle) → native_close handle ≡ answer tt)

  IsOpening-IsSettled :
      ClosesWell
      → {outcome : Answer View × List Action} → IsOpening repr native_close schema outcome
      → IsSettled outcome
  IsOpening-IsSettled (caught, closes) (open_now k) = left_open k
  IsOpening-IsSettled (caught, closes) (failed untouched) = left_untouched
  IsOpening-IsSettled (caught, closes) (failed (closed_again handle k e)) = left_closed k
  IsOpening-IsSettled (caught, closes) (failed (suppressed handle k e)) = cc (closes handle)
  IsOpening-IsSettled (caught, closes) (failed (close_raised handle k e f)) = cc (closes handle)
  IsOpening-IsSettled (caught, closes) (failed (uncaught {fault} {path} handle k e f)) =
      let (text, g) = caught path handle fault e in cc

  -- If reading the schema raises only exceptions that the open catches and closing the native realm
  -- raises none, an open that fails has left no native realm open.
  pub open_realm-IsSettled :
      ClosesWell
      → (path : Location) (key : Option Bytes) (key_file : Option Location)
      → IsSettled (
          open_realm repr resolve_strict read_key native_open native_close schema path key key_file)
  open_realm-IsSettled well path key key_file =
      IsOpening-IsSettled well (open_realm-IsOpening path key key_file)
