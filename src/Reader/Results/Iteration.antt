-- ===== src/Reader/Results/Iteration.antt =====
-- `Results.iter_valid` in src/pyrealm/reader.py, beside `Results.__iter__`.
use pyrealm.Prelude.{
  ℕ, zero, suc, [], ◌+◌, ◌≤◌, ◌<◌, arith, ◌≡◌, refl, ap, String, some, List, length, inl, inr,
}
use pyrealm.Reader.{Fault, realm_text, Answer, answer, raised}
use pyrealm.Reader.Records.Memo.{Answer-cases}
use pyrealm.Reader.Results.{
  Event, yielded, reported, Ending, finished, first_event, go_on, iterate, iterate_valid,
}

module _ {A S : Type 0} (read : ℕ → S → Answer A × S) where
  -- Every exception that reading an item of the results raises is a `RealmError`.
  abbrev pub RaisesRealmErrors : ℕ → Type 0
  RaisesRealmErrors length =
      (index : ℕ) (state : S) (fault : Fault)
      → index < length
      → (read index state).0 ≡ raised fault
      → (e : String) × (realm_text fault ≡ some e)

  -- An iteration from an index and a state on that comes to its end after so many items: each index in
  -- turn is yielded with what reading it answers, or reported with what reading it raises.
  pub data IsThrough : ℕ → ℕ → S → List (Event A) × Ending S → Type 0 where
    at_end : {index : ℕ} {state : S} → IsThrough zero index state ([], finished state)
    was_yielded :
        {rounds index : ℕ} {state : S} {rest : List (Event A) × Ending S} (a : A)
        → (read index state).0 ≡ answer a
        → IsThrough rounds (index + 1) (read index state).1 rest
        → IsThrough (suc rounds) index state (first_event (yielded a) rest)
    was_reported :
        {rounds index : ℕ} {state : S} {rest : List (Event A) × Ending S} (fault : Fault)
        → (read index state).0 ≡ raised fault
        → IsThrough rounds (index + 1) (read index state).1 rest
        → IsThrough (suc rounds) index state (first_event (reported index fault) rest)

  -- If reading the items raises no other exceptions than `RealmError`s, `iter_valid` comes to the end of
  -- the results, and each index is yielded or reported as reading it answers or raises.
  pub iterate_valid-IsThrough :
      (length : ℕ)
      → RaisesRealmErrors length
      → (rounds index : ℕ) (state : S) → index + rounds ≤ length
      → IsThrough rounds index state (iterate_valid read rounds index state)
  unfolding iterate_valid
  iterate_valid-IsThrough length mild zero index state within = at_end
  iterate_valid-IsThrough length mild (suc rounds) index state within =
      elim (Answer-cases (read index state).0) [
        | inl (a, e) ↦ rw e (
            was_yielded a e (
              iterate_valid-IsThrough length mild rounds (index + 1) (read index state).1
                (omega arith)))
        | inr (fault, e) ↦
            let (text, mild_one) = mild index state fault (omega arith) e in
            rw e (
              rw mild_one (
                was_reported fault e (
                  iterate_valid-IsThrough length mild rounds (index + 1) (read index state).1
                    (omega arith))))
      ]

  -- Where the strict iteration comes to its end, `iter_valid` yields the same items, reports nothing,
  -- and leaves the same state.
  pub iterate_valid-iterate :
      (rounds index : ℕ) (state after : S)
      → (iterate read rounds index state).1 ≡ finished after
      → iterate_valid read rounds index state ≡ iterate read rounds index state
  unfolding iterate_valid iterate
  iterate_valid-iterate zero index state after h = refl
  iterate_valid-iterate (suc rounds) index state after h =
      elim (Answer-cases (read index state).0) [
        | inl (a, e) ↦ rw e (
            ap (first_event (yielded a)) (
              iterate_valid-iterate rounds (index + 1) (read index state).1 after
                (rw (e, go_on) at h)))
        | inr (fault, e) ↦ cc (rw (e, go_on) at h)
      ]
