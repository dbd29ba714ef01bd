-- ===== src/Reader/Results.antt =====
-- src/pyrealm/reader.py, `Results.__iter__` and `Results.iter_valid`, as what a caller that takes all
-- items sees. `read` is `self[index]`, which may change a state, the realm's cache.
pub mod Iteration
pub mod Items
use pyrealm.Prelude.{ℕ, zero, suc, ◌+◌, String, Option, none, some, List, [], ◌∷◌}
use pyrealm.Reader.{Fault, realm_text, Answer, answer, raised}

-- An item that is yielded, or a call of `on_error` or a warning.
pub data Event (A : Type 0) : Type 0 where
  yielded : A → Event A
  reported : ℕ → Fault → Event A

-- How an iteration ended, and the state then.
pub data Ending (S : Type 0) : Type 0 where
  finished : S → Ending S
  stopped : Fault → S → Ending S

module _ {A S : Type 0} where
  abbrev pub first_event : Event A → List (Event A) × Ending S → List (Event A) × Ending S
  first_event event (events, ending) = (event ∷ events, ending)

  -- One item of `__iter__`, before the rest.
  unfoldable pub go_on : Answer A → S → List (Event A) × Ending S → List (Event A) × Ending S
  go_on (answer a) state rest = first_event (yielded a) rest
  go_on (raised fault) state rest = ([], stopped fault state)

  -- `except RealmError`
  pub skip : ℕ → Fault → Option String → S → List (Event A) × Ending S → List (Event A) × Ending S
  skip index fault none state rest = ([], stopped fault state)
  skip index fault (some e) state rest = first_event (reported index fault) rest

  pub go_on_valid : ℕ → Answer A → S → List (Event A) × Ending S → List (Event A) × Ending S
  go_on_valid index (answer a) state rest = first_event (yielded a) rest
  go_on_valid index (raised fault) state rest = skip index fault (realm_text fault) state rest

  module _ (read : ℕ → S → Answer A × S) where
    -- `__iter__`, from an index on, for a number of rounds.
    unfoldable pub iterate : ℕ → ℕ → S → List (Event A) × Ending S
    unfolding go_on
    iterate zero index state = ([], finished state)
    iterate (suc rounds) index state =
        let (asked, after) = read index state in
        go_on asked after (iterate rounds (index + 1) after)

    -- `iter_valid`
    unfoldable pub iterate_valid : ℕ → ℕ → S → List (Event A) × Ending S
    unfolding go_on_valid skip
    iterate_valid zero index state = ([], finished state)
    iterate_valid (suc rounds) index state =
        let (asked, after) = read index state in
        go_on_valid index asked after (iterate_valid rounds (index + 1) after)
