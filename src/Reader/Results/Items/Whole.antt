-- ===== src/Reader/Results/Items/Whole.antt =====
-- A slice of all results in src/pyrealm/reader.py, beside their iteration.
use pyrealm.Prelude.{ℕ, zero, suc, ◌+◌, ◌≡◌, refl, ◌∙◌, ap, List, [], ◌∷◌, inl, inr}
use pyrealm.Prelude.Integers.{ℤ}
use pyrealm.Reader.{Raw, Fault, Answer, answer, raised, Mapping}
use pyrealm.Reader.Records.{Record}
use pyrealm.Reader.Records.Memo.{Answer-cases}
use pyrealm.Reader.Cache.{RecordCache}
use pyrealm.Reader.Slices.All.{all_of, indices_from, slice_indices-all_of, range_items-all_range}
use pyrealm.Reader.Results.{
  Event, yielded, reported, Ending, finished, stopped, first_event, go_on, iterate,
}
use pyrealm.Reader.Results.Items.{
  result_len, read_at, over_items, result_iter, add_item, read_items, sliced, read_sliced,
  result_slice,
}

-- The items that an iteration yielded.
abbrev pub yields : {A : Type 0} → List (Event A) → List A
yields [] = []
yields (yielded a ∷ events) = a ∷ yields events
yields (reported index fault ∷ events) = yields events

-- What `list` makes of an iteration.
abbrev pub listed : {A S : Type 0} → List (Event A) × Ending S → Answer (List A) × S
listed (events, finished state) = (answer (yields events), state)
listed (events, stopped fault state) = (raised fault, state)

sliced-all_of :
    {Listing : Type 0} (size : Listing → Answer ℕ) (listing : Listing) (length : ℕ)
    → result_len size listing ≡ answer length
    → sliced size listing all_of ≡ answer (indices_from length 0)
unfolding sliced
sliced-all_of size listing length h =
    rw (h, slice_indices-all_of length, range_items-all_range length) refl

sliced-raised :
    {Listing : Type 0} (size : Listing → Answer ℕ) (listing : Listing) (fault : Fault)
    → result_len size listing ≡ raised fault
    → sliced size listing all_of ≡ raised fault
unfolding sliced
sliced-raised size listing fault h = rw h refl

module _ {R D Listing : Type 0} (size : Listing → Answer ℕ)
    (item : Listing → ℤ → Answer (Mapping (Raw R))) (listing : Listing) where
  add_item-listed :
      (r : Record R D) (cache : RecordCache R D)
      (outcome : List (Event (Record R D)) × Ending (RecordCache R D))
      → add_item size item (answer r) cache (listed outcome)
        ≡ listed (first_event (yielded r) outcome)
  unfolding add_item
  add_item-listed r cache (events, finished state) = refl
  add_item-listed r cache (events, stopped fault state) = refl

  read_items-iterate :
      (rounds index : ℕ) (cache : RecordCache R D)
      → read_items size item listing (indices_from rounds index) cache
        ≡ listed (iterate (read_at size item listing) rounds index cache)
  unfolding read_items iterate add_item go_on
  read_items-iterate zero index cache = refl
  read_items-iterate (suc rounds) index cache =
      elim (Answer-cases (read_at size item listing index cache).0) [
        | inl (r, e) ↦ rw e (
            ap (add_item size item (answer r) (read_at size item listing index cache).1)
              (read_items-iterate rounds (index + 1) (read_at size item listing index cache).1)
            ∙ add_item-listed r (read_at size item listing index cache).1 (
                iterate (read_at size item listing) rounds (index + 1)
                  (read_at size item listing index cache).1))
        | inr (fault, e) ↦ rw e refl
      ]

  -- The slice `[:]` is the list of the strict iteration: its records, or its exception, and its cache,
  -- also if the length cannot be read.
  pub result_slice-iter :
      (cache : RecordCache R D)
      → result_slice size item listing all_of cache ≡ listed (result_iter size item listing cache)
  unfolding result_slice read_sliced result_iter over_items
  result_slice-iter cache = elim (Answer-cases (result_len size listing)) [
    | inl (length, e) ↦
        rw (sliced-all_of size listing length e, e) (read_items-iterate length 0 cache)
    | inr (fault, e) ↦ rw (sliced-raised size listing fault e, e) refl
  ]
