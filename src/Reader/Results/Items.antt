-- ===== src/Reader/Results/Items.antt =====
-- src/pyrealm/reader.py, `Results.__len__`, `Results.__getitem__` and the two loops, over the size and the items of a
-- result set of the native module. The cache of the realm is passed along.
pub mod Whole
pub mod Salvage
use pyrealm.Prelude.{ℕ, List, [], ◌∷◌}
use pyrealm.Prelude.Integers.{ℤ, pos}
use pyrealm.Reader.{Raw, Answer, answer, raised, ◌>>=◌, Mapping}
use pyrealm.Reader.Records.{Record}
use pyrealm.Reader.Cache.{native_errors, RecordCache, from_reply}
use pyrealm.Reader.Results.{Event, Ending, stopped, iterate, iterate_valid}
use pyrealm.Reader.Slices.{Slice, slice_indices, range_items}

module _ {Listing : Type 0} (size : Listing → Answer ℕ) where
  -- `len(results)`
  unfoldable pub result_len : Listing → Answer ℕ
  result_len listing = native_errors (size listing)

  -- `range(*index.indices(len(self)))`
  unfoldable pub sliced : Listing → Slice → Answer (List ℤ)
  sliced listing s = do
    length ← result_len listing
    r ← slice_indices s length
    answer (range_items length r)

module _ {R D Listing : Type 0} (size : Listing → Answer ℕ)
    (item : Listing → ℤ → Answer (Mapping (Raw R))) where
  -- `results[index]`
  unfoldable pub result_at : Listing → ℤ → RecordCache R D → Answer (Record R D) × RecordCache R D
  unfolding from_reply
  result_at listing index cache = from_reply cache (native_errors (item listing index))

  -- An item of the comprehension, before the rest.
  unfoldable pub add_item :
      Answer (Record R D)
      → RecordCache R D
      → Answer (List (Record R D)) × RecordCache R D
      → Answer (List (Record R D)) × RecordCache R D
  add_item (raised fault) cache rest = (raised fault, cache)
  add_item (answer r) cache (rest, after) = (do rs ← rest; answer (r ∷ rs), after)

  unfoldable pub read_items :
      Listing → List ℤ → RecordCache R D → Answer (List (Record R D)) × RecordCache R D
  unfolding add_item
  read_items listing [] cache = (answer [], cache)
  read_items listing (index ∷ indices) cache =
      let (asked, after) = result_at listing index cache in
      add_item asked after (read_items listing indices after)

  unfoldable pub read_sliced :
      Listing → RecordCache R D → Answer (List ℤ) → Answer (List (Record R D)) × RecordCache R D
  read_sliced listing cache (raised fault) = (raised fault, cache)
  read_sliced listing cache (answer indices) = read_items listing indices cache

  -- `results[slice]`. The exceptions are translated where they are raised; translating them once more
  -- changes nothing.
  unfoldable pub result_slice :
      Listing → Slice → RecordCache R D → Answer (List (Record R D)) × RecordCache R D
  unfolding read_sliced
  result_slice listing s cache = read_sliced listing cache (sliced size listing s)

  -- `self[index]` in the two loops.
  abbrev pub read_at : Listing → ℕ → RecordCache R D → Answer (Record R D) × RecordCache R D
  read_at listing index cache = result_at listing (pos index) cache

  -- A loop over `range(len(self))`.
  pub over_items :
      RecordCache R D
      → Answer ℕ
      → (ℕ → List (Event (Record R D)) × Ending (RecordCache R D))
      → List (Event (Record R D)) × Ending (RecordCache R D)
  over_items cache (raised fault) loop = ([], stopped fault cache)
  over_items cache (answer length) loop = loop length

  -- `Results.__iter__`
  unfoldable pub result_iter :
      Listing → RecordCache R D → List (Event (Record R D)) × Ending (RecordCache R D)
  unfolding over_items
  result_iter listing cache =
      over_items cache (result_len size listing)
        (λ length. iterate (read_at listing) length 0 cache)

  -- `Results.iter_valid`
  unfoldable pub result_iter_valid :
      Listing → RecordCache R D → List (Event (Record R D)) × Ending (RecordCache R D)
  unfolding over_items
  result_iter_valid listing cache =
      over_items cache (result_len size listing)
        (λ length. iterate_valid (read_at listing) length 0 cache)
