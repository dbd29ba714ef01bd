-- ===== src/Reader/Slices.antt =====
-- What `Results.__getitem__` in src/pyrealm/reader.py uses of a slice: `slice.indices(length)` and the
-- items of `range`, as Python documents them.
pub mod All
use pyrealm.Prelude.{
  ℕ, zero, suc, Bool, true, false, Option, none, some, List, [], ◌∷◌, if◌then◌else◌,
}
use pyrealm.Prelude.Integers.{ℤ, pos, negsuc, ◌+ℤ◌, ltb_ℤ}
use pyrealm.Reader.{Fault, bad_value, Answer, answer, raised}

-- `start:stop:step`, of which each part may be missing.
pub record Slice : Type 0 where
  pub start : Option ℤ
  pub stop : Option ℤ
  pub step : Option ℤ

-- A given end of the slice, counted from the end if it is negative, and kept between two limits.
unfoldable pub adjust : ℕ → ℤ → ℤ → ℤ → ℤ
adjust length lower upper index =
    if ltb_ℤ index (pos 0)
    then (let shifted = index +ℤ pos length in if ltb_ℤ shifted lower then lower else shifted)
    else if ltb_ℤ upper index
    then upper
    else index

-- One end: its value, or the default for a missing one.
abbrev pub end_of : ℕ → ℤ → ℤ → ℤ → Option ℤ → ℤ
end_of length lower upper missing none = missing
end_of length lower upper missing (some index) = adjust length lower upper index

pub record Range : Type 0 where
  pub start : ℤ
  pub stop : ℤ
  pub step : ℤ

abbrev pub step_of : Option ℤ → ℤ
step_of none = pos 1
step_of (some step) = step

-- The ends for a step forward and for a step back.
unfoldable pub indices_by : Slice → ℕ → ℤ → Answer Range
indices_by s length (pos zero) = raised (bad_value "slice step cannot be zero")
indices_by s length (pos (suc k)) = answer record {
  start = end_of length (pos 0) (pos length) (pos 0) s.start;
  stop = end_of length (pos 0) (pos length) (pos length) s.stop;
  step = pos (suc k);
}
indices_by s length (negsuc k) = answer record {
  start = end_of length (negsuc 0) (pos length +ℤ negsuc 0) (pos length +ℤ negsuc 0) s.start;
  stop = end_of length (negsuc 0) (pos length +ℤ negsuc 0) (negsuc 0) s.stop;
  step = negsuc k;
}

-- `slice.indices(length)`
abbrev pub slice_indices : Slice → ℕ → Answer Range
slice_indices s length = indices_by s length (step_of s.step)

-- `range(start, stop, step)` has a further item.
abbrev pub has_next : ℤ → ℤ → ℤ → Bool
has_next start stop (pos k) = ltb_ℤ start stop
has_next start stop (negsuc k) = ltb_ℤ stop start

-- The items of the range. Each step is at least 1, so as many rounds as the distance of the ends are
-- enough; the ends that `slice_indices` gives are not further apart than `length`.
pub range_from : ℕ → ℤ → ℤ → ℤ → List ℤ
range_from zero start stop step = []
range_from (suc rounds) start stop step = elim (has_next start stop step) [
  | true ↦ start ∷ range_from rounds (start +ℤ step) stop step
  | false ↦ []
]

unfoldable pub range_items : ℕ → Range → List ℤ
unfolding range_from
range_items length r = range_from length r.start r.stop r.step
