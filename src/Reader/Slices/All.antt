-- ===== src/Reader/Slices/All.antt =====
-- The indices of a slice without ends and step, for `Results.__getitem__` in src/pyrealm/reader.py.
use pyrealm.Prelude.{ℕ, zero, suc, ◌+◌, ◌≡◌, refl, ◌∙◌, ap, arith, true, none, List, [], ◌∷◌}
use pyrealm.Prelude.Integers.{ℤ, pos, ◌+ℤ◌}
use pyrealm.Reader.{answer}
use pyrealm.Reader.Slices.{
  Slice, Range, indices_by, slice_indices, has_next, range_from, range_items,
}

-- `[:]`
abbrev pub all_of : Slice
all_of = record { start = none; stop = none; step = none }

-- So many indices from one on.
abbrev pub indices_from : ℕ → ℕ → List ℤ
indices_from zero index = []
indices_from (suc rounds) index = pos index ∷ indices_from rounds (index + 1)

range_from-indices_from :
    (rounds index : ℕ) (stop : ℤ)
    → stop ≡ pos (index + rounds)
    → range_from rounds (pos index) stop (pos 1) ≡ indices_from rounds index
unfolding range_from ◌+ℤ◌
range_from-indices_from zero index stop e = refl
range_from-indices_from (suc rounds) index stop e =
    let more : has_next (pos index) stop (pos 1) ≡ true = rw e (ground arith) in
    let next : pos index +ℤ pos 1 ≡ pos (index + 1) = ground arith in
    rw (more, range_from, next)
      (ap (λ (rest : List ℤ). pos index ∷ rest)
        (range_from-indices_from rounds (index + 1) stop (e ∙ ap pos (omega arith))))

abbrev pub all_range : ℕ → Range
all_range length = record { start = pos 0; stop = pos length; step = pos 1 }

pub slice_indices-all_of : (length : ℕ) → slice_indices all_of length ≡ answer (all_range length)
unfolding indices_by
slice_indices-all_of length = refl

pub range_items-all_range :
    (length : ℕ) → range_items length (all_range length) ≡ indices_from length 0
unfolding range_items
range_items-all_range length = range_from-indices_from length 0 (pos length) (ap pos (omega arith))
