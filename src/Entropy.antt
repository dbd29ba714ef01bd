-- ===== src/Entropy.antt =====
-- src/pyrealm_forensics/parser.py, `_sample_entropy`. Python's floats are an interface: the type, and
-- the operations that the parser uses on it. Nothing is assumed of them.
pub mod Sample
use pyrealm.Prelude.{
  ℕ, ◌+◌, ◌-◌, ◌*◌, ◌/◌, Bool, Option, none, some, List, [], ◌∷◌, ◌++◌, ◌==◌, if◌then◌else◌, length,
  take, drop, min,
}
use pyrealm.Prelude.Dict.{Dict, lookup, insert}
use pyrealm.Bytes.{Bytes}

pub record Float : Type 1 where
  pub Real : Type 0
  pub zero_real : Real
  -- `count / total`
  pub ratio : ℕ → ℕ → Real
  pub log2 : Real → Real
  pub multiply : Real → Real → Real
  pub plus : Real → Real → Real
  pub negate : Real → Real
  -- `a > b` and `a >= b`
  pub above : Real → Real → Bool
  pub at_least : Real → Real → Bool
  -- The literal 7.5, and the format `:.3f`.
  pub threshold : Real

abbrev pub sample_limit : ℕ
sample_limit = 1024 * 1024

-- `sample`: the whole data, or its two ends.
unfoldable pub sample : Bytes → Bytes
sample xs =
    let sample_size = min (length xs) sample_limit in
    if sample_size == length xs
    then xs
    else (let half = sample_size / 2 in take half xs ++ drop (length xs - half) xs)

-- `counts[key]` of a `Counter`: 0 for a missing key.
abbrev pub count_or_zero : Option ℕ → ℕ
count_or_zero none = 0
count_or_zero (some n) = n

-- `Counter(sample)`, onto the counts so far.
tally : Dict ℕ → Bytes → Dict ℕ
tally counts [] = counts
tally counts (b ∷ bs) = tally (insert b (count_or_zero (lookup b counts) + 1) counts) bs

unfoldable pub counter : Bytes → Dict ℕ
unfolding tally
counter bs = tally [] bs

module _ (F : Float) where
  -- The terms of the sum, in the order of `counts.values()`.
  entropy_sum : ℕ → F.Real → Dict ℕ → F.Real
  entropy_sum total acc [] = acc
  entropy_sum total acc ((_, count) ∷ counts) =
      let share = F.ratio count total in
      entropy_sum total (F.plus acc (F.multiply share (F.log2 share))) counts

  unfoldable pub sample_entropy : Bytes → F.Real
  unfolding entropy_sum
  sample_entropy xs =
      if length xs == 0
      then F.zero_real
      else (let part = sample xs in
          let entropy = F.negate (entropy_sum (length part) F.zero_real (counter part)) in
          if F.above entropy F.zero_real then entropy else F.zero_real)
