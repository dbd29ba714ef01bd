-- ===== src/Entropy/Sample.antt =====
-- The sample and the counter of `_sample_entropy` in src/pyrealm_forensics/parser.py.
use pyrealm.Prelude.{
  ◌⊎◌, inl, inr, Bool-cases, leb, leb→le, ℕ, ◌+◌, ◌-◌, ◌*◌, ◌≤◌, ◌<◌, ◌≡◌, refl, ◌∙◌, ap, inl, inr,
  false, some, [], ◌∷◌, ◌++◌, arith, ◌==◌, if◌then◌else◌, length, take, drop, min, length-append,
  length-take, length-drop, Bool-cases, ==_iff, leb, leb→le,
}
use pyrealm.Prelude.Dict.{Dict, lookup, insert, lookup-insert}
use pyrealm.Bytes.{Bytes}
use pyrealm.Entropy.{sample_limit, sample, count_or_zero, tally, counter}

differs : (n m : ℕ) → n < m → (n == m) ≡ false
differs n m h = ground arith

-- A file of at most 1 MiB is its own sample.
sample_small : (xs : Bytes) → length xs ≤ sample_limit → sample xs ≡ xs
unfolding sample
sample_small xs h =
    let e : min (length xs) sample_limit ≡ length xs = omega arith in
    rw e (rw (==_iff (length xs) (length xs)).1 refl)

abbrev pub half_limit : ℕ
half_limit = 512 * 1024

sample_large :
    (xs : Bytes)
    → sample_limit < length xs
    → sample xs ≡ take half_limit xs ++ drop (length xs - half_limit) xs
unfolding sample
sample_large xs h =
    let e : min (length xs) sample_limit ≡ sample_limit = omega arith in
    rw e (rw (differs sample_limit (length xs) h) refl)

length-halves :
    (half : ℕ) (xs : Bytes)
    → half + half ≤ length xs
    → length (take half xs ++ drop (length xs - half) xs) ≡ half + half
length-halves half xs h = omega (
  arith,
  length-append (take half xs) (drop (length xs - half) xs),
  length-take half xs,
  length-drop (length xs - half) xs,
)

length-sample : (xs : Bytes) → length (sample xs) ≡ min (length xs) sample_limit
length-sample xs = elim (Bool-cases (leb (length xs) sample_limit)) [
  | inl small ↦
      ap length (sample_small xs (leb→le (length xs) sample_limit small))
      ∙ omega (arith, leb→le (length xs) sample_limit small)
  | inr large ↦
      let more : sample_limit < length xs = ground arith in
      ap length (sample_large xs more) ∙ (length-halves half_limit xs (omega arith) ∙ omega arith)
]

-- How often a byte stands in a list.
abbrev pub count : ℕ → Bytes → ℕ
count b [] = 0
count b (x ∷ xs) = (if x == b then 1 else 0) + count b xs

abbrev pub total : Dict ℕ → ℕ
total [] = 0
total ((_, n) ∷ d) = n + total d

added :
    (x b : ℕ) (counts : Dict ℕ) (bs : Bytes)
    → count_or_zero (if x == b then some (count_or_zero (lookup x counts) + 1) else lookup b counts)
        + count b bs
      ≡ count_or_zero (lookup b counts) + ((if x == b then 1 else 0) + count b bs)
added x b counts bs = elim (Bool-cases (x == b)) [
  | inl same ↦
      let e = ap (λ (k : ℕ). count_or_zero (lookup k counts)) ((==_iff x b).0 same) in
      rw same (omega (arith, e))
  | inr other ↦ rw other (omega arith)
]

tally-count :
    (counts : Dict ℕ) (bs : Bytes) (b : ℕ)
    → count_or_zero (lookup b (tally counts bs)) ≡ count_or_zero (lookup b counts) + count b bs
unfolding tally
tally-count counts [] b = omega arith
tally-count counts (x ∷ bs) b =
    let n = count_or_zero (lookup x counts) + 1 in
    tally-count (insert x n counts) bs b ∙ rw lookup-insert (added x b counts bs)

total-insert :
    (b n : ℕ) (d : Dict ℕ) → total (insert b n d) + count_or_zero (lookup b d) ≡ total d + n
total-insert b n [] = omega arith
total-insert b n ((k, m) ∷ d) = ground (arith, total-insert b n d)

tally-total : (counts : Dict ℕ) (bs : Bytes) → total (tally counts bs) ≡ total counts + length bs
unfolding tally
tally-total counts [] = omega arith
tally-total counts (x ∷ bs) = omega (
  arith,
  tally-total (insert x (count_or_zero (lookup x counts) + 1) counts) bs,
  total-insert x (count_or_zero (lookup x counts) + 1) counts,
)

-- What the entropy is computed from: the whole file or its first and last half MiB, never more than
-- 1 MiB, and for each byte value the number of times that it stands there; the counts add up to the
-- length of the sample, by which each is divided.
pub record IsSampled (xs : Bytes) : Type 0 where
  pub bounded : length (sample xs) ≡ min (length xs) sample_limit
  pub ends :
      (length xs ≤ sample_limit) × (sample xs ≡ xs)
      ⊎ (sample_limit < length xs)
        × (sample xs ≡ take half_limit xs ++ drop (length xs - half_limit) xs)
  pub counted : (b : ℕ) → count_or_zero (lookup b (counter (sample xs))) ≡ count b (sample xs)
  pub shared_out : total (counter (sample xs)) ≡ length (sample xs)

-- The sample is at most 1 MiB long, all of the data if that is not longer, and otherwise its two
-- ends; the counter has for each byte the number of its occurrences in the sample, and the counts
-- add up to the sample's length.
pub sample-IsSampled : (xs : Bytes) → IsSampled xs
unfolding counter
sample-IsSampled xs = record {
  bounded = length-sample xs;
  ends = elim (Bool-cases (leb (length xs) sample_limit)) [
    | inl short ↦ let le = leb→le (length xs) sample_limit short in inl (le, sample_small xs le)
    | inr long ↦ let gt : sample_limit < length xs = ground arith in inr (gt, sample_large xs gt)
  ];
  counted = λ b. tally-count [] (sample xs) b ∙ (omega arith);
  shared_out = tally-total [] (sample xs) ∙ (omega arith);
}
