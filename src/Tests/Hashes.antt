-- ===== src/Tests/Hashes.antt =====
-- The digest and the sample at concrete bytes.
use pyrealm.Prelude.{◌≡◌, refl, [], ◌∷◌}
use pyrealm.Hash.{sha256}
use pyrealm.Hash.Laws.{sha256-whole}
use pyrealm.Entropy.{counter}
use pyrealm.Entropy.Sample.{IsSampled, sample-IsSampled}
use pyrealm.Tests.Files.{list_sha, list_sha-IsIncremental}

sha256-whole_example :
    sha256 list_sha (record { contents = 1 ∷ 2 ∷ []; position = 0 })
    ≡ ("digest", record { contents = 1 ∷ 2 ∷ []; position = 0 })
sha256-whole_example =
    sha256-whole list_sha list_sha-IsIncremental (record { contents = 1 ∷ 2 ∷ []; position = 0 })
      refl

counted_twice : counter (5 ∷ 7 ∷ 5 ∷ []) ≡ (5, 2) ∷ (7, 1) ∷ []
unfolding counter
counted_twice = refl

sample-IsSampled_example : IsSampled (5 ∷ 7 ∷ 5 ∷ [])
sample-IsSampled_example = sample-IsSampled (5 ∷ 7 ∷ 5 ∷ [])
