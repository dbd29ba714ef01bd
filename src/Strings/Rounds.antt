-- ===== src/Strings/Rounds.antt =====
-- The cases of one round of the `while` loop of `_utf8_strings`.
use pyrealm.Prelude.{
  ℕ, suc, ◌+◌, ◌≡◌, Bool, true, false, Option, none, some, List, [], ◌∷◌, ◌++◌, ltb, length, get_or,
}
use pyrealm.Bytes.{Bytes}
use pyrealm.Strings.{Run, lead_width, flush, or_start, text_at, utf8_loop}

module _ (isprintable : ℕ → Bool) (fuel : ℕ) (payload : Bytes) (minimum index : ℕ)
    (start : Option ℕ) (chars : List ℕ) (results : List Run) where
  pub round-end :
      ltb index (length payload) ≡ false
      → utf8_loop isprintable (suc fuel) payload minimum index start chars results
        ≡ flush minimum start chars results
  unfolding utf8_loop
  round-end done = rw (done, utf8_loop)

  pub round-text :
      {c : ℕ}
      → ltb index (length payload) ≡ true
      → text_at isprintable payload index ≡ some c
      → utf8_loop isprintable (suc fuel) payload minimum index start chars results
        ≡ utf8_loop isprintable fuel payload minimum
            (index + lead_width (get_or payload index 0))
            (some (or_start start index))
            (chars ++ c ∷ [])
            results
  unfolding utf8_loop
  round-text more e = rw (more, utf8_loop) (rw (e, utf8_loop))

  pub round-gap :
      ltb index (length payload) ≡ true
      → text_at isprintable payload index ≡ none
      → utf8_loop isprintable (suc fuel) payload minimum index start chars results
        ≡ utf8_loop isprintable fuel payload minimum
            (index + 1)
            none
            []
            (flush minimum start chars results)
  unfolding utf8_loop
  round-gap more e = rw (more, utf8_loop) (rw (e, utf8_loop))
