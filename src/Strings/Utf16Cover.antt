-- ===== src/Strings/Utf16Cover.antt =====
-- `_utf16le_pattern` in src/pyrealm_forensics/parser.py, on a stretch of pairs in the payload.
use pyrealm.Prelude.{
  ℕ, zero, suc, ◌+◌, ◌*◌, ◌≤◌, ◌<◌, ◌≡◌, ◌⊎◌, refl, sym, ◌∙◌, ap, subst, true, false, ◌&&◌, List,
  [], ◌∷◌, ◌++◌, arith, leb, le→leb, ◌==◌, length, length-drop, drop, drop-nil, drop-drop, All,
  Bool-cases, inl, inr, ◌-◌,
}
use pyrealm.Bytes.{Bytes}
use pyrealm.Strings.{Run, is_ascii_print, utf16_run, utf16_loop, utf16_strings}
use pyrealm.Strings.Any.{Any}
use pyrealm.Strings.Utf16Runs.{wide}

-- A match covers `n` pairs from `a` on.
abbrev pub CoversPairs : ℕ → ℕ → Run → Type 0
CoversPairs a n run = (run.0 ≤ a) × (a + 2 * n ≤ run.0 + 2 * length run.1)

run-prefix :
    (cs : List ℕ) (rest tail : Bytes)
    → rest ≡ wide cs ++ tail
    → All (λ c. is_ascii_print c ≡ true) cs
    → length cs ≤ length (utf16_run rest)
unfolding utf16_run
run-prefix [] rest tail e h = omega arith
run-prefix (c ∷ cs) rest tail e h =
    rw e (rw h.0 (omega (arith, run-prefix cs (wide cs ++ tail) tail refl h.1)))

-- The longest match at a place `d` bytes before the stretch ends before it, or covers it.
run-gap :
    (d : ℕ) (rest : Bytes) (c : ℕ) (cs : List ℕ) (tail : Bytes)
    → drop d rest ≡ wide (c ∷ cs) ++ tail
    → All (λ b. is_ascii_print b ≡ true) (c ∷ cs)
    → (0 < d) × (2 * length (utf16_run rest) ≤ d)
      ⊎ (d + 2 * suc (length cs) ≤ 2 * length (utf16_run rest))
unfolding utf16_run
run-gap zero rest c cs tail e h = inr (omega (arith, run-prefix (c ∷ cs) rest tail e h))
run-gap (suc zero) [] c cs tail e h = cc
run-gap (suc zero) (x ∷ []) c cs tail e h = cc
run-gap (suc zero) (x ∷ z ∷ rest) c cs tail e h = inl (omega arith, ground arith)
run-gap (suc (suc d)) [] c cs tail e h = cc
run-gap (suc (suc d)) (x ∷ []) c cs tail e h = inl (omega arith, omega arith)
run-gap (suc (suc d)) (x ∷ z ∷ rest) c cs tail e h =
    elim (Bool-cases (is_ascii_print x && z == 0)) [
      | inr other ↦ rw other (inl (omega arith, omega arith))
      | inl pair ↦ rw pair (ground (arith, run-gap d rest c cs tail e h))
    ]

drop-next : (d : ℕ) (b : ℕ) (bs : Bytes) (k : ℕ) → d ≡ suc k → drop d (b ∷ bs) ≡ drop k bs
drop-next d b bs k e = ap (λ (n : ℕ). drop n (b ∷ bs)) e

positive : (n : ℕ) → 0 < n → (n == 0) ≡ false
positive n h = ground arith

module _ (minimum c : ℕ) (cs : List ℕ) (tail : Bytes)
    (printable : All (λ b. is_ascii_print b ≡ true) (c ∷ cs))
    (long : minimum ≤ suc (length cs)) where
  -- From a position `pos`, with the stretch `d` bytes further on.
  utf16_loop-CoversPairs :
      (fuel pos d : ℕ) (rest : Bytes)
      → length rest < fuel
      → drop d rest ≡ wide (c ∷ cs) ++ tail
      → Any (CoversPairs (pos + d) (suc (length cs))) (utf16_loop fuel minimum pos rest)
  unfolding utf16_loop
  utf16_loop-CoversPairs zero pos d rest enough e = absurd (omega arith)
  utf16_loop-CoversPairs (suc fuel) pos d [] enough e = cc (e, drop-nil {A = ℕ} d)
  utf16_loop-CoversPairs (suc fuel) pos d (b ∷ bs) enough e =
      let run = utf16_run (b ∷ bs) in
      elim (run-gap d (b ∷ bs) c cs tail e printable) [
        | inr covers ↦
            rw (le→leb minimum (length run) (omega arith), utf16_loop)
              (rw (positive (length run) (omega arith), utf16_loop)
                (inl (omega arith, omega arith)))
        | inl (apart, before) ↦
            let next : drop (d - 1) bs ≡ wide (c ∷ cs) ++ tail =
              sym (drop-next d b bs (d - 1) (omega arith)) ∙ e in
            let step : Any (CoversPairs (pos + d) (suc (length cs)))
                (utf16_loop fuel minimum (pos + 1) bs) =
              subst
                (λ k. Any (CoversPairs k (suc (length cs))) (utf16_loop fuel minimum (pos + 1) bs))
                (omega arith)
                (utf16_loop-CoversPairs fuel (pos + 1) (d - 1) bs (omega arith) next) in
            elim (Bool-cases (leb minimum (length run))) [
              | inr short ↦ rw (short, utf16_loop) step
              | inl enough' ↦ elim (Bool-cases (length run == 0)) [
                | inl empty ↦ rw (enough', utf16_loop) (rw (empty, utf16_loop) (inr step))
                | inr full ↦
                    rw (enough', utf16_loop)
                      (rw (full, utf16_loop)
                        (inr (
                          later (2 * length run) d pos (b ∷ bs) before e (
                            utf16_loop-CoversPairs fuel (pos + 2 * length run) (d - 2 * length run)
                              (drop (2 * length run) (b ∷ bs)) (shorter b bs (omega arith) full)))))
              ]
            ]
      ]
    where
      later :
          (k d pos : ℕ) (rest : Bytes)
          → k ≤ d
          → drop d rest ≡ wide (c ∷ cs) ++ tail
          → (drop (d - k) (drop k rest) ≡ wide (c ∷ cs) ++ tail
              → Any
                  (CoversPairs (pos + k + (d - k)) (suc (length cs)))
                  (utf16_loop fuel minimum (pos + k) (drop k rest)))
          → Any
              (CoversPairs (pos + d) (suc (length cs)))
              (utf16_loop fuel minimum (pos + k) (drop k rest))
      later k d pos rest h e f =
          let at : k + (d - k) ≡ d = omega arith in
          subst
            (λ j.
              Any (CoversPairs j (suc (length cs)))
                (utf16_loop fuel minimum (pos + k) (drop k rest)))
            (omega arith) (f (drop-drop (d - k) k rest ∙ (ap (λ (j : ℕ). drop j rest) at ∙ e)))

      shorter :
          (b : ℕ) (bs : Bytes)
          → length bs < fuel
          → (length (utf16_run (b ∷ bs)) == 0) ≡ false
          → length (drop (2 * length (utf16_run (b ∷ bs))) (b ∷ bs)) < fuel
      shorter b bs h full =
          let some_pair : 0 < length (utf16_run (b ∷ bs)) = ground arith in
          omega (arith, length-drop (2 * length (utf16_run (b ∷ bs))) (b ∷ bs))

-- A stretch of at least `minimum` pairs of a printable ASCII byte and a zero byte, at any place of
-- the payload, lies within one match.
pub utf16_strings-CoversPairs :
    (payload : Bytes) (minimum a c : ℕ) (cs : List ℕ) (tail : Bytes)
    → drop a payload ≡ wide (c ∷ cs) ++ tail
    → All (λ b. is_ascii_print b ≡ true) (c ∷ cs)
    → minimum ≤ suc (length cs)
    → Any (CoversPairs a (suc (length cs))) (utf16_strings payload minimum)
unfolding utf16_strings
utf16_strings-CoversPairs payload minimum a c cs tail e printable long =
    subst (λ k. Any (CoversPairs k (suc (length cs))) (utf16_strings payload minimum)) (omega arith)
      (utf16_loop-CoversPairs minimum c cs tail printable long (suc (length payload)) 0 a payload
        (omega arith) e)
