-- ===== src/Strings/Utf16Runs.antt =====
-- The matches of `_utf16le_pattern` in src/pyrealm_forensics/parser.py.
use pyrealm.Prelude.{
  ℕ, zero, suc, ◌+◌, ◌*◌, ◌≤◌, ◌≡◌, refl, sym, ◌∙◌, ap, subst, true, ◌&&◌, List, [], ◌∷◌, ◌++◌,
  arith, leb, leb→le, ◌==◌, ==_iff, length, drop, drop-drop, All, Bool-cases, inl, inr,
}
use pyrealm.Bytes.{Bytes}
use pyrealm.Strings.{Run, is_ascii_print, utf16_run, utf16_loop, utf16_strings}

-- The UTF-16LE encoding of ASCII characters.
abbrev pub wide : List ℕ → Bytes
wide [] = []
wide (c ∷ cs) = c ∷ 0 ∷ wide cs

two_suc : (n : ℕ) → 2 * suc n ≡ suc (suc (2 * n))
two_suc n = omega arith

-- The head's longest match: what it is, and that no pair follows.
record IsLongest (rest : Bytes) (chars : List ℕ) : Type 0 where
  pub printable : All (λ c. is_ascii_print c ≡ true) chars
  pub bytes : rest ≡ wide chars ++ drop (2 * length chars) rest
  pub maximal : utf16_run (drop (2 * length chars) rest) ≡ []

utf16_run-IsLongest : (rest : Bytes) → IsLongest rest (utf16_run rest)
unfolding utf16_run
utf16_run-IsLongest [] = record { printable = tt; bytes = refl; maximal = refl }
utf16_run-IsLongest (b ∷ []) = record { printable = tt; bytes = refl; maximal = refl }
utf16_run-IsLongest (b ∷ z ∷ rest) = elim (Bool-cases (is_ascii_print b && z == 0)) [
  | inl pair ↦ rw pair (longer b z rest (utf16_run rest) pair (utf16_run-IsLongest rest))
  | inr other ↦ rw other record { printable = tt; bytes = refl; maximal = rw other refl }
]
  where
    longer :
        (b z : ℕ) (rest : Bytes) (chars : List ℕ)
        → (is_ascii_print b && z == 0) ≡ true
        → IsLongest rest chars
        → IsLongest (b ∷ z ∷ rest) (b ∷ chars)
    longer b z rest chars pair l =
        let zero_byte : z ≡ 0 = ground arith in
        record {
          printable = (ground arith, l.printable);
          bytes = rw (two_suc (length chars), zero_byte) (ap (λ (bs : Bytes). b ∷ 0 ∷ bs) l.bytes);
          maximal = rw (two_suc (length chars)) l.maximal;
        }

pub record IsWideRun (payload : Bytes) (minimum : ℕ) (run : Run) : Type 0 where
  pub long : minimum ≤ length run.1
  pub printable : All (λ c. is_ascii_print c ≡ true) run.1
  pub bytes : drop run.0 payload ≡ wide run.1 ++ drop (run.0 + 2 * length run.1) payload
  pub maximal : utf16_run (drop (run.0 + 2 * length run.1) payload) ≡ []

run-IsWideRun :
    (payload : Bytes) (minimum pos : ℕ)
    → minimum ≤ length (utf16_run (drop pos payload))
    → IsWideRun payload minimum (pos, utf16_run (drop pos payload))
run-IsWideRun payload minimum pos long =
    let l = utf16_run-IsLongest (drop pos payload) in
    let shift = drop-drop (2 * length (utf16_run (drop pos payload))) pos payload in
    record {
      long = long;
      printable = l.printable;
      bytes = rw (← shift) l.bytes;
      maximal = rw (← shift) l.maximal;
    }

utf16_loop-IsWideRun :
    (fuel : ℕ) (payload : Bytes) (minimum pos : ℕ) (rest : Bytes)
    → drop pos payload ≡ rest
    → All (IsWideRun payload minimum) (utf16_loop fuel minimum pos rest)
unfolding utf16_loop utf16_run
utf16_loop-IsWideRun zero payload minimum pos rest e = tt
utf16_loop-IsWideRun (suc fuel) payload minimum pos [] e = elim (Bool-cases (minimum == 0)) [
  | inl free ↦ rw free (
    subst (λ cs. IsWideRun payload minimum (pos, cs)) (rw e refl)
        (run-IsWideRun payload minimum pos (omega (arith, (==_iff minimum 0).0 free))),
    tt,
  )
  | inr bounded ↦ rw bounded tt
]
utf16_loop-IsWideRun (suc fuel) payload minimum pos (b ∷ bs) e =
    let next : drop (pos + 1) payload ≡ bs = sym (drop-drop 1 pos payload) ∙ ap (drop 1) e in
    let step = utf16_loop-IsWideRun fuel payload minimum (pos + 1) bs next in
    elim (Bool-cases (leb minimum (length (utf16_run (b ∷ bs))))) [
      | inr short ↦ rw (short, utf16_loop) step
      | inl long ↦
          let run = rw e at (run-IsWideRun payload minimum pos (rw e (leb→le minimum _ long))) in
          elim (Bool-cases (length (utf16_run (b ∷ bs)) == 0)) [
            | inl empty ↦ rw (long, utf16_loop) (rw (empty, utf16_loop) (run, step))
            | inr full ↦
                rw (long, utf16_loop)
                  (rw (full, utf16_loop)
                    (
                      run,
                      utf16_loop-IsWideRun fuel payload minimum
                          (pos + 2 * length (utf16_run (b ∷ bs)))
                          (drop (2 * length (utf16_run (b ∷ bs))) (b ∷ bs))
                          (sym (drop-drop (2 * length (utf16_run (b ∷ bs))) pos payload)
                            ∙ ap (drop (2 * length (utf16_run (b ∷ bs)))) e),
                    ))
          ]
    ]

-- Each match has at least the minimum number of characters, each printable ASCII; the payload holds
-- their UTF-16LE encoding at the match's offset; and no such pair of bytes follows.
pub utf16_strings-IsWideRun :
    (payload : Bytes) (minimum : ℕ)
    → All (IsWideRun payload minimum) (utf16_strings payload minimum)
unfolding utf16_strings
utf16_strings-IsWideRun payload minimum =
    utf16_loop-IsWideRun (suc (length payload)) payload minimum 0 payload refl
