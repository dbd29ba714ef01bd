-- ===== src/Strings/Utf8Runs.antt =====
-- The runs that `_utf8_strings` in src/pyrealm_forensics/parser.py returns, and the state of
-- its loop while it reads one.
use pyrealm.Prelude.{
  ℕ, zero, suc, ◌+◌, ◌-◌, ◌≤◌, ◌<◌, ◌≡◌, refl, sym, ◌∙◌, ap, Bool, true, Option, none, some, List,
  [], ◌∷◌, ◌++◌, arith, ltb, leb, leb→le, length, get_or, take, drop, All, All-append,
  length-append, drop-drop, drop-length_le, take-append-drop, Bool-cases, Option-cases, inl, inr,
}
use mathlib.Core.List.{append_assoc, append-nil}
use pyrealm.Bytes.{Bytes, slice}
use pyrealm.Utf8.{decode_char, encode_char, encode}
use pyrealm.Utf8.Exact.{encode_char-decode_char}
use pyrealm.Strings.Rounds.{round-end, round-text, round-gap}
use pyrealm.Strings.{Run, lead_width, flush, or_start, is_text, text_at, utf8_loop, utf8_strings}

pub encode-concat : (cs : List ℕ) (c : ℕ) → encode (cs ++ c ∷ []) ≡ encode cs ++ encode_char c
unfolding encode
encode-concat [] c = append-nil (encode_char c)
encode-concat (d ∷ cs) c =
    ap (λ (bs : Bytes). encode_char d ++ bs) (encode-concat cs c)
    ∙ sym (append_assoc (encode_char d) (encode cs) (encode_char c))

-- The lead byte of an encoding tells its length.
encode_char-lead : (c : ℕ) → lead_width (get_or (encode_char c) 0 0) ≡ length (encode_char c)
unfolding encode_char
encode_char-lead c = ground arith

get_or-take-drop : (n i : ℕ) (xs : Bytes) → 0 < n → get_or (take n (drop i xs)) 0 0 ≡ get_or xs i 0
get_or-take-drop zero i xs h = absurd (omega arith)
get_or-take-drop (suc n) zero [] h = refl
get_or-take-drop (suc n) zero (x ∷ xs) h = refl
get_or-take-drop (suc n) (suc i) [] h = refl
get_or-take-drop (suc n) (suc i) (x ∷ xs) h = get_or-take-drop (suc n) i xs h

pub lead_width-pos : (lead : ℕ) → 0 < lead_width lead
lead_width-pos lead = ground arith

pub take-nil : (n : ℕ) → take {A = ℕ} n [] ≡ []
take-nil zero = refl
take-nil (suc n) = refl

pub slice-end : (xs : Bytes) (i j : ℕ) → length xs ≤ i → slice xs i j ≡ []
slice-end xs i j h = rw (drop-length_le i xs h) (take-nil (j - i))

module _ (isprintable : ℕ → Bool) (payload : Bytes) where
  pub record IsTextAt (index c : ℕ) : Type 0 where
    pub text : is_text isprintable c ≡ true
    pub width : lead_width (get_or payload index 0) ≡ length (encode_char c)
    pub bytes :
        drop index payload
        ≡ encode_char c ++ drop (index + lead_width (get_or payload index 0)) payload

  pub text_at-some : (index c : ℕ) → text_at isprintable payload index ≡ some c → IsTextAt index c
  unfolding text_at
  text_at-some index c h = elim (Option-cases (decode_char (slice payload index (index + width)))) [
    | inl e ↦ absurd (ground arith)
    | inr (d, e) ↦
        let same : d ≡ c = ground arith in
        let part : encode_char c ≡ take width (drop index payload) =
          rw index_width at
            (encode_char-decode_char (slice payload index (index + width)) c (rw same at e)) in
        record {
          text = ground arith;
          width =
              ap lead_width (
                sym (get_or-take-drop width index payload positive)
                ∙ ap (λ (bs : Bytes). get_or bs 0 0) (sym part))
              ∙ encode_char-lead c;
          bytes = sym (rw (part, ← drop-drop) (take-append-drop width (drop index payload)));
        }
  ]
    where
      width : ℕ
      width = lead_width (get_or payload index 0)

      index_width :
          index + lead_width (get_or payload index 0) - index ≡ lead_width (get_or payload index 0)
      index_width = omega arith

      positive : 0 < lead_width (get_or payload index 0)
      positive = ground arith

  -- Nothing is read at or behind the end.
  pub text_at-end : (index : ℕ) → length payload ≤ index → text_at isprintable payload index ≡ none
  unfolding text_at decode_char
  text_at-end index h =
      rw (slice-end payload index (index + lead_width (get_or payload index 0)) h, text_at)

  -- A run that is being read: its text ends at `index`.
  pub record IsOpen (index start : ℕ) (chars : List ℕ) : Type 0 where
    pub printable : All (λ c. is_text isprintable c ≡ true) chars
    pub reached : index ≡ start + length (encode chars)
    pub bytes : drop start payload ≡ encode chars ++ drop index payload

  -- A run that was returned.
  pub record IsRun (minimum : ℕ) (run : Run) : Type 0 where
    pub long : minimum ≤ length run.1
    pub printable : All (λ c. is_text isprintable c ≡ true) run.1
    pub bytes : drop run.0 payload ≡ encode run.1 ++ drop (run.0 + length (encode run.1)) payload
    pub maximal : text_at isprintable payload (run.0 + length (encode run.1)) ≡ none

  abbrev pub Pending : ℕ → Option ℕ → List ℕ → Type 0
  Pending index none chars = chars ≡ []
  Pending index (some start) chars = IsOpen index start chars

  flush-IsRun :
      (minimum index : ℕ) (start : Option ℕ) (chars : List ℕ) (results : List Run)
      → Pending index start chars
      → text_at isprintable payload index ≡ none
      → All (IsRun minimum) results
      → All (IsRun minimum) (flush minimum start chars results)
  unfolding flush
  flush-IsRun minimum index none chars results p stop rs = rs
  flush-IsRun minimum index (some start) chars results p stop rs =
      elim (Bool-cases (leb minimum (length chars))) [
        | inl long ↦ rw long (
            All-append (IsRun minimum) results ((start, chars) ∷ []) rs (
              record {
                long = leb→le minimum (length chars) long;
                printable = p.printable;
                bytes = rw p.reached at p.bytes;
                maximal = rw p.reached at stop;
              },
              tt,
            ))
        | inr short ↦ rw short rs
      ]

  pub advance :
      (index c : ℕ) (start : Option ℕ) (chars : List ℕ)
      → IsTextAt index c
      → Pending index start chars
      → IsOpen
          (index + lead_width (get_or payload index 0))
          (or_start start index)
          (chars ++ c ∷ [])
  unfolding encode
  advance index c none chars at p = rw p record {
    printable = (at.text, tt);
    reached = rw append-nil (rw at.width);
    bytes = rw append-nil at.bytes;
  }
  advance index c (some start) chars at p = record {
    printable =
        All-append (λ d. is_text isprintable d ≡ true) chars (c ∷ []) p.printable (at.text, tt);
    reached =
        rw encode-concat
          (omega (arith, at.width, p.reached, length-append (encode chars) (encode_char c)));
    bytes = rw (encode-concat, append_assoc, ← at.bytes) p.bytes;
  }

  utf8_loop-IsRun :
      (fuel minimum index : ℕ) (start : Option ℕ) (chars : List ℕ) (results : List Run)
      → length payload ≤ index + fuel
      → Pending index start chars
      → All (IsRun minimum) results
      → All (IsRun minimum) (utf8_loop isprintable fuel payload minimum index start chars results)
  unfolding utf8_loop
  utf8_loop-IsRun zero minimum index start chars results enough p rs =
      flush-IsRun minimum index start chars results p (text_at-end index (omega arith)) rs
  utf8_loop-IsRun (suc fuel) minimum index start chars results enough p rs =
      elim (Bool-cases (ltb index (length payload))) [
        | inr done ↦
            rw (round-end isprintable fuel payload minimum index start chars results done) (
              flush-IsRun minimum index start chars results p (text_at-end index (ground arith)) rs)
        | inl more ↦ elim (Option-cases (text_at isprintable payload index)) [
          | inl stop ↦
              rw (round-gap isprintable fuel payload minimum index start chars results more stop) (
                utf8_loop-IsRun fuel minimum (index + 1) none [] (flush minimum start chars results)
                  (omega arith) refl (flush-IsRun minimum index start chars results p stop rs))
          | inr (c, e) ↦
              let width = lead_width (get_or payload index 0) in
              rw (round-text isprintable fuel payload minimum index start chars results more e) (
                utf8_loop-IsRun fuel minimum (index + width) (some (or_start start index))
                  (chars ++ c ∷ []) results (omega (arith, lead_width-pos (get_or payload index 0)))
                  (advance index c start chars (text_at-some index c e) p) rs)
        ]
      ]

-- Each run returned has at least the minimum number of characters, all of them printable; the
-- payload holds their UTF-8 encoding at the run's offset; and no printable character follows.
pub utf8_strings-IsRun :
    (isprintable : ℕ → Bool) (payload : Bytes) (minimum : ℕ)
    → All (IsRun isprintable payload minimum) (utf8_strings isprintable payload minimum)
unfolding utf8_strings
utf8_strings-IsRun isprintable payload minimum =
    utf8_loop-IsRun isprintable payload (length payload) minimum 0 none [] [] (omega arith) refl tt
