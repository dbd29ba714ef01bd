-- ===== src/Strings/Utf8Cover.antt =====
-- `_utf8_strings` in src/pyrealm_forensics/parser.py, on a stretch of ASCII text in the
-- payload.
use pyrealm.Prelude.{
  ℕ, zero, suc, ◌+◌, ◌-◌, ◌≤◌, ◌<◌, min, ◌≡◌, refl, sym, ◌∙◌, ap, Bool, true, Option, none, some,
  List, [], ◌∷◌, ◌++◌, arith, ltb, leb, lt→ltb, le→leb, length, get_or, length-append, Bool-cases,
  Option-cases, inl, inr, ltb→lt, ◌==◌, ==_iff,
}
use native.Mathlib.Nat.{le_refl}
use pyrealm.Bytes.{Bytes, slice}
use pyrealm.Utf8.{decode_char, encode_char, encode}
use pyrealm.Strings.Any.{Any, Any-append_left, Any-append_right}
use pyrealm.Strings.Ascii.{encode_char-tail, get_or-append_left, get_or-drop, slice-one}
use pyrealm.Strings.Rounds.{round-end, round-text, round-gap}
use pyrealm.Strings.Utf8Runs.{IsTextAt, text_at-some, IsOpen, Pending, advance, lead_width-pos}
use pyrealm.Strings.{Run, lead_width, flush, or_start, is_text, text_at, utf8_loop, utf8_strings}

-- The stretch: `n` bytes from `a` on are ASCII and pass the test, and `n` reaches the minimum.
pub record IsStretch (isprintable : ℕ → Bool) (payload : Bytes) (minimum a n : ℕ) : Type 0 where
  pub inside : a + n ≤ length payload
  pub ascii : (k : ℕ) → a ≤ k → k < a + n → get_or payload k 0 < 0x80
  pub text : (k : ℕ) → a ≤ k → k < a + n → is_text isprintable (get_or payload k 0) ≡ true
  pub long : minimum ≤ n
  pub some_byte : 0 < n

-- A run covers the bytes from `a` to `a + n`.
abbrev pub Covers : ℕ → ℕ → Run → Type 0
Covers a n run = (run.0 ≤ a) × (a + n ≤ run.0 + length (encode run.1))

module _ (isprintable : ℕ → Bool) (payload : Bytes) (minimum a n : ℕ)
    (s : IsStretch isprintable payload minimum a n) where
  -- A byte of the stretch is read as one character.
  read-ascii :
      (k : ℕ)
      → a ≤ k
      → k < a + n
      → (text_at isprintable payload k ≡ some (get_or payload k 0))
        × (lead_width (get_or payload k 0) ≡ 1)
  unfolding text_at decode_char
  read-ascii k low high =
      let narrow : lead_width (get_or payload k 0) ≡ 1 = ground (arith, s.ascii k) in
      let cut : slice payload k (k + lead_width (get_or payload k 0)) ≡ get_or payload k 0 ∷ [] =
        rw narrow (slice-one payload k (omega (arith, s.inside))) in
      (ground (arith, cut, s.ascii k, s.text k), narrow)

  -- A character that starts before the stretch ends before it.
  no_span :
      (i c : ℕ) → i < a → IsTextAt isprintable payload i c → i + lead_width (get_or payload i 0) ≤ a
  no_span i c before at = elim (Bool-cases (ltb a (i + lead_width (get_or payload i 0)))) [
    | inr outside ↦ ground arith
    | inl inside ↦
        let short : a - i < length (encode_char c) = omega (arith, at.width, ltb→lt a _ inside) in
        let e : i + (a - i) ≡ a = omega arith in
        let same : get_or payload a 0 ≡ get_or (encode_char c) (a - i) 0 =
          rw e at (sym (get_or-drop i (a - i) payload))
          ∙ (ap (λ (bs : Bytes). get_or bs (a - i) 0) at.bytes
              ∙ get_or-append_left (encode_char c) _ (a - i) short) in
        absurd (
          omega (
            arith,
            same,
            encode_char-tail c (a - i) (omega arith) short,
            s.ascii a (le_refl a) (omega (arith, s.some_byte)),
          ))
  ]

  flush-kept :
      (start : Option ℕ) (chars : List ℕ) (results : List Run)
      → Any (Covers a n) results
      → Any (Covers a n) (flush minimum start chars results)
  unfolding flush
  flush-kept none chars results h = h
  flush-kept (some start) chars results h = elim (Bool-cases (leb minimum (length chars))) [
    | inl long ↦ rw long (Any-append_left (Covers a n) results ((start, chars) ∷ []) h)
    | inr short ↦ rw short h
  ]

  loop-kept :
      (fuel i : ℕ) (start : Option ℕ) (chars : List ℕ) (results : List Run)
      → Any (Covers a n) results
      → Any (Covers a n) (utf8_loop isprintable fuel payload minimum i start chars results)
  unfolding utf8_loop
  loop-kept zero i start chars results h = flush-kept start chars results h
  loop-kept (suc fuel) i start chars results h = elim (Bool-cases (ltb i (length payload))) [
    | inr done ↦
        rw (round-end isprintable fuel payload minimum i start chars results done)
          (flush-kept start chars results h)
    | inl more ↦ elim (Option-cases (text_at isprintable payload i)) [
      | inl stop ↦ rw (round-gap isprintable fuel payload minimum i start chars results more stop) (
          loop-kept fuel (i + 1) none [] (flush minimum start chars results)
            (flush-kept start chars results h))
      | inr (c, e) ↦ rw (round-text isprintable fuel payload minimum i start chars results more e) (
          loop-kept fuel (i + lead_width (get_or payload i 0)) (some (or_start start i))
            (chars ++ c ∷ []) results h)
    ]
  ]

  -- The run that began at or before the stretch, while it is read.
  record IsReading (i start : ℕ) (chars : List ℕ) : Type 0 where
    opened : IsOpen isprintable payload i start chars
    early : start ≤ a
    reached : a ≤ i
    counted : min (i - a) n ≤ length chars

  flush-Covers :
      (i start : ℕ) (chars : List ℕ) (results : List Run)
      → a + n ≤ i
      → IsReading i start chars
      → Any (Covers a n) (flush minimum (some start) chars results)
  unfolding flush
  flush-Covers i start chars results far r =
      let long : leb minimum (length chars) ≡ true =
        le→leb minimum (length chars) (omega (arith, s.long, r.counted)) in
      rw long (
        Any-append_right (Covers a n) results ((start, chars) ∷ [])
          (inl (r.early, omega (arith, r.opened.reached))))

  -- A gap cannot lie in the stretch.
  gap-far : (i : ℕ) → a ≤ i → text_at isprintable payload i ≡ none → a + n ≤ i
  gap-far i low stop = elim (Bool-cases (ltb i (a + n))) [
    | inl inside ↦ cc (stop, (read-ascii i low (ltb→lt i (a + n) inside)).0)
    | inr outside ↦ ground arith
  ]

  counted-on :
      (i : ℕ) (chars : List ℕ) (c : ℕ) {start : ℕ}
      → IsReading i start chars
      → min (i + lead_width (get_or payload i 0) - a) n ≤ length (chars ++ c ∷ [])
  counted-on i chars c r = elim (Bool-cases (ltb i (a + n))) [
    | inl inside ↦ omega (
      arith,
      r.counted,
      r.reached,
      (read-ascii i r.reached (ltb→lt i (a + n) inside)).1,
      length-append chars (c ∷ []),
    )
    | inr outside ↦
        let far : a + n ≤ i = ground arith in omega (arith, r.counted, length-append chars (c ∷ []))
  ]

  read-on :
      (i start : ℕ) (chars : List ℕ) (c : ℕ)
      → text_at isprintable payload i ≡ some c
      → IsReading i start chars
      → IsReading (i + lead_width (get_or payload i 0)) start (chars ++ c ∷ [])
  read-on i start chars c e r = record {
    opened =
        advance isprintable payload i c (some start) chars (text_at-some isprintable payload i c e)
          r.opened;
    early = r.early;
    reached = omega (arith, r.reached);
    counted = counted-on i chars c r;
  }

  loop-reading :
      (fuel i start : ℕ) (chars : List ℕ) (results : List Run)
      → length payload ≤ i + fuel
      → IsReading i start chars
      → Any (Covers a n) (utf8_loop isprintable fuel payload minimum i (some start) chars results)
  unfolding utf8_loop
  loop-reading zero i start chars results enough r =
      flush-Covers i start chars results (omega (arith, s.inside)) r
  loop-reading (suc fuel) i start chars results enough r =
      elim (Bool-cases (ltb i (length payload))) [
        | inr done ↦
            rw (round-end isprintable fuel payload minimum i (some start) chars results done)
              (flush-Covers i start chars results (ground (arith, s.inside)) r)
        | inl more ↦ elim (Option-cases (text_at isprintable payload i)) [
          | inl stop ↦
              rw (round-gap isprintable fuel payload minimum i (some start) chars results more stop)
                (loop-kept fuel (i + 1) none [] (flush minimum (some start) chars results)
                  (flush-Covers i start chars results (gap-far i r.reached stop) r))
          | inr (c, e) ↦
              rw (round-text isprintable fuel payload minimum i (some start) chars results more e) (
                loop-reading fuel (i + lead_width (get_or payload i 0)) start (chars ++ c ∷ [])
                  results (omega (arith, lead_width-pos (get_or payload i 0)))
                  (read-on i start chars c e r))
        ]
      ]

  start-le :
      (i : ℕ) (start : Option ℕ) (chars : List ℕ)
      → Pending isprintable payload i start chars
      → or_start start i ≤ i
  start-le i none chars p = le_refl i
  start-le i (some start) chars p = omega (arith, p.reached)

  -- At the first byte of the stretch a run is open behind the round.
  read-first :
      (i c : ℕ) (start : Option ℕ) (chars : List ℕ)
      → i ≡ a
      → text_at isprintable payload i ≡ some c
      → Pending isprintable payload i start chars
      → IsReading (i + lead_width (get_or payload i 0)) (or_start start i) (chars ++ c ∷ [])
  read-first i c start chars at e p = record {
    opened = advance isprintable payload i c start chars (text_at-some isprintable payload i c e) p;
    early = omega (arith, start-le i start chars p);
    reached = omega arith;
    counted = omega (
      arith,
      (read-ascii i (omega arith) (omega (arith, s.some_byte))).1,
      length-append chars (c ∷ []),
    );
  }

  gap-before : (i : ℕ) → i ≤ a → text_at isprintable payload i ≡ none → i + 1 ≤ a
  gap-before i low stop = elim (Bool-cases (i == a)) [
    | inl here ↦
        let e : i ≡ a = (==_iff i a).0 here in
        cc (stop, (read-ascii i (omega arith) (omega (arith, s.some_byte))).0)
    | inr earlier ↦ ground arith
  ]

  loop-before :
      (fuel i : ℕ) (start : Option ℕ) (chars : List ℕ) (results : List Run)
      → length payload ≤ i + fuel
      → i ≤ a
      → Pending isprintable payload i start chars
      → Any (Covers a n) (utf8_loop isprintable fuel payload minimum i start chars results)
  loop-before zero i start chars results enough low p =
      absurd (omega (arith, s.inside, s.some_byte))
  loop-before (suc fuel) i start chars results enough low p =
      let more : ltb i (length payload) ≡ true =
        lt→ltb i (length payload) (omega (arith, s.inside, s.some_byte)) in
      let width = lead_width (get_or payload i 0) in
      elim (Option-cases (text_at isprintable payload i)) [
        | inl stop ↦
            rw (round-gap isprintable fuel payload minimum i start chars results more stop) (
              loop-before fuel (i + 1) none [] (flush minimum start chars results) (omega arith)
                (gap-before i low stop) refl)
        | inr (c, e) ↦
            rw (round-text isprintable fuel payload minimum i start chars results more e)
              (elim (Bool-cases (i == a)) [
                | inl here ↦
                    loop-reading fuel (i + width) (or_start start i) (chars ++ c ∷ []) results
                      (omega (arith, lead_width-pos (get_or payload i 0)))
                      (read-first i c start chars ((==_iff i a).0 here) e p)
                | inr earlier ↦
                    let at = text_at-some isprintable payload i c e in
                    loop-before fuel (i + width) (some (or_start start i)) (chars ++ c ∷ []) results
                      (omega (arith, lead_width-pos (get_or payload i 0)))
                      (no_span i c (ground arith) at)
                      (advance isprintable payload i c start chars at p)
              ])
      ]

-- A stretch of printable ASCII bytes at least as long as the minimum lies within one of the runs.
pub utf8_strings-Covers :
    (isprintable : ℕ → Bool) (payload : Bytes) (minimum a n : ℕ)
    → IsStretch isprintable payload minimum a n
    → Any (Covers a n) (utf8_strings isprintable payload minimum)
unfolding utf8_strings
utf8_strings-Covers isprintable payload minimum a n s =
    loop-before isprintable payload minimum a n s (length payload) 0 none [] [] (omega arith)
      (omega arith) refl
