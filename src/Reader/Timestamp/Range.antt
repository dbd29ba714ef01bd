-- ===== src/Reader/Timestamp/Range.antt =====
-- The range of `RealmTimestamp.datetime` in src/pyrealm/reader.py.
use pyrealm.Prelude.{◌+◌, ◌*◌, ◌≤◌, ◌<◌, ◌≡◌, ◌⊎◌, inl, inr, refl, arith, Bool-cases}
use pyrealm.Prelude.Integers.{
  ℤ, pos, negsuc, pos_part, neg_part, ◌+ℤ◌, ◌≤ℤ◌, ◌<ℤ◌, ltb_ℤ, +ℤ_parts, times, floor_div,
  times_parts,
}
use pyrealm.Reader.{realm_error, answer, raised}
use pyrealm.Reader.Timestamp.{
  first_microsecond, last_microsecond, delta_of, outside_message, datetime,
}

-- A microsecond that a datetime can have.
abbrev pub IsDatetime : ℤ → Type 0
IsDatetime t = (first_microsecond ≤ℤ t) × (t ≤ℤ last_microsecond)

-- The nanoseconds of a timestamp since the epoch.
abbrev pub nanoseconds_of : ℤ → ℤ → ℤ
nanoseconds_of seconds nanoseconds = times 1000000000 seconds +ℤ nanoseconds

-- The microsecond in which a timestamp lies.
abbrev pub IsMicrosecondOf : ℤ → ℤ → ℤ → Type 0
IsMicrosecondOf seconds nanoseconds t =
    (times 1000 t ≤ℤ nanoseconds_of seconds nanoseconds)
    × (nanoseconds_of seconds nanoseconds <ℤ times 1000 t +ℤ pos 1000)

-- Where the nanoseconds are cut to microseconds.
floor_div_bounds :
    (n : ℤ)
    → (pos_part (floor_div n 1000) * 1000 + neg_part n
        ≤ pos_part n + neg_part (floor_div n 1000) * 1000)
      × (pos_part n + neg_part (floor_div n 1000) * 1000
          < pos_part (floor_div n 1000) * 1000 + neg_part n + 1000)
floor_div_bounds (pos n) = (omega arith, omega arith)
floor_div_bounds (negsuc n) = (omega arith, omega arith)

delta_of-IsMicrosecondOf :
    (seconds nanoseconds : ℤ) → IsMicrosecondOf seconds nanoseconds (delta_of seconds nanoseconds)
unfolding delta_of
delta_of-IsMicrosecondOf seconds nanoseconds =
    let micros = times 1000000 seconds in
    let rest = floor_div nanoseconds 1000 in
    let cut = floor_div_bounds nanoseconds in
    let by_micro = times_parts 999999 seconds in
    let by_nano = times_parts 999999999 seconds in
    let whole = times_parts 999 (micros +ℤ rest) in
    let sum = +ℤ_parts micros rest in
    let nanos = +ℤ_parts (times 1000000000 seconds) nanoseconds in
    let end = +ℤ_parts (times 1000 (micros +ℤ rest)) (pos 1000) in
    (
      omega (arith, cut, by_micro, by_nano, whole, sum, nanos, end),
      omega (arith, cut, by_micro, by_nano, whole, sum, nanos, end),
    )

-- A timestamp lies in one microsecond only, so another one that it lies in has the same bounds.
IsMicrosecondOf-IsDatetime :
    (seconds nanoseconds t other : ℤ)
    → IsMicrosecondOf seconds nanoseconds t
    → IsMicrosecondOf seconds nanoseconds other
    → IsDatetime other
    → IsDatetime t
IsMicrosecondOf-IsDatetime seconds nanoseconds t other here there within =
    let a = times_parts 999 t in
    let b = times_parts 999 other in
    let c = +ℤ_parts (times 1000 t) (pos 1000) in
    let d = +ℤ_parts (times 1000 other) (pos 1000) in
    (omega (arith, a, b, c, d, here, there, within), omega (arith, a, b, c, d, here, there, within))

datetime-cases :
    (delta seconds nanoseconds : ℤ)
    → delta_of seconds nanoseconds ≡ delta
    → ((datetime seconds nanoseconds ≡ answer delta) × IsDatetime delta)
      ⊎ ((datetime seconds nanoseconds ≡ raised (realm_error (outside_message seconds nanoseconds)))
          × (IsDatetime delta → ⊥))
unfolding datetime
datetime-cases delta seconds nanoseconds e =
    rw e (elim (Bool-cases (ltb_ℤ delta first_microsecond)) [
      | inl early ↦ rw early (inr (refl, λ within. ground (arith, early, within)))
      | inr f ↦ elim (Bool-cases (ltb_ℤ last_microsecond delta)) [
        | inl late ↦ rw (f, late) (inr (refl, λ within. ground (arith, late, within)))
        | inr g ↦ rw (f, g) (inl (refl, ground (arith, f, g)))
      ]
    ])

-- A timestamp has the datetime of the microsecond in which it lies, if the years 1 to 9999 have that
-- microsecond, and otherwise its datetime is a `RealmError`.
pub datetime_lem :
    (seconds nanoseconds : ℤ)
    → ((t : ℤ) × (datetime seconds nanoseconds ≡ answer t)
        × IsMicrosecondOf seconds nanoseconds t
        × IsDatetime t)
      ⊎ ((datetime seconds nanoseconds ≡ raised (realm_error (outside_message seconds nanoseconds)))
          × ((t : ℤ) → IsMicrosecondOf seconds nanoseconds t → IsDatetime t → ⊥))
datetime_lem seconds nanoseconds =
    let delta = delta_of seconds nanoseconds in
    let lies = delta_of-IsMicrosecondOf seconds nanoseconds in
    elim (datetime-cases delta seconds nanoseconds refl) [
      | inl (e, within) ↦ inl (delta, e, lies, within)
      | inr (e, outside) ↦ inr (
        e,
        λ t here within.
            outside (IsMicrosecondOf-IsDatetime seconds nanoseconds delta t lies here within),
      )
    ]
