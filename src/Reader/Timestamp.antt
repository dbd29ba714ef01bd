-- ===== src/Reader/Timestamp.antt =====
-- src/pyrealm/reader.py, `RealmTimestamp.datetime`. A datetime is its microseconds since 1970, of which
-- the first is in the year 1 and the last in the year 9999.
pub mod Range
use Prim.Native.String.{◌++◌ as ◌<>◌}
use pyrealm.Prelude.{String, Bool, true, false, ◌&&◌, not, if◌then◌else◌}
use pyrealm.Prelude.Integers.{ℤ, pos, negsuc, ◌+ℤ◌, ltb_ℤ, times, floor_div}
use pyrealm.Prelude.Printing.{int_text}
use pyrealm.Reader.{realm_error, Answer, answer, raised}

-- The start of the year 1 and the end of the year 9999.
abbrev pub first_microsecond : ℤ
first_microsecond = negsuc 62135596799999999

abbrev pub last_microsecond : ℤ
last_microsecond = pos 253402300799999999

-- `dt.timedelta(seconds=seconds, microseconds=nanoseconds // 1_000)`, in microseconds. A timedelta that
-- overflows is further from the epoch than any datetime.
unfoldable pub delta_of : ℤ → ℤ → ℤ
delta_of seconds nanoseconds = times 1000000 seconds +ℤ floor_div nanoseconds 1000

unfoldable pub outside_message : ℤ → ℤ → String
outside_message seconds nanoseconds =
    "timestamp is outside the datetime range: seconds="
    <> int_text seconds
    <> ", nanoseconds="
    <> int_text nanoseconds

-- `_EPOCH + delta`
unfoldable pub datetime : ℤ → ℤ → Answer ℤ
datetime seconds nanoseconds =
    let delta = delta_of seconds nanoseconds in
    if not (ltb_ℤ delta first_microsecond) && not (ltb_ℤ last_microsecond delta)
    then answer delta
    else raised (realm_error (outside_message seconds nanoseconds))
