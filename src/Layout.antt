-- ===== src/Layout.antt =====
-- src/pyrealm_forensics/parser.py, `_array_size`. The flags' bit fields are written by `/` and `%`:
-- `(flags >> 3) & 3` is `flags / 8 % 4`, `flags & 7` is `flags % 8`, `x & ~7` is `x - x % 8`.
pub mod Bounds
use pyrealm.Prelude.{
  ℕ, ◌+◌, ◌-◌, ◌*◌, ◌/◌, ◌%◌, Option, none, some, List, [], ◌∷◌, ◌==◌, if◌then◌else◌, get_or,
}

abbrev pub array_header_size : ℕ
array_header_size = 8

abbrev pub widths : List ℕ
widths = 0 ∷ 1 ∷ 2 ∷ 4 ∷ 8 ∷ 16 ∷ 32 ∷ 64 ∷ []

abbrev pub width_of : ℕ → ℕ
width_of flags = get_or widths (flags % 8) 0

abbrev pub scheme_of : ℕ → ℕ
scheme_of flags = flags / 8 % 4

pub record ArraySize : Type 0 where
  pub byte_size : ℕ
  pub payload_size : ℕ
  pub width : ℕ

-- The last two lines: the payload is rounded up to 8 bytes, and the header is added.
sized : ℕ → ℕ → ArraySize
sized payload w =
    let aligned = payload + 7 - (payload + 7) % 8 in
    record { byte_size = array_header_size + aligned; payload_size = aligned; width = w }

unfoldable pub array_size : ℕ → ℕ → Option ArraySize
unfolding sized
array_size flags element_count =
    let width_scheme = scheme_of flags in
    let w = width_of flags in
    if width_scheme == 0
    then some (sized ((element_count * w + 7) / 8) w)
    else if width_scheme == 1
    then some (sized (element_count * w) w)
    else if width_scheme == 2
    then some (sized element_count w)
    else none
