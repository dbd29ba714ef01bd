-- ===== src/Layout/Bounds.antt =====
-- The sizes that `_array_size` in src/pyrealm_forensics/parser.py computes.
use pyrealm.Prelude.{
  ℕ, ◌+◌, ◌*◌, ◌%◌, ◌≤◌, ◌<◌, ◌^◌, ◌≡◌, ◌↔◌, none, some, arith, ◌==◌, if◌then◌else◌,
}
use pyrealm.Layout.{ArraySize, array_size, scheme_of, width_of, array_header_size}

pub width_of-le : (flags : ℕ) → width_of flags ≤ 64
width_of-le flags = ground arith

-- The bits of payload that `element_count` elements take under each width scheme.
abbrev pub payload_bits : ℕ → ℕ → ℕ → ℕ
payload_bits scheme w element_count =
    if scheme == 0
    then element_count * w
    else if scheme == 1
    then 8 * (element_count * w)
    else 8 * element_count

pub record IsLayout (flags element_count : ℕ) (s : ArraySize) : Type 0 where
  pub known_scheme : scheme_of flags < 3
  pub header_added : s.byte_size ≡ array_header_size + s.payload_size
  pub aligned : s.payload_size % 8 ≡ 0
  pub room : payload_bits (scheme_of flags) s.width element_count ≤ 8 * s.payload_size
  pub tight : 8 * s.payload_size < payload_bits (scheme_of flags) s.width element_count + 64
  pub width_listed : s.width ≡ width_of flags

-- A size that is computed is that of a known width scheme, with a header of 8 bytes and a payload
-- that is a multiple of 8 bytes, has room for the elements, and wastes less than 64 bits.
pub array_size-IsLayout :
    (flags element_count : ℕ) {s : ArraySize}
    → array_size flags element_count ≡ some s
    → IsLayout flags element_count s
unfolding array_size
array_size-IsLayout flags element_count h = ground arith

pub array_size-none_iff :
    (flags element_count : ℕ) → (array_size flags element_count ≡ none) ↔ (scheme_of flags ≡ 3)
unfolding array_size
array_size-none_iff flags element_count = ground arith

-- With an element count below 2 ^ 24 every computed size is at least the header and at most 2 ^
-- 30: it fits a 32-bit integer.
pub array_size_bounded :
    (flags element_count : ℕ) {s : ArraySize}
    → element_count < 2 ^ 24
    → array_size flags element_count ≡ some s
    → (array_header_size ≤ s.byte_size) × (s.byte_size ≤ 2 ^ 30)
unfolding array_size
array_size_bounded flags element_count h e = ground (arith, width_of-le flags)
