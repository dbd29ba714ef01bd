-- ===== src/Bytes.antt =====
-- What the parser uses of Python's `bytes`, `mmap`, `struct` and `int.from_bytes`. A byte string is
-- a list of numbers; `IsBytes` says that each is below 256. A read `data[i]` is `get_or data i 0`:
-- the source makes each one behind a length test, so the default is never seen.
pub mod Codec
pub mod Find
use pyrealm.Prelude.{
  ℕ, zero, suc, ◌+◌, ◌-◌, ◌*◌, ◌/◌, ◌%◌, ◌<◌, Bool, true, false, ◌&&◌, Option, none, some, List, [],
  ◌∷◌, ◌==◌, if◌then◌else◌, take, drop, All,
}

abbrev pub Bytes : Type 0
Bytes = List ℕ

abbrev pub IsBytes : Bytes → Type 0
IsBytes = All (λ b. b < 256)

-- `data[i : j]` at indices that are not negative.
abbrev pub slice : Bytes → ℕ → ℕ → Bytes
slice xs i j = take (j - i) (drop i xs)

-- `int.from_bytes(bs, "little")`
abbrev pub le_value : Bytes → ℕ
le_value [] = 0
le_value (b ∷ bs) = b + 256 * le_value bs

-- `int.from_bytes(bs, "big")`, onto the value of the bytes before.
abbrev pub be_value : ℕ → Bytes → ℕ
be_value acc [] = acc
be_value acc (b ∷ bs) = be_value (acc * 256 + b) bs

-- `struct.unpack_from("<QQ", data, at)`
abbrev pub unpack_qq : Bytes → ℕ → ℕ × ℕ
unpack_qq xs at = (le_value (slice xs at (at + 8)), le_value (slice xs (at + 8) (at + 16)))

-- `n` bytes of a number, the low one first: what `struct.pack` and `to_bytes` write.
abbrev pub le_bytes : ℕ → ℕ → Bytes
le_bytes zero x = []
le_bytes (suc n) x = (x % 256) ∷ le_bytes n (x / 256)

-- `xs[: len(pattern)] == pattern`
unfoldable pub starts_with : Bytes → Bytes → Bool
starts_with [] xs = true
starts_with (p ∷ pattern) [] = false
starts_with (p ∷ pattern) (x ∷ xs) = x == p && starts_with pattern xs

-- The search of `find` in `xs`, which stands at `pos` in the whole.
find_from : Bytes → Bytes → ℕ → Option ℕ
unfolding starts_with
find_from pattern [] pos = if starts_with pattern [] then some pos else none
find_from pattern (x ∷ xs) pos =
    let rest = find_from pattern xs (pos + 1) in
    if starts_with pattern (x ∷ xs) then some pos else rest

-- `data.find(pattern, start)`, with `none` for -1.
unfoldable pub find : Bytes → Bytes → ℕ → Option ℕ
unfolding find_from
find xs pattern start = find_from pattern (drop start xs) start
