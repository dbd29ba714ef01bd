-- ===== src/Prelude/Printing.antt =====
-- The text of an integer, as Python's `str` writes it.
use Prim.Native.Nat.{ℕ, zero, suc, ◌/◌, ◌%◌}
use Prim.Native.String.{String, ◌++◌}
use mathlib.Core.List.{List, [], ◌∷◌}
use pyrealm.Prelude.Lists.{get_or}
use pyrealm.Prelude.Tests.{ltb, if◌then◌else◌}
use pyrealm.Prelude.Integers.{ℤ, pos, negsuc}

abbrev digits : List String
digits = "0" ∷ "1" ∷ "2" ∷ "3" ∷ "4" ∷ "5" ∷ "6" ∷ "7" ∷ "8" ∷ "9" ∷ []

abbrev digit : ℕ → String
digit n = get_or digits n ""

-- Each round takes off a digit, so as many rounds as the number is large are enough.
decimal_digits : ℕ → ℕ → String
decimal_digits zero n = ""
decimal_digits (suc rounds) n =
    let rest = decimal_digits rounds (n / 10) in
    if ltb n 10 then digit n else rest ++ digit (n % 10)

unfoldable pub int_text : ℤ → String
unfolding decimal_digits
int_text (pos n) = decimal_digits (suc n) n
int_text (negsuc n) = "-" ++ decimal_digits (suc (suc n)) (suc n)
