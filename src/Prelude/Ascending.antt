-- ===== src/Prelude/Ascending.antt =====
-- Lists of numbers in strictly ascending order.
use Prim.Native.Nat.{ℕ, suc, ◌≤◌, ◌<◌}
use mathlib.Core.Path.{◌≡◌, refl}
use mathlib.Core.Bool.{false}
use mathlib.Core.List.{List, [], ◌∷◌, ◌++◌}
use native.Mathlib.Omega.{arith}
use pyrealm.Prelude.Lists.{contains, All}

-- Each element is at least `low` and above those before it.
abbrev pub IsAscending : ℕ → List ℕ → Type 0
IsAscending low [] = Unit
IsAscending low (x ∷ xs) = (low ≤ x) × IsAscending (suc x) xs

pub IsAscending-append :
    (low x : ℕ) (xs : List ℕ)
    → IsAscending low xs
    → All (λ y. y < x) xs
    → low ≤ x
    → IsAscending low (xs ++ x ∷ [])
IsAscending-append low x [] a below h = (h, tt)
IsAscending-append low x (y ∷ ys) a below h =
    (a.0, IsAscending-append (suc y) x ys a.1 below.1 below.0)

pub IsAscending-mono :
    (low low' : ℕ) (xs : List ℕ) → low' ≤ low → IsAscending low xs → IsAscending low' xs
IsAscending-mono low low' [] h a = tt
IsAscending-mono low low' (x ∷ xs) h a = (omega arith, a.1)

pub All-below_mono : (x x' : ℕ) (xs : List ℕ) → x ≤ x' → All (λ y. y < x) xs → All (λ y. y < x') xs
All-below_mono x x' [] h a = tt
All-below_mono x x' (y ∷ ys) h a = (omega arith, All-below_mono x x' ys h a.1)

-- No element lies below the lower bound.
pub contains-IsAscending :
    (low x : ℕ) (xs : List ℕ) → IsAscending low xs → x < low → contains xs x ≡ false
contains-IsAscending low x [] a h = refl
contains-IsAscending low x (y ∷ ys) a h =
    ground (arith, contains-IsAscending (suc y) x ys a.1 (omega arith))
