-- ===== src/Prelude/Errors.antt =====
-- Python exceptions as values.
use Prim.Native.Nat.{ℕ}
use Prim.Native.String.{String}
use mathlib.Core.Path.{◌≡◌, refl}
use mathlib.Core.Logic.{◌⊎◌, inl, inr}

-- `out_of_fuel` is no exception of the source: a loop's bound was too small.
pub data Error : Type 0 where
  key_error : ℕ → Error
  value_error : String → Error
  os_error : String → Error
  runtime_error : String → Error
  out_of_fuel : Error

-- The exceptions that `main` catches.
abbrev pub IsHandled : Error → Type 0
IsHandled (key_error offset) = ⊥
IsHandled (value_error text) = Unit
IsHandled (os_error text) = Unit
IsHandled (runtime_error text) = ⊥
IsHandled out_of_fuel = ⊥

-- An `OSError` or a `ValueError` that the standard library raises.
pub data Failure : Type 0 where
  os_failure : String → Failure
  value_failure : String → Failure

abbrev pub error_of : Failure → Error
error_of (os_failure text) = os_error text
error_of (value_failure text) = value_error text

pub error_of-IsHandled : (f : Failure) → IsHandled (error_of f)
error_of-IsHandled (os_failure text) = tt
error_of-IsHandled (value_failure text) = tt

pub data Result {ℓ} (A : Type ℓ) : Type ℓ where
  ok : A → Result A
  err : Error → Result A

infixl 5 ◌>>=◌
abbrev pub ◌>>=◌ {ℓ κ} : {A : Type ℓ} {B : Type κ} → Result A → (A → Result B) → Result B
raising >>= next = elim raising [ ok value ↦ next value | err e ↦ err e ]

pub Result-cases {ℓ} :
    {A : Type ℓ} (r : Result A) → ((a : A) × (r ≡ ok a)) ⊎ ((e : Error) × (r ≡ err e))
Result-cases (ok a) = inl (a, refl)
Result-cases (err e) = inr (e, refl)

pub same_error {ℓ} : {A : Type ℓ} {r : Result A} {e f : Error} → r ≡ err e → r ≡ err f → e ≡ f
same_error h k = cc
