-- ===== src/Reader.antt =====
-- src/pyrealm/reader.py: the values that the native module hands over, those of the public interface,
-- and the exceptions. A set is its items in the order in which Python iterates over it. `R` and `D` stand for Python's floats and decimals. A uuid is its text.
pub mod Convert
pub mod Records
pub mod Cache
pub mod Expand
pub mod Results
pub mod Open
pub mod Slices
pub mod Schema
pub mod Faults
pub mod Realm
pub mod Timestamp
use text.Mathlib.Text.{◌==◌ as str_eq}
use pyrealm.Prelude.{
  ℕ, String, Bool, true, false, ◌&&◌, Option, none, some, List, [], ◌∷◌, if◌then◌else◌,
}
use pyrealm.Prelude.Integers.{ℤ, int_eq}
use pyrealm.Bytes.{Bytes}

mutual
  -- What the native module returns.
  pub data Raw (R : Type 0) : Type 0 where
    raw_none : Raw R
    raw_bool : Bool → Raw R
    raw_int : ℤ → Raw R
    raw_real : R → Raw R
    raw_text : String → Raw R
    raw_binary : Bytes → Raw R
    raw_uuid : String → Raw R
    native_link : ℤ → ℤ → Raw R
    native_timestamp : ℤ → ℤ → Raw R
    native_object_id : String → Raw R
    native_decimal : String → Raw R
    raw_list : Raws R → Raw R
    raw_set : Raws R → Raw R
    raw_dict : RawFields R → Raw R

  pub data Raws (R : Type 0) : Type 0 where
    no_raws : Raws R
    more_raws : Raw R → Raws R → Raws R

  pub data RawFields (R : Type 0) : Type 0 where
    no_raw_fields : RawFields R
    more_raw_fields : String → Raw R → RawFields R → RawFields R

mutual
  -- What a record's field is read as.
  pub data Value (R D : Type 0) : Type 0 where
    no_value : Value R D
    boolean : Bool → Value R D
    integer : ℤ → Value R D
    real : R → Value R D
    string : String → Value R D
    binary : Bytes → Value R D
    uuid : String → Value R D
    link : ℤ → ℤ → Value R D
    timestamp : ℤ → ℤ → Value R D
    object_id : String → Value R D
    decimal : D → Value R D
    tuple : Values R D → Value R D
    frozen_set : Values R D → Value R D
    dict : ValueFields R D → Value R D

  pub data Values (R D : Type 0) : Type 0 where
    no_values : Values R D
    more_values : Value R D → Values R D → Values R D

  pub data ValueFields (R D : Type 0) : Type 0 where
    no_fields : ValueFields R D
    more_fields : String → Value R D → ValueFields R D → ValueFields R D

-- What the conversion takes from Python: `decimal.Decimal` of a text, `repr` of a text, and the items
-- of `frozenset(items)` in its order of iteration, which is the interpreter's.
pub record Codec (R D : Type 0) : Type 0 where
  pub parse_decimal : String → Option D
  pub repr : String → String
  pub frozen : Values R D → Values R D

-- The exceptions of the package, and those of Python that it raises. `native_error` is the private one
-- of the native module.
pub data Fault : Type 0 where
  realm_error : String → Fault
  query_error : String → Fault
  open_error : String → Fault
  native_error : String → Fault
  os_fault : String → Fault
  type_fault : String → Fault
  unicode_fault : String → Fault
  missing_key : String → Fault
  bad_value : String → Fault
  out_of_range : String → Fault

-- The text of a `RealmError`, its two subclasses included.
unfoldable pub realm_text : Fault → Option String
realm_text (realm_error e) = some e
realm_text (query_error e) = some e
realm_text (open_error e) = some e
realm_text other = none

pub data Answer (A : Type 0) : Type 0 where
  answer : A → Answer A
  raised : Fault → Answer A

infixl 5 ◌>>=◌
abbrev pub ◌>>=◌ : {A B : Type 0} → Answer A → (A → Answer B) → Answer B
asked >>= next = elim asked [ answer value ↦ next value | raised fault ↦ raised fault ]

-- The pair of a table key and an object key.
abbrev pub Identity : Type 0
Identity = ℤ × ℤ

abbrev pub same_identity : Identity → Identity → Bool
same_identity (a, b) (c, d) = int_eq a c && int_eq b d

-- A dict with keys that are texts, in insertion order, and `d[key]` on it.
abbrev pub Mapping : Type 0 → Type 0
Mapping A = List (String × A)

abbrev pub field_at {ℓ} : {A : Type ℓ} → String → List (String × A) → Option A
field_at key [] = none
field_at key ((name, value) ∷ fields) = if str_eq name key then some value else field_at key fields

-- `d.pop(key)` of a key that is there once.
abbrev pub pop_field {ℓ} : {A : Type ℓ} → String → List (String × A) → List (String × A)
pop_field key [] = []
pop_field key ((name, value) ∷ fields) =
    if str_eq name key then fields else (name, value) ∷ pop_field key fields
