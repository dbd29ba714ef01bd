-- ===== src/Reader/Faults.antt =====
-- Which exceptions the operations of src/pyrealm/reader.py raise.
pub mod Identities
pub mod Public
use pyrealm.Prelude.{String, ◌≡◌, subst}
use pyrealm.Reader.{
  Fault, realm_error, query_error, open_error, native_error, os_fault, type_fault, unicode_fault,
  missing_key, bad_value, out_of_range, Answer, answer, raised, ◌>>=◌,
}

-- The exceptions that are raised satisfy a predicate.
abbrev pub Only : {A : Type 0} → (Fault → Type 0) → Answer A → Type 0
Only P (answer a) = Unit
Only P (raised fault) = P fault

pub Only-then :
    {A B : Type 0} (P : Fault → Type 0) (asked : Answer A) (next : A → Answer B)
    → Only P asked
    → ((a : A) → Only P (next a))
    → Only P (asked >>= next)
Only-then P (answer a) next only_asked only_next = only_next a
Only-then P (raised fault) next only_asked only_next = only_asked

pub Only-raised :
    {A : Type 0} (P : Fault → Type 0) (asked : Answer A) (fault : Fault)
    → Only P asked
    → asked ≡ raised fault
    → P fault
Only-raised P asked fault only_asked e = subst (Only P) e only_asked

-- The private exception of the native module is none of the public interface.
abbrev pub IsPublic : Fault → Type 0
IsPublic (native_error e) = ⊥
IsPublic other = Unit
