-- ===== src/Classify/Sort.antt =====
-- The built-in `sorted`, for `_classify_nodes` in src/pyrealm_forensics/parser.py.
use mathlib.Core.List.{Perm}
use mathlib.Core.List.Perm
use pyrealm.Prelude.{
  ℕ, ◌≤◌, ◌<◌, ◌≡◌, refl, ap, ◌∙◌, List, [], ◌∷◌, arith, leb, Bool-cases, inl, inr, All,
}
use pyrealm.Prelude.Ascending.{IsAscending}
use pyrealm.Classify.{insert_sorted, sorted}

-- Each element is at least `low` and not below those before it.
abbrev pub IsSorted : ℕ → List ℕ → Type 0
IsSorted low [] = Unit
IsSorted low (x ∷ xs) = (low ≤ x) × IsSorted x xs

insert_sorted-IsSorted :
    (low x : ℕ) (ys : List ℕ) → low ≤ x → IsSorted low ys → IsSorted low (insert_sorted x ys)
unfolding insert_sorted
insert_sorted-IsSorted low x [] h s = (h, tt)
insert_sorted-IsSorted low x (y ∷ ys) h s = elim (Bool-cases (leb x y)) [
  | inl le ↦ rw le (h, (ground arith, s.1))
  | inr gt ↦ rw gt (s.0, insert_sorted-IsSorted y x ys (ground arith) s.1)
]

pub sorted-IsSorted : (xs : List ℕ) → IsSorted 0 (sorted xs)
unfolding sorted
sorted-IsSorted [] = tt
sorted-IsSorted (x ∷ xs) = insert_sorted-IsSorted 0 x (sorted xs) (omega arith) (sorted-IsSorted xs)

insert_sorted-perm : (x : ℕ) (ys : List ℕ) → Perm (insert_sorted x ys) (x ∷ ys)
unfolding insert_sorted
insert_sorted-perm x [] = Perm.refl (x ∷ [])
insert_sorted-perm x (y ∷ ys) = elim (Bool-cases (leb x y)) [
  | inl le ↦ rw le (Perm.refl (x ∷ y ∷ ys))
  | inr gt ↦ rw gt (Perm.trans (Perm.cons y (insert_sorted-perm x ys)) (Perm.swap x y ys))
]

pub sorted-perm : (xs : List ℕ) → Perm (sorted xs) xs
unfolding sorted
sorted-perm [] = Perm.refl []
sorted-perm (x ∷ xs) = Perm.trans (insert_sorted-perm x (sorted xs)) (Perm.cons x (sorted-perm xs))

insert_sorted_below :
    (low x : ℕ) (ys : List ℕ) → IsAscending low ys → x < low → insert_sorted x ys ≡ x ∷ ys
unfolding insert_sorted
insert_sorted_below low x [] a h = refl
insert_sorted_below low x (y ∷ ys) a h = ground arith

pub sorted-IsAscending : (low : ℕ) (xs : List ℕ) → IsAscending low xs → sorted xs ≡ xs
unfolding sorted
sorted-IsAscending low [] a = refl
sorted-IsAscending low (x ∷ xs) a =
    ap (insert_sorted x) (sorted-IsAscending _ xs a.1)
    ∙ insert_sorted_below _ x xs a.1 (omega arith)

insert_sorted-All :
    (P : ℕ → Type 0) (x : ℕ) (ys : List ℕ) → P x → All P ys → All P (insert_sorted x ys)
unfolding insert_sorted
insert_sorted-All P x [] h a = (h, tt)
insert_sorted-All P x (y ∷ ys) h a = elim (Bool-cases (leb x y)) [
  | inl le ↦ rw le (h, a)
  | inr gt ↦ rw gt (a.0, insert_sorted-All P x ys h a.1)
]

-- What holds of every element holds of every element of the sorted list.
pub sorted-All : (P : ℕ → Type 0) (xs : List ℕ) → All P xs → All P (sorted xs)
unfolding sorted
sorted-All P [] a = tt
sorted-All P (x ∷ xs) a = insert_sorted-All P x (sorted xs) a.0 (sorted-All P xs a.1)
