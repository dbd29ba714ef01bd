-- ===== src/References/Children.antt =====
-- The children that `_add_references` in src/pyrealm_forensics/parser.py gives an array.
use pyrealm.Prelude.{
  ℕ, zero, suc, ◌+◌, ◌/◌, ◌≤◌, ◌<◌, ◌≡◌, refl, ◌↔◌, inl, inr, ap, contains_eq, ==_iff, Bool, true,
  false, List, [], ◌∷◌, ◌||◌, not, ◌&&◌, arith, contains, Bool-cases, ◌==◌,
}
use pyrealm.Prelude.Dict.{Dict, lookup, keys}
use mathlib.Core.Option
use native.Mathlib.Nat.{le_refl}
use pyrealm.Bytes.{Bytes}
use pyrealm.Models.{ArrayNode}
use pyrealm.Layout.{array_header_size}
use pyrealm.References.{
  element_at, is_reference, collect_refs, holds_references, refs_of, from_keys, child_refs_of,
  link_nodes, add_references,
}

both : (a b : Bool) → (a && b) ≡ true → (a ≡ true) × (b ≡ true)
both a b h = ground arith

==-refl : (n : ℕ) → (n == n) ≡ true
==-refl n = ground arith

||-true : (a : Bool) → (a || true) ≡ true
||-true true = refl
||-true false = refl

-- The element at some index of `low, …, high - 1` is the reference `r`.
abbrev pub HasElement : Bytes → Dict ArrayNode → ℕ → ℕ → ℕ → ℕ → ℕ → Type 0
HasElement xs nodes payload_start size low high r =
    (index : ℕ) × (low ≤ index)
    × (index < high)
    × (element_at xs payload_start size index ≡ r)
    × (is_reference nodes r ≡ true)

contains-collect_refs :
    (xs : Bytes) (nodes : Dict ArrayNode) (payload_start size rounds low high r : ℕ)
    → low + rounds ≡ high
    → contains (collect_refs xs nodes payload_start size rounds low) r ≡ true
    → HasElement xs nodes payload_start size low high r
unfolding collect_refs
contains-collect_refs xs nodes payload_start size zero low high r e h = cc
contains-collect_refs xs nodes payload_start size (suc rounds) low high r e h =
    let value = element_at xs payload_start size low in
    elim (Bool-cases (is_reference nodes value && value == r)) [
      | inl here ↦
          let (good, same) = both (is_reference nodes value) (value == r) here in
          let same' = (==_iff value r).0 same in
          (low, le_refl low, omega arith, same', rw same' at good)
      | inr later ↦
          let (index, a, b, c, d) =
            contains-collect_refs xs nodes payload_start size rounds (low + 1) high r (omega arith)
              (ground arith) in
          (index, omega arith, b, c, d)
    ]

collect_refs-contains :
    (xs : Bytes) (nodes : Dict ArrayNode) (payload_start size rounds low index : ℕ)
    → low ≤ index
    → index < low + rounds
    → is_reference nodes (element_at xs payload_start size index) ≡ true
    → contains
        (collect_refs xs nodes payload_start size rounds low)
        (element_at xs payload_start size index)
      ≡ true
unfolding collect_refs
collect_refs-contains xs nodes payload_start size zero low index a b h = absurd (omega arith)
collect_refs-contains xs nodes payload_start size (suc rounds) low index a b h =
    elim (Bool-cases (low == index)) [
      | inl here ↦ let e : low ≡ index = (==_iff low index).0 here in rw e (rw h (rw ==-refl refl))
      | inr later ↦
          let ih =
            collect_refs-contains xs nodes payload_start size rounds (low + 1) index (ground arith)
              (omega arith) h in
          elim (Bool-cases (is_reference nodes (element_at xs payload_start size low))) [
            | inl t ↦ rw t (rw ih (||-true _))
            | inr f ↦ rw f ih
          ]
    ]

-- `dict.fromkeys` keeps the values that were not seen, each once.
contains-from_keys :
    (seen xs : List ℕ) (a : ℕ)
    → contains (from_keys seen xs) a ≡ (contains xs a && not (contains seen a))
unfolding from_keys
contains-from_keys seen [] a = refl
contains-from_keys seen (x ∷ xs) a =
    ground (
      arith,
      contains-from_keys seen xs a,
      contains-from_keys (x ∷ seen) xs a,
      contains_eq seen x a,
    )

abbrev pub IsDistinct : List ℕ → Type 0
IsDistinct [] = Unit
IsDistinct (x ∷ xs) = (contains xs x ≡ false) × IsDistinct xs

from_keys-IsDistinct : (seen xs : List ℕ) → IsDistinct (from_keys seen xs)
unfolding from_keys
from_keys-IsDistinct seen [] = tt
from_keys-IsDistinct seen (x ∷ xs) = elim (Bool-cases (contains seen x)) [
  | inl old ↦ rw old (from_keys-IsDistinct seen xs)
  | inr new ↦
      rw new
        (ground (arith, contains-from_keys (x ∷ seen) xs x), from_keys-IsDistinct (x ∷ seen) xs)
]

-- The children of an array that holds references are exactly the elements of its payload that are
-- not zero, even, and the offset of a known array. Any other array has none.
pub contains-child_refs_of :
    (xs : Bytes) (nodes : Dict ArrayNode) (offset : ℕ) (node : ArrayNode) (r : ℕ)
    → (contains (child_refs_of xs nodes offset node) r ≡ true) ↔ (
        (holds_references node ≡ true)
        × HasElement xs nodes (offset + array_header_size) (node.width / 8) 0 node.element_count r)
unfolding child_refs_of
contains-child_refs_of xs nodes offset node r = (there, back)
  where
    start : ℕ
    start = offset + array_header_size

    there :
        contains (from_keys [] (refs_of xs nodes offset node)) r ≡ true
        → (holds_references node ≡ true)
          × HasElement xs nodes (offset + array_header_size) (node.width / 8) 0 node.element_count r
    there h = elim (Bool-cases (holds_references node)) [
      | inl holds ↦ (
        holds,
        contains-collect_refs xs nodes start (node.width / 8) node.element_count 0
            node.element_count r (omega arith)
            (ground (arith, contains-from_keys [] (refs_of xs nodes offset node) r)),
      )
      | inr holds ↦ absurd (ground (arith, contains-from_keys [] (refs_of xs nodes offset node) r))
    ]

    back :
        (holds_references node ≡ true)
          × HasElement xs nodes (offset + array_header_size) (node.width / 8) 0 node.element_count r
        → contains (from_keys [] (refs_of xs nodes offset node)) r ≡ true
    back (holds, (index, _, high, e, good)) =
        let found =
          collect_refs-contains xs nodes start (node.width / 8) node.element_count 0 index
            (omega arith) (omega arith) (rw e good) in
        rw contains-from_keys (rw holds (rw (rw e at found)))

-- The table after the edges were attached: the same offsets, each array with its children.
pub keys-add_references :
    (xs : Bytes) (nodes : Dict ArrayNode) → keys (add_references xs nodes) ≡ keys nodes
unfolding add_references
keys-add_references xs nodes = keys-link_nodes nodes
  where
    keys-link_nodes : (rest : Dict ArrayNode) → keys (link_nodes xs nodes rest) ≡ keys rest
    keys-link_nodes [] = refl
    keys-link_nodes ((k, node) ∷ rest) = ap (λ (ks : List ℕ). k ∷ ks) (keys-link_nodes rest)

-- `node._replace(child_refs=...)`
abbrev pub with_children : Bytes → Dict ArrayNode → ℕ → ArrayNode → ArrayNode
with_children xs nodes offset node = record node { child_refs = child_refs_of xs nodes offset node }

lookup-link_nodes :
    (xs : Bytes) (nodes rest : Dict ArrayNode) (k : ℕ)
    → lookup k (link_nodes xs nodes rest) ≡ Option.map (with_children xs nodes k) (lookup k rest)
unfolding link_nodes
lookup-link_nodes xs nodes [] k = refl
lookup-link_nodes xs nodes ((j, node) ∷ rest) k = elim (Bool-cases (j == k)) [
  | inl e ↦ rw e (rw ((==_iff j k).0 e) refl)
  | inr e ↦ rw e (lookup-link_nodes xs nodes rest k)
]

pub lookup-add_references :
    (xs : Bytes) (nodes : Dict ArrayNode) (k : ℕ)
    → lookup k (add_references xs nodes) ≡ Option.map (with_children xs nodes k) (lookup k nodes)
unfolding add_references
lookup-add_references xs nodes k = lookup-link_nodes xs nodes nodes k

-- The children of an array are distinct.
pub child_refs_of-IsDistinct :
    (xs : Bytes) (nodes : Dict ArrayNode) (offset : ℕ) (node : ArrayNode)
    → IsDistinct (child_refs_of xs nodes offset node)
unfolding child_refs_of
child_refs_of-IsDistinct xs nodes offset node =
    from_keys-IsDistinct [] (refs_of xs nodes offset node)
