-- ===== src/Scan/Exact.antt =====
-- `_scan_array_candidates` in src/pyrealm_forensics/parser.py, against a description of each
-- offset.
use pyrealm.Prelude.{
  ℕ, zero, suc, ◌+◌, ◌≤◌, ◌≡◌, false, ◌&&◌, Option, none, some, [], arith, leb, ◌==◌, if◌then◌else◌,
  length, drop-length_le, Option-cases, inl, inr, ◌∙◌, Bool-cases, leb→le,
}
use pyrealm.Prelude.Dict.{Dict, lookup, lookup-insert}
use pyrealm.Bytes.{Bytes, starts_with, find}
use pyrealm.Bytes.Find.{stands_at, find-some, find-none}
use pyrealm.Models.{ArrayNode}
use pyrealm.Header.{file_header_size}
use pyrealm.Scan.{array_signature, candidate, visit, scan_loop, scan_array_candidates}

abbrev or_else : Option ArrayNode → Option ArrayNode → Option ArrayNode
or_else none b = b
or_else (some a) b = some a

lookup-visit :
    (xs : Bytes) (offset k : ℕ) (d : Dict ArrayNode)
    → lookup k (visit xs offset d)
      ≡ (if offset == k then or_else (candidate xs offset) (lookup k d) else lookup k d)
unfolding visit
lookup-visit xs offset k d = elim (Option-cases (candidate xs offset)) [
  | inl e ↦ rw e (ground arith)
  | inr (node, e) ↦ rw e (lookup-insert offset k node d)
]

-- No signature stands past the end.
stands_at-end : (xs : Bytes) (k : ℕ) → length xs ≤ k → stands_at xs array_signature k ≡ false
unfolding starts_with
stands_at-end xs k h = rw (drop-length_le k xs h)

-- What the rounds from `start` on leave under the key `k`.
abbrev found : Bytes → ℕ → ℕ → Dict ArrayNode → Option ArrayNode
found xs start k d =
    if leb start k && stands_at xs array_signature k
    then or_else (candidate xs k) (lookup k d)
    else lookup k d

stands_eq :
    (xs : Bytes) (o k : ℕ) → o ≡ k → stands_at xs array_signature o ≡ stands_at xs array_signature k
stands_eq xs o k e = rw e

found-none :
    (xs : Bytes) (start k : ℕ) (d : Dict ArrayNode)
    → (start ≤ k → stands_at xs array_signature k ≡ false)
    → lookup k d ≡ found xs start k d
found-none xs start k d absent = elim (Bool-cases (leb start k)) [
  | inl low ↦ rw (low, absent (leb→le start k low))
  | inr low ↦ rw low
]

-- A round at the first signature from `start` on, and the rounds from the next byte on.
found-step :
    (xs : Bytes) (start o k : ℕ) (d : Dict ArrayNode)
    → find xs array_signature start ≡ some o
    → found xs (o + 1) k (visit xs o d) ≡ found xs start k d
found-step xs start o k d e =
    let (low, stands, first) = find-some xs array_signature start o e in
    ground (arith, lookup-visit xs o k d, first k, stands_eq xs o k)

lookup-scan_loop :
    (fuel : ℕ) (xs : Bytes) (start k : ℕ) (d : Dict ArrayNode)
    → length xs ≤ start + fuel
    → lookup k (scan_loop fuel xs (find xs array_signature start) d) ≡ found xs start k d
unfolding scan_loop
lookup-scan_loop zero xs start k d h = elim (Option-cases (find xs array_signature start)) [
  | inl e ↦ rw e (found-none xs start k d (find-none xs array_signature start k e))
  | inr (o, e) ↦ rw e (found-none xs start k d (λ low. stands_at-end xs k (omega arith)))
]
lookup-scan_loop (suc fuel) xs start k d h = elim (Option-cases (find xs array_signature start)) [
  | inl e ↦ rw e (found-none xs start k d (find-none xs array_signature start k e))
  | inr (o, e) ↦
      let (low, _, _) = find-some xs array_signature start o e in
      rw e (
        lookup-scan_loop fuel xs (o + 1) k (visit xs o d) (omega arith)
        ∙ found-step xs start o k d e)
]

-- The scan has an array under an offset exactly if the offset lies behind the file header, the
-- signature stands there, and the tests of the loop's body pass; it is the array of those tests.
pub lookup-scan_array_candidates :
    (xs : Bytes) (k : ℕ)
    → lookup k (scan_array_candidates xs)
      ≡ (if leb file_header_size k && stands_at xs array_signature k then candidate xs k else none)
unfolding scan_array_candidates
lookup-scan_array_candidates xs k =
    lookup-scan_loop (length xs) xs file_header_size k [] (omega arith) ∙ ground arith
