-- ===== src/Analyze/Warnings.antt =====
-- The warnings of `_analyze` and `_top_reference_warning` in src/pyrealm_forensics/parser.py.
use pyrealm.Prelude.{
  ℕ, ◌%◌, ◌≡◌, ◌≢◌, ◌↔◌, ◌⊎◌, ◌≤◌, ◌<◌, refl, String, Bool, true, false, not, ◌&&◌, none, some,
  Option, List, [], ◌∷◌, ◌++◌, arith, length, ◌==◌, inr,
}
use pyrealm.Prelude.Dict.{Dict, has_key, lookup_of_has_key}
use pyrealm.Bytes.{Bytes}
use pyrealm.Models.{ArrayNode, RealmHeader}
use pyrealm.Header.{file_header_size}
use pyrealm.Scan.{scan_array_candidates}
use pyrealm.Scan.Order.{lookup-scan-IsCandidate, lookup-scan_behind}
use pyrealm.References.Children.{keys-add_references}
use pyrealm.Classify.Pipeline.{linked}
use pyrealm.Analyze.{
  top_reference_warning, append_some, append_if, header_warnings, active_unresolved,
  inactive_unresolved, reserved_set,
}

-- A root that a file of this size can have: none, or a place for an array.
abbrev pub IsPossibleRoot : ℕ → ℕ → Type 0
IsPossibleRoot reference size =
    (reference ≡ 0) ⊎ (reference % 8 ≡ 0) × (file_header_size ≤ reference) × (reference < size)

-- There is no warning about a root exactly if the file can have it.
pub top_reference_warning-none_iff :
    (label : String) (reference size : ℕ)
    → (top_reference_warning label reference size ≡ none) ↔ IsPossibleRoot reference size
unfolding top_reference_warning
top_reference_warning-none_iff label reference size = ground arith

concat-ne-nil : (ws : List String) (w : String) → ws ++ w ∷ [] ≢ []
concat-ne-nil [] w = λ e. cc
concat-ne-nil (v ∷ ws) w = λ e. cc

append_if-nil :
    (test : Bool) (w : String) (ws : List String)
    → (append_if test w ws ≡ []) ↔ ((test ≡ false) × (ws ≡ []))
append_if-nil true w ws = (λ e. absurd (concat-ne-nil ws w e), λ h. cc (h.0))
append_if-nil false w ws = (λ e. (refl, e), λ h. h.1)

append_some-nil :
    (o : Option String) (ws : List String) → (append_some ws o ≡ []) ↔ ((o ≡ none) × (ws ≡ []))
append_some-nil none ws = (λ e. (refl, e), λ h. h.1)
append_some-nil (some w) ws = (λ e. absurd (concat-ne-nil ws w e), λ h. cc (h.0))

-- A header has nothing to warn of exactly if both roots are possible in a file of the size, the
-- active root is an array, the inactive root is none or an array, and the reserved byte is zero.
pub header_warnings-nil_iff :
    (header : RealmHeader) (nodes : Dict ArrayNode) (size : ℕ)
    → (header_warnings header nodes size ≡ []) ↔ (
        IsPossibleRoot header.active_top_ref size
        × IsPossibleRoot header.inactive_top_ref size
        × (has_key nodes header.active_top_ref ≡ true)
        × ((header.inactive_top_ref ≡ 0) ⊎ (has_key nodes header.inactive_top_ref ≡ true))
        × (header.reserved ≡ 0))
unfolding header_warnings
header_warnings-nil_iff header nodes size =
    let active_root = header.active_top_ref in
    let inactive_root = header.inactive_top_ref in
    let first = append_some [] (top_reference_warning "active" active_root size) in
    let second = append_some first (top_reference_warning "inactive" inactive_root size) in
    let third = append_if (not (has_key nodes active_root)) active_unresolved second in
    let fourth =
      append_if (not (inactive_root == 0) && not (has_key nodes inactive_root)) inactive_unresolved
        third in
    ground (
      arith,
      append_if-nil (not (header.reserved == 0)) reserved_set fourth,
      append_if-nil (not (inactive_root == 0) && not (has_key nodes inactive_root))
          inactive_unresolved third,
      append_if-nil (not (has_key nodes active_root)) active_unresolved second,
      append_some-nil (top_reference_warning "inactive" inactive_root size) first,
      append_some-nil (top_reference_warning "active" active_root size) [],
      top_reference_warning-none_iff "active" active_root size,
      top_reference_warning-none_iff "inactive" inactive_root size,
    )

-- A root at which the scan found an array is a possible one: the file warns of a root only if no
-- array is there.
pub has_key-IsPossibleRoot :
    (xs : Bytes) (reference : ℕ)
    → has_key (linked xs) reference ≡ true
    → IsPossibleRoot reference (length xs)
has_key-IsPossibleRoot xs reference h =
    let (node, there) =
      lookup_of_has_key reference (scan_array_candidates xs) (rw keys-add_references at h) in
    let c = lookup-scan-IsCandidate xs reference there in
    inr (c.aligned, lookup-scan_behind xs reference there, omega (arith, c.inside, c.header_added))
