-- ===== src/References.antt =====
-- src/pyrealm_forensics/parser.py, `_add_references`: the children of each array that holds
-- references. `value & 1 == 0` is written `value % 2 == 0`.
pub mod Children
use pyrealm.Prelude.{
  ℕ, zero, suc, ◌+◌, ◌*◌, ◌/◌, ◌%◌, Bool, true, false, not, ◌&&◌, ◌||◌, List, [], ◌∷◌, ◌==◌,
  if◌then◌else◌, contains,
}
use pyrealm.Prelude.Dict.{Dict, has_key}
use pyrealm.Bytes.{Bytes, slice, le_value}
use pyrealm.Models.{ArrayNode}
use pyrealm.Layout.{array_header_size}

-- `int.from_bytes(data[start : start + element_size], "little")`
abbrev pub element_at : Bytes → ℕ → ℕ → ℕ → ℕ
element_at xs payload_start element_size index =
    let start = payload_start + index * element_size in
    le_value (slice xs start (start + element_size))

-- `if value and value & 1 == 0 and value in nodes`
abbrev pub is_reference : Dict ArrayNode → ℕ → Bool
is_reference nodes value = not (value == 0) && (value % 2 == 0 && has_key nodes value)

-- The loop over `range(index, index + rounds)`: the values that it appends to `refs`.
collect_refs : Bytes → Dict ArrayNode → ℕ → ℕ → ℕ → ℕ → List ℕ
collect_refs xs nodes payload_start element_size zero index = []
collect_refs xs nodes payload_start element_size (suc rounds) index =
    let value = element_at xs payload_start element_size index in
    let rest = collect_refs xs nodes payload_start element_size rounds (index + 1) in
    if is_reference nodes value then value ∷ rest else rest

-- `node.has_refs and node.width in (8, 16, 32, 64) and node.width_scheme == 0`
abbrev pub holds_references : ArrayNode → Bool
holds_references node =
    node.has_refs && (contains (8 ∷ 16 ∷ 32 ∷ 64 ∷ []) node.width && node.width_scheme == 0)

refs_of : Bytes → Dict ArrayNode → ℕ → ArrayNode → List ℕ
unfolding collect_refs
refs_of xs nodes offset node =
    if holds_references node
    then collect_refs xs nodes (offset + array_header_size) (node.width / 8) node.element_count 0
    else []

-- `dict.fromkeys(refs)`: each value once, at its first place; `seen` holds the values met.
from_keys : List ℕ → List ℕ → List ℕ
from_keys seen [] = []
from_keys seen (x ∷ xs) =
    let kept = x ∷ from_keys (x ∷ seen) xs in
    let dropped = from_keys seen xs in if contains seen x then dropped else kept

unfoldable pub child_refs_of : Bytes → Dict ArrayNode → ℕ → ArrayNode → List ℕ
unfolding refs_of from_keys
child_refs_of xs nodes offset node = from_keys [] (refs_of xs nodes offset node)

-- The loop over `nodes.items()`: the keys are distinct, so `result` gets them in the same order.
link_nodes : Bytes → Dict ArrayNode → Dict ArrayNode → Dict ArrayNode
link_nodes xs nodes [] = []
link_nodes xs nodes ((offset, node) ∷ rest) =
    (offset, record node { child_refs = child_refs_of xs nodes offset node })
    ∷ link_nodes xs nodes rest

unfoldable pub add_references : Bytes → Dict ArrayNode → Dict ArrayNode
unfolding link_nodes
add_references xs nodes = link_nodes xs nodes nodes
