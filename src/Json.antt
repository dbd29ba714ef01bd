-- ===== src/Json.antt =====
-- src/pyrealm_forensics/models.py, `analysis_dict`, and the `_asdict` of the records: the values that
-- are handed to `json`. `R` is the type of Python's floats.
use pyrealm.Prelude.{ℕ, String, Bool, Option, none, some, List, [], ◌∷◌}
use pyrealm.Models.{
  Reachability, active, shared, inactive, orphan, RealmHeader, ArrayNode, Analysis,
}

mutual
  pub data Json (R : Type 0) : Type 0 where
    null : Json R
    boolean : Bool → Json R
    number : ℕ → Json R
    real : R → Json R
    text : String → Json R
    array : Items R → Json R
    object : Fields R → Json R

  pub data Items (R : Type 0) : Type 0 where
    end : Items R
    item : Json R → Items R → Items R

  -- A dict, in insertion order.
  pub data Fields (R : Type 0) : Type 0 where
    done : Fields R
    field : String → Json R → Fields R → Fields R

pub reachability_name : Reachability → String
reachability_name active = "active"
reachability_name shared = "shared"
reachability_name inactive = "inactive"
reachability_name orphan = "orphan"

module _ {R : Type 0} where
  items : {A : Type 0} → (A → Json R) → List A → Items R
  items f [] = end
  items f (x ∷ xs) = item (f x) (items f xs)

  pair_json : ℕ × ℕ → Json R
  pair_json (a, b) = array (item (number a) (item (number b) end))

  -- `header._asdict()`
  unfoldable pub header_dict : RealmHeader → Json R
  unfolding pair_json
  header_dict h = object (
      field "top_refs" (pair_json h.top_refs) (
        field "format_slots" (pair_json h.format_slots) (
          field "reserved" (number h.reserved) (
            field "flags" (number h.flags) (
              field "active_slot" (number h.active_slot) (
                field "active_top_ref" (number h.active_top_ref) (
                  field "inactive_top_ref" (number h.inactive_top_ref)
                    (field "streaming" (boolean h.streaming) done))))))))

  -- `node._asdict()`
  unfoldable pub node_dict : ArrayNode → Json R
  unfolding items reachability_name
  node_dict n = object (
      field "offset" (number n.offset) (
        field "byte_size" (number n.byte_size) (
          field "payload_size" (number n.payload_size) (
            field "element_count" (number n.element_count) (
              field "width" (number n.width) (
                field "width_scheme" (number n.width_scheme) (
                  field "has_refs" (boolean n.has_refs) (
                    field "inner_bptree" (boolean n.inner_bptree) (
                      field "context_flag" (boolean n.context_flag) (
                        field "child_refs" (array (items number n.child_refs)) (
                          field "reachability" (text (reachability_name n.reachability))
                            done)))))))))))

  header_json : Option RealmHeader → Json R
  header_json none = null
  header_json (some h) = header_dict h

  -- `analysis_dict`: the fields of the analysis in their order, the header and the arrays as dicts.
  unfoldable pub analysis_dict : Analysis R → Json R
  unfolding header_json items
  analysis_dict a = object (
      field "path" (text a.path) (
        field "sha256" (text a.sha256) (
          field "file_size" (number a.file_size) (
            field "classification" (text a.classification) (
              field "entropy" (real a.entropy) (
                field "header" (header_json a.header) (
                  field "arrays" (array (items node_dict a.arrays))
                    (field "warnings" (array (items text a.warnings)) done))))))))
