-- ===== src/Models.antt =====
-- src/pyrealm_forensics/models.py: the records that the scanner emits.
use pyrealm.Prelude.{ℕ, String, Bool, Option, List}

pub data Reachability : Type 0 where
  active shared inactive orphan : Reachability

pub data Encoding : Type 0 where
  utf8 utf16le : Encoding

pub record RealmHeader : Type 0 where
  pub top_refs : ℕ × ℕ
  pub format_slots : ℕ × ℕ
  pub reserved : ℕ
  pub flags : ℕ
  pub active_slot : ℕ
  pub active_top_ref : ℕ
  pub inactive_top_ref : ℕ
  pub streaming : Bool

pub record ArrayNode : Type 0 where
  pub offset : ℕ
  pub byte_size : ℕ
  pub payload_size : ℕ
  pub element_count : ℕ
  pub width : ℕ
  pub width_scheme : ℕ
  pub has_refs : Bool
  pub inner_bptree : Bool
  pub context_flag : Bool
  pub child_refs : List ℕ
  pub reachability : Reachability

-- `value` is the list of the text's code points.
pub record CarvedString : Type 0 where
  pub file_offset : ℕ
  pub array_offset : ℕ
  pub encoding : Encoding
  pub value : List ℕ
  pub reachability : Reachability

-- The entropy is a value of the type `F` that stands for Python's floats.
pub record Analysis (F : Type 0) : Type 0 where
  pub path : String
  pub sha256 : String
  pub file_size : ℕ
  pub classification : String
  pub entropy : F
  pub header : Option RealmHeader
  pub arrays : List ArrayNode
  pub warnings : List String
