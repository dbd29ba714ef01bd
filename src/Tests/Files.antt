-- ===== src/Tests/Files.antt =====
-- A file with three arrays, and a platform with small stand-ins for the standard library.
use pyrealm.Prelude.{ℕ, ◌+◌, Bool, false, none, ◌&&◌, [], ◌∷◌, ◌++◌, ltb, leb}
use mathlib.Core.List.{append-nil, append_assoc}
use pyrealm.Bytes.{Bytes, le_bytes}
use pyrealm.Header.Laws.{pack_header}
use pyrealm.Models.{RealmHeader, ArrayNode, orphan}
use pyrealm.Disk.{raw, complete, file, Disk}
use pyrealm.Hash.{Sha256, IsIncremental}
use pyrealm.Entropy.{Float}
use pyrealm.Platform.{Platform, resolved_to}

-- Two references: to the array at 48, and to nowhere.
abbrev pub root_array : Bytes
root_array = b'A' ∷ b'A' ∷ b'A' ∷ b'A' ∷ 0x47 ∷ 0 ∷ 0 ∷ 2 ∷ le_bytes 8 48 ++ le_bytes 8 0

-- The text "hello", and three bytes of padding.
abbrev pub text_array : Bytes
text_array =
    b'A' ∷ b'A' ∷ b'A' ∷ b'A' ∷ 0x04 ∷ 0 ∷ 0 ∷ 8 ∷ b'h' ∷ b'e' ∷ b'l' ∷ b'l' ∷ b'o' ∷ 0 ∷ 0 ∷ 0 ∷ []

abbrev pub small_realm : Bytes
small_realm = pack_header 24 0 9 9 0 0 ++ (root_array ++ (text_array ++ text_array))

abbrev pub small_header : RealmHeader
small_header = record {
  top_refs = (24, 0);
  format_slots = (9, 9);
  reserved = 0;
  flags = 0;
  active_slot = 0;
  active_top_ref = 24;
  inactive_top_ref = 0;
  streaming = false;
}

-- The array of the text, as it is carved.
abbrev pub text_node : ArrayNode
text_node = record {
  offset = 48;
  byte_size = 16;
  payload_size = 8;
  element_count = 8;
  width = 8;
  width_scheme = 0;
  has_refs = false;
  inner_bptree = false;
  context_flag = false;
  child_refs = [];
  reachability = orphan;
}

abbrev pub list_sha : Sha256
list_sha = record {
  Digest = Bytes;
  fresh = [];
  update = λ d xs. d ++ xs;
  hexdigest = λ d. "digest";
}

pub list_sha-IsIncremental : IsIncremental list_sha
list_sha-IsIncremental = record { update-nil = append-nil; update-append = append_assoc }

abbrev pub no_floats : Float
no_floats = record {
  Real = ℕ;
  zero_real = 0;
  ratio = λ count total. count;
  log2 = λ x. x;
  multiply = λ x y. x;
  plus = λ x y. x + y;
  negate = λ x. x;
  above = λ x y. ltb y x;
  at_least = λ x y. leb y x;
  threshold = 7;
}

abbrev pub ascii_print : ℕ → Bool
ascii_print c = leb 0x20 c && leb c 0x7E

abbrev pub small_platform : Platform
small_platform = record {
  hashing = list_sha;
  floats = no_floats;
  isprintable = ascii_print;
  resolved = λ p. resolved_to p;
  absolute = λ p. resolved_to p;
  path_text = λ p. "path";
  testing = λ p. none;
  reading = λ p. none;
  making = λ p. none;
  writing = λ p content. complete;
  print_text = λ line. none;
  print_document = λ value. none;
  print_error = λ line. none;
  suffix_lower = λ p. ".realm";
  content_bytes = λ c. [];
  decimal = λ n. "n";
  hexadecimal = λ n. "x";
  three_places = λ r. "0.000";
}

abbrev pub small_disk : Disk ℕ
small_disk = ("in.realm" ∷ [], file (raw small_realm)) ∷ []
