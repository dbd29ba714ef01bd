-- ===== src/Hash.antt =====
-- src/pyrealm_forensics/parser.py, `_sha256`. The hash object of `hashlib` is an interface; the open
-- file is its contents and the position of the next read.
pub mod Laws
use pyrealm.Prelude.{ℕ, zero, suc, ◌+◌, ◌*◌, ◌≡◌, String, List, [], ◌∷◌, ◌++◌, length}
use pyrealm.Bytes.{Bytes, slice}

-- `hashlib.sha256()`, `update` and `hexdigest`.
pub record Sha256 : Type 1 where
  pub Digest : Type 0
  pub fresh : Digest
  pub update : Digest → Bytes → Digest
  pub hexdigest : Digest → String

-- What hashlib documents: repeated calls of `update` are one call on the concatenation.
pub record IsIncremental (H : Sha256) : Type 0 where
  pub update-nil : (d : H.Digest) → H.update d [] ≡ d
  pub update-append :
      (d : H.Digest) (xs ys : Bytes) → H.update (H.update d xs) ys ≡ H.update d (xs ++ ys)

pub record BinaryFile : Type 0 where
  pub contents : Bytes
  pub position : ℕ

-- `file.read(size)`
abbrev pub read_chunk : ℕ → BinaryFile → Bytes
read_chunk size file = slice file.contents file.position (file.position + size)

abbrev pub chunk_size : ℕ
chunk_size = 1024 * 1024

module _ (H : Sha256) where
  -- The loop over `iter(lambda: file.read(size), b"")`. A chunk that is not empty moves the position
  -- on, so one round more than there are bytes is enough.
  hash_loop : ℕ → ℕ → H.Digest → BinaryFile → H.Digest
  hash_loop zero size digest file = digest
  hash_loop (suc fuel) size digest file = elim (read_chunk size file) [
    | [] ↦ digest
    | b ∷ bs ↦
        hash_loop fuel size (H.update digest (b ∷ bs))
          (record file { position = file.position + length (b ∷ bs) })
  ]

  -- The digest, and the file after `file.seek(0)`.
  unfoldable pub sha256 : BinaryFile → String × BinaryFile
  unfolding hash_loop
  sha256 file = (
    H.hexdigest (hash_loop (suc (length file.contents)) chunk_size H.fresh file),
    record file { position = 0 },
  )
