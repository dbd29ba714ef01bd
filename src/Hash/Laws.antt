-- ===== src/Hash/Laws.antt =====
-- `_sha256` in src/pyrealm_forensics/parser.py, against a hash of all the bytes at once.
use pyrealm.Prelude.{
  ℕ, zero, suc, ◌+◌, ◌-◌, ◌<◌, ◌≡◌, refl, sym, ◌∙◌, ap, [], ◌∷◌, ◌++◌, arith, length, take, drop,
  take-append-drop, drop-drop, List-cases, inl, inr, drop-length_le,
}
use pyrealm.Bytes.{Bytes, slice}
use pyrealm.Hash.{Sha256, IsIncremental, BinaryFile, read_chunk, hash_loop, chunk_size, sha256}

drop-length-take : (n : ℕ) (xs : Bytes) → drop (length (take n xs)) xs ≡ drop n xs
drop-length-take zero xs = refl
drop-length-take (suc n) [] = refl
drop-length-take (suc n) (x ∷ xs) = drop-length-take n xs

take-eq-nil : (n : ℕ) (xs : Bytes) → 0 < n → take n xs ≡ [] → xs ≡ []
take-eq-nil zero xs h e = absurd (omega arith)
take-eq-nil (suc n) [] h e = refl
take-eq-nil (suc n) (x ∷ xs) h e = cc

-- A chunk and what lies behind it; an empty one only at the end.
chunk-rest :
    (size pos : ℕ) (xs : Bytes)
    → let chunk = slice xs pos (pos + size) in drop pos xs ≡ chunk ++ drop (pos + length chunk) xs
chunk-rest size pos xs =
    let n : ℕ = pos + size - pos in
    let ds : Bytes = drop pos xs in
    sym (take-append-drop n ds)
    ∙ ap (λ (ys : Bytes). take n ds ++ ys)
        (sym (drop-length-take n ds) ∙ drop-drop (length (take n ds)) pos xs)

module _ (H : Sha256) (law : IsIncremental H) where
  hash_loop-whole :
      (fuel size : ℕ) (digest : H.Digest) (file : BinaryFile)
      → 0 < size
      → length file.contents < file.position + fuel
      → hash_loop H fuel size digest file ≡ H.update digest (drop file.position file.contents)
  unfolding hash_loop
  hash_loop-whole zero size digest file some_size enough =
      rw (drop-length_le file.position file.contents (omega arith)) (sym (law.update-nil digest))
  hash_loop-whole (suc fuel) size digest file some_size enough =
      elim (List-cases (read_chunk size file)) [
        | inl e ↦
            let done : drop file.position file.contents ≡ [] =
              take-eq-nil (file.position + size - file.position) (drop file.position file.contents)
                (omega arith) e in
            rw (e, hash_loop) (rw done (sym (law.update-nil digest)))
        | inr (b, bs, e) ↦
            let rest = rw e at (chunk-rest size file.position file.contents) in
            rw (e, hash_loop)
              (hash_loop-whole fuel size (H.update digest (b ∷ bs))
                  (record file { position = file.position + length (b ∷ bs) }) some_size
                  (omega arith)
                ∙ (law.update-append digest (b ∷ bs) _ ∙ ap (H.update digest) (sym rest)))
      ]

-- For a hash whose repeated updates are one update on the concatenation: from the start of the file,
-- the digest is that of all its bytes in one piece, and the file is left at its start with its
-- contents as they were.
pub sha256-whole :
    (H : Sha256)
    → IsIncremental H
    → (file : BinaryFile) → file.position ≡ 0
    → sha256 H file ≡ (H.hexdigest (H.update H.fresh file.contents), record file { position = 0 })
unfolding sha256
sha256-whole H law file start =
    let whole =
      hash_loop-whole H law (suc (length file.contents)) chunk_size H.fresh file (omega arith)
        (omega arith) in
    ap (λ (d : H.Digest). (H.hexdigest d, record file { position = 0 }))
      (whole ∙ ap (λ (n : ℕ). H.update H.fresh (drop n file.contents)) start)
