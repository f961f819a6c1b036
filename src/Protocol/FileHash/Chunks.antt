-- ===== src/Protocol/FileHash/Chunks.antt =====
-- Reading a file in chunks: nothing is lost, each chunk has the size asked for at most, and the
-- hash does not depend on that size.
use hybrid_ftp_system.Prelude.{
  ℕ, zero, suc, ◌*◌, ◌≤◌, ◌<◌, ◌≡◌, refl, sym, ap, ◌∙◌, arith, List, [], ◌∷◌, Bytes, IsBytes,
  IsByte, length, take, drop, All, All-take, All-drop, foldl, concat, take-append-drop, length-take,
  length-drop,
}
use hybrid_ftp_system.Protocol.FileHash.{
  Sha256, chunks_within, read_chunks, sha256_hex, sha256_file,
}

abbrev pub IsChunk : ℕ → Bytes → Type 0
IsChunk n c = (1 ≤ length c) × (length c ≤ n) × IsBytes c

-- One round of the loop on a file that is not empty.
chunks_step :
    (fuel n x : ℕ) (xs : Bytes)
    → 0 < n
    → chunks_within (suc fuel) n (x ∷ xs) ≡ take n (x ∷ xs) ∷ chunks_within fuel n (drop n (x ∷ xs))
unfolding chunks_within
chunks_step fuel zero x xs h = absurd (omega arith)
chunks_step fuel (suc n) x xs h = refl

chunks_nil : (fuel n : ℕ) → chunks_within fuel n [] ≡ []
unfolding chunks_within
chunks_nil zero n = refl
chunks_nil (suc fuel) zero = refl
chunks_nil (suc fuel) (suc n) = refl

concat-chunks :
    (fuel n : ℕ) (content : Bytes)
    → 0 < n
    → length content ≤ fuel
    → concat (chunks_within fuel n content) ≡ content
concat-chunks fuel n [] h k = rw (chunks_nil fuel n)
concat-chunks zero n (x ∷ xs) h k = absurd (omega arith)
concat-chunks (suc fuel) n (x ∷ xs) h k =
    let ih = concat-chunks fuel n (drop n (x ∷ xs)) h (omega (arith, length-drop n (x ∷ xs))) in
    rw (chunks_step fuel n x xs h, ih) (take-append-drop n (x ∷ xs))

chunks-IsChunk :
    (fuel n : ℕ) (content : Bytes)
    → 0 < n
    → IsBytes content
    → All (IsChunk n) (chunks_within fuel n content)
chunks-IsChunk fuel n [] h b = rw (chunks_nil fuel n) tt
chunks-IsChunk zero n (x ∷ xs) h b = unfold chunks_within in tt
chunks-IsChunk (suc fuel) n (x ∷ xs) h b =
    let sized = length-take n (x ∷ xs) in
    rw (chunks_step fuel n x xs h) (
      (omega arith, omega arith, All-take IsByte n (x ∷ xs) b),
      chunks-IsChunk fuel n (drop n (x ∷ xs)) h (All-drop IsByte n (x ∷ xs) b),
    )

-- For a positive size of the chunks, the chunks put together are the file.
pub concat-read_chunks :
    (n : ℕ) (content : Bytes) → 0 < n → concat (read_chunks n content) ≡ content
unfolding read_chunks
concat-read_chunks n content h = concat-chunks (length content) n content h (omega arith)

-- For a positive size `n` and a file of bytes, each chunk is a byte string of 1 to `n` bytes.
pub read_chunks-IsChunk :
    (n : ℕ) (content : Bytes) → 0 < n → IsBytes content → All (IsChunk n) (read_chunks n content)
unfolding read_chunks
read_chunks-IsChunk n content h b = chunks-IsChunk (length content) n content h b

module _ (sha : Sha256) where
  fold-update :
      (cs : List Bytes) (h : sha.Digest) → foldl sha.update h cs ≡ sha.update h (concat cs)
  fold-update [] h = sym (sha.update-nil h)
  fold-update (c ∷ cs) h = fold-update cs (sha.update h c) ∙ sha.update-update h c (concat cs)

  -- Hashing in chunks of any positive size is hashing at once.
  pub hash_in_chunks :
      (n : ℕ) (content : Bytes)
      → 0 < n
      → foldl sha.update sha.start (read_chunks n content) ≡ sha.update sha.start content
  hash_in_chunks n content h =
      fold-update (read_chunks n content) sha.start
      ∙ ap (sha.update sha.start) (concat-read_chunks n content h)

  -- The hash that is taken chunk by chunk is the hash of the whole content, `hexdigest` of one
  -- `update`.
  pub sha256_file-eq-hex : (content : Bytes) → sha256_file sha content ≡ sha256_hex sha content
  unfolding sha256_file sha256_hex
  sha256_file-eq-hex content = ap sha.hexdigest (hash_in_chunks (64 * 1024) content (omega arith))
