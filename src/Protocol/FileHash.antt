-- ===== src/Protocol/FileHash.antt =====
-- protocol/file_hash.py, and the loop `while chunk := file.read(n)` that it shares with the sender.
-- SHA-256 itself is a parameter.
pub mod Chunks
use hybrid_ftp_system.Prelude.{
  ℕ, zero, suc, ◌+◌, ◌*◌, ◌<◌, ◌≡◌, List, [], ◌∷◌, ◌++◌, Bytes, length, take, drop, All, foldl,
}

-- `hashlib.sha256()`: updates add up, and the digest in hexadecimal is 64 ASCII characters.
pub record Sha256 : Type 1 where
  pub Digest : Type 0
  pub start : Digest
  pub update : Digest → Bytes → Digest
  pub hexdigest : Digest → Bytes
  pub update-nil : (h : Digest) → update h [] ≡ h
  pub update-update : (h : Digest) (a b : Bytes) → update (update h a) b ≡ update h (a ++ b)
  pub hexdigest_length : (h : Digest) → length (hexdigest h) ≡ 64
  pub hexdigest_ascii : (h : Digest) → All (λ c. c < 128) (hexdigest h)

-- The chunks that the loop reads from an open file that holds `content`. An empty chunk ends it.
-- Each round takes a byte at least, so the length of the file is fuel enough.
unfoldable pub chunks_within : ℕ → ℕ → Bytes → List Bytes
chunks_within zero n content = []
chunks_within (suc fuel) n content = elim (take n content) [
  | [] ↦ []
  | c ∷ cs ↦ (c ∷ cs) ∷ chunks_within fuel n (drop n content)
]

unfoldable pub read_chunks : ℕ → Bytes → List Bytes
unfolding chunks_within
read_chunks n content = chunks_within (length content) n content

module _ (sha : Sha256) where
  open sha use {start, update, hexdigest}

  -- `hashlib.sha256(data).hexdigest()`
  unfoldable pub sha256_hex : Bytes → Bytes
  sha256_hex content = hexdigest (update start content)

  unfoldable pub sha256_file : Bytes → Bytes
  sha256_file content = hexdigest (foldl update start (read_chunks (64 * 1024) content))
