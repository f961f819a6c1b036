-- ===== src/Server/FileSystem/Unique.antt =====
-- The name that STOU makes up.
use hybrid_ftp_system.Prelude.{ℕ, ◌+◌, ◌<◌, ◌≡◌, true, false, Bytes}
use hybrid_ftp_system.Server.FileSystem.{Os, is_free}

module _ {Disk : Type 0} (os : Os Disk) (disk : Disk) (base_dir : Bytes) where
  -- The first free name from a count on.
  abbrev pub IsFirst : (ℕ → Bytes) → ℕ → ℕ → Type 0
  IsFirst name count k =
      (is_free os disk base_dir (name (count + k)) ≡ true)
      × ((j : ℕ) → j < k → is_free os disk base_dir (name (count + j)) ≡ false)
