-- ===== src/Tests/Paths.antt =====
-- A path below a root, in a file system without links.
use hybrid_ftp_system.Prelude.{◌≡◌, ◌↔◌, true, [], ◌∷◌, Bytes, some}
use hybrid_ftp_system.Server.Paths.{FileSystem, target_path, out_path, resolve_safe_path}
use hybrid_ftp_system.Server.Paths.Inside.{IsWithin, resolve_safe_path-IsWithin}

-- Every path exists and is its own resolution.
abbrev plain : FileSystem
plain = record { exists = λ p. true; realpath = λ p. some p }

abbrev root_dir : Bytes
root_dir = 47 ∷ 114 ∷ []

abbrev full_path : Bytes
full_path = 47 ∷ 114 ∷ 47 ∷ 97 ∷ []

resolve_safe_path-IsWithin_example :
    (resolve_safe_path plain root_dir (97 ∷ []) root_dir ≡ some full_path) ↔ (
      (out_path plain (target_path root_dir (97 ∷ []) root_dir) ≡ some full_path)
      × (root : Bytes) × (plain.realpath root_dir ≡ some root)
      × IsWithin root full_path)
resolve_safe_path-IsWithin_example =
    resolve_safe_path-IsWithin plain root_dir (97 ∷ []) root_dir full_path
