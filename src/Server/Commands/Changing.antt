-- ===== src/Server/Commands/Changing.antt =====
-- The commands that change the folder, the disk or the transfer.
use hybrid_ftp_system.Prelude.{
  ℕ, ◌==◌, ◌≡◌, inl, inr, refl, arith, Bool, true, false, not, Bytes, [], some, same, if◌then◌else◌,
}
use hybrid_ftp_system.Prelude.Text.{codes, is_empty}
use hybrid_ftp_system.DataTransfer.Session.{FtpSession}
use hybrid_ftp_system.Server.Paths.Inside.{IsWithin}
use hybrid_ftp_system.Server.FileSystem.{Os, exists}
use hybrid_ftp_system.Server.Replies.{Change, with_path}
use hybrid_ftp_system.Server.Commands.Folders.{
  safe_path, tried, moved_to, cwd, cdup, mkd, rmd, dele, rnfr, rnto,
}
use hybrid_ftp_system.Server.Commands.Allowed.{
  Placed, Kept, Kept-like, Allowed, answers, DiskStep, untouched, made, folder_removed,
  file_removed, renamed, told, if-Allowed, with_path-Allowed, safe_path-OptWithin,
}

module _ {Disk : Type 0} (os : Os Disk) (root : Bytes) (s : FtpSession) (disk : Disk)
    (p : Placed root s) (stays : (d : Disk) → (os.files d).realpath root ≡ some root) where
  moved_to-Allowed :
      (path : Bytes) → IsWithin root path → Allowed os root s disk (moved_to os s disk path)
  moved_to-Allowed path w =
      let kept : Kept root s (record s { current_dir = path }) = record {
        placed = record { at_root = p.at_root; current = w; renaming = p.renaming };
        same_login = refl;
        same_transfer = refl;
      } in
      answers (record s { current_dir = path }) disk _ kept untouched refl

  -- `with_path` behind `resolve_safe_path`.
  pub resolved-Allowed :
      (arg : Bytes) {x : Change Disk} {f : Bytes → Change Disk}
      → Allowed os root s disk x
      → ((path : Bytes) → IsWithin root path → Allowed os root s disk (f path))
      → Allowed os root s disk (with_path (safe_path os s disk arg) x f)
  resolved-Allowed arg a g =
      with_path-Allowed os root s disk (safe_path os s disk arg)
        (safe_path-OptWithin os root s disk arg stays p) a g

  pub cwd-Allowed : (arg : Bytes) → Allowed os root s disk (cwd os s disk arg)
  unfolding cwd
  cwd-Allowed arg = resolved-Allowed arg (told os root s disk _ p refl) (λ path w.
      if-Allowed os root s disk (os.isdir disk path) (moved_to-Allowed path w)
        (told os root s disk _ p refl))

  pub cdup-Allowed : Allowed os root s disk (cdup os s disk)
  unfolding cdup
  cdup-Allowed =
      let kept : Kept root s (record s { current_dir = s.root_dir }) = record {
        placed = record { at_root = p.at_root; current = inl p.at_root; renaming = p.renaming };
        same_login = refl;
        same_transfer = refl;
      } in
      let at_top = answers (record s { current_dir = s.root_dir }) disk _ kept untouched refl in
      resolved-Allowed (codes "..") at_top
        (λ path w. if-Allowed os root s disk (os.isdir disk path) (moved_to-Allowed path w) at_top)

  -- The replies of a call of the system, whether it went through or raised.
  tried-Allowed :
      (after : FtpSession) (b : Bool) (left : Disk) (code failed_code : ℕ) (x y : Bytes)
      → Kept root s after
      → DiskStep os root disk left
      → (code == 150) ≡ false
      → (failed_code == 150) ≡ false
      → Allowed os root s disk (tried after (b, left) code x failed_code y)
  tried-Allowed after b left code failed_code x y kept on_disk c f =
      if-Allowed os root s disk b (answers after left _ kept on_disk c)
        (answers after left _ kept on_disk f)

  pub mkd-Allowed : (arg : Bytes) → Allowed os root s disk (mkd os s disk arg)
  unfolding mkd
  mkd-Allowed arg = if-Allowed os root s disk (is_empty arg) (told os root s disk _ p refl) (
      resolved-Allowed arg (told os root s disk _ p refl) (λ path w.
        if-Allowed os root s disk (exists os disk path) (told os root s disk _ p refl) (
          tried-Allowed s (os.makedirs path disk).0 (os.makedirs path disk).1 _ _ _ _
            (Kept-like s s p refl refl refl refl refl) (made path w) refl refl)))

  pub rmd-Allowed : (arg : Bytes) → Allowed os root s disk (rmd os s disk arg)
  unfolding rmd
  rmd-Allowed arg = resolved-Allowed arg (told os root s disk _ p refl) (λ path w.
      if-Allowed os root s disk (not (os.isdir disk path)) (told os root s disk _ p refl) (
        if-Allowed os root s disk (same path s.root_dir) (told os root s disk _ p refl) (
          tried-Allowed s (os.rmdir path disk).0 (os.rmdir path disk).1 _ _ _ _
            (Kept-like s s p refl refl refl refl refl) (folder_removed path w) refl refl)))

  pub dele-Allowed : (arg : Bytes) → Allowed os root s disk (dele os s disk arg)
  unfolding dele
  dele-Allowed arg = resolved-Allowed arg (told os root s disk _ p refl) (λ path w.
      if-Allowed os root s disk (os.isdir disk path) (told os root s disk _ p refl) (
        tried-Allowed s (os.remove path disk).0 (os.remove path disk).1 _ _ _ _
          (Kept-like s s p refl refl refl refl refl) (file_removed path w) refl refl))

  pub rnfr-Allowed : (arg : Bytes) → Allowed os root s disk (rnfr os s disk arg)
  unfolding rnfr
  rnfr-Allowed arg = resolved-Allowed arg (told os root s disk _ p refl) (λ path w.
      let kept : Kept root s (record s { rename_from_path = path }) = record {
        placed = record { at_root = p.at_root; current = p.current; renaming = inr w };
        same_login = refl;
        same_transfer = refl;
      } in
      if-Allowed os root s disk (not (exists os disk path)) (told os root s disk _ p refl)
        (answers (record s { rename_from_path = path }) disk _ kept untouched refl))

  -- The session behind a rename.
  Kept-cleared : Kept root s (record s { rename_from_path = [] })
  Kept-cleared = record {
    placed = record { at_root = p.at_root; current = p.current; renaming = inl refl };
    same_login = refl;
    same_transfer = refl;
  }

  pending : is_empty s.rename_from_path ≡ false → IsWithin root s.rename_from_path
  pending h = elim p.renaming [ inl e ↦ absurd (ground (arith, h, e)) | inr w ↦ w ]

  known-Allowed :
      (b : Bool) {x y : Change Disk}
      → Allowed os root s disk x
      → (b ≡ false → Allowed os root s disk y)
      → Allowed os root s disk (if b then x else y)
  known-Allowed true a f = a
  known-Allowed false a f = f refl

  pub rnto-Allowed : (arg : Bytes) → Allowed os root s disk (rnto os s disk arg)
  unfolding rnto
  rnto-Allowed arg =
      let cleared = record s { rename_from_path = [] } in
      known-Allowed (is_empty s.rename_from_path) (told os root s disk _ p refl) (λ h.
        resolved-Allowed arg (answers cleared disk _ Kept-cleared untouched refl) (λ path w.
          tried-Allowed cleared (os.rename s.rename_from_path path disk).0
            (os.rename s.rename_from_path path disk).1 _ _ _ _ Kept-cleared
            (renamed s.rename_from_path path (pending h) w) refl refl))
