-- ===== src/Server/Commands/Allowed.antt =====
-- What a command of a logged-in client may do to the session, the disk and the transfer.
use hybrid_ftp_system.Prelude.{
  ◌==◌, ◌≡◌, ◌⊎◌, refl, sym, ◌∙◌, Bool, true, false, [], Bytes, Option, none, some, if◌then◌else◌,
}
use hybrid_ftp_system.DataTransfer.Session.{FtpSession}
use hybrid_ftp_system.Server.Paths
use hybrid_ftp_system.Server.Paths.Inside.{IsWithin, resolve_safe_path-IsWithin}
use hybrid_ftp_system.Server.FileSystem.{Os}
use hybrid_ftp_system.Server.Replies.{
  Reply, Job, download_file, download_text, download_buffer, receive_upload, Change, responded,
  start_transfer, raised, silent, with_path,
}
use hybrid_ftp_system.Server.Commands.Folders.{safe_path}

-- No rename is pending, or one of a path of the root.
abbrev pub IsRenaming : Bytes → Bytes → Type 0
IsRenaming root path = (path ≡ []) ⊎ IsWithin root path

-- The session's paths lie in its root.
pub record Placed (root : Bytes) (s : FtpSession) : Type 0 where
  pub at_root : s.root_dir ≡ root
  pub current : IsWithin root s.current_dir
  pub renaming : IsRenaming root s.rename_from_path

-- The second session is placed as well, and neither the login nor the transfer has changed.
pub record Kept (root : Bytes) (s after : FtpSession) : Type 0 where
  pub placed : Placed root after
  pub same_login : after.is_authenticated ≡ s.is_authenticated
  pub same_transfer : after.transfer_active ≡ s.transfer_active

-- The disk as it was, or behind one call of the system: on paths of the root, or for a new temporary
-- file.
pub data DiskStep {Disk : Type 0} (os : Os Disk) (root : Bytes) (disk : Disk) : Disk → Type 0 where
  untouched : DiskStep os root disk disk
  made : (p : Bytes) → IsWithin root p → DiskStep os root disk (os.makedirs p disk).1
  folder_removed : (p : Bytes) → IsWithin root p → DiskStep os root disk (os.rmdir p disk).1
  file_removed : (p : Bytes) → IsWithin root p → DiskStep os root disk (os.remove p disk).1
  renamed :
      (p q : Bytes)
      → IsWithin root p
      → IsWithin root q
      → DiskStep os root disk (os.rename p q disk).1
  temp_written : (content : Bytes) → DiskStep os root disk (os.write_temp content disk).1

-- The file that a transfer reads or writes lies in the root, or is a temporary one.
abbrev pub JobWithin : Bytes → Job → Type 0
JobWithin root (download_file path id) = IsWithin root path
JobWithin root (download_text temp_path id) = Unit
JobWithin root (download_buffer content id) = Unit
JobWithin root (receive_upload path id size file_hash is_append) = IsWithin root path

-- One reply, which is not 150; or 150 and a transfer; or an exception; or nothing.
pub data Allowed {Disk : Type 0} (os : Os Disk) (root : Bytes) (s : FtpSession) (disk : Disk)
    : Change Disk → Type 0 where
  answers :
      (after : FtpSession) (left : Disk) (reply : Reply)
      → Kept root s after
      → DiskStep os root disk left
      → (reply.code == 150) ≡ false
      → Allowed os root s disk (responded after left reply)
  starts :
      (left : Disk) (message : Bytes) (job : Job)
      → DiskStep os root disk left
      → JobWithin root job
      → Allowed os root s disk (start_transfer s left message job)
  raises : (left : Disk) → DiskStep os root disk left → Allowed os root s disk (raised s left)
  waits : Allowed os root s disk (silent s disk)

-- A path that was resolved lies in the root.
abbrev pub OptWithin : Bytes → Option Bytes → Type 0
OptWithin root none = Unit
OptWithin root (some path) = IsWithin root path

pub Kept-like :
    {root : Bytes} (s after : FtpSession)
    → Placed root s
    → after.root_dir ≡ s.root_dir
    → after.current_dir ≡ s.current_dir
    → after.rename_from_path ≡ s.rename_from_path
    → after.is_authenticated ≡ s.is_authenticated
    → after.transfer_active ≡ s.transfer_active
    → Kept root s after
Kept-like s after p e f g h i = record {
  placed = record { at_root = e ∙ p.at_root; current = rw f p.current; renaming = rw g p.renaming };
  same_login = h;
  same_transfer = i;
}

module _ {Disk : Type 0} (os : Os Disk) (root : Bytes) (s : FtpSession) (disk : Disk) where
  -- A reply that changes nothing.
  pub told :
      (reply : Reply)
      → Placed root s
      → (reply.code == 150) ≡ false
      → Allowed os root s disk (responded s disk reply)
  told reply p c = answers s disk reply (Kept-like s s p refl refl refl refl refl) untouched c

  pub if-Allowed :
      (b : Bool) {x y : Change Disk}
      → Allowed os root s disk x
      → Allowed os root s disk y
      → Allowed os root s disk (if b then x else y)
  if-Allowed true a b = a
  if-Allowed false a b = b

  pub with_path-Allowed :
      (o : Option Bytes) {x : Change Disk} {f : Bytes → Change Disk}
      → OptWithin root o
      → Allowed os root s disk x
      → ((path : Bytes) → IsWithin root path → Allowed os root s disk (f path))
      → Allowed os root s disk (with_path o x f)
  with_path-Allowed none within a g = a
  with_path-Allowed (some path) within a g = g path within

  pub safe_path-OptWithin :
      (arg : Bytes)
      → ((d : Disk) → (os.files d).realpath root ≡ some root)
      → Placed root s
      → OptWithin root (safe_path os s disk arg)
  unfolding safe_path
  safe_path-OptWithin arg stays p =
      from (Paths.resolve_safe_path (os.files disk) s.current_dir arg s.root_dir) refl
    where
      from :
          (o : Option Bytes)
          → Paths.resolve_safe_path (os.files disk) s.current_dir arg s.root_dir ≡ o
          → OptWithin root o
      from none e = tt
      from (some path) e =
          let (resolved, real_root, r, w) =
            (resolve_safe_path-IsWithin (os.files disk) s.current_dir arg s.root_dir path).0 e in
          let stayed : real_root ≡ root = cc (r, stays disk, p.at_root) in rw (sym stayed) w
