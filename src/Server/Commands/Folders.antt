-- ===== src/Server/Commands/Folders.antt =====
-- server/tcp_server.py, `handle_client_session`: the commands on folders and names, PWD, CWD, CDUP,
-- MKD, RMD, DELE, RNFR and RNTO.
use hybrid_ftp_system.Prelude.{ℕ, Bool, not, ◌++◌, Bytes, [], Option, same, if◌then◌else◌}
use hybrid_ftp_system.Prelude.Text.{codes, is_empty}
use hybrid_ftp_system.DataTransfer.Session.{FtpSession}
use hybrid_ftp_system.Server.Paths.{get_ftp_path, resolve_safe_path}
use hybrid_ftp_system.Server.FileSystem.{
  Os, exists, is_directory, create_directory, remove_directory, remove_file, rename_path,
}
use hybrid_ftp_system.Server.Replies.{Change, answer, with_path}

-- The reply to a call that went through or raised, on the disk that it left.
abbrev pub tried : {Disk : Type 0} → FtpSession → Bool × Disk → ℕ → Bytes → ℕ → Bytes → Change Disk
tried s (done, left) code message failed_code failed =
    if done then answer s left code message else answer s left failed_code failed

module _ {Disk : Type 0} (os : Os Disk) (s : FtpSession) (disk : Disk) where
  -- `resolve_safe_path(session.current_dir, arg, session.root_dir)`
  unfoldable pub safe_path : Bytes → Option Bytes
  safe_path arg = resolve_safe_path (os.files disk) s.current_dir arg s.root_dir

  -- A path as the client is shown it.
  abbrev pub shown : Bytes → Bytes
  shown path = get_ftp_path path s.root_dir

  unfoldable pub pwd : Change Disk
  pwd =
      answer s disk 257 (codes "\"" ++ shown s.current_dir ++ codes "\" is the current directory.")

  abbrev pub moved_to : Bytes → Change Disk
  moved_to path =
      answer (record s { current_dir = path }) disk 250
        (codes "Directory successfully changed to " ++ shown path)

  abbrev pub not_moved : Change Disk
  not_moved =
      answer s disk 550 (codes "Failed to change directory. Invalid path or not a directory.")

  unfoldable pub cwd : Bytes → Change Disk
  cwd arg =
      with_path (safe_path arg) not_moved
        (λ path. if is_directory os disk path then moved_to path else not_moved)

  abbrev pub moved_to_root : Change Disk
  moved_to_root =
      answer (record s { current_dir = s.root_dir }) disk 250
        (codes "Directory successfully changed to /")

  unfoldable pub cdup : Change Disk
  cdup =
      with_path (safe_path (codes "..")) moved_to_root
        (λ path. if is_directory os disk path then moved_to path else moved_to_root)

  unfoldable pub mkd : Bytes → Change Disk
  mkd arg =
      if is_empty arg
      then answer s disk 501 (codes "Syntax error in parameters.")
      else with_path (safe_path arg)
          (answer s disk 550 (codes "Create directory operation failed. Path traversal denied."))
          (λ path.
            if exists os disk path
            then answer s disk 550 (codes "Create directory failed. Path already exists.")
            else tried s (create_directory os path disk) 257
                (codes "\"" ++ shown path ++ codes "\" created.") 550
                (codes "Create directory failed."))

  abbrev pub not_a_folder : Change Disk
  not_a_folder =
      answer s disk 550
        (codes "Remove directory failed. Directory does not exist or access denied.")

  unfoldable pub rmd : Bytes → Change Disk
  rmd arg = with_path (safe_path arg) not_a_folder (λ path.
      if not (is_directory os disk path)
      then not_a_folder
      else if same path s.root_dir
      then answer s disk 550 (codes "Cannot remove root directory.")
      else tried s (remove_directory os path disk) 250 (codes "Directory removed.") 550
          (codes "Remove directory failed. Directory might not be empty."))

  abbrev pub not_a_file : Change Disk
  not_a_file = answer s disk 550 (codes "File not found or is a directory.")

  unfoldable pub dele : Bytes → Change Disk
  dele arg = with_path (safe_path arg) not_a_file (λ path.
      if is_directory os disk path
      then not_a_file
      else tried s (remove_file os path disk) 250 (codes "File deleted successfully.") 550
          (codes "Delete file failed."))

  abbrev pub nothing_there : Change Disk
  nothing_there = answer s disk 550 (codes "File or directory does not exist.")

  unfoldable pub rnfr : Bytes → Change Disk
  rnfr arg = with_path (safe_path arg) nothing_there (λ path.
      if not (exists os disk path)
      then nothing_there
      else answer (record s { rename_from_path = path }) disk 350
          (codes "Requested file action pending further information."))

  unfoldable pub rnto : Bytes → Change Disk
  rnto arg =
      let cleared = record s { rename_from_path = [] } in
      if is_empty s.rename_from_path
      then answer s disk 503 (codes "Bad sequence of commands. Send RNFR first.")
      else with_path (safe_path arg) (answer cleared disk 550 (codes "Invalid target path."))
          (λ path.
            tried cleared (rename_path os s.rename_from_path path disk) 250
              (codes "File renamed successfully.") 550 (codes "Rename failed."))
