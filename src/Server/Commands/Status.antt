-- ===== src/Server/Commands/Status.antt =====
-- server/tcp_server.py, `handle_client_session`: STAT, SIZE, MDTM, HASH and HELP.
use hybrid_ftp_system.Prelude.{not, List, [], ◌∷◌, ◌++◌, Bytes, Option, none, some, if◌then◌else◌}
use hybrid_ftp_system.Prelude.Int.{ℤ, pos, negsuc}
use hybrid_ftp_system.Prelude.Text.{codes, is_empty, strip, upper, decimal, decimal_int}
use hybrid_ftp_system.Protocol.FileHash.{Sha256}
use hybrid_ftp_system.DataTransfer.Session.{
  FtpSession, DataMode, mode_none, mode_passive, mode_active,
}
use hybrid_ftp_system.Server.FileSystem.{
  Os, exists, is_directory, crlf, get_file_size, get_file_mtime, get_directory_listing,
  calculate_sha256,
}
use hybrid_ftp_system.Server.Metadata.{value_of}
use hybrid_ftp_system.Server.Replies.{
  Reply, Change, send_multiline_reply, answer, responded, with_path,
}
use hybrid_ftp_system.Server.Commands.Folders.{safe_path}

abbrev pub mode_text : DataMode → Bytes
mode_text mode_passive = codes "PASV"
mode_text mode_active = codes "ACTIVE"
mode_text mode_none = codes "ACTIVE"

-- `value or other`
abbrev pub or_else : Bytes → Bytes → Bytes
or_else [] other = other
or_else (c ∷ cs) other = c ∷ cs

unfoldable pub server_status : FtpSession → Reply
server_status s = record {
  code = 211;
  text =
      codes "211-Server status: Connected\r\nMode: "
      ++ mode_text s.mode
      ++ codes "\r\nUser: "
      ++ or_else s.username (codes "-")
      ++ codes "\r\n211 End of status.\r\n";
}

-- The status of a path: what stands between its first and its last line.
unfoldable pub path_status : Bytes → Reply
path_status body = record {
  code = 213;
  text = codes "213-Status follows:\r\n" ++ body ++ codes "213 End of status.\r\n";
}

unfoldable pub file_status : ℤ → Bytes → Bytes → Bytes
file_status size mtime sha =
    codes "Size: "
    ++ decimal_int size
    ++ codes "\r\nModify: "
    ++ or_else mtime (codes "unknown")
    ++ codes "\r\nSHA-256: "
    ++ or_else sha (codes "unknown")
    ++ crlf

-- The texts of HELP.
unfoldable pub details : List (Bytes × Bytes)
details =
    (codes "USER", codes "USER <username> - specify username for login.")
    ∷ (codes "PASS", codes "PASS <password> - provide password to authenticate.")
    ∷ (codes "PWD", codes "PWD - print working directory.")
    ∷ (codes "CWD", codes "CWD <dir> - change working directory.")
    ∷ (codes "CDUP", codes "CDUP - change to parent directory.")
    ∷ (codes "MKD", codes "MKD <dir> - create a new directory.")
    ∷ (codes "RMD", codes "RMD <dir> - remove a directory.")
    ∷ (codes "LIST", codes "LIST [dir] - list directory with details (uses data connection).")
    ∷ (codes "NLST", codes "NLST [dir] - list names only (uses data connection).")
    ∷ (codes "STAT", codes "STAT [path] - server status or file/dir metadata.")
    ∷ (codes "SIZE", codes "SIZE <file> - return size of the file in bytes.")
    ∷ (codes "MDTM", codes "MDTM <file> - return modification time (YYYYMMDDhhmmss).")
    ∷ (codes "TYPE", codes "TYPE A|I - set transfer type (ASCII or Binary).")
    ∷ (codes "MODE", codes "MODE S - set transfer mode (Stream supported).")
    ∷ (codes "PORT", codes "PORT h1,h2,h3,h4,p1,p2 - set active data target.")
    ∷ (codes "PASV", codes "PASV - enter passive data mode and return UDP port.")
    ∷ (codes "RETR", codes "RETR <file> - download a file through UDP RDT.")
    ∷ (codes "STOR", codes "STOR <file> SIZE=<n> SHA256=<hash> - upload a file through UDP RDT.")
    ∷ (
      codes "STOU",
      codes "STOU SIZE=<n> SHA256=<hash> - store with unique filename; server returns FILE=<name>.",
    )
    ∷ (codes "APPE", codes "APPE <file> SIZE=<n> SHA256=<hash> - append to existing file.")
    ∷ (codes "DELE", codes "DELE <file> - delete a file.")
    ∷ (codes "RNFR", codes "RNFR <from> - rename from (prepare).")
    ∷ (codes "RNTO", codes "RNTO <to> - rename to (complete rename).")
    ∷ (codes "HASH", codes "HASH <file> - compute SHA-256 of a file.")
    ∷ (codes "ABOR", codes "ABOR - abort active transfer.")
    ∷ (codes "NOOP", codes "NOOP - no operation (keepalive).")
    ∷ (codes "QUIT", codes "QUIT - close the connection.")
    ∷ (codes "HELP", codes "HELP [command] - show help information.")
    ∷ []

unfoldable pub help_summary : Reply
help_summary = send_multiline_reply 214 (codes "Supported commands") (
    codes "USER PASS QUIT NOOP HELP"
    ∷ codes "PWD CWD CDUP MKD RMD"
    ∷ codes "LIST NLST STAT SIZE MDTM HASH"
    ∷ codes "TYPE MODE PORT PASV"
    ∷ codes "RETR STOR STOU APPE DELE"
    ∷ codes "RNFR RNTO ABOR"
    ∷ [])

-- An empty key is in no detail.
abbrev pub help_reply : {Disk : Type 0} → FtpSession → Disk → Option Bytes → Change Disk
help_reply s disk none = responded s disk help_summary
help_reply s disk (some text) = answer s disk 214 text

unfoldable pub help : {Disk : Type 0} → FtpSession → Disk → Bytes → Change Disk
help s disk arg = help_reply s disk (value_of (upper (strip arg)) details)

module _ {Disk : Type 0} (os : Os Disk) (sha : Sha256) (s : FtpSession) (disk : Disk) where
  abbrev pub no_path : Change Disk
  no_path = answer s disk 550 (codes "File or directory not found.")

  -- Behind the test of the login, which the session makes before.
  unfoldable pub stat : Bytes → Change Disk
  stat arg =
      if is_empty arg
      then responded s disk (server_status s)
      else with_path (safe_path os s disk arg) no_path (λ path.
        if not (exists os disk path)
        then no_path
        else if is_directory os disk path
        then responded s disk (path_status (get_directory_listing os disk path))
        else responded s disk (
            path_status (
              file_status (get_file_size os disk path) (get_file_mtime os disk path)
                (calculate_sha256 os sha disk path))))

  abbrev pub no_size : Change Disk
  no_size = answer s disk 550 (codes "Could not get file size.")

  abbrev pub size_reply : ℤ → Change Disk
  size_reply (pos n) = answer s disk 213 (decimal n)
  size_reply (negsuc n) = no_size

  unfoldable pub size : Bytes → Change Disk
  size arg = with_path (safe_path os s disk arg) no_size (λ path.
      if is_directory os disk path then no_size else size_reply (get_file_size os disk path))

  unfoldable pub mdtm : Bytes → Change Disk
  mdtm arg =
      with_path (safe_path os s disk arg)
        (answer s disk 550 (codes "Could not get file modification time."))
        (λ path.
          let mtime = get_file_mtime os disk path in
          if is_empty mtime
          then answer s disk 550 (codes "Could not get modification time.")
          else answer s disk 213 mtime)

  abbrev pub no_file : Change Disk
  no_file = answer s disk 550 (codes "File not found or is a directory.")

  unfoldable pub hash : Bytes → Change Disk
  hash arg = with_path (safe_path os s disk arg) no_file (λ path.
      let file_hash = calculate_sha256 os sha disk path in
      if is_directory os disk path
      then no_file
      else if is_empty file_hash
      then answer s disk 550 (codes "Failed to calculate hash.")
      else answer s disk 200 (codes "SHA-256 " ++ file_hash))
