-- ===== src/Server/Commands/Transfers.antt =====
-- server/tcp_server.py, `handle_client_session`: the commands that start a transfer, LIST, NLST,
-- RETR, STOR, APPE and STOU, and those that end one, ABOR and QUIT.
use hybrid_ftp_system.Prelude.{
  ℕ, ◌==◌, Bool, true, false, not, ◌||◌, [], ◌∷◌, ◌++◌, Bytes, length, Option, none, some,
  if◌then◌else◌,
}
use hybrid_ftp_system.Prelude.Text.{codes, decimal, decimal_int, encode_utf8}
use hybrid_ftp_system.Protocol.FileHash.{Sha256, sha256_hex}
use hybrid_ftp_system.DataTransfer.Session.{
  FtpSession, DataMode, mode_none, mode_passive, mode_active, TransferType, type_ascii, type_binary,
  udp_abort_transfer,
}
use hybrid_ftp_system.DataTransfer.Upload.{crlf_to_lf}
use hybrid_ftp_system.Server.FileSystem.{
  Os, exists, is_directory, get_file_size, get_directory_listing, get_simple_listing,
  calculate_sha256, generate_unique_filename,
}
use hybrid_ftp_system.Server.Metadata.{parse_upload_metadata}
use hybrid_ftp_system.Server.Replies.{
  download_file, download_text, download_buffer, receive_upload, Request, Change, send_reply,
  answer, start_transfer, raised, silent, with_path,
}
use hybrid_ftp_system.Server.Commands.Folders.{safe_path}

-- `normalized.replace(b"\n", b"\r\n")`
unfoldable pub lf_to_crlf : Bytes → Bytes
lf_to_crlf [] = []
lf_to_crlf (c ∷ cs) =
    let converted = lf_to_crlf cs in if c == 10 then 13 ∷ 10 ∷ converted else c ∷ converted

-- The bytes that an ASCII download sends.
unfoldable pub network_text : Bytes → Bytes
network_text content = lf_to_crlf (crlf_to_lf content)

abbrev pub has_no_mode : DataMode → Bool
has_no_mode mode_none = true
has_no_mode mode_passive = false
has_no_mode mode_active = false

-- `TID=… SIZE=… SHA256=…`
unfoldable pub announcement : ℕ → Bytes → Bytes → Bytes
announcement transfer_id size file_hash =
    codes "TID=" ++ decimal transfer_id ++ codes " SIZE=" ++ size ++ codes " SHA256=" ++ file_hash

module _ {Disk : Type 0} (os : Os Disk) (sha : Sha256) (s : FtpSession) (disk : Disk)
    (request : Request) where
  abbrev pub no_data_mode : Change Disk
  no_data_mode = answer s disk 425 (codes "Use PASV or PORT first.")

  abbrev pub no_listing : Change Disk
  no_listing = answer s disk 550 (codes "Directory not found or access denied.")

  -- The reply 150 and the transfer of a listing; one that has no UTF-8 encoding raises.
  abbrev pub send_listing : Option Bytes → Change Disk
  send_listing none = raised s disk
  send_listing (some payload) =
      start_transfer s disk
        (announcement request.transfer_id (decimal (length payload)) (sha256_hex sha payload))
        (download_buffer payload request.transfer_id)

  -- LIST with details, and NLST without.
  unfoldable pub list : Bool → Bytes → Change Disk
  list detailed arg =
      if has_no_mode s.mode
      then no_data_mode
      else with_path (safe_path os s disk arg) no_listing (λ path.
        if not (is_directory os disk path)
        then no_listing
        else send_listing (
            encode_utf8 (
              if detailed
              then get_directory_listing os disk path
              else get_simple_listing os disk path)))

  -- Behind the write of the temporary file.
  abbrev pub send_text : Bytes → Option Bytes × Disk → Change Disk
  send_text network (none, left) = raised s left
  send_text network (some temp_path, left) =
      start_transfer s left
        (announcement request.transfer_id (decimal (length network)) (sha256_hex sha network))
        (download_text temp_path request.transfer_id)

  -- TYPE A: the converted content in a temporary file; that the file cannot be read, or no temporary
  -- file be written, raises.
  abbrev pub retrieve_text : Option Bytes → Change Disk
  retrieve_text none = raised s disk
  retrieve_text (some content) =
      send_text (network_text content) (os.write_temp (network_text content) disk)

  unfoldable pub retrieve : TransferType → Bytes → Change Disk
  retrieve type_ascii path = retrieve_text (os.read disk path)
  retrieve type_binary path =
      start_transfer s disk
        (announcement request.transfer_id (decimal_int (get_file_size os disk path))
          (calculate_sha256 os sha disk path))
        (download_file path request.transfer_id)

  unfoldable pub retr : Bytes → Change Disk
  retr arg =
      if has_no_mode s.mode
      then no_data_mode
      else with_path (safe_path os s disk arg)
          (answer s disk 550 (codes "Access denied. Path traversal blocked."))
          (λ path.
            if not (exists os disk path) || is_directory os disk path
            then answer s disk 550 (codes "File not found or is a directory.")
            else retrieve s.type path)

  -- The reply 150 and the transfer of an upload.
  abbrev pub begin_upload : Bool → ℕ → Bytes → Bytes → Bytes → Change Disk
  begin_upload is_append size file_hash extra path =
      start_transfer s disk (announcement request.transfer_id (decimal size) file_hash ++ extra)
        (receive_upload path request.transfer_id size file_hash is_append)

  abbrev pub no_metadata : Change Disk
  no_metadata = answer s disk 501 (codes "Upload requires SIZE and SHA256.")

  -- STOR and APPE.
  abbrev pub store_named : Bool → Option (Bytes × ℕ × Bytes) → Change Disk
  store_named is_append none = no_metadata
  store_named is_append (some (upload_name, size, file_hash)) =
      with_path (safe_path os s disk upload_name)
        (answer s disk 550 (codes "Access denied. Invalid target path."))
        (begin_upload is_append size file_hash [])

  unfoldable pub stor : Bool → Bytes → Change Disk
  stor is_append arg =
      if has_no_mode s.mode then no_data_mode else store_named is_append (parse_upload_metadata arg)

  -- Without a free name in the rounds given, the search goes on.
  abbrev pub store_under : ℕ → Bytes → Option Bytes → Change Disk
  store_under size file_hash none = silent s disk
  store_under size file_hash (some unique_name) =
      with_path (safe_path os s disk unique_name)
        (answer s disk 550 (codes "Access denied. Generated path is invalid."))
        (begin_upload false size file_hash (codes " FILE=" ++ unique_name))

  abbrev pub store_unique : Option (Bytes × ℕ × Bytes) → Change Disk
  store_unique none = no_metadata
  store_unique (some (upload_name, size, file_hash)) = store_under size file_hash (
      generate_unique_filename os request.rounds disk s.current_dir s.control_fd request.timestamp
        upload_name)

  unfoldable pub stou : Bytes → Change Disk
  stou arg = if has_no_mode s.mode then no_data_mode else store_unique (parse_upload_metadata arg)

module _ {Disk : Type 0} (s : FtpSession) (disk : Disk) where
  -- `udp_abort_transfer` where a transfer is active.
  unfoldable pub aborted : FtpSession
  aborted = if s.transfer_active then (udp_abort_transfer s).1 else s

  unfoldable pub abor : Change Disk
  abor =
      if s.transfer_active
      then answer aborted disk 426 (codes "Transfer aborted.")
      else answer s disk 225 (codes "No transfer in progress.")

  unfoldable pub quit : Change Disk
  quit = record {
    session = aborted;
    disk = disk;
    replies = send_reply 221 (codes "Goodbye.") ∷ [];
    job = none;
    is_open = false;
  }
