-- ===== src/Server/Commands/Starting.antt =====
-- The commands that may start a transfer.
use hybrid_ftp_system.Prelude.{
  ℕ, ◌≡◌, refl, Bool, not, ◌||◌, Bytes, Option, none, some, if◌then◌else◌,
}
use hybrid_ftp_system.Prelude.Text.{encode_utf8}
use hybrid_ftp_system.Protocol.FileHash.{Sha256}
use hybrid_ftp_system.DataTransfer.Session.{FtpSession, TransferType, type_ascii, type_binary}
use hybrid_ftp_system.Server.Paths.Inside.{IsWithin}
use hybrid_ftp_system.Server.FileSystem.{
  Os, exists, get_directory_listing, get_simple_listing, generate_unique_filename,
}
use hybrid_ftp_system.Server.Metadata.{parse_upload_metadata}
use hybrid_ftp_system.Server.Replies.{Request}
use hybrid_ftp_system.Server.Commands.Transfers.{
  has_no_mode, list, send_listing, send_text, network_text, retrieve_text, retrieve, retr,
  store_named, store_under, store_unique, stor, stou,
}
use hybrid_ftp_system.Server.Commands.Allowed.{
  Placed, Allowed, DiskStep, untouched, temp_written, starts, raises, waits, told, if-Allowed,
}
use hybrid_ftp_system.Server.Commands.Changing.{resolved-Allowed}

module _ {Disk : Type 0} (os : Os Disk) (sha : Sha256) (root : Bytes) (s : FtpSession) (disk : Disk)
    (request : Request) (p : Placed root s)
    (stays : (d : Disk) → (os.files d).realpath root ≡ some root) where
  send_listing-Allowed :
      (payload : Option Bytes) → Allowed os root s disk (send_listing os sha s disk request payload)
  send_listing-Allowed none = raises _ untouched
  send_listing-Allowed (some payload) = starts _ _ _ untouched tt

  pub list-Allowed :
      (detailed : Bool) (arg : Bytes)
      → Allowed os root s disk (list os sha s disk request detailed arg)
  unfolding list
  list-Allowed detailed arg =
      if-Allowed os root s disk (has_no_mode s.mode) (told os root s disk _ p refl) (
        resolved-Allowed os root s disk p stays arg (told os root s disk _ p refl) (λ path w.
          if-Allowed os root s disk (not (os.isdir disk path)) (told os root s disk _ p refl) (
            send_listing-Allowed (
              encode_utf8 (
                if detailed
                then get_directory_listing os disk path
                else get_simple_listing os disk path)))))

  send_text-Allowed :
      (network : Bytes) (temp_path : Option Bytes) (left : Disk)
      → DiskStep os root disk left
      → Allowed os root s disk (send_text os sha s disk request network (temp_path, left))
  send_text-Allowed network none left d = raises left d
  send_text-Allowed network (some temp_path) left d = starts left _ _ d tt

  retrieve_text-Allowed :
      (content : Option Bytes)
      → Allowed os root s disk (retrieve_text os sha s disk request content)
  retrieve_text-Allowed none = raises _ untouched
  retrieve_text-Allowed (some content) =
      send_text-Allowed (network_text content) (os.write_temp (network_text content) disk).0
        (os.write_temp (network_text content) disk).1 (temp_written (network_text content))

  retrieve-Allowed :
      (t : TransferType) (path : Bytes)
      → IsWithin root path
      → Allowed os root s disk (retrieve os sha s disk request t path)
  unfolding retrieve
  retrieve-Allowed type_ascii path w = retrieve_text-Allowed (os.read disk path)
  retrieve-Allowed type_binary path w = starts _ _ _ untouched w

  pub retr-Allowed : (arg : Bytes) → Allowed os root s disk (retr os sha s disk request arg)
  unfolding retr
  retr-Allowed arg = if-Allowed os root s disk (has_no_mode s.mode) (told os root s disk _ p refl) (
      resolved-Allowed os root s disk p stays arg (told os root s disk _ p refl) (λ path w.
        if-Allowed os root s disk (not (exists os disk path) || os.isdir disk path)
          (told os root s disk _ p refl) (retrieve-Allowed s.type path w)))

  store_named-Allowed :
      (is_append : Bool) (metadata : Option (Bytes × ℕ × Bytes))
      → Allowed os root s disk (store_named os sha s disk request is_append metadata)
  store_named-Allowed is_append none = told os root s disk _ p refl
  store_named-Allowed is_append (some (upload_name, size, file_hash)) =
      resolved-Allowed os root s disk p stays upload_name (told os root s disk _ p refl)
        (λ path w. starts _ _ _ untouched w)

  pub stor-Allowed :
      (is_append : Bool) (arg : Bytes)
      → Allowed os root s disk (stor os sha s disk request is_append arg)
  unfolding stor
  stor-Allowed is_append arg =
      if-Allowed os root s disk (has_no_mode s.mode) (told os root s disk _ p refl)
        (store_named-Allowed is_append (parse_upload_metadata arg))

  store_under-Allowed :
      (size : ℕ) (file_hash : Bytes) (name : Option Bytes)
      → Allowed os root s disk (store_under os sha s disk request size file_hash name)
  store_under-Allowed size file_hash none = waits
  store_under-Allowed size file_hash (some unique_name) =
      resolved-Allowed os root s disk p stays unique_name (told os root s disk _ p refl)
        (λ path w. starts _ _ _ untouched w)

  store_unique-Allowed :
      (metadata : Option (Bytes × ℕ × Bytes))
      → Allowed os root s disk (store_unique os sha s disk request metadata)
  store_unique-Allowed none = told os root s disk _ p refl
  store_unique-Allowed (some (upload_name, size, file_hash)) = store_under-Allowed size file_hash (
      generate_unique_filename os request.rounds disk s.current_dir s.control_fd request.timestamp
        upload_name)

  pub stou-Allowed : (arg : Bytes) → Allowed os root s disk (stou os sha s disk request arg)
  unfolding stou
  stou-Allowed arg =
      if-Allowed os root s disk (has_no_mode s.mode) (told os root s disk _ p refl)
        (store_unique-Allowed (parse_upload_metadata arg))
