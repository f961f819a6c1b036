-- ===== src/Client/Exchange.antt =====
-- Client and server together: the exchange that starts an upload.
use hybrid_ftp_system.Prelude.{
  ℕ, ◌≡◌, refl, ap, ◌∙◌, arith, Bool, true, false, not, ◌&&◌, [], ◌∷◌, append-nil, length, Bytes,
  some, if◌then◌else◌,
}
use hybrid_ftp_system.Prelude.Int.{pos}
use hybrid_ftp_system.Prelude.Text.{
  codes, is_empty, is_space, upper, to_upper, lower, contains, decimal,
}
use hybrid_ftp_system.Prelude.Decimal.{IsWord}
use hybrid_ftp_system.Protocol.FileHash.{Sha256}
use hybrid_ftp_system.DataTransfer.Session.{FtpSession}
use hybrid_ftp_system.Server.FileSystem.{Os}
use hybrid_ftp_system.Server.Replies.{
  Request, receive_upload, send_reply, answer, start_transfer, with_path,
}
use hybrid_ftp_system.Server.Commands.Folders.{safe_path}
use hybrid_ftp_system.Server.Commands.Transfers.{
  announcement, has_no_mode, store_named, begin_upload, stor,
}
use hybrid_ftp_system.Server.Session.{
  cmd_stor, command_in, commands, parse_request, may_interrupt, member_command, run_command,
  handle_command,
}
use hybrid_ftp_system.Client.Responses.{parse_transfer_metadata}
use hybrid_ftp_system.Client.Responses.Metadata.{parse_transfer_metadata-announcement}
use hybrid_ftp_system.Client.Control.{upload_command}
use hybrid_ftp_system.Client.Control.Upload.{upload_argument, parsed, read_back}

if_false {ℓ} : {A : Type ℓ} (b : Bool) (x y : A) → b ≡ false → (if b then x else y) ≡ y
if_false true x y e = cc
if_false false x y e = refl

is_empty-sized : (w : Bytes) → length w ≡ 64 → is_empty w ≡ false
is_empty-sized [] e = absurd (omega (arith, e))
is_empty-sized (c ∷ cs) e = refl

stor_word : IsWord (codes "STOR")
unfolding codes is_space
stor_word = (refl, (refl, (refl, (refl, tt))))

stor_name : command_in (upper (codes "STOR")) commands ≡ cmd_stor
unfolding codes upper to_upper commands
stor_name = refl

module _ {Disk : Type 0} (os : Os Disk) (sha : Sha256) (s : FtpSession) (disk : Disk)
    (request : Request) (name : Bytes) (size : ℕ) (file_hash path : Bytes) (name_word : IsWord name)
    (named : is_empty name ≡ false) (hash_word : IsWord file_hash) where
  -- The client sends STOR for a file whose name is a word without "=", with its size and a hash of 64
  -- characters that are no capitals and no white space, to a session that is logged in, has a data
  -- mode and runs no transfer, and whose path for the name is in the root. Then the server answers 150
  -- with the metadata and starts the upload of that path with the size and the hash that the client has
  -- sent, and the client reads from the answer the transfer's id, the size and the hash.
  pub upload_exchange :
      contains b'=' name ≡ false
      → length file_hash ≡ 64
      → lower file_hash ≡ file_hash
      → s.is_authenticated ≡ true
      → s.transfer_active ≡ false
      → has_no_mode s.mode ≡ false
      → safe_path os s disk name ≡ some path
      → (handle_command os sha s disk request
            (parse_request (upload_command (codes "STOR") name size file_hash))
          ≡ start_transfer s disk
              (announcement request.transfer_id (decimal size) file_hash)
              (receive_upload path request.transfer_id size file_hash false))
        × (parse_transfer_metadata
              (send_reply 150 (announcement request.transfer_id (decimal size) file_hash)).text
            ≡ some (pos request.transfer_id, pos size, file_hash))
  unfolding handle_command run_command member_command stor
  upload_exchange plain sized lowered member idle with_mode inside = (
    ap (handle_command os sha s disk request) (
          parsed name size file_hash name_word named hash_word (codes "STOR") stor_word
          ∙ ap (λ c. (c, upload_argument name size file_hash name_word named hash_word)) stor_name)
        ∙ if_false (s.transfer_active && not (may_interrupt cmd_stor)) _ _ (ground (arith, idle))
        ∙ if_false (not s.is_authenticated) _ _ (ground (arith, member))
        ∙ if_false (has_no_mode s.mode) _ _ with_mode
        ∙ ap (store_named os sha s disk request false)
            (read_back name size file_hash name_word named hash_word plain sized lowered)
        ∙ ap
            (λ o.
              with_path o (answer s disk 550 (codes "Access denied. Invalid target path."))
                (begin_upload os sha s disk request false size file_hash []))
            inside
        ∙ ap
            (λ t.
              start_transfer s disk t
                (receive_upload path request.transfer_id size file_hash false))
            (append-nil (announcement request.transfer_id (decimal size) file_hash)),
    parse_transfer_metadata-announcement request.transfer_id size file_hash hash_word
        (is_empty-sized file_hash sized),
  )
