-- ===== src/DataTransfer/Upload/Stored.antt =====
-- What an upload leaves on the disk and in the session.
use hybrid_ftp_system.Prelude.{
  ℕ, ◌≡◌, refl, sym, ap, ◌∙◌, arith, inl, inr, Bool, true, false, Result-cases, ◌++◌, Bytes, Option,
  none, some, Result, ok, err,
}
use hybrid_ftp_system.Protocol.FileHash.{Sha256}
use hybrid_ftp_system.Rdt.Port.{Fault}
use hybrid_ftp_system.Rdt.Receiver.{receive_file, content_of}
use hybrid_ftp_system.Rdt.Reception.{Receiver}
use hybrid_ftp_system.Rdt.Receiver.Files.{IsVerified, receive_file-ok}
use hybrid_ftp_system.DataTransfer.Session.{
  FtpSession, mode_none, TransferType, type_ascii, type_binary,
}
use hybrid_ftp_system.DataTransfer.Target.{SocketAnswers, server_socket_and_peer}
use hybrid_ftp_system.DataTransfer.Upload.{
  TransferError, TransferResult, success, failure, DiskAnswers, Disk, Run, crlf_to_lf, append_file,
  unlink_upload, write_and_replace, store_ascii, store_binary, store, open_receiver, after_receive,
  udp_receive_file, conclude_upload, upload_failed, rdt_error, socket_error,
}

-- The stored form of a content that came in, and what is put behind what was there.
abbrev pub stored_form : TransferType → Bytes → Bytes
stored_form type_ascii content = crlf_to_lf content
stored_form type_binary content = content

abbrev pub stored_file : TransferType → Bool → Option Bytes → Bytes → Bytes
stored_file type true before content = content_of before ++ stored_form type content
stored_file type false before content = stored_form type content

module _ (sha : Sha256) (answers : DiskAnswers) (expected_hash : Bytes) (is_append : Bool) where
  store-ok :
      (type : TransferType) (content : Bytes) (disk : Disk)
      → disk.upload ≡ some content
      → (store sha type answers expected_hash is_append disk).0 ≡ ok tt
      → ((store sha type answers expected_hash is_append disk).1.upload ≡ none)
        × ((store sha type answers expected_hash is_append disk).1.destination
            ≡ some (stored_file type is_append disk.destination content))
  unfolding store store_ascii store_binary append_file write_and_replace unlink_upload
  store-ok type_ascii content disk e h = ground arith
  store-ok type_binary content disk e h = ground arith

  -- Without an append, a store that fails has kept the destination, where `unlink` goes through.
  store-err :
      (type : TransferType) (disk : Disk) (e : TransferError)
      → is_append ≡ false
      → answers.unlink ≡ true
      → (store sha type answers expected_hash is_append disk).0 ≡ err e
      → (store sha type answers expected_hash is_append disk).1.destination ≡ disk.destination
  unfolding store store_ascii store_binary append_file write_and_replace unlink_upload
  store-err type_ascii disk e a u h = ground arith
  store-err type_binary disk e a u h = ground arith

upload_failed-gone :
    (b : Bool) (e : TransferError) (disk : Disk) {result : TransferResult}
    → (upload_failed b e disk).0 ≡ some result
    → (upload_failed b e disk).1.upload ≡ none
upload_failed-gone true e disk h = refl
upload_failed-gone false e disk h = cc

upload_failed-destination :
    (b : Bool) (e : TransferError) (disk : Disk)
    → (upload_failed b e disk).1.destination ≡ disk.destination
upload_failed-destination true e disk = refl
upload_failed-destination false e disk = refl

no_success :
    (b : Bool) (e : TransferError) (disk : Disk) {n : ℕ}
    → (upload_failed b e disk).0 ≡ some (success n)
    → ⊥
no_success true e disk h = ground (arith, h)
no_success false e disk h = cc

conclude_upload-gone :
    (b : Bool) (n : ℕ) (r : Result TransferError (Unit {0}) × Disk) {result : TransferResult}
    → (conclude_upload b n r).0 ≡ some result
    → (r.0 ≡ ok tt → r.1.upload ≡ none)
    → (conclude_upload b n r).1.upload ≡ none
conclude_upload-gone b n (ok u, disk) e h = h refl
conclude_upload-gone b n (err why, disk) e h = upload_failed-gone b why disk e

conclude_upload-success :
    (b : Bool) (n : ℕ) (r : Result TransferError (Unit {0}) × Disk) {m : ℕ}
    → (conclude_upload b n r).0 ≡ some (success m)
    → (r.0 ≡ ok tt) × ((conclude_upload b n r).1 ≡ r.1)
conclude_upload-success b n (ok u, disk) h = (refl, refl)
conclude_upload-success b n (err e, disk) h = absurd (no_success b e disk h)

conclude_upload-failure :
    (b : Bool) (n : ℕ) (r : Result TransferError (Unit {0}) × Disk) {e : TransferError}
    → (conclude_upload b n r).0 ≡ some (failure e)
    → (r.0 ≡ err e) × ((conclude_upload b n r).1.destination ≡ r.1.destination)
conclude_upload-failure b n (ok u, disk) h = absurd (ground (arith, h))
conclude_upload-failure true n (err e, disk) h = (ground (arith, h), refl)
conclude_upload-failure false n (err e, disk) h = cc

module _ (sha : Sha256) (transfer_id size : ℕ) (expected_hash : Bytes) (is_append : Bool)
    (sockets : SocketAnswers) (run : Run) (answers : DiskAnswers) (s : FtpSession)
    (disk : Disk) where
  abbrev uploaded : Option TransferResult × FtpSession × Disk
  uploaded =
      udp_receive_file sha transfer_id size expected_hash is_append sockets run answers s disk

  abbrev received : Result Fault Bytes × Receiver
  received =
      receive_file sha size expected_hash run.polls run.lingering run.finished_at
        (open_receiver transfer_id run s disk)

  abbrev kept : Receiver → Disk
  kept r = record { upload = r.destination; destination = disk.destination }

  -- The file that a successful upload has received and stored.
  pub record StoredFile (left : Disk) : Type 0 where
    pub content : Bytes
    pub verified : IsVerified sha size expected_hash (some content)
    pub stored : left.destination ≡ some (stored_file s.type is_append disk.destination content)

  received-StoredFile :
      (r : Result Fault Bytes × Receiver) {n : ℕ}
      → received ≡ r
      → (after_receive sha s.type answers expected_hash is_append disk.destination r).0
        ≡ some (success n)
      → StoredFile (after_receive sha s.type answers expected_hash is_append disk.destination r).1
  received-StoredFile (err e, r) f h = absurd (no_success answers.cleanup (rdt_error e) _ h)
  received-StoredFile (ok hash, r) f h =
      let (ended, same_disk) =
        conclude_upload-success answers.cleanup _
          (store sha s.type answers expected_hash is_append (kept r)) h in
      let (verified, _, _, _) =
        receive_file-ok sha size expected_hash run.polls run.lingering run.finished_at
          (open_receiver transfer_id run s disk) {h = hash} (ap (λ r. r.0) f) in
      let (is_there, _, _) = verified in
      let here : received.1.destination ≡ r.destination = ap (λ r. r.1.destination) f in
      let content = content_of received.1.destination in
      record {
        content = content;
        verified = (refl, verified.1, verified.2);
        stored =
            ap (λ d. d.destination) same_disk
            ∙ (store-ok sha answers expected_hash is_append s.type content (kept r)
                (sym here ∙ is_there) ended).1;
      }

  received-gone :
      (r : Result Fault Bytes × Receiver) {result : TransferResult}
      → received ≡ r
      → (after_receive sha s.type answers expected_hash is_append disk.destination r).0
        ≡ some result
      → (after_receive sha s.type answers expected_hash is_append disk.destination r).1.upload
        ≡ none
  received-gone (err e, r) f h = upload_failed-gone answers.cleanup (rdt_error e) _ h
  received-gone (ok hash, r) f came =
      let (verified, _, _, _) =
        receive_file-ok sha size expected_hash run.polls run.lingering run.finished_at
          (open_receiver transfer_id run s disk) {h = hash} (ap (λ r. r.0) f) in
      let here : received.1.destination ≡ r.destination = ap (λ r. r.1.destination) f in
      conclude_upload-gone answers.cleanup _
        (store sha s.type answers expected_hash is_append (kept r)) came
        (λ h.
          (store-ok sha answers expected_hash is_append s.type (content_of received.1.destination)
            (kept r) (sym here ∙ verified.0) h).0)

  received-failure :
      (r : Result Fault Bytes × Receiver) {e : TransferError}
      → is_append ≡ false
      → answers.unlink ≡ true
      → (after_receive sha s.type answers expected_hash is_append disk.destination r).0
        ≡ some (failure e)
      → (after_receive sha s.type answers expected_hash is_append disk.destination r).1.destination
        ≡ disk.destination
  received-failure (err e, r) a u h = upload_failed-destination answers.cleanup (rdt_error e) _
  received-failure (ok hash, r) a u h =
      let (failed, place) =
        conclude_upload-failure answers.cleanup _
          (store sha s.type answers expected_hash is_append (kept r)) h in
      place ∙ store-err sha answers expected_hash is_append s.type (kept r) _ a u failed

  -- When the call of an upload returns, whatever its result, the partial file is gone, and the session
  -- has no transfer, no data socket and no data mode.
  pub udp_receive_file-clean :
      {result : TransferResult}
      → uploaded.0 ≡ some result
      → (uploaded.2.upload ≡ none)
        × (uploaded.1.transfer_context ≡ none)
        × (uploaded.1.pasv_udp_sock ≡ none)
        × (uploaded.1.mode ≡ mode_none)
  unfolding udp_receive_file
  udp_receive_file-clean h = (
    elim (Result-cases (server_socket_and_peer false sockets s)) [
      | inl (target, e) ↦ rw e (received-gone received refl (rw e at h))
      | inr (why, e) ↦ rw e (upload_failed-gone answers.cleanup (socket_error why) disk (rw e at h))
    ],
    refl,
    refl,
    refl,
  )

  -- An upload that succeeds has stored a content of the announced size and SHA-256: with its line
  -- ends converted in ASCII mode and as it came in binary mode; behind what the file held when it
  -- appends, and in its place when it does not.
  pub udp_receive_file-success : {n : ℕ} → uploaded.0 ≡ some (success n) → StoredFile uploaded.2
  unfolding udp_receive_file
  udp_receive_file-success h = elim (Result-cases (server_socket_and_peer false sockets s)) [
    | inl (target, e) ↦ rw e (received-StoredFile received refl (rw e at h))
    | inr (why, e) ↦ absurd (no_success answers.cleanup (socket_error why) disk (rw e at h))
  ]

  -- An upload that fails has not changed the destination, when it does not append and its `unlink`
  -- goes through.
  pub udp_receive_file-failure :
      {e : TransferError}
      → is_append ≡ false
      → answers.unlink ≡ true
      → uploaded.0 ≡ some (failure e)
      → uploaded.2.destination ≡ disk.destination
  unfolding udp_receive_file
  udp_receive_file-failure a u h = elim (Result-cases (server_socket_and_peer false sockets s)) [
    | inl (target, e) ↦ rw e (received-failure received a u (rw e at h))
    | inr (why, e) ↦ rw e (upload_failed-destination answers.cleanup (socket_error why) disk)
  ]
