-- ===== src/DataTransfer/Upload.antt =====
-- common/data_transfer.py: `udp_receive_file`, the server's end of an upload. Of the disk, it is
-- about the partial file `<path>.upload.<id>` and the destination; what the calls of the operating
-- system behind the transfer answer is the environment's.
pub mod Stored
use hybrid_ftp_system.Prelude.{
  ℕ, ◌+◌, ◌==◌, Bool, true, false, not, ◌&&◌, ltb, map, same, List, [], ◌∷◌, ◌++◌, take, Bytes,
  Option, none, some, Result, ok, err, if◌then◌else◌,
}
use hybrid_ftp_system.Prelude.Text.{is_empty, lower}
use hybrid_ftp_system.Protocol.FileHash.{Sha256, sha256_hex}
use hybrid_ftp_system.Rdt.Config.{default_config}
use hybrid_ftp_system.Rdt.Context.{TransferContext, new_context, cancel}
use hybrid_ftp_system.Rdt.Port.{Fault}
use hybrid_ftp_system.Rdt.Receiver.{receive_file, content_of}
use hybrid_ftp_system.Rdt.Reception.{Receiver, Poll}
use hybrid_ftp_system.DataTransfer.Session.{
  FtpSession, TransferType, type_ascii, type_binary, end_transfer,
}
use hybrid_ftp_system.DataTransfer.Target.{
  SocketAnswers, SocketError, Target, server_socket_and_peer,
}

pub data TransferError : Type 0 where
  socket_error : SocketError → TransferError
  rdt_error : Fault → TransferError
  ascii_hash_mismatch disk_error : TransferError

-- `TransferResult`; a call that raises has none.
pub data TransferResult : Type 0 where
  success : ℕ → TransferResult
  failure : TransferError → TransferResult

-- A write goes through, or stops behind so many bytes.
pub data Write : Type 0 where
  written : Write
  stopped_at : ℕ → Write

-- `unlink` is that at the end of a branch, `cleanup` that of the `except`.
pub record DiskAnswers : Type 0 where
  pub mkdir : Bool
  pub write : Write
  pub replace : Bool
  pub unlink : Bool
  pub cleanup : Bool

pub record Disk : Type 0 where
  pub upload : Option Bytes
  pub destination : Option Bytes

abbrev pub starts_with_lf : Bytes → Bool
starts_with_lf [] = false
starts_with_lf (c ∷ cs) = c == 10

-- `data.replace(b"\r\n", b"\n")`: a CR before an LF goes.
unfoldable pub crlf_to_lf : Bytes → Bytes
crlf_to_lf [] = []
crlf_to_lf (c ∷ rest) =
    let converted = crlf_to_lf rest in
    if c == 13 && starts_with_lf rest then converted else c ∷ converted

-- `destination.open("ab")` and the write: what is there is kept.
unfoldable pub append_file : Write → Bytes → Disk → Result TransferError (Unit {0}) × Disk
append_file answer content disk = elim answer [
  | written ↦ (ok tt, record disk { destination = some (content_of disk.destination ++ content) })
  | stopped_at n ↦ (
    err disk_error,
    record disk { destination = some (content_of disk.destination ++ take n content) },
  )
]

-- `upload_path.unlink(…)` at the end of a branch.
unfoldable pub unlink_upload : Bool → Disk → Result TransferError (Unit {0}) × Disk
unlink_upload answer disk =
    if answer then (ok tt, record disk { upload = none }) else (err disk_error, disk)

abbrev pub and_then :
    Result TransferError (Unit {0}) × Disk
    → (Disk → Result TransferError (Unit {0}) × Disk)
    → Result TransferError (Unit {0}) × Disk
and_then (ok u, disk) f = f disk
and_then (err e, disk) f = (err e, disk)

-- The temporary file and its `replace`: the destination changes whole, or not at all.
unfoldable pub write_and_replace :
    DiskAnswers → Bytes → Disk → Result TransferError (Unit {0}) × Disk
write_and_replace answers content disk = elim answers.write [
  | stopped_at n ↦ (err disk_error, disk)
  | written ↦
      if answers.replace
      then (ok tt, record disk { destination = some content })
      else (err disk_error, disk)
]

module _ (sha : Sha256) where
  unfoldable pub store_ascii :
      DiskAnswers → Bytes → Bool → Disk → Result TransferError (Unit {0}) × Disk
  store_ascii answers expected_hash is_append disk =
      let content = content_of disk.upload in
      if not (is_empty expected_hash)
        && not (same (lower (sha256_hex sha content)) (lower expected_hash))
      then (err ascii_hash_mismatch, disk)
      else and_then
          (if is_append
            then append_file answers.write (crlf_to_lf content) disk
            else write_and_replace answers (crlf_to_lf content) disk)
          (unlink_upload answers.unlink)

  unfoldable pub store_binary : DiskAnswers → Bool → Disk → Result TransferError (Unit {0}) × Disk
  store_binary answers is_append disk =
      if is_append
      then and_then (append_file answers.write (content_of disk.upload) disk)
          (unlink_upload answers.unlink)
      else if answers.replace
      then (ok tt, record { upload = none; destination = disk.upload })
      else (err disk_error, disk)

  -- Behind the transfer, from `destination.parent.mkdir` on.
  unfoldable pub store :
      TransferType → DiskAnswers → Bytes → Bool → Disk → Result TransferError (Unit {0}) × Disk
  store type answers expected_hash is_append disk =
      if not answers.mkdir then (err disk_error, disk) else (elim type [
        | type_ascii ↦ store_ascii answers expected_hash is_append disk
        | type_binary ↦ store_binary answers is_append disk
      ])

-- What a transfer meets: the readings of the clock at its start and its end, what each `sendto`
-- answers, and the polls of the receiver.
pub record Run : Type 0 where
  pub started_at : ℕ
  pub finished_at : ℕ
  pub outcomes : List Bool
  pub polls : List Poll
  pub lingering : List Poll

-- `TransferContext(transfer_id, RDTConfig())`, and the abort that came before it.
abbrev pub open_context : ℕ → ℕ → FtpSession → TransferContext
open_context transfer_id now s =
    let context = new_context transfer_id default_config now in
    if s.abort_requested then cancel context else context

-- `StopAndWaitReceiver(sock, context, _fault_injector())`, with the partial file as destination.
abbrev pub open_receiver : ℕ → Run → FtpSession → Disk → Receiver
open_receiver transfer_id run s disk = record {
  port = record {
    context = open_context transfer_id run.started_at s;
    log = [];
    outcomes = run.outcomes;
  };
  peer = none;
  expected_seq = 0;
  received_bytes = 0;
  temp = none;
  destination = disk.upload;
}

-- `except Exception`: a failing `unlink` raises out of the call, and leaves the partial file.
abbrev pub upload_failed : Bool → TransferError → Disk → Option TransferResult × Disk
upload_failed cleanup e disk =
    if cleanup then (some (failure e), record disk { upload = none }) else (none, disk)

-- The result and the disk, behind the `except`.
abbrev pub conclude_upload :
    Bool → ℕ → Result TransferError (Unit {0}) × Disk → Option TransferResult × Disk
conclude_upload cleanup count (ok u, disk) = (some (success count), disk)
conclude_upload cleanup count (err e, disk) = upload_failed cleanup e disk

module _ (sha : Sha256) where
  -- What follows the transfer's `receive_file`.
  abbrev pub after_receive :
      TransferType
      → DiskAnswers
      → Bytes
      → Bool
      → Option Bytes
      → Result Fault Bytes × Receiver
      → Option TransferResult × Disk
  after_receive type answers expected_hash is_append destination (ok hash, r) =
      conclude_upload answers.cleanup r.port.context.statistics.bytes_transferred (
        store sha type answers expected_hash is_append
          (record { upload = r.destination; destination = destination }))
  after_receive type answers expected_hash is_append destination (err e, r) =
      upload_failed answers.cleanup (rdt_error e)
        (record { upload = r.destination; destination = destination })

  abbrev pub run_upload :
      ℕ
      → ℕ
      → Bytes
      → Bool
      → Run
      → DiskAnswers
      → FtpSession
      → Disk
      → Result SocketError Target
      → Option TransferResult × Disk
  run_upload transfer_id expected_size expected_hash is_append run answers s disk (err e) =
      upload_failed answers.cleanup (socket_error e) disk
  run_upload transfer_id expected_size expected_hash is_append run answers s disk (ok target) =
      after_receive s.type answers expected_hash is_append disk.destination (
        receive_file sha expected_size expected_hash run.polls run.lingering run.finished_at
          (open_receiver transfer_id run s disk))

  -- `udp_receive_file`
  unfoldable pub udp_receive_file :
      ℕ
      → ℕ
      → Bytes
      → Bool
      → SocketAnswers
      → Run
      → DiskAnswers
      → FtpSession
      → Disk
      → Option TransferResult × FtpSession × Disk
  udp_receive_file transfer_id expected_size expected_hash is_append sockets run answers s disk =
      let (result, left) =
        run_upload transfer_id expected_size expected_hash is_append run answers s disk
          (server_socket_and_peer false sockets s) in
      (result, end_transfer s, left)
