-- ===== src/DataTransfer/Download.antt =====
-- common/data_transfer.py: `udp_send_file` and `udp_send_buffer`, the server's end of a download.
use hybrid_ftp_system.Prelude.{ℕ, Bool, true, List, [], Bytes, Option, none, some, Result, ok, err}
use hybrid_ftp_system.Protocol.FileHash.{Sha256}
use hybrid_ftp_system.Rdt.Port.{Address, Fault}
use hybrid_ftp_system.Rdt.Sender.{Sender, Attempt, send_file}
use hybrid_ftp_system.DataTransfer.Session.{FtpSession, end_transfer}
use hybrid_ftp_system.DataTransfer.Target.{
  SocketAnswers, SocketError, Target, system_error, server_socket_and_peer,
}
use hybrid_ftp_system.DataTransfer.Upload.{
  TransferResult, success, failure, socket_error, rdt_error, open_context,
}

-- What a transfer meets: the clock, what each `sendto` answers, and the sender's schedule.
pub record SendRun : Type 0 where
  pub started_at : ℕ
  pub finished_at : ℕ
  pub outcomes : List Bool
  pub schedule : List Attempt

-- `StopAndWaitSender(sock, peer, context, _fault_injector())`
abbrev pub open_sender : ℕ → SendRun → FtpSession → Address → Sender
open_sender transfer_id run s peer = record {
  port = record {
    context = open_context transfer_id run.started_at s;
    log = [];
    outcomes = run.outcomes;
  };
  peer = peer;
  schedule = run.schedule;
}

abbrev pub conclude_download : Result Fault Bytes × Sender → TransferResult
conclude_download (ok hash, sender) = success sender.port.context.statistics.bytes_transferred
conclude_download (err e, sender) = failure (rdt_error e)

module _ (sha : Sha256) where
  -- A target for sending has a peer.
  abbrev pub run_download :
      Option Bytes → ℕ → SendRun → FtpSession → Result SocketError Target → TransferResult
  run_download file transfer_id run s (err e) = failure (socket_error e)
  run_download file transfer_id run s (ok (sock, none)) = failure (socket_error system_error)
  run_download file transfer_id run s (ok (sock, some peer)) =
      conclude_download (send_file sha file run.finished_at (open_sender transfer_id run s peer))

  -- `udp_send_file` of the file that is at the path.
  unfoldable pub udp_send_file :
      Option Bytes → ℕ → SocketAnswers → SendRun → FtpSession → TransferResult × FtpSession
  udp_send_file file transfer_id sockets run s =
      (run_download file transfer_id run s (server_socket_and_peer true sockets s), end_transfer s)

  -- `udp_send_buffer`: the temporary file holds the buffer.
  unfoldable pub udp_send_buffer :
      Bytes → ℕ → SocketAnswers → SendRun → FtpSession → TransferResult × FtpSession
  udp_send_buffer buffer = udp_send_file (some buffer)
