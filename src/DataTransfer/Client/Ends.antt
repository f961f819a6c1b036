-- ===== src/DataTransfer/Client/Ends.antt =====
-- How the client's transfers end.
use hybrid_ftp_system.Prelude.{
  ℕ, ◌≡◌, ◌⊎◌, inl, inr, refl, ap, Bool, true, false, [], Bytes, Option, none, some, Result, ok,
  err, if◌then◌else◌,
}
use hybrid_ftp_system.Protocol.FileHash.{Sha256}
use hybrid_ftp_system.Rdt.Context.{TransferContext}
use hybrid_ftp_system.Rdt.Port.{Fault}
use hybrid_ftp_system.Rdt.Receiver.{receive_file, content_of}
use hybrid_ftp_system.Rdt.Reception.{Receiver}
use hybrid_ftp_system.Rdt.Receiver.Files.{IsVerified, receive_file-ok, receive_file-err}
use hybrid_ftp_system.DataTransfer.Target.{SocketError}
use hybrid_ftp_system.DataTransfer.Upload.{Run}
use hybrid_ftp_system.DataTransfer.Client.{
  ClientData, no_client_data, close_client_socket, client_receiver, receiver_of, conclude_receive,
  receive_with, udp_client_receive_file, udp_client_receive_buffer,
}

module _ (sha : Sha256) (transfer_id size : ℕ) (expected_hash : Bytes) (ready_sent : Bool)
    (run : Run) (c : ClientData) where
  -- What a transfer leaves at the destination.
  abbrev pub Received : Bool → Option Bytes → Option Bytes → Type 0
  Received true before left = IsVerified sha size expected_hash left
  Received false before left = (left ≡ before) ⊎ IsVerified sha size expected_hash left

  conclude_receive-Received :
      (before : Option Bytes) (context : TransferContext) (r : Result Fault Bytes × Receiver)
      → receive_file sha size expected_hash run.polls run.lingering run.finished_at
          (receiver_of run before context)
        ≡ r
      → Received (conclude_receive r).0 before (conclude_receive r).1
  conclude_receive-Received before context (ok hash, r) e =
      let (verified, _, _, _) =
        receive_file-ok sha size expected_hash run.polls run.lingering run.finished_at
          (receiver_of run before context) {h = hash} (ap (λ r. r.0) e) in
      rw (ap (λ r. r.1.destination) e) at verified
  conclude_receive-Received before context (err why, r) e =
      let (_, place, _) =
        receive_file-err sha size expected_hash run.polls run.lingering run.finished_at
          (receiver_of run before context) why (ap (λ r. r.0) e) in
      rw (ap (λ r. r.1.destination) e) at place

  receive_with-Received :
      (before : Option Bytes) (opened : Result SocketError TransferContext)
      → Received
          (receive_with sha size expected_hash run before opened).0
          before
          (receive_with sha size expected_hash run before opened).1
  receive_with-Received before (err e) = inl refl
  receive_with-Received before (ok context) =
      conclude_receive-Received before context
        (receive_file sha size expected_hash run.polls run.lingering run.finished_at
          (receiver_of run before context))
        refl

  -- A download that reports success has left a file of the announced size and SHA-256; one that
  -- reports failure has left the file as it was, or such a file; and either way the client's data
  -- socket, peer, mode, context and abort request are cleared.
  pub udp_client_receive_file-ends :
      (before : Option Bytes)
      → Received
          (udp_client_receive_file sha transfer_id size expected_hash ready_sent run c before).0
          before
          (udp_client_receive_file sha transfer_id size expected_hash ready_sent run c before).2
        × ((udp_client_receive_file sha transfer_id size expected_hash ready_sent run c before).1
            ≡ no_client_data)
  unfolding udp_client_receive_file close_client_socket
  udp_client_receive_file-ends before =
      (receive_with-Received before (client_receiver transfer_id run.started_at ready_sent c), refl)

  whole_of :
      (received : Bool) (left : Option Bytes)
      → Received received none left
      → ((if received then content_of left else []) ≡ [])
        ⊎ IsVerified sha size expected_hash (some (if received then content_of left else []))
  whole_of true left verified = inr (refl, verified.1, verified.2)
  whole_of false left kept = inl refl

  -- A listing that comes in whole has the announced size and SHA-256; otherwise the buffer is empty.
  pub udp_client_receive_buffer-whole :
      ((udp_client_receive_buffer sha transfer_id size expected_hash ready_sent run c).0 ≡ [])
      ⊎ IsVerified sha size expected_hash
          (some (udp_client_receive_buffer sha transfer_id size expected_hash ready_sent run c).0)
  unfolding udp_client_receive_buffer
  udp_client_receive_buffer-whole = whole_of _ _ (udp_client_receive_file-ends none).0
