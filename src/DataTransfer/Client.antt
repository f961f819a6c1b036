-- ===== src/DataTransfer/Client.antt =====
-- common/data_transfer.py: the client's side, whose state is in module variables. A socket is its
-- descriptor. The progress output and its thread are left out.
pub mod Ends
use hybrid_ftp_system.Prelude.{
  ℕ, Bool, true, false, not, List, [], Bytes, Option, none, some, same, Result, ok, err,
  if◌then◌else◌,
}
use hybrid_ftp_system.Protocol.FileHash.{Sha256}
use hybrid_ftp_system.Rdt.Config.{default_config}
use hybrid_ftp_system.Rdt.Context.{TransferContext, new_context, cancel}
use hybrid_ftp_system.Rdt.Port.{Address, Fault}
use hybrid_ftp_system.Rdt.Sender.{Sender, send_file}
use hybrid_ftp_system.Rdt.Receiver.{receive_file, content_of}
use hybrid_ftp_system.Rdt.Reception.{Receiver}
use hybrid_ftp_system.DataTransfer.Session.{DataMode, mode_none, mode_passive, mode_active}
use hybrid_ftp_system.DataTransfer.Target.{
  SocketError, no_passive_socket, no_ready_datagram, no_target, system_error, ready,
}
use hybrid_ftp_system.DataTransfer.Upload.{Run}
use hybrid_ftp_system.DataTransfer.Download.{SendRun}

-- `_client_socket`, `_client_peer`, `_client_mode`, `_client_context` and `_client_abort_requested`
pub record ClientData : Type 0 where
  pub socket : Option ℕ
  pub peer : Option Address
  pub mode : DataMode
  pub context : Option TransferContext
  pub abort_requested : Bool

abbrev pub no_client_data : ClientData
no_client_data = record {
  socket = none;
  peer = none;
  mode = mode_none;
  context = none;
  abort_requested = false;
}

-- `_close_client_socket`; that `close` raises is passed over.
unfoldable pub close_client_socket : ClientData → ClientData
close_client_socket c = record c {
  socket = none;
  peer = none;
  mode = mode_none;
  context = none;
  abort_requested = false;
}

abbrev pub cancelled_context : Option TransferContext → Option TransferContext
cancelled_context none = none
cancelled_context (some context) = some (cancel context)

unfoldable pub udp_client_abort_transfer : ClientData → ClientData
udp_client_abort_transfer c = record c {
  abort_requested = true;
  context = cancelled_context c.context;
}

-- `socket.socket`, `bind` and `getsockname`: each may raise.
pub data Opening : Type 0 where
  no_socket : Opening
  unbound : ℕ → Opening
  bound_at : ℕ → Option Address → Opening

unfoldable pub udp_client_set_passive :
    Bytes → ℕ → Opening → ClientData → Result SocketError (Unit {0}) × ClientData
udp_client_set_passive ip port opening c =
    let closed = close_client_socket c in
    elim opening [
      | no_socket ↦ (err system_error, closed)
      | unbound sock ↦ (err system_error, record closed { socket = some sock })
      | bound_at sock name ↦ (
        ok tt,
        record closed {
          socket = some sock;
          peer = some (record { host = ip; port = port });
          mode = mode_passive;
        },
      )
    ]

-- The answer of `getsockname` is the result of `udp_client_prepare_active`.
abbrev pub own_name : Option Address → Result SocketError Address
own_name none = err system_error
own_name (some name) = ok name

unfoldable pub udp_client_prepare_active :
    Opening → ClientData → Result SocketError Address × ClientData
udp_client_prepare_active opening c =
    let closed = close_client_socket c in
    elim opening [
      | no_socket ↦ (err system_error, closed)
      | unbound sock ↦ (err system_error, record closed { socket = some sock })
      | bound_at sock name ↦
          (own_name name, record closed { socket = some sock; mode = mode_active })
    ]

unfoldable pub udp_client_set_active :
    Opening → ClientData → Result SocketError (Unit {0}) × ClientData
udp_client_set_active opening c =
    let closed = close_client_socket c in
    elim opening [
      | no_socket ↦ (err system_error, closed)
      | unbound sock ↦ (err system_error, record closed { socket = some sock })
      | bound_at sock name ↦ (ok tt, record closed { socket = some sock; mode = mode_active })
    ]

-- `TransferContext(transfer_id, RDTConfig())`, and the abort that came before it.
abbrev pub client_context : ℕ → ℕ → ClientData → TransferContext
client_context transfer_id now c =
    let context = new_context transfer_id default_config now in
    if c.abort_requested then cancel context else context

-- The READY of a passive transfer.
abbrev pub greeted : Bool → Option Address → Result SocketError (Unit {0})
greeted ready_sent none = err no_target
greeted ready_sent (some peer) = if ready_sent then ok tt else err system_error

abbrev pub client_greets : Bool → DataMode → Option Address → Result SocketError (Unit {0})
client_greets ready_sent mode_passive peer = greeted ready_sent peer
client_greets ready_sent mode_active peer = ok tt
client_greets ready_sent mode_none peer = ok tt

abbrev pub ready_context :
    ℕ → ℕ → ClientData → Result SocketError (Unit {0}) → Result SocketError TransferContext
ready_context transfer_id now c (err e) = err e
ready_context transfer_id now c (ok u) = ok (client_context transfer_id now c)

-- `_client_receiver`: the context of the receiver, which is put into `_client_context` as well; the
-- transfer's end clears that again.
unfoldable pub client_receiver : ℕ → ℕ → Bool → ClientData → Result SocketError TransferContext
client_receiver transfer_id now ready_sent c = elim c.socket [
  | none ↦ err no_passive_socket
  | some sock ↦ ready_context transfer_id now c (client_greets ready_sent c.mode c.peer)
]

abbrev pub receiver_of : Run → Option Bytes → TransferContext → Receiver
receiver_of run destination context = record {
  port = record { context = context; log = []; outcomes = run.outcomes };
  peer = none;
  expected_seq = 0;
  received_bytes = 0;
  temp = none;
  destination = destination;
}

abbrev pub conclude_receive : Result Fault Bytes × Receiver → Bool × Option Bytes
conclude_receive (ok hash, r) = (true, r.destination)
conclude_receive (err e, r) = (false, r.destination)

abbrev pub client_peer :
    Option (Bytes × Address) → DataMode → Option Address → Result SocketError Address
client_peer first mode_passive none = err no_target
client_peer first mode_passive (some peer) = ok peer
client_peer first mode_none none = err no_target
client_peer first mode_none (some peer) = ok peer
client_peer none mode_active peer = err system_error
client_peer (some (text, sender)) mode_active peer =
    if same text ready then ok sender else err no_ready_datagram

module _ (sha : Sha256) where
  abbrev pub receive_with :
      ℕ → Bytes → Run → Option Bytes → Result SocketError TransferContext → Bool × Option Bytes
  receive_with expected_size expected_hash run destination (err e) = (false, destination)
  receive_with expected_size expected_hash run destination (ok context) = conclude_receive (
      receive_file sha expected_size expected_hash run.polls run.lingering run.finished_at
        (receiver_of run destination context))

  -- `udp_client_receive_file`, with the file at `save_path` before and behind it.
  unfoldable pub udp_client_receive_file :
      ℕ → ℕ → Bytes → Bool → Run → ClientData → Option Bytes → Bool × ClientData × Option Bytes
  udp_client_receive_file transfer_id expected_size expected_hash ready_sent run c destination =
      let (received, left) =
        receive_with expected_size expected_hash run destination
          (client_receiver transfer_id run.started_at ready_sent c) in
      (received, close_client_socket c, left)

  -- `udp_client_receive_buffer`, in a temporary directory of its own.
  unfoldable pub udp_client_receive_buffer :
      ℕ → ℕ → Bytes → Bool → Run → ClientData → Bytes × ClientData
  udp_client_receive_buffer transfer_id expected_size expected_hash ready_sent run c =
      let (received, after, left) =
        udp_client_receive_file transfer_id expected_size expected_hash ready_sent run c none in
      (if received then content_of left else [], after)

  abbrev pub sent_all : Result Fault Bytes × Sender → Bool
  sent_all (ok hash, sender) = true
  sent_all (err e, sender) = false

  abbrev pub sender_of : ℕ → SendRun → ClientData → Address → Sender
  sender_of transfer_id run c peer = record {
    port = record {
      context = client_context transfer_id run.started_at c;
      log = [];
      outcomes = run.outcomes;
    };
    peer = peer;
    schedule = run.schedule;
  }

  -- The transfer itself, of a file that is there.
  abbrev pub send_with : ℕ → SendRun → ClientData → Option Bytes → Result SocketError Address → Bool
  send_with transfer_id run c file (err e) = false
  send_with transfer_id run c none (ok peer) = false
  send_with transfer_id run c (some content) (ok peer) =
      sent_all (send_file sha (some content) run.finished_at (sender_of transfer_id run c peer))

  abbrev pub peer_of : Option (Bytes × Address) → ClientData → Option ℕ → Result SocketError Address
  peer_of first c none = err no_passive_socket
  peer_of first c (some sock) = client_peer first c.mode c.peer

  -- `udp_client_send_file` of the file that is at the path.
  unfoldable pub udp_client_send_file :
      Option Bytes → ℕ → Option (Bytes × Address) → SendRun → ClientData → Bool × ClientData
  udp_client_send_file file transfer_id first run c =
      (send_with transfer_id run c file (peer_of first c c.socket), close_client_socket c)
