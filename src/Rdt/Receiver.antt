-- ===== src/Rdt/Receiver.antt =====
-- rdt/receiver.py. The environment of a run is what the polls of the socket meet, in order: the end
-- of the list is the idle deadline. Polls of `_receive_packet` that bring no packet go on in the
-- same loop, so that the two nested loops are one recursion on the list.
pub mod Frame
pub mod Assembly
pub mod Loop
pub mod Files
pub mod Keeps
pub mod Delivery
pub mod Progress
pub mod Returns
pub mod Success
use hybrid_ftp_system.Prelude.{
  ℕ, zero, suc, ◌+◌, ◌-◌, ◌==◌, Bool, true, false, not, ◌&&◌, ltb, List, [], ◌∷◌, ◌++◌, Bytes, same,
  length, Result, ok, err, Option, none, some, if◌then◌else◌,
}
use hybrid_ftp_system.Protocol.PacketFlag
use hybrid_ftp_system.Protocol.Packet.{RdtPacket, new_packet, has_flag}
use hybrid_ftp_system.Protocol.Codec.{decode_packet}
use hybrid_ftp_system.Protocol.FileHash.{Sha256, sha256_file}
use hybrid_ftp_system.Rdt.Context
use hybrid_ftp_system.Rdt.Context.{is_cancelled, finish, TransferStatistics}
use hybrid_ftp_system.Rdt.Port.{
  Address, Fault, transfer_error, os_error, transfer_cancelled, hash_mismatch, too_much_data,
  wrong_size, receive_timeout, unknown_peer, Port, Exec, pure, raise, raise_when, ◌>>=◌, ◌>>◌,
  change_context, change_statistics, inject, send_direct, encode,
}
use hybrid_ftp_system.Rdt.Reception.{
  Poll, Receiver, on_port, cancelled_now, do_inject, count, send, ack_packet, send_ack, send_cancel,
  timed_out, receive_error, arrived, cancel_requested,
}
use hybrid_ftp_system.Rdt.Sender.{same_address}

-- `file.write(payload)` and the count of bytes behind it
abbrev pub write_payload : Bytes → Exec Receiver (Unit {0})
write_payload payload s = (
  ok tt,
  record s {
    temp = elim s.temp [ none ↦ some payload | some written ↦ some (written ++ payload) ];
    received_bytes = s.received_bytes + length payload;
  },
)

abbrev pub next_expected : Exec Receiver (Unit {0})
next_expected s = (ok tt, record s { expected_seq = s.expected_seq + 1 })

abbrev pub count_received : Exec Receiver (Unit {0})
count_received s = count (λ t. record t { bytes_transferred = s.received_bytes }) s

-- A DATA packet.
unfoldable pub take_data : ℕ → RdtPacket → Exec Receiver (Unit {0})
take_data expected_size packet s =
    if packet.sequence_number == s.expected_seq
    then (do
      write_payload packet.payload
      (λ r. raise_when (ltb expected_size r.received_bytes) (transfer_error too_much_data) r)
      send_ack s.expected_seq
      next_expected
      count_received)
        s
    else if ltb packet.sequence_number s.expected_seq
    then (do
      count (λ t. record t { duplicate_packets = t.duplicate_packets + 1 })
      send_ack packet.sequence_number)
        s
    else if ltb 0 s.expected_seq
    then send_ack (s.expected_seq - 1) s
    else pure tt s

-- A FIN packet: `some` of its sequence number is `break`.
unfoldable pub take_fin : ℕ → RdtPacket → Exec Receiver (Option ℕ)
take_fin expected_size packet s =
    if not (packet.sequence_number == s.expected_seq)
    then pure none s
    else if not (s.received_bytes == expected_size)
    then raise (transfer_error wrong_size) s
    else pure (some packet.sequence_number) s

abbrev pub learn_peer : Address → Exec Receiver (Unit {0})
learn_peer address s = elim s.peer [
  | none ↦ (ok tt, record s { peer = some address })
  | some _ ↦ (ok tt, s)
]

abbrev pub from_peer : Address → Receiver → Bool
from_peer address s = elim s.peer [ none ↦ false | some a ↦ same_address address a ]

-- The body of the loop behind `_receive_packet`.
unfoldable pub take_packet : ℕ → RdtPacket → Address → Exec Receiver (Option ℕ)
take_packet expected_size packet address s =
    if not (packet.transfer_id == s.port.context.transfer_id)
    then pure none s
    else (do
      learn_peer address
      (λ r.
          if not (from_peer address r)
          then pure none r
          else if has_flag packet PacketFlag.cancel
          then (do
            on_port (change_context Context.cancel)
            raise (transfer_error transfer_cancelled))
              r
          else if has_flag packet PacketFlag.data_flag
          then (take_data expected_size packet >> pure none) r
          else if has_flag packet PacketFlag.fin
          then take_fin expected_size packet r
          else pure none r))
        s

-- The check at the head of each poll.
unfoldable pub check_cancelled : Exec Receiver (Unit {0})
check_cancelled s =
    if cancelled_now s
    then (send_cancel >> raise (transfer_error transfer_cancelled)) s
    else pure tt s

abbrev pub count_packet : Exec Receiver (Unit {0})
count_packet = count (λ t. record t { packets_received = t.packets_received + 1 })

abbrev pub count_corrupted : Exec Receiver (Unit {0})
count_corrupted = count (λ t. record t { corrupted_packets = t.corrupted_packets + 1 })

unfoldable pub take_datagram : ℕ → Bytes → Address → Exec Receiver (Option ℕ)
take_datagram expected_size datagram address = elim (decode_packet datagram) [
  | ok packet ↦ do count_packet; take_packet expected_size packet address
  | err e ↦ do count_corrupted; pure none
]

-- `while True`; the result is `fin_sequence`.
unfoldable pub receive_loop : ℕ → List Poll → Exec Receiver ℕ
receive_loop expected_size [] = raise (transfer_error receive_timeout)
receive_loop expected_size (timed_out ∷ polls) = check_cancelled >> receive_loop expected_size polls
receive_loop expected_size (receive_error ∷ polls) = check_cancelled >> raise os_error
receive_loop expected_size (cancel_requested ∷ polls) =
    on_port (change_context Context.cancel) >> check_cancelled >> receive_loop expected_size polls
receive_loop expected_size (arrived datagram address ∷ polls) = do
  check_cancelled
  fin ← take_datagram expected_size datagram address
  elim fin [ none ↦ receive_loop expected_size polls | some sequence ↦ pure sequence ]

-- `_linger_for_duplicate_fin`. A cancellation is not looked at here; a timeout and a datagram that
-- cannot be decoded go on.
abbrev pub is_duplicate_fin : RdtPacket → Address → ℕ → Receiver → Bool
is_duplicate_fin packet address fin_sequence s =
    from_peer address s
    && (packet.transfer_id == s.port.context.transfer_id)
    && has_flag packet PacketFlag.fin
    && (packet.sequence_number == fin_sequence)

unfoldable pub answer_fin : RdtPacket → ℕ → Bytes → Address → Exec Receiver (Unit {0})
answer_fin fin_ack fin_sequence datagram address s = elim (decode_packet datagram) [
  | err e ↦ (ok tt, s)
  | ok packet ↦
      if is_duplicate_fin packet address fin_sequence s then send fin_ack s else (ok tt, s)
]

unfoldable pub linger : RdtPacket → ℕ → List Poll → Exec Receiver (Unit {0})
linger fin_ack fin_sequence [] = pure tt
linger fin_ack fin_sequence (timed_out ∷ polls) = linger fin_ack fin_sequence polls
linger fin_ack fin_sequence (receive_error ∷ polls) = raise os_error
linger fin_ack fin_sequence (cancel_requested ∷ polls) =
    on_port (change_context Context.cancel) >> linger fin_ack fin_sequence polls
linger fin_ack fin_sequence (arrived datagram address ∷ polls) = do
  answer_fin fin_ack fin_sequence datagram address
  linger fin_ack fin_sequence polls

-- `temp.open("wb")` and the loop's variables.
abbrev pub open_temp : Exec Receiver (Unit {0})
open_temp s = (
  ok tt,
  record s {
    port = change_context (λ c. record c { state = Context.running }) s.port;
    temp = some [];
    expected_seq = 0;
    received_bytes = 0;
  },
)

-- `temp.replace(destination)`
abbrev pub replace_destination : Exec Receiver (Unit {0})
replace_destination s = (ok tt, record s { temp = none; destination = s.temp })

abbrev pub content_of : Option Bytes → Bytes
content_of none = []
content_of (some content) = content

abbrev pub finish_with : Context.TransferState → ℕ → Exec Receiver (Unit {0})
finish_with state now = on_port (change_context (finish state now))

-- `except Exception`: the temporary file goes.
abbrev pub on_failure {ℓ} : {A : Type ℓ} → ℕ → Result Fault A × Receiver → Result Fault A × Receiver
on_failure now (ok a, s) = (ok a, s)
on_failure now (err e, s) =
    let cleaned = record s { temp = none } in
    if cancelled_now s
    then (err e, cleaned)
    else (err e, (finish_with Context.failed now cleaned).1)

abbrev pub fin_ack_packet : ℕ → ℕ → Bytes → RdtPacket
fin_ack_packet transfer_id fin_sequence hash = record (new_packet PacketFlag.fin_ack transfer_id) {
  acknowledgment_number = fin_sequence;
  payload = hash;
}

module _ (sha : Sha256) where
  abbrev pub temp_hash : Receiver → Bytes
  temp_hash s = sha256_file sha (content_of s.temp)

  -- From the check of the hash to the end of the `try`.
  unfoldable pub conclude : Bytes → ℕ → List Poll → ℕ → Exec Receiver Bytes
  conclude expected_hash fin_sequence lingering now s =
      let received_hash = temp_hash s in
      let fin_ack = fin_ack_packet s.port.context.transfer_id fin_sequence received_hash in
      (do
        raise_when (not (same received_hash expected_hash)) (transfer_error hash_mismatch)
        replace_destination
        send fin_ack
        linger fin_ack fin_sequence lingering
        finish_with Context.completed now
        pure received_hash)
        s

  unfoldable pub receive_content : ℕ → Bytes → List Poll → List Poll → ℕ → Exec Receiver Bytes
  receive_content expected_size expected_hash polls lingering now = do
    open_temp
    fin_sequence ← receive_loop expected_size polls
    on_port (change_context (λ c. record c { state = Context.verifying }))
    conclude expected_hash fin_sequence lingering now

  -- `receive_file`: `polls` are those of the transfer, `lingering` those behind the FIN_ACK, and
  -- `now` is the reading of the clock when the transfer finishes.
  unfoldable pub receive_file : ℕ → Bytes → List Poll → List Poll → ℕ → Exec Receiver Bytes
  receive_file expected_size expected_hash polls lingering now s =
      on_failure now (receive_content expected_size expected_hash polls lingering now s)
