-- ===== src/Rdt/Sender.antt =====
-- rdt/sender.py. The environment of a run is its schedule, an entry for each transmission: whether
-- another thread cancels the transfer before it, and what the rounds of the wait that follows meet.
-- A wait whose list of rounds is at its end has reached its deadline; past the end of the
-- schedule nothing arrives.
pub mod Emits
pub mod Transfer
pub mod Bursts
pub mod Ends
use hybrid_ftp_system.Prelude.{
  ℕ, zero, suc, ◌+◌, ◌==◌, Bool, true, false, not, ◌&&◌, ◌||◌, ltb, List, [], ◌∷◌, Bytes, same,
  length, Result, ok, err, Option, none, some, if◌then◌else◌,
}
use hybrid_ftp_system.Prelude.Int.{pos_part}
use hybrid_ftp_system.Protocol.PacketFlag
use hybrid_ftp_system.Protocol.PacketFlag.{PacketFlag}
use hybrid_ftp_system.Protocol.Packet.{RdtPacket, new_packet, has_flag}
use hybrid_ftp_system.Protocol.Codec.{decode_packet}
use hybrid_ftp_system.Protocol.FileHash.{Sha256, sha256_file, read_chunks}
use hybrid_ftp_system.Rdt.Context
use hybrid_ftp_system.Rdt.Context.{is_cancelled, finish}
use hybrid_ftp_system.Rdt.Port.{
  Address, Fault, transfer_error, os_error, file_not_found, unicode_error, transfer_cancelled,
  cancelled_by_receiver, hash_mismatch, no_reply, Port, Exec, pure, raise, raise_when, ◌>>=◌, ◌>>◌,
  change_context, change_statistics, inject, send_direct, encode, encoded,
}

-- One round of `while time.monotonic() < deadline`: what `recvfrom` does, or another thread's
-- `context.cancel()` before the check at the head of the round.
pub data Round : Type 0 where
  timed_out : Round
  receive_error : Round
  arrived : Bytes → Address → Round
  cancel_requested : Round

pub record Attempt : Type 0 where
  pub cancel_before : Bool
  pub rounds : List Round

pub record Sender : Type 0 where
  pub port : Port
  pub peer : Address
  pub schedule : List Attempt

abbrev pub on_port : (Port → Port) → Exec Sender (Unit {0})
on_port f s = (ok tt, record s { port = f s.port })

abbrev pub cancelled_now : Sender → Bool
cancelled_now s = is_cancelled s.port.context

abbrev pub cancel_packet : Sender → RdtPacket
cancel_packet s = new_packet PacketFlag.cancel s.port.context.transfer_id

abbrev pub do_inject : Bytes → Exec Sender (Unit {0})
do_inject raw s = let (r, p) = inject raw s.port in (r, record s { port = p })

-- `_check_cancelled`
unfoldable pub check_cancelled : Exec Sender (Unit {0})
check_cancelled s =
    if cancelled_now s
    then (do
      raw ← encode (cancel_packet s)
      on_port (send_direct raw)
      raise (transfer_error transfer_cancelled))
        s
    else pure tt s

-- `reply.has_flag(expected_flag) and reply.acknowledgment_number == expected_ack`
abbrev pub answers : PacketFlag → ℕ → RdtPacket → Bool
answers flag ack reply = has_flag reply flag && reply.acknowledgment_number == ack

abbrev pub same_address : Address → Address → Bool
same_address a b = same a.host b.host && a.port == b.port

-- What a round does with a datagram: `none` is `continue`.
unfoldable pub take_reply : PacketFlag → ℕ → RdtPacket → Address → Exec Sender (Option RdtPacket)
take_reply flag ack reply address s =
    if not (same_address address s.peer)
    then pure none s
    else if not (reply.transfer_id == s.port.context.transfer_id)
    then pure none s
    else if has_flag reply PacketFlag.cancel
    then (do on_port (change_context Context.cancel); raise (transfer_error cancelled_by_receiver))
        s
    else if answers flag ack reply
    then (do
      on_port (change_statistics (λ t. record t { packets_received = t.packets_received + 1 }))
      on_port (
          change_statistics (λ t. record t {
            acknowledgments_received =
                (if has_flag reply PacketFlag.ack
                  then t.acknowledgments_received + 1
                  else t.acknowledgments_received);
          }))
      pure (some reply))
        s
    else pure none s

unfoldable pub take_datagram : PacketFlag → ℕ → Bytes → Address → Exec Sender (Option RdtPacket)
take_datagram flag ack datagram address = elim (decode_packet datagram) [
  | ok reply ↦ take_reply flag ack reply address
  | err e ↦ do
    on_port (change_statistics (λ t. record t { corrupted_packets = t.corrupted_packets + 1 }))
    pure none
]

-- The wait behind one transmission; `none` when it ends with no answer.
unfoldable pub wait_reply : PacketFlag → ℕ → List Round → Exec Sender (Option RdtPacket)
wait_reply flag ack [] = pure none
wait_reply flag ack (timed_out ∷ rounds) = check_cancelled >> pure none
wait_reply flag ack (receive_error ∷ rounds) = check_cancelled >> raise os_error
wait_reply flag ack (cancel_requested ∷ rounds) =
    on_port (change_context Context.cancel) >> check_cancelled >> pure none
wait_reply flag ack (arrived datagram address ∷ rounds) = do
  check_cancelled
  found ← take_datagram flag ack datagram address
  elim found [ none ↦ wait_reply flag ack rounds | some reply ↦ pure (some reply) ]

abbrev pub silent : Attempt
silent = record { cancel_before = false; rounds = [] }

-- The next entry of the schedule.
abbrev pub next_attempt : Exec Sender Attempt
next_attempt s = elim s.schedule [
  | [] ↦ (ok silent, s)
  | a ∷ rest ↦ (ok a, record s { schedule = rest })
]

abbrev pub apply_request : Bool → Exec Sender (Unit {0})
apply_request true = on_port (change_context Context.cancel)
apply_request false = pure tt

-- `for attempt in range(…)`, with the rounds that are left.
unfoldable pub attempts : ℕ → Bytes → PacketFlag → ℕ → Exec Sender RdtPacket
attempts zero raw flag ack = raise (transfer_error (no_reply flag ack))
attempts (suc n) raw flag ack = do
  now ← next_attempt
  apply_request now.cancel_before
  check_cancelled
  do_inject raw
  on_port (change_statistics (λ t. record t { packets_sent = t.packets_sent + 1 }))
  found ← wait_reply flag ack now.rounds
  elim found [ none ↦ attempts n raw flag ack | some reply ↦ pure reply ]

-- `_send_and_wait`: `range(maximum_retries + 1)` for an accepted configuration.
unfoldable pub send_and_wait : RdtPacket → PacketFlag → ℕ → Exec Sender RdtPacket
send_and_wait packet flag ack = do
  raw ← encode packet
  (λ s. attempts (pos_part s.port.context.config.maximum_retries + 1) raw flag ack s)

abbrev pub data_packet : ℕ → ℕ → Bytes → RdtPacket
data_packet transfer_id sequence chunk = record (new_packet PacketFlag.data_flag transfer_id) {
  sequence_number = sequence;
  payload = chunk;
}

abbrev pub fin_packet : ℕ → ℕ → RdtPacket
fin_packet transfer_id sequence = record (new_packet PacketFlag.fin transfer_id) {
  sequence_number = sequence;
}

-- The loop over the chunks; the result is the sequence number behind the last one.
unfoldable pub send_chunks : ℕ → List Bytes → Exec Sender ℕ
send_chunks sequence [] = pure sequence
send_chunks sequence (chunk ∷ rest) = do
  (λ s.
      send_and_wait (data_packet s.port.context.transfer_id sequence chunk) PacketFlag.ack sequence
        s)
  on_port
      (change_statistics (λ t. record t { bytes_transferred = t.bytes_transferred + length chunk }))
  send_chunks (suc sequence) rest

-- `payload.decode("ascii")`
abbrev pub is_ascii : Bytes → Bool
is_ascii [] = true
is_ascii (c ∷ cs) = ltb c 128 && is_ascii cs

abbrev pub finish_with : Context.TransferState → ℕ → Exec Sender (Unit {0})
finish_with state now = on_port (change_context (finish state now))

-- `except Exception`
abbrev pub on_failure {ℓ} : {A : Type ℓ} → ℕ → Result Fault A × Sender → Result Fault A × Sender
on_failure now (ok a, s) = (ok a, s)
on_failure now (err e, s) =
    if cancelled_now s then (err e, s) else (err e, (finish_with Context.failed now s).1)

module _ (sha : Sha256) where
  -- The body of the `try`; the file is not written to during the transfer.
  unfoldable pub send_content : Bytes → ℕ → Exec Sender Bytes
  send_content content now = do
    on_port (change_context (λ c. record c { state = Context.running }))
    sequence ←
        (λ s. send_chunks 0 (read_chunks (pos_part s.port.context.config.payload_size) content) s)
    reply ← (λ s.
        send_and_wait (fin_packet s.port.context.transfer_id sequence) PacketFlag.fin_ack sequence
          s)
    raise_when (not (is_ascii reply.payload)) unicode_error
    raise_when (not (same reply.payload (sha256_file sha content))) (transfer_error hash_mismatch)
    finish_with Context.completed now
    pure (sha256_file sha content)

  -- `send_file` of a path: the content of the file there, or nothing where there is none. `now` is
  -- the reading of the clock when the transfer finishes.
  unfoldable pub send_file : Option Bytes → ℕ → Exec Sender Bytes
  send_file none now s = (err file_not_found, s)
  send_file (some content) now s = on_failure now (send_content content now s)
