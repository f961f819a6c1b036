-- ===== src/Rdt/Reception.antt =====
-- rdt/receiver.py: what a StopAndWaitReceiver keeps, what its socket meets, and what it sends
-- (`_send`, `_send_ack`, `_send_cancel`).
use hybrid_ftp_system.Prelude.{ℕ, ◌+◌, Bool, Bytes, ok, err, Option, none, some}
use hybrid_ftp_system.Protocol.PacketFlag
use hybrid_ftp_system.Protocol.Packet.{RdtPacket, new_packet}
use hybrid_ftp_system.Rdt.Context.{is_cancelled, TransferStatistics}
use hybrid_ftp_system.Rdt.Port.{
  Address, transfer_error, unknown_peer, Port, Exec, ◌>>=◌, ◌>>◌, change_statistics, inject,
  send_direct, encode,
}

pub data Poll : Type 0 where
  timed_out : Poll
  receive_error : Poll
  arrived : Bytes → Address → Poll
  cancel_requested : Poll

-- The object, the loop's variables, and the two files that it touches: `temp` and `destination`.
pub record Receiver : Type 0 where
  pub port : Port
  pub peer : Option Address
  pub expected_seq : ℕ
  pub received_bytes : ℕ
  pub temp : Option Bytes
  pub destination : Option Bytes

abbrev pub on_port : (Port → Port) → Exec Receiver (Unit {0})
on_port f s = (ok tt, record s { port = f s.port })

abbrev pub cancelled_now : Receiver → Bool
cancelled_now s = is_cancelled s.port.context

abbrev pub do_inject : Bytes → Exec Receiver (Unit {0})
do_inject raw s = let (r, p) = inject raw s.port in (r, record s { port = p })

abbrev pub count : (TransferStatistics → TransferStatistics) → Exec Receiver (Unit {0})
count f = on_port (change_statistics f)

-- `_send`
unfoldable pub send : RdtPacket → Exec Receiver (Unit {0})
send packet s = elim s.peer [
  | none ↦ (err (transfer_error unknown_peer), s)
  | some _ ↦
      (do
        raw ← encode packet
        do_inject raw
        count (λ t. record t { packets_sent = t.packets_sent + 1 }))
        s
]

abbrev pub ack_packet : ℕ → ℕ → RdtPacket
ack_packet transfer_id sequence = record (new_packet PacketFlag.ack transfer_id) {
  acknowledgment_number = sequence;
}

-- `_send_ack`
unfoldable pub send_ack : ℕ → Exec Receiver (Unit {0})
send_ack sequence = do
  (λ s. send (ack_packet s.port.context.transfer_id sequence) s)
  count (λ t. record t { acknowledgments_sent = t.acknowledgments_sent + 1 })

-- `_send_cancel`
unfoldable pub send_cancel : Exec Receiver (Unit {0})
send_cancel s = elim s.peer [
  | none ↦ (ok tt, s)
  | some _ ↦
      (do
        raw ← encode (new_packet PacketFlag.cancel s.port.context.transfer_id)
        on_port (send_direct raw))
        s
]
