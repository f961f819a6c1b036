-- ===== src/Rdt/Receiver/Frame.antt =====
-- What the receiver's sends and checks leave alone: everything but the context's flags and
-- statistics, and the log.
use hybrid_ftp_system.Prelude.{ℕ, ◌≡◌, arith, Bytes, Result, ok, err, List, [], ◌∷◌}
use hybrid_ftp_system.Protocol.Packet.{RdtPacket}
use hybrid_ftp_system.Rdt.Context
use hybrid_ftp_system.Rdt.Port.{
  Address, Fault, Exec, continue, change_context, encode, inject, send_direct,
}
use hybrid_ftp_system.Rdt.Receiver.{check_cancelled, linger, answer_fin}
use hybrid_ftp_system.Rdt.Reception.{
  Receiver, on_port, ack_packet, send, send_ack, send_cancel, Poll, timed_out, receive_error,
  arrived, cancel_requested,
}

pub record Frame (s t : Receiver) : Type 0 where
  pub temp : t.temp ≡ s.temp
  pub destination : t.destination ≡ s.destination
  pub expected_seq : t.expected_seq ≡ s.expected_seq
  pub received_bytes : t.received_bytes ≡ s.received_bytes
  pub peer : t.peer ≡ s.peer
  pub transfer_id : t.port.context.transfer_id ≡ s.port.context.transfer_id

pub Frame-send : (packet : RdtPacket) (s : Receiver) → Frame s (send packet s).1
unfolding send encode inject
Frame-send packet s = ground arith

pub Frame-send_ack : (sequence : ℕ) (s : Receiver) → Frame s (send_ack sequence s).1
unfolding send_ack
Frame-send_ack sequence s =
    ground (arith, Frame-send (ack_packet s.port.context.transfer_id sequence) s)

pub Frame-send_cancel : (s : Receiver) → Frame s (send_cancel s).1
unfolding send_cancel encode send_direct
Frame-send_cancel s = ground arith

pub Frame-check_cancelled : (s : Receiver) → Frame s (check_cancelled s).1
unfolding check_cancelled
Frame-check_cancelled s = ground (arith, Frame-send_cancel s)

pub Frame-refl : (s : Receiver) → Frame s s
Frame-refl s = ground arith

pub Frame-trans : {s t u : Receiver} → Frame s t → Frame t u → Frame s u
Frame-trans f g = ground arith

Frame-answer_fin :
    (fin_ack : RdtPacket) (fin_sequence : ℕ) (datagram : Bytes) (address : Address) (s : Receiver)
    → Frame s (answer_fin fin_ack fin_sequence datagram address s).1
unfolding answer_fin
Frame-answer_fin fin_ack fin_sequence datagram address s = ground (arith, Frame-send fin_ack s)

Frame-continue :
    (r : Result Fault (Unit {0})) (f : Unit {0} → Exec Receiver (Unit {0})) (s t : Receiver)
    → Frame s t
    → Frame t (f tt t).1
    → Frame s (continue r f t).1
Frame-continue (ok u) f s t k kf = Frame-trans k kf
Frame-continue (err e) f s t k kf = k

pub Frame-linger :
    (fin_ack : RdtPacket) (fin_sequence : ℕ) (polls : List Poll) (s : Receiver)
    → Frame s (linger fin_ack fin_sequence polls s).1
unfolding linger
Frame-linger fin_ack fin_sequence [] s = Frame-refl s
Frame-linger fin_ack fin_sequence (timed_out ∷ polls) s = Frame-linger fin_ack fin_sequence polls s
Frame-linger fin_ack fin_sequence (receive_error ∷ polls) s = Frame-refl s
Frame-linger fin_ack fin_sequence (cancel_requested ∷ polls) s =
    Frame-trans (cancelled s) (Frame-linger fin_ack fin_sequence polls _)
  where
    cancelled : (s : Receiver) → Frame s (on_port (change_context Context.cancel) s).1
    cancelled s = ground arith
Frame-linger fin_ack fin_sequence (arrived datagram address ∷ polls) s =
    Frame-continue _ (λ _. linger fin_ack fin_sequence polls) s _
      (Frame-answer_fin fin_ack fin_sequence datagram address s)
      (Frame-linger fin_ack fin_sequence polls _)
