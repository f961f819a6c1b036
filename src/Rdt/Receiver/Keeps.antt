-- ===== src/Rdt/Receiver/Keeps.antt =====
-- What every step of the receiving loop keeps, whatever arrives: the destination, the transfer's
-- identity, and that the count of bytes is the length of the temporary file.
use hybrid_ftp_system.Prelude.{
  ℕ, ◌+◌, ◌-◌, ◌≡◌, refl, ◌∙◌, arith, inl, inr, Bytes, Option, none, some, Result, ok, err,
  Result-cases, length, length-append, List, [], ◌∷◌,
}
use hybrid_ftp_system.Protocol.Packet.{RdtPacket}
use hybrid_ftp_system.Protocol.Codec.{decode_packet}
use hybrid_ftp_system.Rdt.Context
use hybrid_ftp_system.Rdt.Port.{
  Address, Exec, Fault, os_error, raise, continue, change_context, ◌>>=◌,
}
use hybrid_ftp_system.Rdt.Receiver.{
  check_cancelled, take_datagram, take_packet, take_data, take_fin, receive_loop, write_payload,
  learn_peer, content_of, count_packet, count_corrupted,
}
use hybrid_ftp_system.Rdt.Reception.{
  Receiver, Poll, timed_out, receive_error, arrived, cancel_requested, count, on_port,
}
use hybrid_ftp_system.Rdt.Receiver.Frame.{Frame, Frame-send_ack, Frame-check_cancelled}
use hybrid_ftp_system.Rdt.Receiver.Loop.{after_datagram}

abbrev pub Counted : Receiver → Type 0
Counted s = (s.temp ≡ some (content_of s.temp)) × (s.received_bytes ≡ length (content_of s.temp))

pub record Keeps (s t : Receiver) : Type 0 where
  pub destination : t.destination ≡ s.destination
  pub transfer_id : t.port.context.transfer_id ≡ s.port.context.transfer_id
  pub counted : Counted s → Counted t

pub Frame-Keeps : {s t : Receiver} → Frame s t → Keeps s t
Frame-Keeps f = record {
  destination = f.destination;
  transfer_id = f.transfer_id;
  counted = λ c. rw (f.temp, f.received_bytes) c;
}

pub Keeps-refl : (s : Receiver) → Keeps s s
Keeps-refl s = record { destination = refl; transfer_id = refl; counted = λ c. c }

pub Keeps-trans : {s t u : Receiver} → Keeps s t → Keeps t u → Keeps s u
Keeps-trans k l = record {
  destination = l.destination ∙ k.destination;
  transfer_id = l.transfer_id ∙ k.transfer_id;
  counted = λ c. l.counted (k.counted c);
}

Keeps-continue {ℓ κ} :
    {A : Type ℓ} {B : Type κ} (r : Result Fault A) (f : A → Exec Receiver B) (s t : Receiver)
    → Keeps s t
    → ((a : A) (u : Receiver) → Keeps u (f a u).1)
    → Keeps s (continue r f t).1
Keeps-continue (ok a) f s t k kf = Keeps-trans k (kf a t)
Keeps-continue (err e) f s t k kf = k

-- A bind keeps what both its parts keep.
pub Keeps-bind {ℓ κ} :
    {A : Type ℓ} {B : Type κ} (m : Exec Receiver A) (f : A → Exec Receiver B) (s : Receiver)
    → Keeps s (m s).1
    → ((a : A) (t : Receiver) → Keeps t (f a t).1)
    → Keeps s ((m >>= f) s).1
Keeps-bind m f s km kf = Keeps-continue (m s).0 f s (m s).1 km kf

Keeps-write : (payload : Bytes) (s : Receiver) → Keeps s (write_payload payload s).1
Keeps-write payload s = record {
  destination = refl;
  transfer_id = refl;
  counted = λ c. ground (arith, length-append (content_of s.temp) payload);
}

pub Keeps-take_data :
    (size : ℕ) (packet : RdtPacket) (s : Receiver) → Keeps s (take_data size packet s).1
unfolding take_data
Keeps-take_data size packet s =
    let written = (write_payload packet.payload s).1 in
    let duplicate = (count (λ t. record t { duplicate_packets = t.duplicate_packets + 1 }) s).1 in
    record {
      destination = ground (
        arith,
        Frame-send_ack s.expected_seq written,
        Frame-send_ack packet.sequence_number duplicate,
        Frame-send_ack (s.expected_seq - 1) s,
      );
      transfer_id = ground (
        arith,
        Frame-send_ack s.expected_seq written,
        Frame-send_ack packet.sequence_number duplicate,
        Frame-send_ack (s.expected_seq - 1) s,
      );
      counted = λ c. ground (
        arith,
        Keeps-write packet.payload s,
        Frame-send_ack s.expected_seq written,
        Frame-send_ack packet.sequence_number duplicate,
        Frame-send_ack (s.expected_seq - 1) s,
      );
    }

pub take_fin-state : (size : ℕ) (packet : RdtPacket) (s : Receiver) → (take_fin size packet s).1 ≡ s
unfolding take_fin
take_fin-state size packet s = ground arith

pub Keeps-take_packet :
    (size : ℕ) (packet : RdtPacket) (address : Address) (s : Receiver)
    → Keeps s (take_packet size packet address s).1
unfolding take_packet
Keeps-take_packet size packet address s =
    let known = (learn_peer address s).1 in
    record {
      destination =
          ground (arith, Keeps-take_data size packet known, take_fin-state size packet known);
      transfer_id =
          ground (arith, Keeps-take_data size packet known, take_fin-state size packet known);
      counted =
          λ c. ground (arith, Keeps-take_data size packet known, take_fin-state size packet known);
    }

Keeps-after_datagram :
    (fin : Option ℕ) (size : ℕ) (polls : List Poll) (s : Receiver)
    → Keeps s (receive_loop size polls s).1
    → Keeps s (after_datagram size polls fin s).1
Keeps-after_datagram none size polls s k = k
Keeps-after_datagram (some sequence) size polls s k = Keeps-refl s

-- A change of the context that is no change of its identity.
Keeps-count_packet : (s : Receiver) → Keeps s (count_packet s).1
Keeps-count_packet s = record { destination = refl; transfer_id = refl; counted = λ c. c }

Keeps-count_corrupted : (s : Receiver) → Keeps s (count_corrupted s).1
Keeps-count_corrupted s = record { destination = refl; transfer_id = refl; counted = λ c. c }

Keeps-cancel : (s : Receiver) → Keeps s (on_port (change_context Context.cancel) s).1
Keeps-cancel s = record { destination = refl; transfer_id = refl; counted = λ c. c }

pub Keeps-take_datagram :
    (size : ℕ) (datagram : Bytes) (address : Address) (s : Receiver)
    → Keeps s (take_datagram size datagram address s).1
unfolding take_datagram
Keeps-take_datagram size datagram address s = elim (Result-cases (decode_packet datagram)) [
  | inl (packet, e) ↦
      rw (e, take_datagram)
        (Keeps-trans (Keeps-count_packet s)
          (Keeps-take_packet size packet address (count_packet s).1))
  | inr (why, e) ↦ rw (e, take_datagram) (Keeps-count_corrupted s)
]

Keeps-check_cancelled : (s : Receiver) → Keeps s (check_cancelled s).1
Keeps-check_cancelled s = Frame-Keeps (Frame-check_cancelled s)

pub Keeps-receive_loop :
    (size : ℕ) (polls : List Poll) (s : Receiver) → Keeps s (receive_loop size polls s).1
unfolding receive_loop
Keeps-receive_loop size [] s = Keeps-refl s
Keeps-receive_loop size (timed_out ∷ polls) s =
    Keeps-bind check_cancelled (λ _. receive_loop size polls) s (Keeps-check_cancelled s)
      (λ _ t. Keeps-receive_loop size polls t)
Keeps-receive_loop size (receive_error ∷ polls) s =
    Keeps-bind check_cancelled (λ _. raise os_error) s (Keeps-check_cancelled s)
      (λ _ t. Keeps-refl t)
Keeps-receive_loop size (cancel_requested ∷ polls) s = Keeps-trans (Keeps-cancel s) (
    Keeps-bind check_cancelled (λ _. receive_loop size polls) _ (Keeps-check_cancelled _)
      (λ _ t. Keeps-receive_loop size polls t))
Keeps-receive_loop size (arrived datagram address ∷ polls) s =
    Keeps-bind check_cancelled
      (λ _. take_datagram size datagram address >>= λ fin. after_datagram size polls fin) s
      (Keeps-check_cancelled s)
      (λ _ t.
        Keeps-bind (take_datagram size datagram address) (λ fin. after_datagram size polls fin) t
          (Keeps-take_datagram size datagram address t)
          (λ fin u. Keeps-after_datagram fin size polls u (Keeps-receive_loop size polls u)))
