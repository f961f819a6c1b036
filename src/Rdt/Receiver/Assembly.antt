-- ===== src/Rdt/Receiver/Assembly.antt =====
-- The receiver puts the chunks of the file together in order, under loss, duplication, reordering
-- and corruption, as long as the packets of this transfer come from its sender.
use hybrid_ftp_system.Prelude.{
  ℕ, suc, ◌+◌, ◌-◌, ◌≤◌, ◌≡◌, ◌∙◌, arith, inl, inr, true, false, Bytes, none, some, ok,
  Result-cases, length, List, ◌++◌, concat, take, take-length, concat-take-suc, get_elem?,
  get_elem?-lt,
}
use hybrid_ftp_system.Protocol.PacketFlag
use hybrid_ftp_system.Protocol.Packet.{RdtPacket, has_flag}
use hybrid_ftp_system.Protocol.Codec.{decode_packet}
use hybrid_ftp_system.Rdt.Port.{Address}
use hybrid_ftp_system.Rdt.Receiver.{
  take_datagram, take_packet, take_data, take_fin, receive_loop, write_payload, count_packet,
  count_corrupted, learn_peer,
}
use hybrid_ftp_system.Rdt.Reception.{Receiver, Poll, count}
use hybrid_ftp_system.Rdt.Receiver.Frame.{Frame, Frame-send_ack}
use hybrid_ftp_system.Rdt.Receiver.Loop.{Arrivals, receive_loop_rule}
use hybrid_ftp_system.Rdt.Receiver.Keeps.{take_fin-state}

-- The packets that a sender of these chunks emits.
pub data FromSender (cs : List Bytes) (q : RdtPacket) : Type 0 where
  chunk :
      q.flags ≡ PacketFlag.data_flag
      → get_elem? cs q.sequence_number ≡ some q.payload
      → FromSender cs q
  last : q.flags ≡ PacketFlag.fin → q.sequence_number ≡ length cs → FromSender cs q
  stop : q.flags ≡ PacketFlag.cancel → FromSender cs q

-- A datagram that is refused, belongs to another transfer, or carries a packet of the sender.
abbrev pub IsGenuine : ℕ → List Bytes → Bytes → Type 0
IsGenuine tid cs d =
    (q : RdtPacket) → decode_packet d ≡ ok q → q.transfer_id ≡ tid → FromSender cs q

-- The temporary file holds the chunks before the one that is expected.
pub record Assembled (tid : ℕ) (cs : List Bytes) (s : Receiver) : Type 0 where
  pub transfer_id : s.port.context.transfer_id ≡ tid
  pub temp : s.temp ≡ some (concat (take s.expected_seq cs))
  pub within : s.expected_seq ≤ length cs

add_one : (n : ℕ) → n + 1 ≡ suc n
add_one n = omega arith

module _ (tid : ℕ) (cs : List Bytes) where
  Frame-Assembled : (s t : Receiver) → Frame s t → Assembled tid cs s → Assembled tid cs t
  Frame-Assembled s t f a = record {
    transfer_id = f.transfer_id ∙ a.transfer_id;
    temp = rw (f.temp, f.expected_seq) a.temp;
    within = rw f.expected_seq a.within;
  }

  grown :
      (q : RdtPacket) (n : ℕ)
      → get_elem? cs q.sequence_number ≡ some q.payload
      → q.sequence_number ≡ n
      → concat (take (n + 1) cs) ≡ concat (take n cs) ++ q.payload
  grown q n g e = rw (add_one n) (concat-take-suc cs n (rw e at g))

  pub take_data-Assembled :
      (size : ℕ) (q : RdtPacket) (s : Receiver)
      → get_elem? cs q.sequence_number ≡ some q.payload
      → Assembled tid cs s
      → (take_data size q s).0 ≡ ok tt
      → Assembled tid cs (take_data size q s).1
  unfolding take_data
  take_data-Assembled size q s g a h =
      let written = (write_payload q.payload s).1 in
      let duplicate = (count (λ t. record t { duplicate_packets = t.duplicate_packets + 1 }) s).1 in
      record {
        transfer_id = ground (
          arith,
          a.transfer_id,
          Frame-send_ack s.expected_seq written,
          Frame-send_ack q.sequence_number duplicate,
          Frame-send_ack (s.expected_seq - 1) s,
        );
        temp = ground (
          arith,
          a.temp,
          grown q s.expected_seq g,
          Frame-send_ack s.expected_seq written,
          Frame-send_ack q.sequence_number duplicate,
          Frame-send_ack (s.expected_seq - 1) s,
        );
        within = ground (
          arith,
          a.within,
          get_elem?-lt cs q.sequence_number g,
          Frame-send_ack s.expected_seq written,
          Frame-send_ack q.sequence_number duplicate,
          Frame-send_ack (s.expected_seq - 1) s,
        );
      }

  -- At the `break`: all the chunks are there.
  pub record Complete (n : ℕ) (s : Receiver) : Type 0 where
    pub temp : s.temp ≡ some (concat cs)
    pub fin_sequence : n ≡ length cs

  pub known_Assembled :
      (address : Address) (s : Receiver)
      → Assembled tid cs s
      → Assembled tid cs (learn_peer address s).1
  known_Assembled address s a = record {
    transfer_id = ground (arith, a.transfer_id);
    temp = ground (arith, a.temp);
    within = ground (arith, a.within);
  }

  data-chunk :
      (q : RdtPacket)
      → FromSender cs q
      → has_flag q PacketFlag.data_flag ≡ true
      → get_elem? cs q.sequence_number ≡ some q.payload
  unfolding has_flag
  data-chunk q (chunk f g) h = g
  data-chunk q (last f e) h = absurd (ground (arith, rw f at h))
  data-chunk q (stop f) h = absurd (ground (arith, rw f at h))

  fin-last :
      (q : RdtPacket)
      → FromSender cs q
      → has_flag q PacketFlag.data_flag ≡ false
      → has_flag q PacketFlag.fin ≡ true
      → q.sequence_number ≡ length cs
  unfolding has_flag
  fin-last q (chunk f g) d h = absurd (ground (arith, rw f at h))
  fin-last q (last f e) d h = e
  fin-last q (stop f) d h = absurd (ground (arith, rw f at h))

  module _ (size : ℕ) (q : RdtPacket) (address : Address) (s : Receiver)
      (from : q.transfer_id ≡ tid → FromSender cs q) (a : Assembled tid cs s) where
    known : Receiver
    known = (learn_peer address s).1

    stored :
        q.transfer_id ≡ tid
        → has_flag q PacketFlag.data_flag ≡ true
        → (take_data size q known).0 ≡ ok tt
        → Assembled tid cs (take_data size q known).1
    unfolding known
    stored i f h =
        take_data-Assembled size q known (data-chunk q (from i) f) (known_Assembled address s a) h

    take_packet-Assembled :
        (take_packet size q address s).0 ≡ ok none
        → Assembled tid cs (take_packet size q address s).1
    unfolding take_packet known
    take_packet-Assembled h = record {
      transfer_id = ground (arith, a.transfer_id, stored, take_fin-state size q known);
      temp = ground (arith, a, stored, take_fin-state size q known);
      within = ground (arith, a, stored, take_fin-state size q known);
    }

    ended :
        {n : ℕ}
        → q.transfer_id ≡ tid
        → has_flag q PacketFlag.data_flag ≡ false
        → has_flag q PacketFlag.fin ≡ true
        → (take_fin size q known).0 ≡ ok (some n)
        → (known.expected_seq ≡ length cs) × (n ≡ length cs)
    unfolding take_fin known
    ended i d f h = ground (arith, fin-last q (from i) d f)

    take_packet-Complete :
        {n : ℕ}
        → (take_packet size q address s).0 ≡ ok (some n)
        → Complete n (take_packet size q address s).1
    unfolding take_packet known
    take_packet-Complete {n} h = record {
      temp = ground (arith, a.temp, take-length cs, ended {n = n}, take_fin-state size q known);
      fin_sequence = ground (arith, ended {n = n}, take_fin-state size q known);
    }

  module _ (size : ℕ) (d : Bytes) (address : Address) (s : Receiver) (from : IsGenuine tid cs d)
      (a : Assembled tid cs s) where
    take_datagram-Assembled :
        (take_datagram size d address s).0 ≡ ok none
        → Assembled tid cs (take_datagram size d address s).1
    unfolding take_datagram
    take_datagram-Assembled h = elim (Result-cases (decode_packet d)) [
      | inl (q, e) ↦
          rw (e, take_datagram)
            (take_packet-Assembled size q address (count_packet s).1 (from q e) (counted a)
              (rw (e, take_datagram) at h))
      | inr (why, e) ↦ rw (e, take_datagram) (refused a)
    ]
      where
        counted : Assembled tid cs s → Assembled tid cs (count_packet s).1
        counted a = record { transfer_id = a.transfer_id; temp = a.temp; within = a.within }

        refused : Assembled tid cs s → Assembled tid cs (count_corrupted s).1
        refused a = record { transfer_id = a.transfer_id; temp = a.temp; within = a.within }

    take_datagram-Complete :
        {n : ℕ}
        → (take_datagram size d address s).0 ≡ ok (some n)
        → Complete n (take_datagram size d address s).1
    unfolding take_datagram
    take_datagram-Complete h = elim (Result-cases (decode_packet d)) [
      | inl (q, e) ↦
          rw (e, take_datagram)
            (take_packet-Complete size q address (count_packet s).1 (from q e) (counted a)
              (rw (e, take_datagram) at h))
      | inr (why, e) ↦ ground (arith, e)
    ]
      where
        counted : Assembled tid cs s → Assembled tid cs (count_packet s).1
        counted a = record { transfer_id = a.transfer_id; temp = a.temp; within = a.within }

  -- The loop ends with all the chunks.
  pub receive_loop-Complete :
      (size : ℕ) (polls : List Poll) (s : Receiver) (n : ℕ)
      → Arrivals (λ d _. IsGenuine tid cs d) polls
      → Assembled tid cs s
      → (receive_loop size polls s).0 ≡ ok n
      → Complete n (receive_loop size polls s).1
  receive_loop-Complete size polls s n =
      receive_loop_rule size (Assembled tid cs) Complete (λ d _. IsGenuine tid cs d) Frame-Assembled
        (λ d a s from p h. take_datagram-Assembled size d a s from p h)
        (λ d a s n from p h. take_datagram-Complete size d a s from p h) polls s n
