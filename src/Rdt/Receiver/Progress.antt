-- ===== src/Rdt/Receiver/Progress.antt =====
-- The receiver makes progress: when the chunks and the FIN come in order, with noise between them,
-- and its own sends go through, `receive_file` returns. Here: the data packets.
pub mod Packets
use hybrid_ftp_system.Prelude.{
  ℕ, zero, suc, ◌+◌, ◌<◌, ◌≤◌, ◌^◌, ◌≡◌, ◌⊎◌, inr, refl, sym, ap, ◌∙◌, arith, true, false, List, [],
  ◌∷◌, length, length-append, concat, concat-take-suc, take, take-length, get_elem?, Bytes, none,
  some, ok, same_refl,
}
use hybrid_ftp_system.Protocol.PacketFlag
use hybrid_ftp_system.Protocol.Packet.{RdtPacket, has_flag}
use hybrid_ftp_system.Protocol.Codec.{encode_packet}
use hybrid_ftp_system.Protocol.Codec.Encode.{encode-total}
use hybrid_ftp_system.Rdt.Port.{Address, inject, encode}
use hybrid_ftp_system.Rdt.Sender.{same_address}
use hybrid_ftp_system.Rdt.Receiver.{take_data, take_fin, take_packet, write_payload, learn_peer}
use hybrid_ftp_system.Rdt.Reception.{Receiver, send, send_ack, ack_packet, count}
use hybrid_ftp_system.Rdt.Receiver.Assembly.{Assembled, take_data-Assembled, known_Assembled}
use hybrid_ftp_system.Rdt.Receiver.Frame.{Frame-send_ack}

pub length-take_le : (n : ℕ) (cs : List Bytes) → length (concat (take n cs)) ≤ length (concat cs)
length-take_le zero cs = omega arith
length-take_le (suc n) [] = omega arith
length-take_le (suc n) (c ∷ cs) =
    omega (
      arith,
      length-append c (concat (take n cs)),
      length-append c (concat cs),
      length-take_le n cs,
    )

pub length-one_more :
    (cs : List Bytes) (i : ℕ) {c : Bytes}
    → get_elem? cs i ≡ some c
    → length (concat (take (suc i) cs)) ≡ length (concat (take i cs)) + length c
length-one_more cs i {c} g =
    ap length (concat-take-suc cs i g) ∙ length-append (concat (take i cs)) c

module _ (tid : ℕ) (from : Address) (cs : List Bytes) where
  -- Not cancelled, its sends go through, and it listens to `from`.
  pub record Ready (s : Receiver) : Type 0 where
    pub transfer_id : s.port.context.transfer_id ≡ tid
    pub outcomes : s.port.outcomes ≡ []
    pub running : s.port.context.cancel_event ≡ false
    pub peer : s.peer ≡ some from

  ack_encodes :
      (i : ℕ)
      → tid < 2 ^ 64
      → i < 2 ^ 32
      → (d : Bytes) × (q : RdtPacket) × (encode_packet (ack_packet tid i) ≡ ok (d, q))
  ack_encodes i t h =
      encode-total (ack_packet tid i)
        (record {
          magic_is = refl;
          version_is = refl;
          has_some_flag = omega arith;
          transfer_id_fits = t;
          sequence_fits = omega arith;
          acknowledgment_fits = h;
          window_fits = omega arith;
          payload_fits = omega arith;
          checksum_fits = omega arith;
        })
        (omega arith) tt

  send_ack-Ready :
      (i : ℕ) (s : Receiver)
      → tid < 2 ^ 64
      → i < 2 ^ 32
      → Ready s
      → ((send_ack i s).0 ≡ ok tt) × Ready (send_ack i s).1
  unfolding send_ack send encode inject
  send_ack-Ready i s t h r =
      let (d, q, e) = ack_encodes i t h in
      let written : encode_packet (ack_packet s.port.context.transfer_id i) ≡ ok (d, q) =
        rw r.transfer_id e in
      (
        ground (arith, written, r.outcomes, r.peer),
        record {
          transfer_id = ground (arith, written, r.transfer_id);
          outcomes = ground (arith, written, r.outcomes);
          running = ground (arith, written, r.running);
          peer = ground (arith, written, r.peer);
        },
      )

  -- Behind `i` chunks.
  pub record At (i : ℕ) (s : Receiver) : Type 0 where
    pub transfer_id : s.port.context.transfer_id ≡ tid
    pub outcomes : s.port.outcomes ≡ []
    pub running : s.port.context.cancel_event ≡ false
    pub heard : (s.peer ≡ none) ⊎ (s.peer ≡ some from)
    pub expected : s.expected_seq ≡ i
    pub counted : s.received_bytes ≡ length (concat (take i cs))
    pub assembled : Assembled tid cs s

  pub take_data-next :
      (size i : ℕ) (q : RdtPacket) (s : Receiver)
      → tid < 2 ^ 64
      → i < 2 ^ 32
      → q.sequence_number ≡ i
      → s.expected_seq ≡ i
      → s.received_bytes + length q.payload ≤ size
      → Ready s
      → ((take_data size q s).0 ≡ ok tt)
        × Ready (take_data size q s).1
        × ((take_data size q s).1.expected_seq ≡ i + 1)
        × ((take_data size q s).1.received_bytes ≡ s.received_bytes + length q.payload)
  unfolding take_data
  take_data-next size i q s t h seq expected fits r =
      let written = (write_payload q.payload s).1 in
      let (acked, after) =
        send_ack-Ready s.expected_seq written t (omega (arith, h, expected)) (record {
          transfer_id = r.transfer_id;
          outcomes = r.outcomes;
          running = r.running;
          peer = r.peer;
        }) in
      let frame = Frame-send_ack s.expected_seq written in
      (
        ground (arith, acked, seq, expected, fits),
        record {
          transfer_id = ground (arith, acked, after.transfer_id, seq, expected, fits);
          outcomes = ground (arith, acked, after.outcomes, seq, expected, fits);
          running = ground (arith, acked, after.running, seq, expected, fits);
          peer = ground (arith, acked, after.peer, seq, expected, fits);
        },
        ground (arith, acked, frame, seq, expected, fits),
        ground (arith, acked, frame, seq, expected, fits),
      )

  pub take_data-again :
      (size i : ℕ) (q : RdtPacket) (s : Receiver)
      → tid < 2 ^ 64
      → i < 2 ^ 32
      → q.sequence_number < i
      → s.expected_seq ≡ i
      → Ready s
      → ((take_data size q s).0 ≡ ok tt)
        × Ready (take_data size q s).1
        × ((take_data size q s).1.expected_seq ≡ i)
        × ((take_data size q s).1.received_bytes ≡ s.received_bytes)
  unfolding take_data
  take_data-again size i q s t h earlier expected r =
      let repeated = (count (λ t. record t { duplicate_packets = t.duplicate_packets + 1 }) s).1 in
      let (acked, after) =
        send_ack-Ready q.sequence_number repeated t (omega (arith, h, earlier)) (record {
          transfer_id = r.transfer_id;
          outcomes = r.outcomes;
          running = r.running;
          peer = r.peer;
        }) in
      let frame = Frame-send_ack q.sequence_number repeated in
      (
        ground (arith, acked, earlier, expected),
        record {
          transfer_id = ground (arith, acked, after.transfer_id, earlier, expected);
          outcomes = ground (arith, acked, after.outcomes, earlier, expected);
          running = ground (arith, acked, after.running, earlier, expected);
          peer = ground (arith, acked, after.peer, earlier, expected);
        },
        ground (arith, acked, frame, earlier, expected),
        ground (arith, acked, frame, earlier, expected),
      )
