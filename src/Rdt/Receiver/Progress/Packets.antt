-- ===== src/Rdt/Receiver/Progress/Packets.antt =====
-- What one packet of the transfer does to a receiver behind `i` chunks.
use hybrid_ftp_system.Prelude.{
  ℕ, suc, ◌+◌, ◌<◌, ◌≤◌, ◌^◌, ◌≡◌, inr, refl, sym, ap, ◌∙◌, arith, true, List, length, concat, take,
  take-length, get_elem?, Bytes, none, some, ok, same_refl,
}
use hybrid_ftp_system.Protocol.PacketFlag
use hybrid_ftp_system.Protocol.Packet.{RdtPacket, has_flag}
use hybrid_ftp_system.Rdt.Port.{Address}
use hybrid_ftp_system.Rdt.Sender.{same_address}
use hybrid_ftp_system.Rdt.Receiver.{take_data, take_fin, take_packet, learn_peer}
use hybrid_ftp_system.Rdt.Reception.{Receiver, count}
use hybrid_ftp_system.Rdt.Receiver.Assembly.{take_data-Assembled, known_Assembled}
use hybrid_ftp_system.Rdt.Receiver.Progress.{
  length-take_le, length-one_more, Ready, At, take_data-next, take_data-again,
}

module _ (tid : ℕ) (from : Address) (cs : List Bytes) where
  address_itself : same_address from from ≡ true
  address_itself = ground (arith, same_refl from.host)

  pub learned :
      (i : ℕ) (s : Receiver) → At tid from cs i s → Ready tid from cs (learn_peer from s).1
  learned i s a = record {
    transfer_id = ground (arith, a.transfer_id);
    outcomes = ground (arith, a.outcomes);
    running = ground (arith, a.running);
    peer = ground (arith, a.heard);
  }

  -- A DATA packet of this transfer goes to `take_data`.
  take_packet-data :
      (size i : ℕ) (q : RdtPacket) (s : Receiver)
      → At tid from cs i s
      → q.transfer_id ≡ tid
      → q.flags ≡ PacketFlag.data_flag
      → (take_data size q (learn_peer from s).1).0 ≡ ok tt
      → take_packet size q from s ≡ (ok none, (take_data size q (learn_peer from s).1).1)
  unfolding take_packet has_flag
  take_packet-data size i q s a id flag e =
      ground (arith, a.transfer_id, a.heard, id, flag, e, address_itself)

  module _ (size i : ℕ) (q : RdtPacket) (s : Receiver) (t : tid < 2 ^ 64) (h : i < 2 ^ 32)
      (a : At tid from cs i s) (id : q.transfer_id ≡ tid) where
    abbrev pub known : Receiver
    known = (learn_peer from s).1

    known_expected : known.expected_seq ≡ i
    known_expected = ground (arith, a.expected)

    known_counted : known.received_bytes ≡ length (concat (take i cs))
    known_counted = ground (arith, a.counted)

    pub take_packet-next :
        size ≡ length (concat cs)
        → q.flags ≡ PacketFlag.data_flag
        → q.sequence_number ≡ i
        → get_elem? cs i ≡ some q.payload
        → ((take_packet size q from s).0 ≡ ok none)
          × At tid from cs (suc i) (take_packet size q from s).1
    take_packet-next total flag seq g =
        let more = length-one_more cs i g in
        let fits : known.received_bytes + length q.payload ≤ size =
          omega (arith, known_counted, more, total, length-take_le (suc i) cs) in
        let (e, r, grown, count) =
          take_data-next tid from cs size i q known t h seq known_expected fits (learned i s a) in
        let step = take_packet-data size i q s a id flag e in
        rw step (
          refl,
          record {
            transfer_id = r.transfer_id;
            outcomes = r.outcomes;
            running = r.running;
            heard = inr r.peer;
            expected = grown ∙ omega arith;
            counted = count ∙ ap (λ n. n + length q.payload) known_counted ∙ sym more;
            assembled =
                take_data-Assembled tid cs size q known (rw (← seq) at g)
                  (known_Assembled tid cs from s a.assembled) e;
          },
        )

    pub take_packet-again :
        q.flags ≡ PacketFlag.data_flag
        → q.sequence_number < i
        → get_elem? cs q.sequence_number ≡ some q.payload
        → ((take_packet size q from s).0 ≡ ok none) × At tid from cs i (take_packet size q from s).1
    take_packet-again flag earlier g =
        let (e, r, same_place, count) =
          take_data-again tid from cs size i q known t h earlier known_expected (learned i s a) in
        let step = take_packet-data size i q s a id flag e in
        rw step (
          refl,
          record {
            transfer_id = r.transfer_id;
            outcomes = r.outcomes;
            running = r.running;
            heard = inr r.peer;
            expected = same_place;
            counted = count ∙ known_counted;
            assembled =
                take_data-Assembled tid cs size q known g
                  (known_Assembled tid cs from s a.assembled) e;
          },
        )

    pub take_packet-finished :
        size ≡ length (concat cs)
        → q.flags ≡ PacketFlag.fin
        → q.sequence_number ≡ i
        → i ≡ length cs
        → take_packet size q from s ≡ (ok (some i), known)
    unfolding take_packet take_fin has_flag
    take_packet-finished total flag seq all =
        let counted : known.received_bytes ≡ size =
          known_counted
          ∙ ap (λ n. length (concat (take n cs))) all
          ∙ ap (λ c. length (concat c)) (take-length cs)
          ∙ sym total in
        ground
          (arith, a.transfer_id, a.heard, id, flag, seq, known_expected, counted, address_itself)
