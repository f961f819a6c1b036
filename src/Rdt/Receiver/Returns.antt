-- ===== src/Rdt/Receiver/Returns.antt =====
-- `receive_file` returns when the chunks and the FIN come in order, with noise between them.
use hybrid_ftp_system.Prelude.{
  ℕ, suc, ◌<◌, ◌≤◌, ◌^◌, ◌≡◌, refl, ap, ◌∙◌, arith, List, ◌∷◌, length, concat, take, take-length,
  get_elem?, get_elem?-lt, Bytes, none, some, ok, err,
}
use hybrid_ftp_system.Protocol.PacketFlag
use hybrid_ftp_system.Protocol.Packet.{RdtPacket}
use hybrid_ftp_system.Protocol.Codec.{decode_packet, PacketDecodeError}
use hybrid_ftp_system.Rdt.Port.{Address}
use hybrid_ftp_system.Rdt.Receiver.{
  take_packet, take_datagram, check_cancelled, receive_loop, count_packet, count_corrupted,
  learn_peer,
}
use hybrid_ftp_system.Rdt.Reception.{Receiver, Poll, timed_out, arrived}
use hybrid_ftp_system.Rdt.Receiver.Progress.{Ready, At}
use hybrid_ftp_system.Rdt.Receiver.Progress.Packets.{
  take_packet-next, take_packet-again, take_packet-finished, learned,
}

module _ (tid : ℕ) (from : Address) (cs : List Bytes) where
  -- The polls that bring the chunks from `i` on, each in its turn, and the FIN behind them; with
  -- timeouts, datagrams that are refused and repeated chunks in any number between them.
  pub data Brings : ℕ → List Poll → Type 0 where
    quiet : {i : ℕ} {polls : List Poll} → Brings i polls → Brings i (timed_out ∷ polls)
    refused :
        {i : ℕ} {polls : List Poll} (d : Bytes) (a : Address) (e : PacketDecodeError)
        → decode_packet d ≡ err e
        → Brings i polls
        → Brings i (arrived d a ∷ polls)
    again :
        {i : ℕ} {polls : List Poll} (d : Bytes) (q : RdtPacket)
        → decode_packet d ≡ ok q
        → q.transfer_id ≡ tid
        → q.flags ≡ PacketFlag.data_flag
        → q.sequence_number < i
        → get_elem? cs q.sequence_number ≡ some q.payload
        → Brings i polls
        → Brings i (arrived d from ∷ polls)
    next :
        {i : ℕ} {polls : List Poll} (d : Bytes) (q : RdtPacket)
        → decode_packet d ≡ ok q
        → q.transfer_id ≡ tid
        → q.flags ≡ PacketFlag.data_flag
        → q.sequence_number ≡ i
        → get_elem? cs i ≡ some q.payload
        → Brings (suc i) polls
        → Brings i (arrived d from ∷ polls)
    finished :
        {i : ℕ} (polls : List Poll) (d : Bytes) (q : RdtPacket)
        → decode_packet d ≡ ok q
        → q.transfer_id ≡ tid
        → q.flags ≡ PacketFlag.fin
        → q.sequence_number ≡ i
        → i ≡ length cs
        → Brings i (arrived d from ∷ polls)

  At-counted : (i : ℕ) (s : Receiver) → At tid from cs i s → At tid from cs i (count_packet s).1
  At-counted i s a = record {
    transfer_id = a.transfer_id;
    outcomes = a.outcomes;
    running = a.running;
    heard = a.heard;
    expected = a.expected;
    counted = a.counted;
    assembled = record {
      transfer_id = a.transfer_id;
      temp = a.assembled.temp;
      within = a.assembled.within;
    };
  }

  At-refused : (i : ℕ) (s : Receiver) → At tid from cs i s → At tid from cs i (count_corrupted s).1
  At-refused i s a = record {
    transfer_id = a.transfer_id;
    outcomes = a.outcomes;
    running = a.running;
    heard = a.heard;
    expected = a.expected;
    counted = a.counted;
    assembled = record {
      transfer_id = a.transfer_id;
      temp = a.assembled.temp;
      within = a.assembled.within;
    };
  }

  whole :
      (i : ℕ) (s : Receiver)
      → At tid from cs i s
      → i ≡ length cs
      → (learn_peer from (count_packet s).1).1.temp ≡ some (concat cs)
  whole i s a all =
      ground
        (arith, a.assembled.temp, ap (λ n. concat (take n cs)) (a.expected ∙ all), take-length cs)

  goes_on : (i : ℕ) (s : Receiver) → At tid from cs i s → check_cancelled s ≡ (ok tt, s)
  unfolding check_cancelled
  goes_on i s a = ground (arith, a.running)

  read :
      (size : ℕ) (d : Bytes) (a : Address) (q : RdtPacket) (s : Receiver)
      → decode_packet d ≡ ok q
      → take_datagram size d a s ≡ take_packet size q a (count_packet s).1
  unfolding take_datagram
  read size d a q s e = rw (e, take_datagram) refl

  unread :
      (size : ℕ) (d : Bytes) (a : Address) (e : PacketDecodeError) (s : Receiver)
      → decode_packet d ≡ err e
      → take_datagram size d a s ≡ (ok none, (count_corrupted s).1)
  unfolding take_datagram
  unread size d a e s h = rw (h, take_datagram) refl

  module _ (size : ℕ) (t : tid < 2 ^ 64) (h : length cs < 2 ^ 32)
      (total : size ≡ length (concat cs)) where
    after_none :
        (d : Bytes) (a : Address) (polls : List Poll) (i : ℕ) (s : Receiver)
        → At tid from cs i s
        → (take_datagram size d a s).0 ≡ ok none
        → receive_loop size (arrived d a ∷ polls) s
          ≡ receive_loop size polls (take_datagram size d a s).1
    unfolding receive_loop
    after_none d a polls i s at e = rw (goes_on i s at, e) refl

    after_fin :
        (d : Bytes) (a : Address) (polls : List Poll) (i n : ℕ) (s : Receiver)
        → At tid from cs i s
        → (take_datagram size d a s).0 ≡ ok (some n)
        → receive_loop size (arrived d a ∷ polls) s ≡ (ok n, (take_datagram size d a s).1)
    unfolding receive_loop
    after_fin d a polls i n s at e = rw (goes_on i s at, e) refl

    after_quiet :
        (polls : List Poll) (i : ℕ) (s : Receiver)
        → At tid from cs i s
        → receive_loop size (timed_out ∷ polls) s ≡ receive_loop size polls s
    unfolding receive_loop
    after_quiet polls i s at = rw (goes_on i s at) refl

    -- The loop ends at the FIN, ready to answer it.
    pub receive_loop-Brings :
        (i : ℕ) (polls : List Poll) (s : Receiver)
        → i ≤ length cs
        → At tid from cs i s
        → Brings i polls
        → ((receive_loop size polls s).0 ≡ ok (length cs))
          × Ready tid from cs (receive_loop size polls s).1
          × ((receive_loop size polls s).1.temp ≡ some (concat cs))
    receive_loop-Brings i _ s le at (quiet {polls = polls} more) =
        rw (after_quiet polls i s at) (receive_loop-Brings i polls s le at more)
    receive_loop-Brings i _ s le at (refused {polls = polls} d a e h more) =
        let step = unread size d a e s h in
        rw (after_none d a polls i s at (ap (λ r. r.0) step), step)
          (receive_loop-Brings i polls (count_corrupted s).1 le (At-refused i s at) more)
    receive_loop-Brings i _ s le at (again {polls = polls} d q e id flag earlier g more) =
        let step = read size d from q s e in
        let (ended, here) =
          take_packet-again tid from cs size i q (count_packet s).1 t (omega (arith, le, h))
            (At-counted i s at) id flag earlier g in
        rw (after_none d from polls i s at (ap (λ r. r.0) step ∙ ended), step)
          (receive_loop-Brings i polls (take_packet size q from (count_packet s).1).1 le here more)
    receive_loop-Brings i _ s le at (next {polls = polls} d q e id flag seq g more) =
        let step = read size d from q s e in
        let (ended, here) =
          take_packet-next tid from cs size i q (count_packet s).1 t (omega (arith, le, h))
            (At-counted i s at) id total flag seq g in
        rw (after_none d from polls i s at (ap (λ r. r.0) step ∙ ended), step)
          (receive_loop-Brings (suc i) polls (take_packet size q from (count_packet s).1).1
            (omega (arith, get_elem?-lt cs i g)) here more)
    receive_loop-Brings i _ s le at (finished polls d q e id flag seq all) =
        let step = read size d from q s e in
        let last =
          take_packet-finished tid from cs size i q (count_packet s).1 t (omega (arith, le, h))
            (At-counted i s at) id total flag seq all in
        rw (after_fin d from polls i i s at (ap (λ r. r.0) (step ∙ last)), step, last)
          (
            ap ok all,
            learned tid from cs i (count_packet s).1 (At-counted i s at),
            whole i s at all,
          )
