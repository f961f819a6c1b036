-- ===== src/Rdt/Link.antt =====
-- rdt/sender.py, rdt/fault_injector.py and rdt/receiver.py together: from the file that is sent to
-- the file at the destination, over a network that loses, repeats, reorders and corrupts.
use mathlib.Core.List.{Memᴰ}
use mathlib.Core.Path.{subst}
use hybrid_ftp_system.Prelude.{
  ℕ, zero, suc, ◌<◌, ◌≡◌, ◌≢◌, sym, ap, ◌∙◌, arith, inl, inr, Bytes, IsByte, IsBytes, some, ok,
  List, [], ◌∷◌, get_elem?, All, All-map, All-append,
}
use hybrid_ftp_system.Prelude.Int.{pos_part}
use hybrid_ftp_system.Protocol.Packet.{RdtPacket}
use hybrid_ftp_system.Protocol.Codec.{encode_packet, decode_packet}
use hybrid_ftp_system.Protocol.Codec.Encode.{encode-Encodes, pack_header-IsBytes}
use hybrid_ftp_system.Protocol.Codec.Decode.{decode-encode}
use hybrid_ftp_system.Protocol.FileHash.{Sha256, read_chunks}
use hybrid_ftp_system.Protocol.FileHash.Chunks.{read_chunks-IsChunk}
use hybrid_ftp_system.Rdt.FaultInjector.{Random, FaultInjector, sendto}
use hybrid_ftp_system.Rdt.FaultInjector.Faults.{sendto-decode}
use hybrid_ftp_system.Rdt.Sender.{Sender, send_file, data_packet, fin_packet, cancel_packet}
use hybrid_ftp_system.Rdt.Sender.Emits.{injections}
use hybrid_ftp_system.Rdt.Sender.Transfer.{IsEmission, chunk, last, send_file-emissions}
use hybrid_ftp_system.Rdt.Receiver.{receive_file}
use hybrid_ftp_system.Rdt.Reception.{
  Receiver, Poll, timed_out, receive_error, arrived, cancel_requested,
}
use hybrid_ftp_system.Rdt.Receiver.Loop.{Arrivals}
use hybrid_ftp_system.Rdt.Receiver.Assembly as Assembly
use hybrid_ftp_system.Rdt.Receiver.Assembly.{IsGenuine, FromSender}
use hybrid_ftp_system.Rdt.Receiver.Delivery.{receive_file-content}

All-at {ℓ κ} : {A : Type ℓ} (P : A → Type κ) (xs : List A) {x : A} → All P xs → Memᴰ x xs → P x
All-at P [] h m = elim m [ ]
All-at P (y ∷ xs) h (Memᴰ.head e) = subst P (sym e) h.0
All-at P (y ∷ xs) h (Memᴰ.tail m) = All-at P xs h.1 m

All-get_elem? {ℓ κ} :
    {A : Type ℓ} (P : A → Type κ) (xs : List A) (i : ℕ) {x : A}
    → All P xs
    → get_elem? xs i ≡ some x
    → P x
All-get_elem? P [] i h e = cc
All-get_elem? P (y ∷ xs) zero {x} h e = let same : y ≡ x = cc in subst P same h.0
All-get_elem? P (y ∷ xs) (suc i) h e = All-get_elem? P xs i h.1 e

encode-IsBytes :
    (p : RdtPacket) {d : Bytes} {q : RdtPacket}
    → IsBytes p.payload
    → encode_packet p ≡ ok (d, q)
    → IsBytes d
encode-IsBytes p b e =
    let s = encode-Encodes p e in
    subst IsBytes (sym s.datagram_is)
      (All-append IsByte s.final p.payload (pack_header-IsBytes _ s.final_is) b)

-- How an emission is read by the codec: as the packet that it encodes.
emission-bytes :
    (tid : ℕ) (cs : List Bytes) {d : Bytes} → All IsBytes cs → IsEmission tid cs d → IsBytes d
emission-bytes tid cs b (chunk i c q g e) =
    encode-IsBytes (data_packet tid i c) (All-get_elem? IsBytes cs i b g) e
emission-bytes tid cs b (last q e) = encode-IsBytes (fin_packet tid _) tt e

emission-packet :
    (tid : ℕ) (cs : List Bytes) {d : Bytes}
    → IsEmission tid cs d
    → (q : RdtPacket) × (decode_packet d ≡ ok q) × FromSender cs q
emission-packet tid cs (chunk i c q g e) =
    let packet = (encode-Encodes (data_packet tid i c) e).packet_is in
    (
      q,
      decode-encode (data_packet tid i c) e,
      Assembly.chunk (ap (λ p. p.flags) packet)
          (rw (ap (λ p. p.sequence_number) packet, ap (λ p. p.payload) packet) g),
    )
emission-packet tid cs (last q e) =
    let packet = (encode-Encodes (fin_packet tid _) e).packet_is in
    (
      q,
      decode-encode (fin_packet tid _) e,
      Assembly.last (ap (λ p. p.flags) packet) (ap (λ p. p.sequence_number) packet),
    )

module _ (r : Random) (sender : Sender) (log : List Bytes) where
  -- A datagram that may reach the receiver: what a fault injector in some state puts on the wire
  -- for a datagram of the log, a CANCEL of the sender, or one that is not of this transfer.
  pub data MayArrive (w : Bytes) : Type 0 where
    sent :
        (injector : FaultInjector r) (d : Bytes)
        → Memᴰ d log
        → Memᴰ w (sendto r injector d).wire
        → MayArrive w
    cancelled : (q : RdtPacket) → encode_packet (cancel_packet sender) ≡ ok (w, q) → MayArrive w
    foreign :
        ((q : RdtPacket) → decode_packet w ≡ ok q → q.transfer_id ≢ sender.port.context.transfer_id)
        → MayArrive w

  module _ (cs : List Bytes) (b : All IsBytes cs)
      (emitted : All (IsEmission sender.port.context.transfer_id cs) log) where
    from_wire :
        (d w : Bytes) (injector : FaultInjector r)
        → IsEmission sender.port.context.transfer_id cs d
        → Memᴰ w (sendto r injector d).wire
        → IsGenuine sender.port.context.transfer_id cs w
    from_wire d w injector e m q h i =
        let tid = sender.port.context.transfer_id in
        let (p, read, from) = emission-packet tid cs e in
        elim (All-at _ _ (sendto-decode r injector d (emission-bytes tid cs b e) read) m) [
          | inl whole ↦ subst (FromSender cs) (let e : p ≡ q = cc in e) from
          | inr (why, refused) ↦ absurd (ground (arith, refused, h))
        ]

    MayArrive-IsGenuine : (w : Bytes) → MayArrive w → IsGenuine sender.port.context.transfer_id cs w
    MayArrive-IsGenuine w (sent injector d m k) q h i =
        from_wire d w injector (All-at _ log emitted m) k q h i
    MayArrive-IsGenuine w (cancelled p e) q h i =
        let packet = (encode-Encodes (cancel_packet sender) e).packet_is in
        Assembly.stop (
          let e : q ≡ p = cc (h, decode-encode (cancel_packet sender) e) in
          ap (λ p. p.flags) (e ∙ packet))
    MayArrive-IsGenuine w (foreign other) q h i = absurd (other q h i)

    Arrivals-IsGenuine :
        (polls : List Poll)
        → Arrivals (λ w _. MayArrive w) polls
        → Arrivals (λ w _. IsGenuine sender.port.context.transfer_id cs w) polls
    Arrivals-IsGenuine [] h = tt
    Arrivals-IsGenuine (timed_out ∷ polls) h = Arrivals-IsGenuine polls h
    Arrivals-IsGenuine (receive_error ∷ polls) h = Arrivals-IsGenuine polls h
    Arrivals-IsGenuine (cancel_requested ∷ polls) h = Arrivals-IsGenuine polls h
    Arrivals-IsGenuine (arrived w a ∷ polls) h =
        (MayArrive-IsGenuine w h.0, Arrivals-IsGenuine polls h.1)

module _ (sha : Sha256) (r : Random) (content : Bytes) (sent_at : ℕ) (sender : Sender)
    (receiver : Receiver) (size : ℕ) (expected_hash : Bytes) (polls lingering : List Poll)
    (received_at : ℕ) where
  -- A sender that has injected nothing yet, with a positive payload size, sends a content of bytes,
  -- and a receiver with the same transfer id runs. Each datagram that the receiver meets up to the
  -- end of its loop comes from the fault injector, in any state and with any rates, for a datagram
  -- that this `send_file` injects; or is a CANCEL of the sender; or is refused or of another
  -- transfer. They come in any order, any number of times, or not at all. If `receive_file`
  -- returns, exactly the content is at the destination.
  pub transfer_delivers :
      {h : Bytes}
      → IsBytes content
      → 0 < pos_part sender.port.context.config.payload_size
      → injections sender.port.log ≡ []
      → receiver.port.context.transfer_id ≡ sender.port.context.transfer_id
      → Arrivals
          (λ w _.
            MayArrive r sender
              (injections (send_file sha (some content) sent_at sender).1.port.log)
              w)
          polls
      → (receive_file sha size expected_hash polls lingering received_at receiver).0 ≡ ok h
      → (receive_file sha size expected_hash polls lingering received_at receiver).1.destination
        ≡ some content
  transfer_delivers b positive fresh ids arriving e =
      let n = pos_part sender.port.context.config.payload_size in
      let cs = read_chunks n content in
      let log = injections (send_file sha (some content) sent_at sender).1.port.log in
      let emitted = (send_file-emissions sha content sent_at sender fresh).0 in
      let bytes =
        All-map {Q = IsBytes} cs (λ c k. k.2) (read_chunks-IsChunk n content positive b) in
      receive_file-content sha size expected_hash polls lingering received_at receiver n content
        positive (rw ids (Arrivals-IsGenuine r sender log cs bytes emitted polls arriving)) e
