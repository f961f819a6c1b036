-- ===== src/Rdt/FaultInjector/Faults.antt =====
-- What the injector may do to a datagram, and that the receiver's checks see it.
use hybrid_ftp_system.Prelude.{
  ℕ, zero, suc, ◌≤◌, ◌<◌, ◌≡◌, ◌≢◌, ◌⊎◌, inl, inr, refl, sym, ap, arith, [], ◌∷◌, Bytes, IsBytes,
  IsByte, All, All-map, length, OneByteApart, length-OneByteApart, bit_xor, ok, err, Bool-cases,
  ltb,
}
use hybrid_ftp_system.Prelude.Bits.{xor_one-ne, xor-lt}
use hybrid_ftp_system.Protocol.Packet.{RdtPacket}
use hybrid_ftp_system.Protocol.Codec.{PacketDecodeError, decode_packet}
use hybrid_ftp_system.Protocol.Codec.Corruption.{decode-OneByteApart}
use hybrid_ftp_system.Rdt.FaultInjector.{
  Random, FaultConfig, FaultInjector, certain, flip_at, corrupt, sendto,
}

-- The datagram itself, or the datagram with one byte changed.
abbrev pub AtMostFlipped : Bytes → Bytes → Type 0
AtMostFlipped datagram output =
    (output ≡ datagram) ⊎ (OneByteApart datagram output × IsBytes output)

flip_bit : (x : ℕ) → IsByte x → (x ≢ bit_xor x 1) × IsByte (bit_xor x 1)
flip_bit x h = (λ e. xor_one-ne x (sym e), xor-lt 8 x 1 h (omega arith))

flip_at-apart :
    (i : ℕ) (d : Bytes)
    → IsBytes d
    → i < length d
    → OneByteApart d (flip_at i d) × IsBytes (flip_at i d)
flip_at-apart i [] b h = absurd (omega arith)
flip_at-apart zero (x ∷ xs) b h =
    let (changed, byte) = flip_bit x b.0 in (inl (changed, refl), (byte, b.1))
flip_at-apart (suc i) (x ∷ xs) b h =
    let (apart, bytes) = flip_at-apart i xs b.1 (omega arith) in (inr (refl, apart), (b.0, bytes))

length-AtMostFlipped : {d w : Bytes} → AtMostFlipped d w → length w ≡ length d
length-AtMostFlipped (inl e) = ap length e
length-AtMostFlipped {d} {w} (inr (apart, b)) = sym (length-OneByteApart d w apart)

AtMostFlipped-decode :
    (d w : Bytes) {q : RdtPacket}
    → IsBytes d
    → decode_packet d ≡ ok q
    → AtMostFlipped d w
    → (decode_packet w ≡ ok q) ⊎ ((e : PacketDecodeError) × (decode_packet w ≡ err e))
AtMostFlipped-decode d w b h (inl e) = inl (rw e h)
AtMostFlipped-decode d w b h (inr (apart, bytes)) = inr (decode-OneByteApart d w b bytes h apart)

module _ (r : Random) where
  corrupt-AtMostFlipped :
      (c : FaultConfig) (d : Bytes) (s : r.State) → IsBytes d → AtMostFlipped d (corrupt r c d s).0
  unfolding corrupt
  corrupt-AtMostFlipped c [] s b = inl refl
  corrupt-AtMostFlipped c (x ∷ xs) s b = elim (Bool-cases (ltb (r.random s).0 c.corruption_rate)) [
    | inl hit ↦ rw hit (inr (flip_at-apart _ (x ∷ xs) b (r.randrange_lt _ _ (omega arith))))
    | inr miss ↦ rw miss (inl refl)
  ]

  -- For a byte string, at most two datagrams reach the socket, each the given one or a byte string
  -- that differs from it in exactly one byte, and the caller is told the length of what it gave.
  pub sendto_faults :
      (injector : FaultInjector r) (d : Bytes)
      → IsBytes d
      → All (AtMostFlipped d) (sendto r injector d).wire
        × (length (sendto r injector d).wire ≤ 2)
        × ((sendto r injector d).sent ≡ length d)
  unfolding sendto
  sendto_faults injector d b = elim (Bool-cases (ltb loss injector.config.loss_rate)) [
    | inl lost ↦ rw lost (tt, omega arith, refl)
    | inr kept ↦ rw kept (elim (Bool-cases (ltb duplicate injector.config.duplicate_rate)) [
      | inl twice ↦ rw twice ((flipped, (flipped, tt)), omega arith, length-AtMostFlipped flipped)
      | inr once ↦ rw once ((flipped, tt), omega arith, length-AtMostFlipped flipped)
    ])
  ]
    where
      loss : ℕ
      loss = (r.random injector.generator).0

      output : Bytes × r.State
      output = corrupt r injector.config d (r.random injector.generator).1

      duplicate : ℕ
      duplicate = (r.random output.1).0

      flipped : AtMostFlipped d output.0
      flipped = corrupt-AtMostFlipped injector.config d (r.random injector.generator).1 b

  -- What the socket is given for a byte string that is decoded to a packet is decoded to the same
  -- packet, or is refused: loss, duplication and corruption never turn one packet into another.
  pub sendto-decode :
      (injector : FaultInjector r) (d : Bytes) {q : RdtPacket}
      → IsBytes d
      → decode_packet d ≡ ok q
      → All
          (λ w. (decode_packet w ≡ ok q) ⊎ ((e : PacketDecodeError) × (decode_packet w ≡ err e)))
          (sendto r injector d).wire
  sendto-decode injector d {q} b h =
      All-map {P = AtMostFlipped d} (sendto r injector d).wire (λ w. AtMostFlipped-decode d w b h)
        (sendto_faults injector d b).0

  -- With the three rates at 0, as by default, every datagram is put on the wire once, unchanged.
  pub sendto_faultless :
      (injector : FaultInjector r) (d : Bytes)
      → injector.config.loss_rate ≡ 0
      → injector.config.corruption_rate ≡ 0
      → injector.config.duplicate_rate ≡ 0
      → (sendto r injector d).wire ≡ d ∷ []
  unfolding sendto corrupt
  sendto_faultless injector [] l c u = ground arith
  sendto_faultless injector (x ∷ xs) l c u = ground arith

  -- With the loss rate at 1, nothing reaches the socket.
  pub sendto_lossy :
      (injector : FaultInjector r) (d : Bytes)
      → injector.config.loss_rate ≡ certain
      → (sendto r injector d).wire ≡ []
  unfolding sendto
  sendto_lossy injector d l = ground (arith, r.random_lt injector.generator)
