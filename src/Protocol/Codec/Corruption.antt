-- ===== src/Protocol/Codec/Corruption.antt =====
-- The checksum at work: a datagram in which one byte has changed is not decoded.
use hybrid_ftp_system.Prelude.{
  ℕ, ◌^◌, ◌<◌, ◌≡◌, sym, ap, ◌∙◌, arith, [], ◌∷◌, ◌++◌, some, inl, inr, Bytes, IsByte, IsBytes,
  All-append, All-take, All-drop, take, drop, take-append, drop-append, take-append-drop, length,
  length-append, append_assoc, ok, err, Result-cases, OneByteApart, OneByteApart-append_left,
  OneByteApart-append_right, OneByteApart-append_cases, OneByteApart-irreflexive,
}
use hybrid_ftp_system.Protocol.Struct
use hybrid_ftp_system.Protocol.Struct.RoundTrip.{
  pack-last, Fits-pack, from-to_bytes, length-to_bytes,
}
use hybrid_ftp_system.Protocol.Crc32.{calculate_crc32}
use hybrid_ftp_system.Protocol.Crc32.Detect.{calculate_crc32-OneByteApart}
use hybrid_ftp_system.Protocol.Packet.{RdtPacket}
use hybrid_ftp_system.Protocol.Codec.{
  PacketDecodeError, Header, header_format, header_values, pack_header, decode_packet,
}
use hybrid_ftp_system.Protocol.Codec.Encode.{pack_header-IsBytes, length-pack_header}
use hybrid_ftp_system.Protocol.Codec.Decode.{decode-Decodes, pack-unpack_header}

abbrev field : ℕ → Bytes
field c = Struct.to_bytes 4 c

-- A datagram cut at its checksum field: the field holds the checksum of the rest, with zeros put in.
record IsSealed (d : Bytes) : Type 0 where
  front : Bytes
  checksum : ℕ
  tail : Bytes
  datagram_is : d ≡ front ++ (field checksum ++ tail)
  front_is : length front ≡ 28
  fits : checksum < 2 ^ 32
  sealed : calculate_crc32 (front ++ (field 0 ++ tail)) ≡ checksum
  bytes : IsBytes (front ++ (field 0 ++ tail))

cut_header :
    (h : Header) {b z : Bytes}
    → pack_header h ≡ some b
    → pack_header (record h { checksum = 0 }) ≡ some z
    → (front : Bytes) × (b ≡ front ++ field h.checksum) × (z ≡ front ++ field 0)
unfolding pack_header
cut_header h eb ez =
    pack-last (4 ∷ 1 ∷ 1 ∷ 2 ∷ 8 ∷ 4 ∷ 4 ∷ 2 ∷ 2 ∷ [])
      (h.magic ∷ h.version ∷ h.flags ∷ h.size ∷ h.transfer_id ∷ h.sequence_number
        ∷ h.acknowledgment_number ∷ h.advertised_window ∷ h.payload_length ∷ [])
      4 h.checksum 0 (omega (arith, Fits-pack header_format (header_values h) eb)) eb ez

checksum-lt : (h : Header) {b : Bytes} → pack_header h ≡ some b → h.checksum < 2 ^ 32
unfolding pack_header
checksum-lt h e = omega (arith, Fits-pack header_format (header_values h) e)

decode-IsSealed : (d : Bytes) {q : RdtPacket} → IsBytes d → decode_packet d ≡ ok q → IsSealed d
decode-IsSealed d b e =
    let s = decode-Decodes d e in
    let h = s.header in
    let packed = pack-unpack_header (take 32 d) (All-take IsByte 32 d b) s.unpacked in
    let (front, eb, ez) = cut_header h packed s.zeroed_is in
    let joined : front ++ (field 0 ++ drop 32 d) ≡ s.zeroed ++ drop 32 d = rw (ez, append_assoc) in
    record {
      front = front;
      checksum = h.checksum;
      tail = drop 32 d;
      datagram_is = sym (take-append-drop 32 d) ∙ rw (eb, append_assoc);
      front_is = omega (
        arith,
        length-pack_header _ s.zeroed_is,
        ap length ez,
        length-append front (field 0),
        length-to_bytes 4 0,
      );
      fits = checksum-lt h packed;
      sealed = rw joined s.crc_is;
      bytes = rw joined (
          All-append IsByte s.zeroed (drop 32 d) (pack_header-IsBytes _ s.zeroed_is)
            (All-drop IsByte 32 d b));
    }

field-injective : (a b : ℕ) → a < 2 ^ 32 → b < 2 ^ 32 → field a ≡ field b → a ≡ b
field-injective a b ha hb e =
    sym (from-to_bytes 4 a ha) ∙ ap (Struct.from_bytes 0) e ∙ from-to_bytes 4 b hb

-- Two sealed datagrams are never one byte apart: neither in front of the field, nor in it, nor
-- behind it.
module _ {c d : Bytes} (s : IsSealed c) (t : IsSealed d) where
  abbrev rest : {c : Bytes} → IsSealed c → Bytes
  rest s = s.front ++ (field 0 ++ s.tail)

  rest_apart : OneByteApart (rest s) (rest t) → s.checksum ≡ t.checksum → ⊥
  rest_apart apart e =
      calculate_crc32-OneByteApart (rest s) (rest t) s.bytes t.bytes apart
        (s.sealed ∙ e ∙ sym t.sealed)

  same_field : field s.checksum ≡ field t.checksum → s.checksum ≡ t.checksum
  same_field = field-injective s.checksum t.checksum s.fits t.fits

  apart_in_front :
      OneByteApart s.front t.front → field s.checksum ++ s.tail ≡ field t.checksum ++ t.tail → ⊥
  apart_in_front apart e =
      let wide = length-to_bytes 4 in
      let fields =
        sym (take-append (field s.checksum) s.tail 4 (wide s.checksum))
        ∙ ap (take 4) e
        ∙ take-append (field t.checksum) t.tail 4 (wide t.checksum) in
      let tails =
        sym (drop-append (field s.checksum) s.tail 4 (wide s.checksum))
        ∙ ap (drop 4) e
        ∙ drop-append (field t.checksum) t.tail 4 (wide t.checksum) in
      rest_apart (rw tails (OneByteApart-append_right s.front t.front (field 0 ++ t.tail) apart))
        (same_field fields)

  apart_behind :
      s.front ≡ t.front → OneByteApart (field s.checksum ++ s.tail) (field t.checksum ++ t.tail) → ⊥
  apart_behind e apart =
      elim (OneByteApart-append_cases 4 (field s.checksum) (field t.checksum) s.tail t.tail
        (length-to_bytes 4 s.checksum) (length-to_bytes 4 t.checksum) apart) [
          | inl (fields, tails) ↦
              let same : s.checksum ≡ t.checksum = sym s.sealed ∙ rw (e, tails) t.sealed in
              OneByteApart-irreflexive (field t.checksum) (rw same at fields)
          | inr (fields, tails) ↦
              rest_apart
                (rw e (
                  OneByteApart-append_left t.front _ _
                    (OneByteApart-append_left (field 0) _ _ tails)))
                (same_field fields)
        ]

  sealed-not_apart : ¬ OneByteApart c d
  sealed-not_apart apart =
      elim (OneByteApart-append_cases 28 s.front t.front _ _ s.front_is t.front_is
        (rw (s.datagram_is, t.datagram_is) at apart)) [
          | inl (fronts, rests) ↦ apart_in_front fronts rests
          | inr (fronts, rests) ↦ apart_behind fronts rests
        ]

-- A byte string that is decoded to a packet, and a byte string that differs from it in exactly one
-- byte: the second is refused.
pub decode-OneByteApart :
    (c d : Bytes) {q : RdtPacket}
    → IsBytes c
    → IsBytes d
    → decode_packet c ≡ ok q
    → OneByteApart c d
    → (e : PacketDecodeError) × (decode_packet d ≡ err e)
decode-OneByteApart c d bc bd h apart = elim (Result-cases (decode_packet d)) [
  | inl (r, accepted) ↦
      absurd (sealed-not_apart (decode-IsSealed c bc h) (decode-IsSealed d bd accepted) apart)
  | inr refused ↦ refused
]
