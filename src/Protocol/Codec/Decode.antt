-- ===== src/Protocol/Codec/Decode.antt =====
-- `decode_packet` is the inverse of `encode_packet`: it reads back what was encoded, and accepts
-- nothing else.
use hybrid_ftp_system.Prelude.{
  ℕ, ◌+◌, ◌^◌, ◌≤◌, ◌<◌, ◌≡◌, refl, sym, ap, ◌∙◌, arith, false, not, ◌++◌, some, Option-cases, inl,
  inr, Bytes, IsByte, IsBytes, All-take, take, drop, take-append, drop-append, take-append-drop,
  length-drop, length, length-append, Result, ok, raise_if, raise_if-eq-ok, ◌>>=◌, ◌>>◌, ltb, ◌==◌,
}
use hybrid_ftp_system.Protocol.Struct
use hybrid_ftp_system.Protocol.Struct.RoundTrip.{Fits-pack, pack-fields, unpack-pack}
use hybrid_ftp_system.Protocol.Crc32.{calculate_crc32}
use hybrid_ftp_system.Protocol.Packet.{
  RdtPacket, validate, rdt_magic, rdt_version, header_size, max_payload_size,
}
use hybrid_ftp_system.Protocol.Codec.{
  PacketDecodeError, Header, header_format, header_values, unknown_bits, pack_header, packet_header,
  encode_packet, decode_packet, validate_header_size, validate_flags_value, or_raise,
  or_raise-eq-ok, unpack_header, header_packet, wrap_error, wrong_magic, wrong_version,
  wrong_header_size, too_large, length_mismatch, header_unwritable, crc_mismatch, decoded_invalid,
}
use hybrid_ftp_system.Protocol.Codec.Encode.{
  IsValid, validate-IsValid, IsValid-validate, Encodes, encode-Encodes, Encodes-encode,
  length-pack_header,
}

pub unpack-pack_header :
    (h : Header) {bs : Bytes} → pack_header h ≡ some bs → unpack_header bs ≡ some h
unfolding pack_header unpack_header
unpack-pack_header h e = rw (unpack-pack header_format (header_values h) e)

-- The tests of `decode_packet` behind the unpacking.
abbrev after_unpack : Bytes → Header → Result PacketDecodeError RdtPacket
after_unpack datagram h = do
  raise_if (not (h.magic == rdt_magic)) wrong_magic
  raise_if (not (h.version == rdt_version)) wrong_version
  raise_if (not (h.size == header_size)) wrong_header_size
  validate_flags_value h.flags
  raise_if (ltb max_payload_size h.payload_length) too_large
  raise_if (not (length datagram == h.size + h.payload_length)) length_mismatch
  let payload = drop h.size datagram
  zeroed ← or_raise (pack_header (record h { checksum = 0 })) header_unwritable
  raise_if (not (calculate_crc32 (zeroed ++ payload) == h.checksum)) crc_mismatch
  let packet = header_packet h payload
  wrap_error decoded_invalid (validate packet)
  ok packet

-- What a successful call has found.
pub record Decodes (d : Bytes) (q : RdtPacket) : Type 0 where
  pub header : Header
  pub zeroed : Bytes
  pub unpacked : unpack_header (take 32 d) ≡ some header
  pub size_is : header.size ≡ 32
  pub known : unknown_bits header.flags ≡ 0
  pub length_is : length d ≡ 32 + header.payload_length
  pub zeroed_is : pack_header (record header { checksum = 0 }) ≡ some zeroed
  pub crc_is : calculate_crc32 (zeroed ++ drop 32 d) ≡ header.checksum
  pub packet_is : q ≡ header_packet header (drop 32 d)
  pub valid : validate q ≡ ok tt

decode-after_unpack :
    (d : Bytes) {q : RdtPacket}
    → decode_packet d ≡ ok q
    → (ltb (length d) header_size ≡ false)
      × (h : Header) × (unpack_header (take 32 d) ≡ some h)
      × (after_unpack d h ≡ ok q)
unfolding decode_packet validate_header_size
decode-after_unpack d e =
    let (long, rest) = raise_if-eq-ok _ _ _ e in
    let (h, unpacked, final) = or_raise-eq-ok _ _ _ rest in (long, h, unpacked, final)

module _ (d : Bytes) (h : Header) {q : RdtPacket} (e : after_unpack d h ≡ ok q) where
  after_unpack-size : h.size ≡ 32
  after_unpack-size = ground arith

  after_unpack-known : unknown_bits h.flags ≡ 0
  unfolding validate_flags_value
  after_unpack-known = ground arith

  after_unpack-length : length d ≡ 32 + h.payload_length
  after_unpack-length = ground arith

  after_unpack-zeroed :
      (z : Bytes) × (pack_header (record h { checksum = 0 }) ≡ some z)
      × (calculate_crc32 (z ++ drop 32 d) ≡ h.checksum)
  after_unpack-zeroed = elim (Option-cases (pack_header (record h { checksum = 0 }))) [
    | inl fails ↦ ground arith
    | inr (z, packed) ↦ (z, packed, rw (← after_unpack-size) (ground arith))
  ]

  after_unpack-packet : (q ≡ header_packet h (drop 32 d)) × (validate q ≡ ok tt)
  after_unpack-packet = rw (← after_unpack-size) (ground arith)

pub decode-Decodes : (d : Bytes) {q : RdtPacket} → decode_packet d ≡ ok q → Decodes d q
decode-Decodes d {q} e =
    let (long, h, unpacked, rest) = decode-after_unpack d e in
    let (z, packed, crc) = after_unpack-zeroed d h rest in
    let (packet, valid) = after_unpack-packet d h rest in
    record {
      header = h;
      zeroed = z;
      unpacked = unpacked;
      size_is = after_unpack-size d h rest;
      known = after_unpack-known d h rest;
      length_is = after_unpack-length d h rest;
      zeroed_is = packed;
      crc_is = crc;
      packet_is = packet;
      valid = valid;
    }

validated :
    {d : Bytes} {q : RdtPacket} (s : Decodes d q)
    → validate (header_packet s.header (drop s.header.size d)) ≡ ok tt
validated s = rw (s.size_is, ← s.packet_is) s.valid

Decodes-after_unpack :
    {d : Bytes} {q : RdtPacket} (s : Decodes d q) → IsValid q → after_unpack d s.header ≡ ok q
unfolding validate_flags_value
Decodes-after_unpack {d} {q} s v =
    let crc : calculate_crc32 (s.zeroed ++ drop s.header.size d) ≡ s.header.checksum =
      rw s.size_is s.crc_is in
    let packet : q ≡ header_packet s.header (drop s.header.size d) = rw s.size_is s.packet_is in
    let carried : length (drop 32 d) ≤ 1024 = rw s.packet_is at v.payload_fits in
    let small : s.header.payload_length ≤ 1024 = omega (arith, s.length_is, length-drop 32 d) in
    ground (arith, crc, packet, small, validated s)

-- The findings are also enough.
pub Decodes-decode : {d : Bytes} {q : RdtPacket} → Decodes d q → decode_packet d ≡ ok q
unfolding decode_packet validate_header_size
Decodes-decode {d} {q} s =
    let long : ltb (length d) header_size ≡ false = ground (arith, s.length_is) in
    rw (long, s.unpacked) (Decodes-after_unpack s (validate-IsValid q s.valid))

checksum_fits :
    (p : RdtPacket) (c : ℕ) {bs : Bytes} → pack_header (packet_header p c) ≡ some bs → c < 2 ^ 32
unfolding pack_header
checksum_fits p c h = omega (arith, Fits-pack header_format (header_values (packet_header p c)) h)

IsValid-checksum :
    (p : RdtPacket) (c : ℕ) → IsValid p → c < 2 ^ 32 → IsValid (record p { checksum = c })
IsValid-checksum p c v h = ground arith

Encodes-Decodes : {p q : RdtPacket} {d : Bytes} → Encodes p d q → Decodes d q
Encodes-Decodes {p} {q} {d} s =
    let c = calculate_crc32 (s.zeroed ++ p.payload) in
    let wide = length-pack_header _ s.final_is in
    let front : take 32 d ≡ s.final = rw s.datagram_is (take-append s.final p.payload 32 wide) in
    let back : drop 32 d ≡ p.payload = rw s.datagram_is (drop-append s.final p.payload 32 wide) in
    record {
      header = packet_header p c;
      zeroed = s.zeroed;
      unpacked = rw front (unpack-pack_header _ s.final_is);
      size_is = refl;
      known = s.known;
      length_is = rw s.datagram_is (omega (arith, length-append s.final p.payload));
      zeroed_is = s.zeroed_is;
      crc_is = rw back;
      packet_is = rw back s.packet_is;
      valid = rw s.packet_is (
          IsValid-validate _
            (IsValid-checksum p c (validate-IsValid p s.valid) (checksum_fits p c s.final_is)));
    }

-- A datagram that `encode_packet` wrote is decoded to the packet that the call left.
pub decode-encode :
    (p : RdtPacket) {d : Bytes} {q : RdtPacket}
    → encode_packet p ≡ ok (d, q)
    → decode_packet d ≡ ok q
decode-encode p e = Decodes-decode (Encodes-Decodes (encode-Encodes p e))

unpack_header-values :
    (bs : Bytes) {h : Header}
    → unpack_header bs ≡ some h
    → (length bs ≡ 32) × (Struct.fields header_format bs ≡ header_values h)
unfolding unpack_header Struct.unpack
unpack_header-values bs e = ground arith

-- Packing the unpacked header gives its bytes back.
pub pack-unpack_header :
    (bs : Bytes) {h : Header} → IsBytes bs → unpack_header bs ≡ some h → pack_header h ≡ some bs
unfolding pack_header
pack-unpack_header bs b e =
    let (wide, values) = unpack_header-values bs e in
    rw (← values) (pack-fields header_format bs b wide)

-- The header of the decoded packet is the header that was unpacked.
decoded_header :
    {d : Bytes} {q : RdtPacket} (s : Decodes d q) → packet_header q s.header.checksum ≡ s.header
decoded_header {d} {q} s =
    let counted : length (drop 32 d) ≡ s.header.payload_length =
      omega (arith, s.length_is, length-drop 32 d) in
    ground (arith, counted, s.packet_is, s.size_is)

Decodes-Encodes : {d : Bytes} {q : RdtPacket} → IsBytes d → Decodes d q → Encodes q d q
Decodes-Encodes {d} {q} b s =
    let h = s.header in
    let payload : q.payload ≡ drop 32 d = ap (λ p. p.payload) s.packet_is in
    let crc : calculate_crc32 (s.zeroed ++ q.payload) ≡ h.checksum = rw payload s.crc_is in
    record {
      valid = s.valid;
      known = rw s.packet_is s.known;
      zeroed = s.zeroed;
      final = take 32 d;
      zeroed_is =
          ap (λ k. pack_header (record k { checksum = 0 })) (decoded_header s) ∙ s.zeroed_is;
      final_is = rw crc (
          rw (decoded_header s)
            (pack-unpack_header (take 32 d) (All-take IsByte 32 d b) s.unpacked));
      datagram_is = rw payload (sym (take-append-drop 32 d));
      packet_is = rw crc (ground (arith, s.packet_is));
    }

-- A byte string that is decoded to a packet is the datagram that `encode_packet` writes for that
-- packet.
pub encode-decode :
    (d : Bytes) {q : RdtPacket} → IsBytes d → decode_packet d ≡ ok q → encode_packet q ≡ ok (d, q)
encode-decode d b e = Encodes-encode (Decodes-Encodes b (decode-Decodes d e))

-- No two datagrams are decoded to the same packet.
pub decode-injective :
    (c d : Bytes) {q : RdtPacket}
    → IsBytes c
    → IsBytes d
    → decode_packet c ≡ ok q
    → decode_packet d ≡ ok q
    → c ≡ d
decode-injective c d bc bd hc hd = cc (encode-decode c bc hc, encode-decode d bd hd)
