-- ===== src/Protocol/Codec/Encode.antt =====
-- `encode_packet` on every packet: when it succeeds, what it writes, and the packet that it leaves.
use hybrid_ftp_system.Prelude.{
  ℕ, ◌^◌, ◌≤◌, ◌<◌, ◌≡◌, ◌≢◌, refl, sym, ◌∙◌, arith, ◌++◌, some, Bytes, IsByte, IsBytes, All-append,
  length, Result, ok, ◌>>=◌,
}
use hybrid_ftp_system.Prelude.Bits.{and_mask_id, and-le}
use hybrid_ftp_system.Protocol.Struct.RoundTrip.{pack-Fits, pack-IsBytes, length-pack, Fits}
use hybrid_ftp_system.Protocol.Crc32.{calculate_crc32}
use hybrid_ftp_system.Protocol.Crc32.Detect.{calculate_crc32-lt}
use hybrid_ftp_system.Protocol.Packet.{RdtPacket, validate, rdt_magic, rdt_version, payload_length}
use hybrid_ftp_system.Protocol.Codec.{
  PacketEncodeError, Header, header_format, header_values, unknown_bits, pack_header, packet_header,
  or_raise, or_raise-eq-ok, header_overflow, encode_packet, validate_header_size, known_flags_value,
}

-- The packets that `validate` lets pass.
pub record IsValid (p : RdtPacket) : Type 0 where
  pub magic_is : p.magic ≡ rdt_magic
  pub version_is : p.version ≡ rdt_version
  pub has_some_flag : p.flags ≢ 0
  pub transfer_id_fits : p.transfer_id < 2 ^ 64
  pub sequence_fits : p.sequence_number < 2 ^ 32
  pub acknowledgment_fits : p.acknowledgment_number < 2 ^ 32
  pub window_fits : p.advertised_window < 2 ^ 16
  pub payload_fits : payload_length p ≤ 1024
  pub checksum_fits : p.checksum < 2 ^ 32

pub validate-IsValid : (p : RdtPacket) → validate p ≡ ok tt → IsValid p
unfolding validate
validate-IsValid p h = ground arith

pub IsValid-validate : (p : RdtPacket) → IsValid p → validate p ≡ ok tt
unfolding validate
IsValid-validate p v = ground arith

pub unknown_bits-known : (f : ℕ) → f < 64 → unknown_bits f ≡ 0
unfolding unknown_bits
unknown_bits-known f h = omega (arith, and_mask_id 6 f h)

pub unknown_bits-zero : (f : ℕ) → unknown_bits f ≡ 0 → f < 64
unfolding unknown_bits
unknown_bits-zero f h = omega (arith, and-le 6 f known_flags_value (omega arith))

-- What a successful call has computed: `d` is the datagram and `q` the packet that it leaves.
pub record Encodes (p : RdtPacket) (d : Bytes) (q : RdtPacket) : Type 0 where
  pub valid : validate p ≡ ok tt
  pub known : unknown_bits p.flags ≡ 0
  pub zeroed : Bytes
  pub final : Bytes
  pub zeroed_is : pack_header (packet_header p 0) ≡ some zeroed
  pub final_is : pack_header (packet_header p (calculate_crc32 (zeroed ++ p.payload))) ≡ some final
  pub datagram_is : d ≡ final ++ p.payload
  pub packet_is : q ≡ record p { checksum = calculate_crc32 (zeroed ++ p.payload) }

encode_guards :
    (p : RdtPacket) {r : Bytes × RdtPacket}
    → encode_packet p ≡ ok r
    → (validate p ≡ ok tt) × (unknown_bits p.flags ≡ 0)
unfolding encode_packet validate_header_size
encode_guards p h = ground arith

-- What a call that passes the guards computes.
abbrev after_guards : RdtPacket → Result PacketEncodeError (Bytes × RdtPacket)
after_guards p = do
  zeroed ← or_raise (pack_header (packet_header p 0)) header_overflow
  let checksum = calculate_crc32 (zeroed ++ p.payload)
  final ← or_raise (pack_header (packet_header p checksum)) header_overflow
  ok (final ++ p.payload, record p { checksum = checksum })

encode-after_guards :
    (p : RdtPacket)
    → validate p ≡ ok tt
    → unknown_bits p.flags ≡ 0
    → encode_packet p ≡ after_guards p
unfolding encode_packet validate_header_size
encode-after_guards p v k = rw (v, k)

-- A successful call has passed its guards and packed the header twice.
pub encode-Encodes :
    (p : RdtPacket) {d : Bytes} {q : RdtPacket} → encode_packet p ≡ ok (d, q) → Encodes p d q
encode-Encodes p h =
    let (v, k) = encode_guards p h in
    let (z, ez, rest) = or_raise-eq-ok _ _ _ (sym (encode-after_guards p v k) ∙ h) in
    let (f, ef, result) = or_raise-eq-ok _ _ _ rest in
    record {
      valid = v;
      known = k;
      zeroed = z;
      final = f;
      zeroed_is = ez;
      final_is = ef;
      datagram_is = ground arith;
      packet_is = ground arith;
    }

pub Encodes-encode : {p q : RdtPacket} {d : Bytes} → Encodes p d q → encode_packet p ≡ ok (d, q)
Encodes-encode {p} s =
    encode-after_guards p s.valid s.known ∙ rw (s.zeroed_is, s.final_is, s.datagram_is, s.packet_is)

header-Fits :
    (p : RdtPacket) (c : ℕ)
    → IsValid p
    → p.flags < 64
    → c < 2 ^ 32
    → Fits header_format (header_values (packet_header p c))
header-Fits p c v f h = omega (arith, v.transfer_id_fits)

pack_header-total :
    (p : RdtPacket) (c : ℕ)
    → IsValid p
    → p.flags < 64
    → c < 2 ^ 32
    → (bs : Bytes) × (pack_header (packet_header p c) ≡ some bs)
unfolding pack_header
pack_header-total p c v f h =
    pack-Fits header_format (header_values (packet_header p c)) (header-Fits p c v f h)

pub pack_header-IsBytes : (h : Header) {bs : Bytes} → pack_header h ≡ some bs → IsBytes bs
unfolding pack_header
pack_header-IsBytes h e = pack-IsBytes header_format (header_values h) e

pub length-pack_header : (h : Header) {bs : Bytes} → pack_header h ≡ some bs → length bs ≡ 32
unfolding pack_header
length-pack_header h e = length-pack header_format (header_values h) e

-- Every valid packet with known flags and a payload of bytes is encoded.
pub encode-total :
    (p : RdtPacket)
    → IsValid p
    → p.flags < 64
    → IsBytes p.payload
    → (d : Bytes) × (q : RdtPacket) × (encode_packet p ≡ ok (d, q))
encode-total p v f b =
    let (z, ez) = pack_header-total p 0 v f (omega arith) in
    let fits =
      calculate_crc32-lt (z ++ p.payload)
        (All-append IsByte z p.payload (pack_header-IsBytes _ ez) b) in
    let c = calculate_crc32 (z ++ p.payload) in
    let (final, ef) = pack_header-total p c v f fits in
    (
      final ++ p.payload,
      record p { checksum = c },
      Encodes-encode (record {
        valid = IsValid-validate p v;
        known = unknown_bits-known p.flags f;
        zeroed = z;
        final = final;
        zeroed_is = ez;
        final_is = ef;
        datagram_is = refl;
        packet_is = refl;
      }),
    )
