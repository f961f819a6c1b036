-- ===== src/Protocol/Codec.antt =====
-- protocol/codec.py: packets to datagrams and back.
pub mod Encode
pub mod Decode
pub mod Corruption
use hybrid_ftp_system.Prelude.{
  ℕ, ◌+◌, ◌-◌, ◌==◌, ◌≡◌, refl, Bool, not, List, [], ◌∷◌, ◌++◌, Option, none, some, Bytes, length,
  take, drop, ltb, bit_and, Result, ok, err, raise_if, ◌>>=◌, ◌>>◌,
}
use hybrid_ftp_system.Protocol.Struct
use hybrid_ftp_system.Protocol.Crc32.{calculate_crc32}
use hybrid_ftp_system.Protocol.PacketFlag
use hybrid_ftp_system.Protocol.Packet.{
  RdtPacket, ValidationError, validate, payload_length, rdt_magic, rdt_version, header_size,
  max_payload_size,
}

-- "!IBBHQIIHHI"
abbrev pub header_format : List ℕ
header_format = 4 ∷ 1 ∷ 1 ∷ 2 ∷ 8 ∷ 4 ∷ 4 ∷ 2 ∷ 2 ∷ 4 ∷ []

-- DATA | ACK | FIN | FIN_ACK | ERROR | CANCEL
abbrev pub known_flags_value : ℕ
known_flags_value = 63

-- The `RuntimeError` is the argument.
unfoldable pub validate_header_size {ℓ} : {E : Type ℓ} → E → Result E (Unit {0})
validate_header_size error = raise_if (not (Struct.size header_format == header_size)) error

-- `flags & ~KNOWN_FLAGS_VALUE` on a number of any size: the complement keeps what the mask drops.
unfoldable pub unknown_bits : ℕ → ℕ
unknown_bits flags = flags - bit_and flags known_flags_value

pub data PacketEncodeError : Type 0 where
  invalid_packet : ValidationError → PacketEncodeError
  header_inconsistent unsupported_flags header_overflow : PacketEncodeError

pub data PacketDecodeError : Type 0 where
  too_short header_unreadable wrong_magic wrong_version wrong_header_size : PacketDecodeError
  unknown_flags empty_flags too_large length_mismatch header_unwritable : PacketDecodeError
  header_inconsistent crc_mismatch : PacketDecodeError
  decoded_invalid : ValidationError → PacketDecodeError

-- The values of the ten fields, in the order of the format.
pub record Header : Type 0 where
  pub magic : ℕ
  pub version : ℕ
  pub flags : ℕ
  pub size : ℕ
  pub transfer_id : ℕ
  pub sequence_number : ℕ
  pub acknowledgment_number : ℕ
  pub advertised_window : ℕ
  pub payload_length : ℕ
  pub checksum : ℕ

abbrev pub header_values : Header → List ℕ
header_values h =
    h.magic ∷ h.version ∷ h.flags ∷ h.size ∷ h.transfer_id ∷ h.sequence_number
    ∷ h.acknowledgment_number ∷ h.advertised_window ∷ h.payload_length ∷ h.checksum ∷ []

-- `HEADER_STRUCT.pack(…)`
unfoldable pub pack_header : Header → Option Bytes
pack_header h = Struct.pack header_format (header_values h)

-- The assignment of the unpacked tuple to ten names.
abbrev pub to_header : List ℕ → Option Header
to_header (m ∷ v ∷ f ∷ s ∷ t ∷ q ∷ a ∷ w ∷ l ∷ c ∷ []) = some (record {
  magic = m;
  version = v;
  flags = f;
  size = s;
  transfer_id = t;
  sequence_number = q;
  acknowledgment_number = a;
  advertised_window = w;
  payload_length = l;
  checksum = c;
})
to_header _ = none

abbrev pub bind_header : Option (List ℕ) → Option Header
bind_header none = none
bind_header (some vs) = to_header vs

unfoldable pub unpack_header : Bytes → Option Header
unpack_header bs = bind_header (Struct.unpack header_format bs)

-- `except error: raise e`
abbrev pub or_raise {ℓ κ} : {E : Type ℓ} {A : Type κ} → Option A → E → Result E A
or_raise none e = err e
or_raise (some a) e = ok a

pub or_raise-eq-ok {ℓ κ λ'} :
    {E : Type ℓ} {A : Type κ} {B : Type λ'} (o : Option A) (e : E) (f : A → Result E B) {b : B}
    → (or_raise o e >>= f) ≡ ok b
    → (a : A) × (o ≡ some a) × (f a ≡ ok b)
or_raise-eq-ok none e f h = cc
or_raise-eq-ok (some a) e f h = (a, refl, h)

abbrev pub wrap_error {ℓ} : {E F : Type ℓ} → (E → F) → Result E (Unit {0}) → Result F (Unit {0})
wrap_error f (ok _) = ok tt
wrap_error f (err e) = err (f e)

-- The header of a packet, with a checksum put in.
abbrev pub packet_header : RdtPacket → ℕ → Header
packet_header p checksum = record {
  magic = p.magic;
  version = p.version;
  flags = p.flags;
  size = header_size;
  transfer_id = p.transfer_id;
  sequence_number = p.sequence_number;
  acknowledgment_number = p.acknowledgment_number;
  advertised_window = p.advertised_window;
  payload_length = payload_length p;
  checksum = checksum;
}

-- `packet.checksum = checksum` changes the caller's packet: it comes back beside the datagram.
unfoldable pub encode_packet : RdtPacket → Result PacketEncodeError (Bytes × RdtPacket)
encode_packet p = do
  validate_header_size header_inconsistent
  wrap_error invalid_packet (validate p)
  raise_if (not (unknown_bits p.flags == 0)) unsupported_flags
  zeroed ← or_raise (pack_header (packet_header p 0)) header_overflow
  let checksum = calculate_crc32 (zeroed ++ p.payload)
  final ← or_raise (pack_header (packet_header p checksum)) header_overflow
  ok (final ++ p.payload, record p { checksum = checksum })

unfoldable pub validate_flags_value : ℕ → Result PacketDecodeError (Unit {0})
validate_flags_value flags = do
  raise_if (not (unknown_bits flags == 0)) unknown_flags
  raise_if (flags == PacketFlag.none_set) empty_flags
  ok tt

abbrev pub header_packet : Header → Bytes → RdtPacket
header_packet h payload = record {
  flags = h.flags;
  transfer_id = h.transfer_id;
  sequence_number = h.sequence_number;
  acknowledgment_number = h.acknowledgment_number;
  advertised_window = h.advertised_window;
  payload = payload;
  magic = h.magic;
  version = h.version;
  checksum = h.checksum;
}

unfoldable pub decode_packet : Bytes → Result PacketDecodeError RdtPacket
decode_packet datagram = do
  validate_header_size header_inconsistent
  raise_if (ltb (length datagram) header_size) too_short
  h ← or_raise (unpack_header (take header_size datagram)) header_unreadable
  raise_if (not (h.magic == rdt_magic)) wrong_magic
  raise_if (not (h.version == rdt_version)) wrong_version
  raise_if (not (h.size == header_size)) wrong_header_size
  validate_flags_value h.flags
  raise_if (ltb max_payload_size h.payload_length) too_large
  raise_if (not (length datagram == h.size + h.payload_length)) length_mismatch
  let payload = drop h.size datagram
  zeroed ← or_raise (pack_header (record h { checksum = 0 })) header_unwritable
  raise_if (not (calculate_crc32 (zeroed ++ payload) == h.checksum)) crc_mismatch
  let packet = header_packet h payload
  wrap_error decoded_invalid (validate packet)
  ok packet
