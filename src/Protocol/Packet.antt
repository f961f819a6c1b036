-- ===== src/Protocol/Packet.antt =====
-- protocol/packet.py: the constants and the packet with its validation. Python's
-- unbounded integers are natural numbers, of which `0 <= x` always holds; a flag set is its value.
use hybrid_ftp_system.Prelude.{
  ℕ, ◌==◌, Bool, not, Bytes, [], length, ltb, bit_and, Result, ok, raise_if, ◌>>◌,
}
use hybrid_ftp_system.Protocol.PacketFlag
use hybrid_ftp_system.Protocol.PacketFlag.{PacketFlag}

abbrev pub rdt_magic : ℕ
rdt_magic = 0x52445431

abbrev pub rdt_version : ℕ
rdt_version = 1

abbrev pub max_payload_size : ℕ
max_payload_size = 1024

abbrev pub header_size : ℕ
header_size = 32

pub record RdtPacket : Type 0 where
  pub flags : PacketFlag
  pub transfer_id : ℕ
  pub sequence_number : ℕ
  pub acknowledgment_number : ℕ
  pub advertised_window : ℕ
  pub payload : Bytes
  pub magic : ℕ
  pub version : ℕ
  pub checksum : ℕ

-- `RDTPacket(flags=…, transfer_id=…)` with the defaults of the other fields.
abbrev pub new_packet : PacketFlag → ℕ → RdtPacket
new_packet flags transfer_id = record {
  flags = flags;
  transfer_id = transfer_id;
  sequence_number = 0;
  acknowledgment_number = 0;
  advertised_window = 1;
  payload = [];
  magic = rdt_magic;
  version = rdt_version;
  checksum = 0;
}

abbrev pub payload_length : RdtPacket → ℕ
payload_length p = length p.payload

unfoldable pub has_flag : RdtPacket → PacketFlag → Bool
has_flag p flag = not (bit_and p.flags flag == 0)

-- The exceptions of `validate`, a constructor for each message.
pub data ValidationError : Type 0 where
  invalid_magic unsupported_version no_flag transfer_id_range : ValidationError
  sequence_range acknowledgment_range window_range payload_too_large : ValidationError
  checksum_range : ValidationError

unfoldable pub validate : RdtPacket → Result ValidationError (Unit {0})
validate p = do
  raise_if (not (p.magic == rdt_magic)) invalid_magic
  raise_if (not (p.version == rdt_version)) unsupported_version
  raise_if (p.flags == PacketFlag.none_set) no_flag
  raise_if (ltb 0xFFFFFFFFFFFFFFFF p.transfer_id) transfer_id_range
  raise_if (ltb 0xFFFFFFFF p.sequence_number) sequence_range
  raise_if (ltb 0xFFFFFFFF p.acknowledgment_number) acknowledgment_range
  raise_if (ltb 0xFFFF p.advertised_window) window_range
  raise_if (ltb max_payload_size (payload_length p)) payload_too_large
  raise_if (ltb 0xFFFFFFFF p.checksum) checksum_range
  ok tt
