-- ===== src/Protocol.antt =====
-- protocol/: the datagram format of the reliable transfer.
pub mod Crc32
pub mod Struct
pub mod PacketFlag
pub mod Packet
pub mod Codec
pub mod FileHash
