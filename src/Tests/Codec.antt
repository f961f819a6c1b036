-- ===== src/Tests/Codec.antt =====
-- The codec, the CRC, the chunks and the configuration at concrete inputs.
use hybrid_ftp_system.Prelude.{
  ◌↔◌, ◌≡◌, ◌≢◌, refl, arith, inl, ◌∷◌, Bytes, IsBytes, OneByteApart, drop, ok, err,
}
use hybrid_ftp_system.Protocol.Packet.{RdtPacket}
use hybrid_ftp_system.Protocol.Codec.{encode_packet, decode_packet, PacketDecodeError}
use hybrid_ftp_system.Protocol.Codec.Encode.{encode-total}
use hybrid_ftp_system.Protocol.Codec.Decode.{decode-encode, encode-decode}
use hybrid_ftp_system.Protocol.Codec.Corruption.{decode-OneByteApart}
use hybrid_ftp_system.Protocol.Crc32.{calculate_crc32}
use hybrid_ftp_system.Protocol.Crc32.Detect.{calculate_crc32-OneByteApart}
use hybrid_ftp_system.Protocol.FileHash.{sha256_file, sha256_hex}
use hybrid_ftp_system.Protocol.FileHash.Chunks.{sha256_file-eq-hex}
use hybrid_ftp_system.Rdt.Config.{default_config, IsAccepted, post_init, post_init-IsAccepted}
use hybrid_ftp_system.Rdt.Sender.{data_packet}
use hybrid_ftp_system.Tests.Samples.{
  toy_sha, greeting, chunk_datagram, chunk_packet, chunk_decodes, chunk_encodes, all_bytes-IsBytes,
}

decode-encode_example : decode_packet chunk_datagram ≡ ok chunk_packet
decode-encode_example = decode-encode (data_packet 7 0 greeting) chunk_encodes

chunk-IsBytes : IsBytes chunk_datagram
chunk-IsBytes = all_bytes-IsBytes chunk_datagram refl

encode-decode_example : encode_packet chunk_packet ≡ ok (chunk_datagram, chunk_packet)
encode-decode_example = encode-decode chunk_datagram chunk-IsBytes chunk_decodes

-- The same datagram with another first byte.
abbrev broken_datagram : Bytes
broken_datagram = 83 ∷ drop 1 chunk_datagram

broken_apart : OneByteApart chunk_datagram broken_datagram
broken_apart = inl (omega arith, refl)

decode-OneByteApart_example : (e : PacketDecodeError) × (decode_packet broken_datagram ≡ err e)
decode-OneByteApart_example =
    decode-OneByteApart chunk_datagram broken_datagram chunk-IsBytes
      (all_bytes-IsBytes broken_datagram refl) chunk_decodes broken_apart

encode-total_example :
    (d : Bytes) × (q : RdtPacket) × (encode_packet (data_packet 7 0 greeting) ≡ ok (d, q))
encode-total_example =
    encode-total (data_packet 7 0 greeting)
      (record {
        magic_is = refl;
        version_is = refl;
        has_some_flag = omega arith;
        transfer_id_fits = omega arith;
        sequence_fits = omega arith;
        acknowledgment_fits = omega arith;
        window_fits = omega arith;
        payload_fits = omega arith;
        checksum_fits = omega arith;
      })
      (omega arith) (all_bytes-IsBytes greeting refl)

calculate_crc32-OneByteApart_example :
    calculate_crc32 chunk_datagram ≢ calculate_crc32 broken_datagram
calculate_crc32-OneByteApart_example =
    calculate_crc32-OneByteApart chunk_datagram broken_datagram chunk-IsBytes
      (all_bytes-IsBytes broken_datagram refl) broken_apart

sha256_file-eq-hex_example : sha256_file toy_sha greeting ≡ sha256_hex toy_sha greeting
sha256_file-eq-hex_example = sha256_file-eq-hex toy_sha greeting

post_init-IsAccepted_example : (post_init default_config ≡ ok tt) ↔ IsAccepted default_config
post_init-IsAccepted_example = post_init-IsAccepted default_config
