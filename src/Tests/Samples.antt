-- ===== src/Tests/Samples.antt =====
-- Concrete values of the parameters, and a transfer of two bytes from one machine to another.
use hybrid_ftp_system.Prelude.{
  ℕ, zero, suc, ◌<◌, ◌≡◌, refl, ap, append-nil, append_assoc, arith, Bool, true, false, List, [],
  ◌∷◌, ◌++◌, Bytes, none, ok, length, All, IsBytes, ltb, ◌&&◌,
}
use hybrid_ftp_system.Protocol.Codec
use hybrid_ftp_system.Protocol.Codec.{decode_packet, encode_packet}
use hybrid_ftp_system.Protocol.Crc32
use hybrid_ftp_system.Protocol.Packet
use hybrid_ftp_system.Protocol.Packet.{RdtPacket}
use hybrid_ftp_system.Protocol.Struct
use hybrid_ftp_system.Protocol.FileHash.{Sha256}
use hybrid_ftp_system.Rdt.Config.{default_config}
use hybrid_ftp_system.Rdt.Context.{new_context}
use hybrid_ftp_system.Rdt.FaultInjector.{Random}
use hybrid_ftp_system.Rdt.Port.{Address, Port}
use hybrid_ftp_system.Rdt.Sender.{Sender, Attempt, arrived, data_packet, fin_packet}
use hybrid_ftp_system.Rdt.Reception
use hybrid_ftp_system.Rdt.Reception.{Receiver, Poll}

-- `n` characters `c`.
abbrev pub copies : ℕ → ℕ → Bytes
copies zero c = []
copies (suc n) c = c ∷ copies n c

-- A digest that tells the empty content from the others.
abbrev pub hex_of : Bytes → Bytes
hex_of [] = copies 64 48
hex_of (c ∷ cs) = copies 64 49

length-copies : (n c : ℕ) → length (copies n c) ≡ n
length-copies zero c = refl
length-copies (suc n) c = ap suc (length-copies n c)

copies-ascii : (n c : ℕ) → c < 128 → All (λ c. c < 128) (copies n c)
copies-ascii zero c h = tt
copies-ascii (suc n) c h = (h, copies-ascii n c h)

pub hex_length : (h : Bytes) → length (hex_of h) ≡ 64
hex_length [] = length-copies 64 48
hex_length (c ∷ cs) = length-copies 64 49

pub hex_ascii : (h : Bytes) → All (λ c. c < 128) (hex_of h)
hex_ascii [] = copies-ascii 64 48 (omega arith)
hex_ascii (c ∷ cs) = copies-ascii 64 49 (omega arith)

abbrev pub toy_sha : Sha256
toy_sha = record {
  Digest = Bytes;
  start = [];
  update = ◌++◌;
  hexdigest = hex_of;
  update-nil = append-nil;
  update-update = append_assoc;
  hexdigest_length = hex_length;
  hexdigest_ascii = hex_ascii;
}

abbrev pub toy_random : Random
toy_random = record {
  State = ℕ;
  seeded = λ s. 0;
  random = λ s. (5, suc s);
  randrange = λ n s. (0, s);
  random_lt = λ s. omega arith;
  randrange_lt = λ n s h. h;
}

abbrev pub peer : Address
peer = record { host = 49 ∷ []; port = 9 }

abbrev pub greeting : Bytes
greeting = 104 ∷ 105 ∷ []

-- The DATA packet 0 of transfer 7.
abbrev pub chunk_datagram : Bytes
chunk_datagram =
    82 ∷ 68 ∷ 84 ∷ 49 ∷ 1 ∷ 1 ∷ 0 ∷ 32 ∷ 0 ∷ 0 ∷ 0 ∷ 0 ∷ 0 ∷ 0 ∷ 0 ∷ 7 ∷ 0 ∷ 0 ∷ 0 ∷ 0 ∷ 0 ∷ 0 ∷ 0
    ∷ 0 ∷ 0 ∷ 1 ∷ 0 ∷ 2 ∷ 255 ∷ 162 ∷ 156 ∷ 220 ∷ 104 ∷ 105 ∷ []

-- Its FIN packet.
abbrev pub fin_datagram : Bytes
fin_datagram =
    82 ∷ 68 ∷ 84 ∷ 49 ∷ 1 ∷ 4 ∷ 0 ∷ 32 ∷ 0 ∷ 0 ∷ 0 ∷ 0 ∷ 0 ∷ 0 ∷ 0 ∷ 7 ∷ 0 ∷ 0 ∷ 0 ∷ 1 ∷ 0 ∷ 0 ∷ 0
    ∷ 0 ∷ 0 ∷ 1 ∷ 0 ∷ 0 ∷ 92 ∷ 92 ∷ 110 ∷ 140 ∷ []

-- The ACK of packet 0.
abbrev pub ack_datagram : Bytes
ack_datagram =
    82 ∷ 68 ∷ 84 ∷ 49 ∷ 1 ∷ 2 ∷ 0 ∷ 32 ∷ 0 ∷ 0 ∷ 0 ∷ 0 ∷ 0 ∷ 0 ∷ 0 ∷ 7 ∷ 0 ∷ 0 ∷ 0 ∷ 0 ∷ 0 ∷ 0 ∷ 0
    ∷ 0 ∷ 0 ∷ 1 ∷ 0 ∷ 0 ∷ 61 ∷ 147 ∷ 234 ∷ 206 ∷ []

-- The FIN_ACK of packet 1, with the hash.
abbrev pub fin_ack_datagram : Bytes
fin_ack_datagram =
    82
    ∷ 68
    ∷ 84
    ∷ 49
    ∷ 1
    ∷ 8
    ∷ 0
    ∷ 32
    ∷ 0
    ∷ 0
    ∷ 0
    ∷ 0
    ∷ 0
    ∷ 0
    ∷ 0
    ∷ 7
    ∷ 0
    ∷ 0
    ∷ 0
    ∷ 0
    ∷ 0
    ∷ 0
    ∷ 0
    ∷ 1
    ∷ 0
    ∷ 1
    ∷ 0
    ∷ 64
    ∷ 236
    ∷ 212
    ∷ 170
    ∷ 42
    ∷ copies 64 49

abbrev pub no_log_port : Port
no_log_port = record { context = new_context 7 default_config 0; log = []; outcomes = [] }

abbrev pub replied : Bytes → Attempt
replied d = record { cancel_before = false; rounds = arrived d peer ∷ [] }

abbrev pub sample_sender : Sender
sample_sender = record {
  port = no_log_port;
  peer = peer;
  schedule = replied ack_datagram ∷ replied fin_ack_datagram ∷ [];
}

abbrev pub sample_receiver : Receiver
sample_receiver = record {
  port = no_log_port;
  peer = none;
  expected_seq = 0;
  received_bytes = 0;
  temp = none;
  destination = none;
}

-- The chunk comes twice, and a stray byte between; then the FIN.
abbrev pub sample_polls : List Poll
sample_polls =
    Reception.arrived chunk_datagram peer
    ∷ Reception.arrived (3 ∷ []) peer
    ∷ Reception.arrived chunk_datagram peer
    ∷ Reception.arrived fin_datagram peer
    ∷ []

-- The test for byte strings.
abbrev pub all_bytes : Bytes → Bool
all_bytes [] = true
all_bytes (b ∷ bs) = ltb b 256 && all_bytes bs

pub all_bytes-IsBytes : (bs : Bytes) → all_bytes bs ≡ true → IsBytes bs
all_bytes-IsBytes [] h = tt
all_bytes-IsBytes (b ∷ bs) h = (ground arith, all_bytes-IsBytes bs (ground arith))

abbrev pub chunk_packet : RdtPacket
chunk_packet = record (data_packet 7 0 greeting) { checksum = 4288847068 }

abbrev pub last_packet : RdtPacket
last_packet = record (fin_packet 7 1) { checksum = 1549561484 }

abbrev pub reply_packet : RdtPacket
reply_packet = record (Reception.ack_packet 7 0) { checksum = 1033104078 }

pub chunk_decodes : decode_packet chunk_datagram ≡ ok chunk_packet
unfolding decode_packet Codec.validate_header_size Codec.unpack_header Struct.unpack
    Codec.validate_flags_value Codec.unknown_bits Codec.pack_header Struct.pack Packet.validate
    Crc32.calculate_crc32 Crc32.zlib_crc32
chunk_decodes = refl

pub chunk_encodes : encode_packet (data_packet 7 0 greeting) ≡ ok (chunk_datagram, chunk_packet)
unfolding encode_packet Codec.validate_header_size Codec.unpack_header Struct.unpack
    Codec.validate_flags_value Codec.unknown_bits Codec.pack_header Struct.pack Packet.validate
    Crc32.calculate_crc32 Crc32.zlib_crc32
chunk_encodes = refl
