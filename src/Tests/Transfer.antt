-- ===== src/Tests/Transfer.antt =====
-- A transfer of two bytes, at both ends.
use mathlib.Core.List.{Memᴰ}
use mathlib.Core.Path.{subst}
use hybrid_ftp_system.Prelude.{
  ◌≡◌, inl, ◌≢◌, ◌⊎◌, refl, arith, true, List, [], ◌∷◌, Bytes, none, some, Result, ok, err,
}
use hybrid_ftp_system.Protocol.PacketFlag
use hybrid_ftp_system.Protocol.Packet
use hybrid_ftp_system.Protocol.Packet.{RdtPacket, has_flag}
use hybrid_ftp_system.Protocol.Struct
use hybrid_ftp_system.Protocol.Crc32
use hybrid_ftp_system.Protocol.Codec
use hybrid_ftp_system.Protocol.Codec.{encode_packet, decode_packet, too_short}
use hybrid_ftp_system.Protocol.FileHash
use hybrid_ftp_system.Protocol.FileHash.{sha256_file, read_chunks}
use hybrid_ftp_system.Rdt.Context
use hybrid_ftp_system.Rdt.FaultInjector.{FaultInjector}
use hybrid_ftp_system.Rdt.FaultInjector.Faults.{sendto_faultless}
use hybrid_ftp_system.Rdt.Link.{MayArrive, sent, foreign, transfer_delivers}
use hybrid_ftp_system.Rdt.Port
use hybrid_ftp_system.Rdt.Port.{Fault, transfer_error, receive_timeout}
use hybrid_ftp_system.Rdt.Sender
use hybrid_ftp_system.Rdt.Sender.{Sender, send_file, send_and_wait, data_packet}
use hybrid_ftp_system.Rdt.Sender.Emits.{injections}
use hybrid_ftp_system.Rdt.Sender.Bursts.{Bursts, packets_of, send_file-Bursts}
use hybrid_ftp_system.Rdt.Sender.Ends.{send_and_wait-Answers}
use hybrid_ftp_system.Rdt.Reception
use hybrid_ftp_system.Rdt.Receiver
use hybrid_ftp_system.Rdt.Receiver.{receive_file}
use hybrid_ftp_system.Rdt.Reception.{Receiver}
use hybrid_ftp_system.Rdt.Receiver.Assembly as Assembly
use hybrid_ftp_system.Rdt.Receiver.Assembly.{IsGenuine, FromSender}
use hybrid_ftp_system.Rdt.Receiver.Files.{IsVerified, receive_file-ok, receive_file-err}
use hybrid_ftp_system.Rdt.Receiver.Returns.{Brings, next, refused, again, finished}
use hybrid_ftp_system.Rdt.Receiver.Success.{receive_file-returns}
use hybrid_ftp_system.Rdt.Receiver.Delivery.{receive_file-content}
use hybrid_ftp_system.Tests.Samples.{
  peer, toy_sha, toy_random, sample_sender, sample_receiver, sample_polls, greeting, copies,
  chunk_datagram, fin_datagram, chunk_packet, last_packet, reply_packet, chunk_decodes,
  all_bytes-IsBytes,
}

abbrev received : Result Fault Bytes × Receiver
received = receive_file toy_sha 2 (copies 64 49) sample_polls [] 1 sample_receiver

received_hash : received.0 ≡ ok (copies 64 49)
unfolding receive_file Receiver.receive_content Receiver.receive_loop Receiver.check_cancelled
    Receiver.take_datagram Receiver.take_packet Receiver.take_data Receiver.take_fin
    Reception.send_ack Reception.send Receiver.conclude Receiver.linger Port.inject Port.encode
    decode_packet encode_packet Codec.validate_header_size Codec.unpack_header Struct.unpack
    Codec.validate_flags_value Codec.unknown_bits Codec.pack_header Struct.pack Packet.validate
    Packet.has_flag Crc32.calculate_crc32 Crc32.zlib_crc32 FileHash.read_chunks
    FileHash.chunks_within FileHash.sha256_file
received_hash = refl

receive_file-ok_example :
    IsVerified toy_sha 2 (copies 64 49) received.1.destination
    × (copies 64 49 ≡ copies 64 49)
    × (received.1.temp ≡ none)
    × (received.1.port.context.state ≡ Context.completed)
receive_file-ok_example =
    receive_file-ok toy_sha 2 (copies 64 49) sample_polls [] 1 sample_receiver received_hash

-- Nothing arrives until the idle deadline.
abbrev unanswered : Result Fault Bytes × Receiver
unanswered = receive_file toy_sha 2 (copies 64 49) [] [] 1 sample_receiver

unanswered_timeout : unanswered.0 ≡ err (transfer_error receive_timeout)
unfolding receive_file Receiver.receive_content Receiver.receive_loop Receiver.check_cancelled
    Receiver.take_datagram Receiver.take_packet Receiver.take_data Receiver.take_fin
    Reception.send_ack Reception.send Receiver.conclude Receiver.linger Port.inject Port.encode
    decode_packet encode_packet Codec.validate_header_size Codec.unpack_header Struct.unpack
    Codec.validate_flags_value Codec.unknown_bits Codec.pack_header Struct.pack Packet.validate
    Packet.has_flag Crc32.calculate_crc32 Crc32.zlib_crc32 FileHash.read_chunks
    FileHash.chunks_within FileHash.sha256_file
unanswered_timeout = refl

receive_file-err_example :
    (unanswered.1.temp ≡ none)
    × ((unanswered.1.destination ≡ none)
        ⊎ IsVerified toy_sha 2 (copies 64 49) unanswered.1.destination)
    × ((unanswered.1.port.context.cancel_event ≡ true)
        ⊎ (unanswered.1.port.context.state ≡ Context.failed))
receive_file-err_example =
    receive_file-err toy_sha 2 (copies 64 49) [] [] 1 sample_receiver
      (transfer_error receive_timeout) unanswered_timeout

greeting_chunks : read_chunks 1024 greeting ≡ greeting ∷ []
unfolding read_chunks FileHash.chunks_within
greeting_chunks = refl

fin_decodes : decode_packet fin_datagram ≡ ok last_packet
unfolding Receiver.receive_content Receiver.receive_loop Receiver.check_cancelled
    Receiver.take_datagram Receiver.take_packet Receiver.take_data Receiver.take_fin
    Reception.send_ack Reception.send Receiver.conclude Receiver.linger Port.inject Port.encode
    decode_packet encode_packet Codec.validate_header_size Codec.unpack_header Struct.unpack
    Codec.validate_flags_value Codec.unknown_bits Codec.pack_header Struct.pack Packet.validate
    Packet.has_flag Crc32.calculate_crc32 Crc32.zlib_crc32 FileHash.read_chunks
    FileHash.chunks_within FileHash.sha256_file
fin_decodes = refl

stray_refused : (q : RdtPacket) → decode_packet (3 ∷ []) ≢ ok q
unfolding Receiver.receive_content Receiver.receive_loop Receiver.check_cancelled
    Receiver.take_datagram Receiver.take_packet Receiver.take_data Receiver.take_fin
    Reception.send_ack Reception.send Receiver.conclude Receiver.linger Port.inject Port.encode
    decode_packet encode_packet Codec.validate_header_size Codec.unpack_header Struct.unpack
    Codec.validate_flags_value Codec.unknown_bits Codec.pack_header Struct.pack Packet.validate
    Packet.has_flag Crc32.calculate_crc32 Crc32.zlib_crc32 FileHash.read_chunks
    FileHash.chunks_within FileHash.sha256_file
stray_refused q h = cc

chunk-IsGenuine : IsGenuine 7 (read_chunks 1024 greeting) chunk_datagram
chunk-IsGenuine q h i =
    let e : chunk_packet ≡ q = cc (h, chunk_decodes) in
    subst (FromSender (read_chunks 1024 greeting)) e (Assembly.chunk refl (rw greeting_chunks refl))

fin-IsGenuine : IsGenuine 7 (read_chunks 1024 greeting) fin_datagram
fin-IsGenuine q h i =
    let e : last_packet ≡ q = cc (h, fin_decodes) in
    subst (FromSender (read_chunks 1024 greeting)) e (Assembly.last refl (rw greeting_chunks refl))

receive_file-content_example : received.1.destination ≡ some greeting
receive_file-content_example =
    receive_file-content toy_sha 2 (copies 64 49) sample_polls [] 1 sample_receiver 1024 greeting
      (omega arith)
      (
        chunk-IsGenuine,
        ((λ q h i. absurd (stray_refused q h)), (chunk-IsGenuine, (fin-IsGenuine, tt))),
      )
      received_hash

stray_decodes : decode_packet (3 ∷ []) ≡ err too_short
unfolding Receiver.receive_content Receiver.receive_loop Receiver.check_cancelled
    Receiver.take_datagram Receiver.take_packet Receiver.take_data Receiver.take_fin
    Reception.send_ack Reception.send Receiver.conclude Receiver.linger Port.inject Port.encode
    decode_packet encode_packet Codec.validate_header_size Codec.unpack_header Struct.unpack
    Codec.validate_flags_value Codec.unknown_bits Codec.pack_header Struct.pack Packet.validate
    Packet.has_flag Crc32.calculate_crc32 Crc32.zlib_crc32 FileHash.read_chunks
    FileHash.chunks_within FileHash.sha256_file
stray_decodes = refl

sample-Brings : Brings 7 peer (read_chunks 1024 greeting) 0 sample_polls
sample-Brings =
    next chunk_datagram chunk_packet chunk_decodes refl refl refl (rw greeting_chunks refl) (
      refused (3 ∷ []) peer too_short stray_decodes (
        again chunk_datagram chunk_packet chunk_decodes refl refl (omega arith)
          (rw greeting_chunks refl)
          (finished [] fin_datagram last_packet fin_decodes refl refl refl
            (rw greeting_chunks refl))))

receive_file-returns_example :
    ((receive_file toy_sha 2 (sha256_file toy_sha greeting) sample_polls [] 1 sample_receiver).0
      ≡ ok (sha256_file toy_sha greeting))
    × ((receive_file toy_sha 2
          (sha256_file toy_sha greeting)
          sample_polls
          []
          1
          sample_receiver).1.destination
        ≡ some greeting)
receive_file-returns_example =
    receive_file-returns toy_sha greeting 1024 1 peer sample_polls [] sample_receiver (omega arith)
      (omega arith) (rw greeting_chunks (omega arith)) refl refl (inl refl) sample-Brings tt

-- With nothing on the schedule, no reply comes.
abbrev lonely_sender : Sender
lonely_sender = record sample_sender { schedule = [] }

send_file-Bursts_example :
    Bursts 11
      (packets_of 7 0 (read_chunks 1024 greeting))
      (injections (send_file toy_sha (some greeting) 1 lonely_sender).1.port.log)
send_file-Bursts_example = send_file-Bursts toy_sha greeting 1 lonely_sender refl

acknowledged :
    (send_and_wait (data_packet 7 0 greeting) PacketFlag.ack 0 sample_sender).0 ≡ ok reply_packet
unfolding Sender.send_content Sender.send_chunks Sender.send_and_wait Sender.attempts
    Sender.wait_reply Sender.check_cancelled Sender.take_datagram Sender.take_reply Port.inject
    Port.encode decode_packet encode_packet Codec.validate_header_size Codec.unpack_header
    Struct.unpack Codec.validate_flags_value Codec.unknown_bits Codec.pack_header Struct.pack
    Packet.validate Packet.has_flag Crc32.calculate_crc32 Crc32.zlib_crc32 FileHash.read_chunks
    FileHash.chunks_within FileHash.sha256_file
acknowledged = refl

send_and_wait-Answers_example :
    (has_flag reply_packet PacketFlag.ack ≡ true) × (reply_packet.acknowledgment_number ≡ 0)
send_and_wait-Answers_example =
    send_and_wait-Answers (data_packet 7 0 greeting) PacketFlag.ack 0 sample_sender acknowledged

abbrev sample_log : List Bytes
sample_log = injections (send_file toy_sha (some greeting) 1 sample_sender).1.port.log

logged : sample_log ≡ chunk_datagram ∷ fin_datagram ∷ []
unfolding send_file Sender.send_content Sender.send_chunks Sender.send_and_wait Sender.attempts
    Sender.wait_reply Sender.check_cancelled Sender.take_datagram Sender.take_reply Port.inject
    Port.encode decode_packet encode_packet Codec.validate_header_size Codec.unpack_header
    Struct.unpack Codec.validate_flags_value Codec.unknown_bits Codec.pack_header Struct.pack
    Packet.validate Packet.has_flag Crc32.calculate_crc32 Crc32.zlib_crc32 FileHash.read_chunks
    FileHash.chunks_within FileHash.sha256_file
logged = refl

-- Neither lost, nor corrupted, nor repeated.
abbrev clean_injector : FaultInjector toy_random
clean_injector = record {
  config = record { loss_rate = 0; corruption_rate = 0; duplicate_rate = 0; seed = none };
  generator = 0;
}

chunk_arrives : MayArrive toy_random sample_sender sample_log chunk_datagram
chunk_arrives =
    sent clean_injector chunk_datagram (rw logged (Memᴰ.head refl)) (
      rw (sendto_faultless toy_random clean_injector chunk_datagram refl refl refl)
        (Memᴰ.head refl))

fin_arrives : MayArrive toy_random sample_sender sample_log fin_datagram
fin_arrives =
    sent clean_injector fin_datagram (rw logged (Memᴰ.tail (Memᴰ.head refl)))
      (rw (sendto_faultless toy_random clean_injector fin_datagram refl refl refl) (Memᴰ.head refl))

transfer_delivers_example : received.1.destination ≡ some greeting
transfer_delivers_example =
    transfer_delivers toy_sha toy_random greeting 1 sample_sender sample_receiver 2 (copies 64 49)
      sample_polls [] 1 (all_bytes-IsBytes greeting refl) (omega arith) refl refl
      (
        chunk_arrives,
        (foreign (λ q h. absurd (stray_refused q h)), (chunk_arrives, (fin_arrives, tt))),
      )
      received_hash
