-- ===== src/Tests/Upload.antt =====
-- An upload of two bytes, and one of which nothing arrives.
use hybrid_ftp_system.Prelude.{◌≡◌, refl, true, false, [], ◌∷◌, none, some, Option}
use hybrid_ftp_system.Protocol.Packet
use hybrid_ftp_system.Protocol.Struct
use hybrid_ftp_system.Protocol.Crc32
use hybrid_ftp_system.Protocol.Codec
use hybrid_ftp_system.Protocol.Codec.{decode_packet, encode_packet}
use hybrid_ftp_system.Protocol.FileHash
use hybrid_ftp_system.Rdt.Port
use hybrid_ftp_system.Rdt.Port.{Address, transfer_error, receive_timeout}
use hybrid_ftp_system.Rdt.Reception
use hybrid_ftp_system.Rdt.Receiver
use hybrid_ftp_system.Rdt.Receiver.{receive_file}
use hybrid_ftp_system.DataTransfer.Session.{FtpSession, new_session, mode_none, mode_passive}
use hybrid_ftp_system.DataTransfer.Target.{
  SocketAnswers, server_socket_and_peer, passive_target, ready,
}
use hybrid_ftp_system.DataTransfer.Upload as Upload
use hybrid_ftp_system.DataTransfer.Upload.{
  TransferResult, success, failure, rdt_error, DiskAnswers, Disk, Run, written, udp_receive_file,
}
use hybrid_ftp_system.DataTransfer.Upload.Stored.{
  StoredFile, udp_receive_file-clean, udp_receive_file-success, udp_receive_file-failure,
}
use hybrid_ftp_system.Tests.Samples.{toy_sha, sample_polls, copies, peer}

abbrev answers : SocketAnswers
answers = record { first_datagram = some (ready, peer); fresh_socket = some 4; ready_sent = true }

abbrev fresh_session : FtpSession
fresh_session = new_session 3 (49 ∷ []) 5000

abbrev passive_session : FtpSession
passive_session = record fresh_session { mode = mode_passive; pasv_udp_sock = some 3 }

abbrev pub sample_run : Run
sample_run = record {
  started_at = 0;
  finished_at = 1;
  outcomes = [];
  polls = sample_polls;
  lingering = [];
}

abbrev silent_run : Run
silent_run = record sample_run { polls = [] }

abbrev disk_answers : DiskAnswers
disk_answers = record {
  mkdir = true;
  write = written;
  replace = true;
  unlink = true;
  cleanup = true;
}

abbrev sample_disk : Disk
sample_disk = record { upload = none; destination = some (1 ∷ []) }

abbrev uploaded : Run → Option TransferResult × FtpSession × Disk
uploaded run =
    udp_receive_file toy_sha 7 2 (copies 64 49) false answers run disk_answers passive_session
      sample_disk

uploads : (uploaded sample_run).0 ≡ some (success 2)
unfolding udp_receive_file server_socket_and_peer passive_target Upload.store Upload.store_binary
    receive_file Receiver.receive_content Receiver.receive_loop Receiver.check_cancelled
    Receiver.take_datagram Receiver.take_packet Receiver.take_data Receiver.take_fin
    Reception.send_ack Reception.send Receiver.conclude Receiver.linger Port.inject Port.encode
    decode_packet encode_packet Codec.validate_header_size Codec.unpack_header Struct.unpack
    Codec.validate_flags_value Codec.unknown_bits Codec.pack_header Struct.pack Packet.validate
    Packet.has_flag Crc32.calculate_crc32 Crc32.zlib_crc32 FileHash.read_chunks
    FileHash.chunks_within FileHash.sha256_file
uploads = refl

times_out : (uploaded silent_run).0 ≡ some (failure (rdt_error (transfer_error receive_timeout)))
unfolding udp_receive_file server_socket_and_peer passive_target receive_file
    Receiver.receive_content Receiver.receive_loop Receiver.check_cancelled Receiver.take_datagram
    Receiver.take_packet Receiver.take_data Receiver.take_fin Reception.send_ack Reception.send
    Receiver.conclude Receiver.linger Port.inject Port.encode decode_packet encode_packet
    Codec.validate_header_size Codec.unpack_header Struct.unpack Codec.validate_flags_value
    Codec.unknown_bits Codec.pack_header Struct.pack Packet.validate Packet.has_flag
    Crc32.calculate_crc32 Crc32.zlib_crc32 FileHash.read_chunks FileHash.chunks_within
    FileHash.sha256_file
times_out = refl

udp_receive_file-clean_example :
    ((uploaded sample_run).2.upload ≡ none)
    × ((uploaded sample_run).1.transfer_context ≡ none)
    × ((uploaded sample_run).1.pasv_udp_sock ≡ none)
    × ((uploaded sample_run).1.mode ≡ mode_none)
udp_receive_file-clean_example =
    udp_receive_file-clean toy_sha 7 2 (copies 64 49) false answers sample_run disk_answers
      passive_session sample_disk uploads

udp_receive_file-success_example :
    StoredFile toy_sha 7 2
      (copies 64 49)
      false
      answers
      sample_run
      disk_answers
      passive_session
      sample_disk
      (uploaded sample_run).2
udp_receive_file-success_example =
    udp_receive_file-success toy_sha 7 2 (copies 64 49) false answers sample_run disk_answers
      passive_session sample_disk uploads

udp_receive_file-failure_example : (uploaded silent_run).2.destination ≡ some (1 ∷ [])
udp_receive_file-failure_example =
    udp_receive_file-failure toy_sha 7 2 (copies 64 49) false answers silent_run disk_answers
      passive_session sample_disk refl refl times_out
