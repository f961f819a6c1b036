-- ===== src/Tests/Faults.antt =====
-- The fault injector at concrete rates.
use hybrid_ftp_system.Prelude.{◌≤◌, ◌≡◌, ◌⊎◌, refl, length, All, none, ok, err}
use hybrid_ftp_system.Protocol.Codec.{decode_packet, PacketDecodeError}
use hybrid_ftp_system.Rdt.FaultInjector.{FaultInjector, sendto, certain}
use hybrid_ftp_system.Rdt.FaultInjector.Faults.{AtMostFlipped, sendto_faults, sendto-decode}
use hybrid_ftp_system.Tests.Samples.{
  toy_random, chunk_datagram, chunk_packet, chunk_decodes, all_bytes-IsBytes,
}

-- Every datagram is corrupted and sent twice.
abbrev noisy : FaultInjector toy_random
noisy = record {
  config = record {
    loss_rate = 0;
    corruption_rate = certain;
    duplicate_rate = certain;
    seed = none;
  };
  generator = 0;
}

abbrev clean : FaultInjector toy_random
clean = record {
  config = record { loss_rate = 0; corruption_rate = 0; duplicate_rate = 0; seed = none };
  generator = 0;
}

abbrev lossy : FaultInjector toy_random
lossy = record {
  config = record { loss_rate = certain; corruption_rate = 0; duplicate_rate = 0; seed = none };
  generator = 0;
}

sendto_faults_example :
    All (AtMostFlipped chunk_datagram) (sendto toy_random noisy chunk_datagram).wire
    × (length (sendto toy_random noisy chunk_datagram).wire ≤ 2)
    × ((sendto toy_random noisy chunk_datagram).sent ≡ length chunk_datagram)
sendto_faults_example =
    sendto_faults toy_random noisy chunk_datagram (all_bytes-IsBytes chunk_datagram refl)

sendto-decode_example :
    All
      (λ w.
        (decode_packet w ≡ ok chunk_packet) ⊎ ((e : PacketDecodeError) × (decode_packet w ≡ err e)))
      (sendto toy_random noisy chunk_datagram).wire
sendto-decode_example =
    sendto-decode toy_random noisy chunk_datagram (all_bytes-IsBytes chunk_datagram refl)
      chunk_decodes
