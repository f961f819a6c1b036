-- ===== src/Rdt/Receiver/Success.antt =====
-- A transfer that succeeds: from the chunks and the FIN that come in order to the returned hash.
use hybrid_ftp_system.Prelude.{
  ℕ, ◌<◌, ◌^◌, ◌≡◌, ◌⊎◌, refl, sym, ap, ◌∙◌, arith, false, List, [], ◌∷◌, length, Bytes, IsBytes,
  All-map, none, some, Result, ok, same_refl,
}
use hybrid_ftp_system.Protocol.Packet.{RdtPacket}
use hybrid_ftp_system.Protocol.Codec.{encode_packet}
use hybrid_ftp_system.Protocol.Codec.Encode.{encode-total}
use hybrid_ftp_system.Protocol.FileHash.{Sha256, sha256_file, read_chunks}
use hybrid_ftp_system.Protocol.FileHash.Chunks.{concat-read_chunks}
use hybrid_ftp_system.Rdt.Context
use hybrid_ftp_system.Rdt.Port.{Address, Fault, encode, inject, change_context}
use hybrid_ftp_system.Rdt.Receiver.{
  answer_fin, linger, conclude, receive_file, receive_content, fin_ack_packet, open_temp,
  replace_destination, receive_loop, temp_hash, content_of,
}
use hybrid_ftp_system.Rdt.Reception.{
  Receiver, Poll, timed_out, receive_error, arrived, cancel_requested, send, on_port,
}
use hybrid_ftp_system.Rdt.Receiver.Files.{conclude-ok}
use hybrid_ftp_system.Rdt.Receiver.Progress.{Ready}
use hybrid_ftp_system.Rdt.Receiver.Returns.{Brings, receive_loop-Brings}

-- No poll raises `OSError`, and none comes with a cancellation.
abbrev pub IsCalm : List Poll → Type 0
IsCalm [] = Unit
IsCalm (timed_out ∷ polls) = IsCalm polls
IsCalm (receive_error ∷ polls) = ⊥
IsCalm (cancel_requested ∷ polls) = ⊥
IsCalm (arrived d a ∷ polls) = IsCalm polls

module _ (tid : ℕ) (from : Address) (cs : List Bytes) (fin_ack : RdtPacket) (d : Bytes)
    (q : RdtPacket) (e : encode_packet fin_ack ≡ ok (d, q)) where
  send-Ready :
      (s : Receiver)
      → Ready tid from cs s
      → ((send fin_ack s).0 ≡ ok tt) × Ready tid from cs (send fin_ack s).1
  unfolding send encode inject
  send-Ready s r = (
    ground (arith, e, r.outcomes, r.peer),
    record {
      transfer_id = ground (arith, e, r.transfer_id);
      outcomes = ground (arith, e, r.outcomes);
      running = ground (arith, e, r.running);
      peer = ground (arith, e, r.peer);
    },
  )

  answer_fin-Ready :
      (n : ℕ) (datagram : Bytes) (a : Address) (s : Receiver)
      → Ready tid from cs s
      → ((answer_fin fin_ack n datagram a s).0 ≡ ok tt)
        × Ready tid from cs (answer_fin fin_ack n datagram a s).1
  unfolding answer_fin
  answer_fin-Ready n datagram a s r =
      let (sent, after) = send-Ready s r in
      (
        ground (arith, sent),
        record {
          transfer_id = ground (arith, r.transfer_id, after.transfer_id);
          outcomes = ground (arith, r.outcomes, after.outcomes);
          running = ground (arith, r.running, after.running);
          peer = ground (arith, r.peer, after.peer);
        },
      )

  linger-returns :
      (n : ℕ) (polls : List Poll) (s : Receiver)
      → IsCalm polls
      → Ready tid from cs s
      → (linger fin_ack n polls s).0 ≡ ok tt
  unfolding linger
  linger-returns n [] s c r = refl
  linger-returns n (timed_out ∷ polls) s c r = linger-returns n polls s c r
  linger-returns n (receive_error ∷ polls) s c r = absurd c
  linger-returns n (cancel_requested ∷ polls) s c r = absurd c
  linger-returns n (arrived datagram a ∷ polls) s c r =
      let (answered, after) = answer_fin-Ready n datagram a s r in
      rw answered (linger-returns n polls _ c after)

module _ (sha : Sha256) (content : Bytes) where
  hash_shape : (length (sha256_file sha content) ≡ 64) × IsBytes (sha256_file sha content)
  unfolding sha256_file
  hash_shape = (
    sha.hexdigest_length _,
    All-map (sha256_file sha content) (λ c h. omega (arith, h)) (sha.hexdigest_ascii _),
  )

  fin_ack_encodes :
      (tid n : ℕ)
      → tid < 2 ^ 64
      → n < 2 ^ 32
      → (d : Bytes) × (q : RdtPacket) × (encode_packet
            (fin_ack_packet tid n (sha256_file sha content))
          ≡ ok (d, q))
  fin_ack_encodes tid n t h =
      let (size, bytes) = hash_shape in
      encode-total (fin_ack_packet tid n (sha256_file sha content))
        (record {
          magic_is = refl;
          version_is = refl;
          has_some_flag = omega arith;
          transfer_id_fits = t;
          sequence_fits = omega arith;
          acknowledgment_fits = h;
          window_fits = omega arith;
          payload_fits = omega (arith, size);
          checksum_fits = omega arith;
        })
        (omega arith) bytes

  module _ (tid n now : ℕ) (from : Address) (cs : List Bytes) (lingering : List Poll) where
    conclude-returns :
        (s : Receiver)
        → tid < 2 ^ 64
        → n < 2 ^ 32
        → IsCalm lingering
        → Ready tid from cs s
        → s.temp ≡ some content
        → (conclude sha (sha256_file sha content) n lingering now s).0
          ≡ ok (sha256_file sha content)
    unfolding conclude
    conclude-returns s t h calm r there =
        let fin_ack = fin_ack_packet s.port.context.transfer_id n (sha256_file sha content) in
        let (d, q, e) = fin_ack_encodes s.port.context.transfer_id n (rw r.transfer_id t) h in
        let moved = (replace_destination s).1 in
        let (sent, after) = send-Ready tid from cs fin_ack d q e moved (record {
          transfer_id = r.transfer_id;
          outcomes = r.outcomes;
          running = r.running;
          peer = r.peer;
        }) in
        let quiet =
          linger-returns tid from cs fin_ack d q e n lingering (send fin_ack moved).1 calm after in
        let hashed : temp_hash sha s ≡ sha256_file sha content =
          ap (λ file. sha256_file sha (content_of file)) there in
        rw (hashed, same_refl (sha256_file sha content), sent, quiet) refl

  module _ (k now : ℕ) (from : Address) (polls lingering : List Poll) (s : Receiver) where
    abbrev opened_receiver : Receiver
    opened_receiver = (open_temp s).1

    abbrev looped_receiver : Result Fault ℕ × Receiver
    looped_receiver = receive_loop (length content) polls opened_receiver

    abbrev verifying_receiver : Receiver
    verifying_receiver =
        (on_port (change_context (λ c. record c { state = Context.verifying })) looped_receiver.1).1

    -- A receiver that is not cancelled, whose own sends go through, and that has no peer yet or
    -- listens to `from`, is told the size and the SHA-256 of a content that is cut into chunks of a
    -- positive size, fewer than 2 ^ 32. When the polls bring the chunks in order and the FIN from
    -- `from`, with any timeouts, refused datagrams and repeated chunks between them, and no poll
    -- behind the FIN_ACK raises or comes with a cancellation, then `receive_file` returns the
    -- SHA-256, and the content is at the destination.
    pub receive_file-returns :
        0 < k
        → s.port.context.transfer_id < 2 ^ 64
        → length (read_chunks k content) < 2 ^ 32
        → s.port.outcomes ≡ []
        → s.port.context.cancel_event ≡ false
        → (s.peer ≡ none) ⊎ (s.peer ≡ some from)
        → Brings s.port.context.transfer_id from (read_chunks k content) 0 polls
        → IsCalm lingering
        → ((receive_file sha (length content) (sha256_file sha content) polls lingering now s).0
            ≡ ok (sha256_file sha content))
          × ((receive_file sha
                (length content)
                (sha256_file sha content)
                polls
                lingering
                now
                s).1.destination
              ≡ some content)
    unfolding receive_file receive_content
    receive_file-returns positive t h outcomes running heard brings calm =
        let tid = s.port.context.transfer_id in
        let cs = read_chunks k content in
        let whole = concat-read_chunks k content positive in
        let (ended, ready, there) =
          receive_loop-Brings tid from cs (length content) t h (sym (ap length whole)) 0 polls
            opened_receiver (omega arith)
            (record {
              transfer_id = refl;
              outcomes = outcomes;
              running = running;
              heard = heard;
              expected = refl;
              counted = refl;
              assembled = record { transfer_id = refl; temp = refl; within = omega arith };
            })
            brings in
        let returned =
          conclude-returns tid (length cs) now from cs lingering verifying_receiver t h calm
            (record {
              transfer_id = ready.transfer_id;
              outcomes = ready.outcomes;
              running = ready.running;
              peer = ready.peer;
            })
            (there ∙ ap some whole) in
        let (_, _, moved, _, _) =
          conclude-ok sha (sha256_file sha content) (length cs) lingering now verifying_receiver
            returned in
        rw (ended, returned) (refl, moved ∙ there ∙ ap some whole)
