-- ===== src/Rdt/Receiver/Delivery.antt =====
-- What the receiver delivers when the packets of its transfer come from a sender of the chunks of
-- one content: that content.
use hybrid_ftp_system.Prelude.{
  ℕ, ◌<◌, ◌≡◌, ap, ◌∙◌, refl, arith, Bytes, some, ok, Result-cases, inl, inr, List,
}
use hybrid_ftp_system.Protocol.FileHash.{Sha256, read_chunks}
use hybrid_ftp_system.Protocol.FileHash.Chunks.{concat-read_chunks}
use hybrid_ftp_system.Rdt.Receiver.{receive_file}
use hybrid_ftp_system.Rdt.Reception.{Receiver, Poll}
use hybrid_ftp_system.Rdt.Receiver.Loop.{Arrivals}
use hybrid_ftp_system.Rdt.Receiver.Files.{
  looped, opened, verifying, concluded, conclude-ok, receive_content-ok, receive_content-err,
}
use hybrid_ftp_system.Rdt.Receiver.Assembly.{IsGenuine, Assembled, receive_loop-Complete}

module _ (sha : Sha256) (size : ℕ) (expected_hash : Bytes) (polls lingering : List Poll) (now : ℕ)
    (s : Receiver) (n : ℕ) (content : Bytes) where
  started : Assembled s.port.context.transfer_id (read_chunks n content) (opened sha s)
  started = record { transfer_id = refl; temp = ground arith; within = omega arith }

  -- When every datagram that arrives is refused by the codec, belongs to another transfer, or
  -- carries a packet of a sender of the content's chunks of a positive size (a chunk under its own
  -- number, a FIN under the number of chunks, a CANCEL), in any order and any number of times, then
  -- a call that returns has put exactly the content at the destination.
  pub receive_file-content :
      {h : Bytes}
      → 0 < n
      → Arrivals (λ d _. IsGenuine s.port.context.transfer_id (read_chunks n content) d) polls
      → (receive_file sha size expected_hash polls lingering now s).0 ≡ ok h
      → (receive_file sha size expected_hash polls lingering now s).1.destination ≡ some content
  unfolding receive_file
  receive_file-content {h} positive genuine k =
      let loop = looped sha size expected_hash polls lingering now s in
      elim (Result-cases loop.0) [
        | inl (fin, e) ↦
            let shape = receive_content-ok sha size expected_hash polls lingering now s fin e in
            let last : (concluded sha size expected_hash polls lingering now s fin).0 ≡ ok h =
              ground (arith, shape) in
            let (_, _, moved, _, _) =
              conclude-ok sha expected_hash fin lingering now (verifying sha loop.1) last in
            let all =
              receive_loop-Complete s.port.context.transfer_id (read_chunks n content) size polls
                (opened sha s) fin genuine started e in
            let whole : (concluded sha size expected_hash polls lingering now s fin).1.destination
                ≡ some content =
              moved ∙ all.temp ∙ ap some (concat-read_chunks n content positive) in
            ground (arith, shape, whole, last)
        | inr (why, e) ↦
            ground (arith, receive_content-err sha size expected_hash polls lingering now s why e)
      ]
