-- ===== src/Rdt/Sender/Ends.antt =====
-- How `send_file` ends: with the file's hash and a completed transfer, or with an exception.
use hybrid_ftp_system.Prelude.{
  ℕ, zero, suc, ◌+◌, ◌≡◌, arith, true, length, Result-cases, inl, inr, Bytes, Option, none, some,
  ok, List, [], ◌∷◌,
}
use hybrid_ftp_system.Prelude.Int.{pos_part}
use hybrid_ftp_system.Protocol.PacketFlag.{PacketFlag}
use hybrid_ftp_system.Protocol.PacketFlag
use hybrid_ftp_system.Protocol.Packet.{RdtPacket, has_flag}
use hybrid_ftp_system.Protocol.Codec.{decode_packet, encode_packet}
use hybrid_ftp_system.Protocol.FileHash.{Sha256, sha256_file}
use hybrid_ftp_system.Rdt.Context
use hybrid_ftp_system.Rdt.Port.{
  Address, os_error, raise, pure, Exec, change_context, change_statistics, ◌>>=◌, ◌>>◌, >>=-eq-ok,
  encode,
}
use hybrid_ftp_system.Rdt.Sender.{
  Sender, Attempt, Round, timed_out, receive_error, arrived, cancel_requested, on_port, attempts,
  check_cancelled, take_reply, take_datagram, wait_reply, send_and_wait, next_attempt,
  apply_request, do_inject,
}
use hybrid_ftp_system.Rdt.Sender.Transfer.{chunks_of, exchanged, started}

-- A reply that was waited for: of this flag, for this sequence number.
abbrev Answers : PacketFlag → ℕ → RdtPacket → Type 0
Answers flag ack reply = (has_flag reply flag ≡ true) × (reply.acknowledgment_number ≡ ack)

take_reply-Answers :
    (flag : PacketFlag) (ack : ℕ) (q : RdtPacket) (address : Address) (s : Sender)
    {reply : RdtPacket}
    → (take_reply flag ack q address s).0 ≡ ok (some reply)
    → Answers flag ack reply
unfolding take_reply
take_reply-Answers flag ack q address s h = ground arith

take_datagram-Answers :
    (flag : PacketFlag) (ack : ℕ) (d : Bytes) (address : Address) (s : Sender) {reply : RdtPacket}
    → (take_datagram flag ack d address s).0 ≡ ok (some reply)
    → Answers flag ack reply
unfolding take_datagram
take_datagram-Answers flag ack d address s h = elim (Result-cases (decode_packet d)) [
  | inl (q, e) ↦ take_reply-Answers flag ack q address s (rw (e, take_datagram) at h)
  | inr (why, e) ↦ ground (arith, e)
]

abbrev after_datagram :
    PacketFlag → ℕ → List Round → Option RdtPacket → Exec Sender (Option RdtPacket)
after_datagram flag ack rounds found = elim found [
  | none ↦ wait_reply flag ack rounds
  | some reply ↦ pure (some reply)
]

wait_reply-Answers :
    (flag : PacketFlag) (ack : ℕ) (rounds : List Round) (s : Sender) {reply : RdtPacket}
    → (wait_reply flag ack rounds s).0 ≡ ok (some reply)
    → Answers flag ack reply
unfolding wait_reply
wait_reply-Answers flag ack [] s h = cc
wait_reply-Answers flag ack (timed_out ∷ rounds) s h =
    let (_, _, e, _) = >>=-eq-ok check_cancelled (λ _. pure none) s h in cc
wait_reply-Answers flag ack (receive_error ∷ rounds) s h =
    let (_, _, e, _) = >>=-eq-ok check_cancelled (λ _. raise os_error) s h in cc
wait_reply-Answers flag ack (cancel_requested ∷ rounds) s h =
    let (_, _, e, _) =
      >>=-eq-ok check_cancelled (λ _. pure none) (on_port (change_context Context.cancel) s).1 h in
    cc
wait_reply-Answers flag ack (arrived d address ∷ rounds) s {reply} h =
    let (_, _, e, _) =
      >>=-eq-ok check_cancelled
        (λ _. take_datagram flag ack d address >>= after_datagram flag ack rounds) s h in
    let (found, f, g, _) =
      >>=-eq-ok (take_datagram flag ack d address) (after_datagram flag ack rounds) _ e in
    answered found _ f g (λ t k. wait_reply-Answers flag ack rounds t k)
  where
    answered :
        (found : Option RdtPacket) (t : Sender)
        → (take_datagram flag ack d address (check_cancelled s).1).0 ≡ ok found
        → (after_datagram flag ack rounds found t).0 ≡ ok (some reply)
        → ((u : Sender)
            → (wait_reply flag ack rounds u).0 ≡ ok (some reply)
            → Answers flag ack reply)
        → Answers flag ack reply
    answered none t f g again = again t g
    answered (some r) t f g again =
        take_datagram-Answers flag ack d address (check_cancelled s).1 (ground (arith, f, g))

-- What holds of every result that a computation returns.
abbrev Ensures {ℓ κ} : {A : Type ℓ} → (A → Type κ) → Exec Sender A → Type (ℓ ⊔ κ)
Ensures {A = A} Q m = (s : Sender) (a : A) → (m s).0 ≡ ok a → Q a

Ensures-bind {ℓ κ μ} :
    {A : Type ℓ} {B : Type κ} (Q : B → Type μ) (m : Exec Sender A) (f : A → Exec Sender B)
    → ((a : A) → Ensures Q (f a))
    → Ensures Q (m >>= f)
Ensures-bind Q m f h s b e = let (a, _, g, _) = >>=-eq-ok m f s e in h a _ b g

abbrev next_round : PacketFlag → ℕ → ℕ → Bytes → Option RdtPacket → Exec Sender RdtPacket
next_round flag ack n raw found = elim found [
  | none ↦ attempts n raw flag ack
  | some reply ↦ pure reply
]

abbrev count_sent : Exec Sender (Unit {0})
count_sent = on_port (change_statistics (λ t. record t { packets_sent = t.packets_sent + 1 }))

abbrev listen : ℕ → Bytes → PacketFlag → ℕ → Attempt → Exec Sender RdtPacket
listen n raw flag ack now = wait_reply flag ack now.rounds >>= next_round flag ack n raw

abbrev attempt : ℕ → Bytes → PacketFlag → ℕ → Attempt → Exec Sender RdtPacket
attempt n raw flag ack now =
    apply_request now.cancel_before
    >> (check_cancelled >> (do_inject raw >> (count_sent >> listen n raw flag ack now)))

attempts-Answers :
    (n : ℕ) (raw : Bytes) (flag : PacketFlag) (ack : ℕ)
    → Ensures (Answers flag ack) (attempts n raw flag ack)
unfolding attempts
attempts-Answers zero raw flag ack s reply h = cc
attempts-Answers (suc n) raw flag ack s reply h =
    Ensures-bind (Answers flag ack) next_attempt (attempt n raw flag ack)
      (λ now.
        Ensures-bind (Answers flag ack) (apply_request now.cancel_before)
          (λ _. check_cancelled >> (do_inject raw >> (count_sent >> listen n raw flag ack now)))
          (λ _.
            Ensures-bind (Answers flag ack) check_cancelled
              (λ _. do_inject raw >> (count_sent >> listen n raw flag ack now))
              (λ _.
                Ensures-bind (Answers flag ack) (do_inject raw)
                  (λ _. count_sent >> listen n raw flag ack now)
                  (λ _.
                    Ensures-bind (Answers flag ack) count_sent (λ _. listen n raw flag ack now)
                      (λ _. waited now.rounds (attempts-Answers n raw flag ack))))))
      s reply h
  where
    waited :
        (rounds : List Round)
        → Ensures (Answers flag ack) (attempts n raw flag ack)
        → Ensures (Answers flag ack) (wait_reply flag ack rounds >>= next_round flag ack n raw)
    waited rounds again t r e =
        let (found, f, g, _) =
          >>=-eq-ok (wait_reply flag ack rounds) (next_round flag ack n raw) t e in
        answered found f g
      where
        answered :
            (found : Option RdtPacket)
            → (wait_reply flag ack rounds t).0 ≡ ok found
            → (next_round flag ack n raw found (wait_reply flag ack rounds t).1).0 ≡ ok r
            → Answers flag ack r
        answered none f g = again _ r g
        answered (some q) f g = wait_reply-Answers flag ack rounds t (ground (arith, f, g))

-- When the wait for the answer to a packet returns a reply, the reply carries the awaited flag and
-- the awaited acknowledgment number.
pub send_and_wait-Answers :
    (packet : RdtPacket) (flag : PacketFlag) (ack : ℕ) (s : Sender) {reply : RdtPacket}
    → (send_and_wait packet flag ack s).0 ≡ ok reply
    → Answers flag ack reply
unfolding send_and_wait encode
send_and_wait-Answers packet flag ack s {reply} h = elim (Result-cases (encode_packet packet)) [
  | inl ((d, q), e) ↦
      attempts-Answers (pos_part s.port.context.config.maximum_retries + 1) d flag ack s reply
        (rw (e, send_and_wait) at h)
  | inr (why, e) ↦ ground (arith, e)
]

module _ (sha : Sha256) (content : Bytes) (now : ℕ) where
  -- The receiver's answer to the FIN, which is what the exchange of the whole file ended with: a
  -- FIN_ACK for the number of chunks that carries the file's hash.
  pub record Confirmed (s : Sender) : Type 0 where
    pub reply : RdtPacket
    pub exchange : (exchanged sha content now (started sha content now s)).0 ≡ ok reply
    pub answers : Answers PacketFlag.fin_ack (length (chunks_of sha content now s)) reply
    pub hash : reply.payload ≡ sha256_file sha content
