-- ===== src/Rdt/Sender/Transfer.antt =====
-- What a whole `send_file` hands to its fault injector.
use hybrid_ftp_system.Prelude.{
  ℕ, zero, suc, ◌+◌, ◌*◌, ◌≤◌, ◌≡◌, refl, ap, ◌++◌, ◌∙◌, arith, not, same, Bytes, some, Result, ok,
  err, List, [], ◌∷◌, false, Result-cases, inl, inr, length, All, get_elem?, drop,
}
use hybrid_ftp_system.Prelude.Int.{pos_part}
use hybrid_ftp_system.Protocol.PacketFlag
use hybrid_ftp_system.Protocol.PacketFlag.{PacketFlag}
use hybrid_ftp_system.Protocol.Packet.{RdtPacket}
use hybrid_ftp_system.Protocol.Codec.{encode_packet}
use hybrid_ftp_system.Protocol.FileHash.{Sha256, read_chunks, sha256_file}
use hybrid_ftp_system.Rdt.Context
use hybrid_ftp_system.Rdt.Port.{
  Fault, unicode_error, transfer_error, hash_mismatch, raise_when, pure, Exec, continue,
  change_context, change_statistics, ◌>>=◌, ◌>>◌, >>=-eq-ok, encode,
}
use hybrid_ftp_system.Rdt.Sender.{
  Sender, on_port, send_and_wait, send_chunks, data_packet, fin_packet, send_content, send_file,
  on_failure, is_ascii, finish_with,
}
use hybrid_ftp_system.Rdt.Sender.Emits.{
  injections, Follows, Sends, Sends-quiet, Sends-trans, Sends-weaken, Sends-refl, Sends-attempts,
}

-- A datagram that carries a chunk under its number, or the end of the transfer.
pub data IsEmission (tid : ℕ) (cs : List Bytes) (d : Bytes) : Type 0 where
  chunk :
      (i : ℕ) (c : Bytes) (q : RdtPacket)
      → get_elem? cs i ≡ some c
      → encode_packet (data_packet tid i c) ≡ ok (d, q)
      → IsEmission tid cs d
  last :
      (q : RdtPacket) → encode_packet (fin_packet tid (length cs)) ≡ ok (d, q) → IsEmission tid cs d

zero_add : (n : ℕ) → 0 + n ≡ n
zero_add n = omega arith

module _ (P : Bytes → Type 0) where
  Sends-continue_at {ℓ κ} :
      {A : Type ℓ} {B : Type κ} {j k : ℕ} (r : Result Fault A) (f : A → Exec Sender B)
      (s t : Sender)
      → Sends P j s t
      → ((a : A) → r ≡ ok a → Sends P k t (f a t).1)
      → Sends P (j + k) s (continue r f t).1
  Sends-continue_at (ok a) f s t h hf = Sends-trans P h (hf a refl)
  Sends-continue_at (err e) f s t h hf = Sends-weaken P (omega arith) h

  -- A bind whose second part is looked at behind the first one only.
  Sends-bind_at {ℓ κ} :
      {A : Type ℓ} {B : Type κ} {j k : ℕ} (m : Exec Sender A) (f : A → Exec Sender B) (s : Sender)
      → Sends P j s (m s).1
      → ((a : A) → (m s).0 ≡ ok a → Sends P k (m s).1 (f a (m s).1).1)
      → Sends P (j + k) s ((m >>= f) s).1
  Sends-bind_at m f s h hf = Sends-continue_at (m s).0 f s (m s).1 h hf

  -- One packet is injected at most once more than the configured retries.
  pub Sends-send_and_wait :
      (packet : RdtPacket) (flag : PacketFlag) (ack : ℕ) (s : Sender)
      → ((d : Bytes) (q : RdtPacket) → encode_packet packet ≡ ok (d, q) → P d)
      → Sends P
          (pos_part s.port.context.config.maximum_retries + 1)
          s
          (send_and_wait packet flag ack s).1
  unfolding send_and_wait encode
  Sends-send_and_wait packet flag ack s p = elim (Result-cases (encode_packet packet)) [
    | inl ((d, q), e) ↦
        rw (e, send_and_wait)
          (Sends-attempts P (pos_part s.port.context.config.maximum_retries + 1) d flag ack s
            (p d q e))
    | inr (why, e) ↦ rw (e, send_and_wait) (Sends-weaken P (omega arith) (Sends-refl P s))
  ]

abbrev pub one_chunk : ℕ → Bytes → Exec Sender RdtPacket
one_chunk i c s = send_and_wait (data_packet s.port.context.transfer_id i c) PacketFlag.ack i s

abbrev pub count_bytes : Bytes → Exec Sender (Unit {0})
count_bytes c =
    on_port
      (change_statistics (λ t. record t { bytes_transferred = t.bytes_transferred + length c }))

drop-cons {ℓ} :
    {A : Type ℓ} (cs : List A) (i : ℕ) {c : A} {rest : List A}
    → drop i cs ≡ c ∷ rest
    → (get_elem? cs i ≡ some c) × (drop (suc i) cs ≡ rest)
drop-cons [] zero h = cc
drop-cons [] (suc i) h = cc
drop-cons (x ∷ cs) zero h = (cc, cc)
drop-cons (x ∷ cs) (suc i) h = drop-cons cs i h

module _ (tid retries : ℕ) (cs : List Bytes) where
  abbrev Steady : Sender → Type 0
  Steady s =
      (s.port.context.transfer_id ≡ tid)
      × (pos_part s.port.context.config.maximum_retries ≡ retries)

  Steady-Sends : {P : Bytes → Type 0} {k : ℕ} {s t : Sender} → Sends P k s t → Steady s → Steady t
  Steady-Sends h (i, r) = (h.transfer_id ∙ i, ap (λ c. pos_part c.maximum_retries) h.config ∙ r)

  abbrev Emission : Bytes → Type 0
  Emission = IsEmission tid cs

  Sends-chunk :
      (i : ℕ) (c : Bytes) (s : Sender)
      → get_elem? cs i ≡ some c
      → Steady s
      → Sends Emission
          (retries + 1)
          s
          (send_and_wait (data_packet s.port.context.transfer_id i c) PacketFlag.ack i s).1
  Sends-chunk i c s g (same, r) = rw (← r) (
      Sends-send_and_wait Emission (data_packet s.port.context.transfer_id i c) PacketFlag.ack i s
        (λ d q e. chunk i c q g (rw same at e)))

  Sends-send_chunks :
      (i : ℕ) (rest : List Bytes) (s : Sender)
      → drop i cs ≡ rest
      → Steady s
      → Sends Emission ((retries + 1) * length rest) s (send_chunks i rest s).1
  unfolding send_chunks
  Sends-send_chunks i [] s e steady = Sends-weaken Emission (omega arith) (Sends-refl Emission s)
  Sends-send_chunks i (c ∷ rest) s e steady =
      let (g, later) = drop-cons cs i e in
      let one = Sends-chunk i c s g steady in
      Sends-weaken Emission (omega arith) (
        Sends-bind_at Emission {k = (retries + 1) * length rest} (one_chunk i c)
          (λ _. count_bytes c >> send_chunks (suc i) rest) s one
          (λ _ _. Sends-weaken Emission (omega arith) (
            Sends-bind_at Emission {j = 0} {k = (retries + 1) * length rest} (count_bytes c)
              (λ _. send_chunks (suc i) rest) _ (Sends-quiet Emission refl refl refl (λ f. f))
              (λ _ _. Sends-send_chunks (suc i) rest _ later (Steady-Sends one steady)))))

  send_chunks-count :
      (i : ℕ) (rest : List Bytes) (s : Sender) {n : ℕ}
      → (send_chunks i rest s).0 ≡ ok n
      → n ≡ i + length rest
  unfolding send_chunks
  send_chunks-count i [] s h = ground arith
  send_chunks-count i (c ∷ rest) s h =
      let (reply, e, more, _) =
        >>=-eq-ok (one_chunk i c) (λ _. count_bytes c >> send_chunks (suc i) rest) s h in
      send_chunks-count (suc i) rest (count_bytes c (one_chunk i c s).1).1 more ∙ omega arith

  Sends-last :
      (n : ℕ) (s : Sender)
      → n ≡ length cs
      → Steady s
      → Sends Emission
          (retries + 1)
          s
          (send_and_wait (fin_packet s.port.context.transfer_id n) PacketFlag.fin_ack n s).1
  Sends-last n s e (same, r) = rw (← r) (
      Sends-send_and_wait Emission (fin_packet s.port.context.transfer_id n) PacketFlag.fin_ack n s
        (λ d q f. last q (rw (same, e) at f)))

module _ (sha : Sha256) (content : Bytes) (now : ℕ) where
  abbrev pub chunks_of : Sender → List Bytes
  chunks_of s = read_chunks (pos_part s.port.context.config.payload_size) content

  abbrev pub retries_of : Sender → ℕ
  retries_of s = pos_part s.port.context.config.maximum_retries

  -- The end of the `try` behind the answer to the FIN.
  abbrev pub accept_reply : RdtPacket → Exec Sender Bytes
  accept_reply reply = do
    raise_when (not (is_ascii reply.payload)) unicode_error
    raise_when (not (same reply.payload (sha256_file sha content))) (transfer_error hash_mismatch)
    finish_with Context.completed now
    pure (sha256_file sha content)

  abbrev pub send_last : ℕ → Exec Sender RdtPacket
  send_last n s = send_and_wait (fin_packet s.port.context.transfer_id n) PacketFlag.fin_ack n s

  abbrev pub send_all : Exec Sender ℕ
  send_all s = send_chunks 0 (chunks_of s) s

  -- The transfer, up to the answer to the FIN.
  abbrev pub exchanged : Exec Sender RdtPacket
  exchanged = send_all >>= send_last

  abbrev pub started : Sender → Sender
  started s = (on_port (change_context (λ c. record c { state = Context.running })) s).1

  Sends-exchanged :
      (s : Sender)
      → Sends
          (IsEmission s.port.context.transfer_id (chunks_of s))
          ((retries_of s + 1) * (length (chunks_of s) + 1))
          (started s)
          (exchanged (started s)).1
  Sends-exchanged s =
      let P = IsEmission s.port.context.transfer_id (chunks_of s) in
      let all =
        Sends-send_chunks s.port.context.transfer_id (retries_of s) (chunks_of s) 0 (chunks_of s)
          (started s) refl (refl, refl) in
      Sends-weaken P (omega arith) (
        Sends-bind_at P {k = retries_of s + 1} send_all send_last (started s) all (λ n e.
          Sends-last s.port.context.transfer_id (retries_of s) (chunks_of s) n _
            (send_chunks-count s.port.context.transfer_id (retries_of s) (chunks_of s) 0
                (chunks_of s) (started s) e
              ∙ omega arith)
            (Steady-Sends s.port.context.transfer_id (retries_of s) (chunks_of s) all
              (refl, refl))))

  -- The state behind the exchange is that of a transfer that runs, or that was cancelled.
  pub exchanged-Follows :
      (s : Sender)
      → s.port.context.cancel_event ≡ false
      → Follows (exchanged (started s)).1.port.context
  exchanged-Follows s c = (Sends-exchanged s).follows (rw c refl)

  -- Behind the last chunk, the number is that of the chunks.
  pub exchanged-count :
      (s : Sender) {n : ℕ} → (send_all (started s)).0 ≡ ok n → n ≡ length (chunks_of s)
  exchanged-count s e =
      send_chunks-count s.port.context.transfer_id (retries_of s) (chunks_of s) 0 (chunks_of s)
        (started s) e
      ∙ omega arith

  -- `send_file` is the exchange, what follows the answer, and the `except`.
  abbrev pub ended : Result Fault RdtPacket × Sender → Result Fault Bytes × Sender
  ended (r, s) = on_failure now (continue r accept_reply s)

  regrouped :
      (r : Result Fault ℕ) (s : Sender)
      → continue r (λ n. send_last n >>= accept_reply) s
        ≡ continue (continue r send_last s).0 accept_reply (continue r send_last s).1
  regrouped (ok n) s = refl
  regrouped (err e) s = refl

  pub send_file-ended :
      (s : Sender) → send_file sha (some content) now s ≡ ended (exchanged (started s))
  unfolding send_file send_content
  send_file-ended s =
      ap (on_failure now) (regrouped (send_all (started s)).0 (send_all (started s)).1)

  pub ended-log : (r : Result Fault RdtPacket) (s : Sender) → (ended (r, s)).1.port.log ≡ s.port.log
  ended-log (ok reply) s = ground arith
  ended-log (err e) s = ground arith

  -- A call of `send_file` with a log that holds no injected datagram injects datagrams that each
  -- encode a chunk of the file under its number, or the FIN under the number of chunks, with the
  -- transfer's id; and their number is at most `maximum_retries + 1` times the number of chunks and
  -- the FIN, all together, whatever arrives, however the call ends.
  pub send_file-emissions :
      (s : Sender)
      → injections s.port.log ≡ []
      → All
          (IsEmission s.port.context.transfer_id (chunks_of s))
          (injections (send_file sha (some content) now s).1.port.log)
        × (length (injections (send_file sha (some content) now s).1.port.log)
            ≤ (retries_of s + 1) * (length (chunks_of s) + 1))
  send_file-emissions s e =
      let all = Sends-exchanged s in
      let log : (send_file sha (some content) now s).1.port.log
          ≡ (exchanged (started s)).1.port.log =
        ap (λ r. r.1.port.log) (send_file-ended s)
        ∙ ended-log (exchanged (started s)).0 (exchanged (started s)).1 in
      let emitted : injections (send_file sha (some content) now s).1.port.log ≡ all.grown =
        ap injections log ∙ all.log ∙ ap (λ l. l ++ all.grown) e in
      rw emitted (all.each, all.at_most)
