-- ===== src/Rdt/Sender/Bursts.antt =====
-- The order of what a `send_file` hands to its fault injector: one packet after the other, each a few
-- times.
use hybrid_ftp_system.Prelude.{
  ℕ, suc, ◌+◌, ◌≤◌, ◌≡◌, refl, sym, ap, ◌∙◌, arith, Bytes, some, Result, ok, err, List, [], ◌∷◌,
  ◌++◌, append-nil, append_assoc, length, All,
}
use hybrid_ftp_system.Prelude.Int.{pos_part}
use hybrid_ftp_system.Protocol.PacketFlag
use hybrid_ftp_system.Protocol.Packet.{RdtPacket}
use hybrid_ftp_system.Protocol.Codec.{encode_packet}
use hybrid_ftp_system.Protocol.FileHash.{Sha256}
use hybrid_ftp_system.Rdt.Port.{Fault, Exec, continue, ◌>>=◌, ◌>>◌}
use hybrid_ftp_system.Rdt.Sender.{Sender, send_chunks, data_packet, fin_packet, send_file}
use hybrid_ftp_system.Rdt.Sender.Emits.{injections, Sends}
use hybrid_ftp_system.Rdt.Sender.Transfer.{
  Sends-send_and_wait, one_chunk, count_bytes, chunks_of, retries_of, send_last, exchanged, started,
  ended-log, send_file-ended,
}

abbrev Encodes : RdtPacket → Bytes → Type 0
Encodes p d = (q : RdtPacket) × (encode_packet p ≡ ok (d, q))

-- The log is made of a run for each packet, in their order: at most `limit` encodings of the first,
-- then at most `limit` of the second, and so on; a run may be empty.
pub Bursts : ℕ → List RdtPacket → List Bytes → Type 0
Bursts limit [] log = log ≡ []
Bursts limit (p ∷ ps) log =
    (run rest : List Bytes) × (log ≡ run ++ rest)
    × All (Encodes p) run
    × (length run ≤ limit)
    × Bursts limit ps rest

-- The DATA packets from number `i` on, and the FIN behind them.
unfoldable pub packets_of : ℕ → ℕ → List Bytes → List RdtPacket
packets_of tid i [] = fin_packet tid i ∷ []
packets_of tid i (c ∷ rest) = data_packet tid i c ∷ packets_of tid (suc i) rest

Bursts-nil : (limit : ℕ) (ps : List RdtPacket) → Bursts limit ps []
unfolding Bursts
Bursts-nil limit [] = refl
Bursts-nil limit (p ∷ ps) = ([], [], refl, tt, omega arith, Bursts-nil limit ps)

-- From `s` to `t`, such runs have been injected.
record Grows (limit : ℕ) (ps : List RdtPacket) (s t : Sender) : Type 0 where
  grown : List Bytes
  log : injections t.port.log ≡ injections s.port.log ++ grown
  bursts : Bursts limit ps grown

-- The last packet that was tried.
Grows-last :
    (limit : ℕ) (p : RdtPacket) (ps : List RdtPacket) {s t : Sender}
    → Sends (Encodes p) limit s t
    → Grows limit (p ∷ ps) s t
unfolding Bursts
Grows-last limit p ps h = record {
  grown = h.grown;
  log = h.log;
  bursts = (h.grown, [], sym (append-nil h.grown), h.each, h.at_most, Bursts-nil limit ps);
}

Grows-then :
    (limit : ℕ) (p : RdtPacket) (ps : List RdtPacket) {s t u : Sender}
    → Sends (Encodes p) limit s t
    → Grows limit ps t u
    → Grows limit (p ∷ ps) s u
unfolding Bursts
Grows-then limit p ps {s = s} h g = record {
  grown = h.grown ++ g.grown;
  log = g.log ∙ ap (λ l. l ++ g.grown) h.log ∙ append_assoc (injections s.port.log) h.grown g.grown;
  bursts = (h.grown, g.grown, refl, h.each, h.at_most, g.bursts);
}

module _ (sha : Sha256) (content : Bytes) (now tid retries : ℕ) where
  abbrev Steady : Sender → Type 0
  Steady s =
      (s.port.context.transfer_id ≡ tid)
      × (pos_part s.port.context.config.maximum_retries ≡ retries)

  Sends-Steady : {P : Bytes → Type 0} {k : ℕ} {s t : Sender} → Sends P k s t → Steady s → Steady t
  Sends-Steady h (i, r) = (h.transfer_id ∙ i, ap (λ c. pos_part c.maximum_retries) h.config ∙ r)

  one-Sends :
      (i : ℕ) (c : Bytes) (s : Sender)
      → Steady s
      → Sends (Encodes (data_packet tid i c)) (retries + 1) s (one_chunk i c s).1
  one-Sends i c s (same, r) =
      rw (← r, ← same)
        (Sends-send_and_wait (Encodes (data_packet s.port.context.transfer_id i c))
          (data_packet s.port.context.transfer_id i c) PacketFlag.ack i s (λ d q e. (q, e)))

  fin-Sends :
      (n : ℕ) (s : Sender)
      → Steady s
      → Sends (Encodes (fin_packet tid n)) (retries + 1) s (send_last sha content now n s).1
  fin-Sends n s (same, r) =
      rw (← r, ← same)
        (Sends-send_and_wait (Encodes (fin_packet s.port.context.transfer_id n))
          (fin_packet s.port.context.transfer_id n) PacketFlag.fin_ack n s (λ d q e. (q, e)))

  -- The chunks from number `i` on, and the FIN.
  abbrev rest_of : ℕ → List Bytes → Exec Sender RdtPacket
  rest_of i rest = send_chunks i rest >>= send_last sha content now

  Grows-rest :
      (i : ℕ) (rest : List Bytes) (s : Sender)
      → Steady s
      → Grows (retries + 1) (packets_of tid i rest) s (rest_of i rest s).1
  unfolding send_chunks packets_of
  Grows-rest i [] s steady = Grows-last (retries + 1) (fin_packet tid i) [] (fin-Sends i s steady)
  Grows-rest i (c ∷ rest) s steady =
      let one = one-Sends i c s steady in
      behind (one_chunk i c s).0 (one_chunk i c s).1 one (Sends-Steady one steady)
        (Grows-rest (suc i) rest (count_bytes c (one_chunk i c s).1).1)
    where
      after : Exec Sender ℕ
      after = count_bytes c >> send_chunks (suc i) rest

      behind :
          (r : Result Fault RdtPacket) (t : Sender)
          → Sends (Encodes (data_packet tid i c)) (retries + 1) s t
          → Steady t
          → (Steady (count_bytes c t).1
              → Grows
                  (retries + 1)
                  (packets_of tid (suc i) rest)
                  (count_bytes c t).1
                  (rest_of (suc i) rest (count_bytes c t).1).1)
          → Grows
              (retries + 1)
              (data_packet tid i c ∷ packets_of tid (suc i) rest)
              s
              (continue
                (continue r (λ _. after) t).0
                (send_last sha content now)
                (continue r (λ _. after) t).1).1
      behind (err e) t one steady_t more =
          Grows-last (retries + 1) (data_packet tid i c) (packets_of tid (suc i) rest) one
      behind (ok reply) t one steady_t more =
          let g = more steady_t in
          Grows-then (retries + 1) (data_packet tid i c) (packets_of tid (suc i) rest) one
            (record { grown = g.grown; log = g.log; bursts = g.bursts })

-- A call of `send_file` with a log that holds no injected datagram injects encodings of the file's
-- DATA packets in the order of their numbers, and behind them of the FIN, all with the transfer's id,
-- and nothing else; each packet at most `maximum_retries + 1` times (perhaps not at all), and never
-- again behind a later one; whatever arrives, however the call ends.
pub send_file-Bursts :
    (sha : Sha256) (content : Bytes) (now : ℕ) (s : Sender)
    → injections s.port.log ≡ []
    → Bursts
        (retries_of sha content now s + 1)
        (packets_of s.port.context.transfer_id 0 (chunks_of sha content now s))
        (injections (send_file sha (some content) now s).1.port.log)
send_file-Bursts sha content now s e =
    let g =
      Grows-rest sha content now s.port.context.transfer_id (retries_of sha content now s) 0
        (chunks_of sha content now s) (started sha content now s) (refl, refl) in
    let x = exchanged sha content now (started sha content now s) in
    let log : (send_file sha (some content) now s).1.port.log ≡ x.1.port.log =
      ap (λ r. r.1.port.log) (send_file-ended sha content now s)
      ∙ ended-log sha content now x.0 x.1 in
    let emitted : injections (send_file sha (some content) now s).1.port.log ≡ g.grown =
      ap injections log ∙ g.log ∙ ap (λ l. l ++ g.grown) e in
    rw emitted g.bursts
