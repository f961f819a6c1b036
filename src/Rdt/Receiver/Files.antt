-- ===== src/Rdt/Receiver/Files.antt =====
-- What `receive_file` leaves behind, whatever the network does: a verified file, or no trace.
use hybrid_ftp_system.Prelude.{
  ℕ, ◌≡◌, ◌⊎◌, refl, sym, ◌∙◌, arith, Bool-cases, inl, inr, true, Bytes, Option, none, some, Result,
  ok, err, Result-cases, length, List, [], ◌∷◌, same, same→eq,
}
use hybrid_ftp_system.Protocol.Packet.{RdtPacket}
use hybrid_ftp_system.Protocol.Codec.{decode_packet}
use hybrid_ftp_system.Protocol.FileHash.{Sha256, sha256_file}
use hybrid_ftp_system.Rdt.Context
use hybrid_ftp_system.Rdt.Port.{Address, Fault, change_context}
use hybrid_ftp_system.Rdt.Receiver.{
  take_datagram, take_packet, take_fin, receive_loop, content_of, count_packet, receive_file,
  receive_content, conclude, temp_hash, on_failure, open_temp, fin_ack_packet, replace_destination,
  learn_peer,
}
use hybrid_ftp_system.Rdt.Reception.{
  Receiver, send, Poll, timed_out, receive_error, arrived, cancel_requested, on_port,
}
use hybrid_ftp_system.Rdt.Receiver.Frame.{Frame-send, Frame-linger}
use hybrid_ftp_system.Rdt.Receiver.Loop.{Arrivals, receive_loop_rule}
use hybrid_ftp_system.Rdt.Receiver.Keeps.{Keeps, Keeps-receive_loop}

-- At the `break`: all the announced bytes are there.
abbrev AtBreak : ℕ → ℕ → Receiver → Type 0
AtBreak size fin s = (s.received_bytes ≡ size) × (s.expected_seq ≡ fin)

take_fin-AtBreak :
    (size : ℕ) (packet : RdtPacket) (s : Receiver) {fin : ℕ}
    → (take_fin size packet s).0 ≡ ok (some fin)
    → AtBreak size fin (take_fin size packet s).1
unfolding take_fin
take_fin-AtBreak size packet s h = ground arith

take_packet-AtBreak :
    (size : ℕ) (packet : RdtPacket) (address : Address) (s : Receiver) {fin : ℕ}
    → (take_packet size packet address s).0 ≡ ok (some fin)
    → AtBreak size fin (take_packet size packet address s).1
unfolding take_packet
take_packet-AtBreak size packet address s {fin} h =
    ground (arith, take_fin-AtBreak size packet (learn_peer address s).1 {fin = fin})

take_datagram-AtBreak :
    (size : ℕ) (datagram : Bytes) (address : Address) (s : Receiver) {fin : ℕ}
    → (take_datagram size datagram address s).0 ≡ ok (some fin)
    → AtBreak size fin (take_datagram size datagram address s).1
unfolding take_datagram
take_datagram-AtBreak size datagram address s h = elim (Result-cases (decode_packet datagram)) [
  | inl (packet, e) ↦
      rw (e, take_datagram)
        (take_packet-AtBreak size packet address (count_packet s).1 (rw (e, take_datagram) at h))
  | inr (why, e) ↦ ground (arith, e)
]

-- When the loop ends, the announced number of bytes is in the temporary file.
pub receive_loop-size :
    (size : ℕ) (polls : List Poll) (s : Receiver) (fin : ℕ)
    → (receive_loop size polls s).0 ≡ ok fin
    → AtBreak size fin (receive_loop size polls s).1
receive_loop-size size polls s fin =
    receive_loop_rule size (λ _. Unit {0}) (AtBreak size) (λ _ _. Unit {0}) (λ _ _ _ _. tt)
      (λ _ _ _ _ _ _. tt) (λ d a t f _ _ e. take_datagram-AtBreak size d a t e) polls s fin
      (anything polls) tt
  where
    anything : (polls : List Poll) → Arrivals (λ _ _. Unit {0}) polls
    anything [] = tt
    anything (timed_out ∷ polls) = anything polls
    anything (receive_error ∷ polls) = anything polls
    anything (cancel_requested ∷ polls) = anything polls
    anything (arrived d a ∷ polls) = (tt, anything polls)

on_failure-err :
    (now : ℕ) (r : Result Fault Bytes × Receiver) (e : Fault)
    → (on_failure now r).0 ≡ err e
    → (r.0 ≡ err e)
      × ((on_failure now r).1.temp ≡ none)
      × ((on_failure now r).1.destination ≡ r.1.destination)
      × (((on_failure now r).1.port.context.cancel_event ≡ true)
          ⊎ ((on_failure now r).1.port.context.state ≡ Context.failed))
on_failure-err now (ok a, s) e h = cc
on_failure-err now (err f, s) e h = elim (Bool-cases s.port.context.cancel_event) [
  | inl yes_cancelled ↦ rw (yes_cancelled, on_failure) (ground arith, refl, refl, inl refl)
  | inr running ↦ ground arith
]

module _ (sha : Sha256) where
  -- What a successful end has verified and left.
  pub conclude-ok :
      (expected_hash : Bytes) (fin : ℕ) (lingering : List Poll) (now : ℕ) (s : Receiver) {h : Bytes}
      → (conclude sha expected_hash fin lingering now s).0 ≡ ok h
      → (h ≡ expected_hash)
        × (temp_hash sha s ≡ expected_hash)
        × ((conclude sha expected_hash fin lingering now s).1.destination ≡ s.temp)
        × ((conclude sha expected_hash fin lingering now s).1.temp ≡ none)
        × ((conclude sha expected_hash fin lingering now s).1.port.context.state
            ≡ Context.completed)
  unfolding conclude
  conclude-ok expected_hash fin lingering now s h =
      let moved = (replace_destination s).1 in
      let fin_ack = fin_ack_packet s.port.context.transfer_id fin (temp_hash sha s) in
      ground (
        arith,
        same→eq (temp_hash sha s) expected_hash,
        Frame-send fin_ack moved,
        Frame-linger fin_ack fin lingering (send fin_ack moved).1,
      )

  -- A failed end has left the destination alone, or has replaced it by the verified file.
  conclude-err :
      (expected_hash : Bytes) (fin : ℕ) (lingering : List Poll) (now : ℕ) (s : Receiver) (e : Fault)
      → (conclude sha expected_hash fin lingering now s).0 ≡ err e
      → ((conclude sha expected_hash fin lingering now s).1.destination ≡ s.destination)
        ⊎ (((conclude sha expected_hash fin lingering now s).1.destination ≡ s.temp)
            × (temp_hash sha s ≡ expected_hash))
  unfolding conclude
  conclude-err expected_hash fin lingering now s e h =
      let moved = (replace_destination s).1 in
      let fin_ack = fin_ack_packet s.port.context.transfer_id fin (temp_hash sha s) in
      elim (Bool-cases (same (temp_hash sha s) expected_hash)) [
        | inl verified ↦ inr (
          ground (
            arith,
            Frame-send fin_ack moved,
            Frame-linger fin_ack fin lingering (send fin_ack moved).1,
          ),
          same→eq (temp_hash sha s) expected_hash verified,
        )
        | inr differ ↦ inl (ground arith)
      ]

  abbrev pub opened : Receiver → Receiver
  opened s = (open_temp s).1

  abbrev pub verifying : Receiver → Receiver
  verifying s = (on_port (change_context (λ c. record c { state = Context.verifying })) s).1

  -- A file of the announced size and hash.
  abbrev pub IsVerified : ℕ → Bytes → Option Bytes → Type 0
  IsVerified size expected_hash file =
      (file ≡ some (content_of file))
      × (length (content_of file) ≡ size)
      × (sha256_file sha (content_of file) ≡ expected_hash)

  module _ (size : ℕ) (expected_hash : Bytes) (polls lingering : List Poll) (now : ℕ)
      (s : Receiver) where
    abbrev pub looped : Result Fault ℕ × Receiver
    looped = receive_loop size polls (opened s)

    looped-Keeps : Keeps (opened s) looped.1
    looped-Keeps = Keeps-receive_loop size polls (opened s)

    looped_file :
        (fin : ℕ)
        → looped.0 ≡ ok fin
        → temp_hash sha looped.1 ≡ expected_hash
        → IsVerified size expected_hash looped.1.temp
    looped_file fin e verified =
        let (is_open, counted) = looped-Keeps.counted (refl, refl) in
        let (received, at_fin) = receive_loop-size size polls (opened s) fin e in
        (is_open, sym counted ∙ received, verified)

    abbrev pub concluded : ℕ → Result Fault Bytes × Receiver
    concluded fin = conclude sha expected_hash fin lingering now (verifying looped.1)

    pub receive_content-ok :
        (fin : ℕ)
        → looped.0 ≡ ok fin
        → receive_content sha size expected_hash polls lingering now s ≡ concluded fin
    unfolding receive_content
    receive_content-ok fin e = rw e

    pub receive_content-err :
        (e : Fault)
        → looped.0 ≡ err e
        → receive_content sha size expected_hash polls lingering now s ≡ (err e, looped.1)
    unfolding receive_content
    receive_content-err e h = rw h

    content_destination :
        (e : Fault)
        → (receive_content sha size expected_hash polls lingering now s).0 ≡ err e
        → ((receive_content sha size expected_hash polls lingering now s).1.destination
            ≡ s.destination)
          ⊎ IsVerified size expected_hash
              (receive_content sha size expected_hash polls lingering now s).1.destination
    content_destination e k = elim (Result-cases looped.0) [
      | inl (fin, looped_ok) ↦
          rw (receive_content-ok fin looped_ok)
            (elim (conclude-err expected_hash fin lingering now (verifying looped.1) e
              (rw (receive_content-ok fin looped_ok) at k)) [
                | inl unchanged ↦ inl (unchanged ∙ looped-Keeps.destination)
                | inr (moved, verified) ↦ inr (rw moved (looped_file fin looped_ok verified))
              ])
      | inr (why, looped_err) ↦
          rw (receive_content-err why looped_err) (inl looped-Keeps.destination)
    ]

    abbrev received : Result Fault Bytes × Receiver
    received = receive_file sha size expected_hash polls lingering now s

    -- Whatever datagrams arrive, in whatever order, and whoever cancels: a call that returns has
    -- put a file of the announced size and hash at the destination, returns that hash, leaves no
    -- temporary file, and the transfer is completed.
    pub receive_file-ok :
        {h : Bytes}
        → received.0 ≡ ok h
        → IsVerified size expected_hash received.1.destination
          × (h ≡ expected_hash)
          × (received.1.temp ≡ none)
          × (received.1.port.context.state ≡ Context.completed)
    unfolding receive_file
    receive_file-ok {h} k = elim (Result-cases looped.0) [
      | inl (fin, e) ↦
          let ended : (concluded fin).0 ≡ ok h = ground (arith, receive_content-ok fin e) in
          let (hash, verified, moved, gone, state) =
            conclude-ok expected_hash fin lingering now (verifying looped.1) ended in
          let file = looped_file fin e verified in
          ground (arith, receive_content-ok fin e, hash, moved, gone, state, file)
      | inr (why, e) ↦ ground (arith, receive_content-err why e)
    ]

    -- A call of `receive_file` that raises leaves no temporary file; the destination is what it
    -- was, or is already a file of the announced size and hash; and the transfer has failed, or was
    -- cancelled.
    pub receive_file-err :
        (e : Fault)
        → received.0 ≡ err e
        → (received.1.temp ≡ none)
          × ((received.1.destination ≡ s.destination)
              ⊎ IsVerified size expected_hash received.1.destination)
          × ((received.1.port.context.cancel_event ≡ true)
              ⊎ (received.1.port.context.state ≡ Context.failed))
    unfolding receive_file
    receive_file-err why k =
        let (raised, clean, place, state) =
          on_failure-err now (receive_content sha size expected_hash polls lingering now s) why k in
        (clean, rw place (content_destination why raised), state)
