-- ===== src/Rdt/Sender/Emits.antt =====
-- What the sender hands to its fault injector: which datagrams, and how many.
use hybrid_ftp_system.Prelude.{
  ℕ, zero, suc, ◌+◌, ◌≤◌, ◌≡◌, refl, ap, ◌∙◌, arith, Bool, Bytes, Option, none, some, Result, ok,
  err, List, [], ◌∷◌, ◌++◌, append-nil, Result-cases, inl, inr, length, All, All-append, sym,
  append_assoc, Bool-cases, true, if◌then◌else◌, length-append,
}
use hybrid_ftp_system.Protocol.PacketFlag.{PacketFlag}
use hybrid_ftp_system.Protocol.Packet.{RdtPacket}
use hybrid_ftp_system.Protocol.Codec.{decode_packet, encode_packet}
use hybrid_ftp_system.Rdt.Context
use hybrid_ftp_system.Rdt.Context.{TransferContext}
use hybrid_ftp_system.Rdt.Port.{
  Address, Fault, os_error, raise, pure, Sent, injected, direct, Exec, continue, change_context,
  change_statistics, ◌>>=◌, ◌>>◌, inject, send_direct, encode, encoded,
}
use hybrid_ftp_system.Rdt.Sender.{
  Sender, Round, timed_out, receive_error, arrived, cancel_requested, on_port, check_cancelled,
  take_reply, take_datagram, wait_reply, next_attempt, apply_request, do_inject, attempts,
  cancel_packet,
}

abbrev pub injections : List Sent → List Bytes
injections [] = []
injections (injected raw ∷ log) = raw ∷ injections log
injections (direct raw ∷ log) = injections log

injections-append : (xs ys : List Sent) → injections (xs ++ ys) ≡ injections xs ++ injections ys
injections-append [] ys = refl
injections-append (injected raw ∷ xs) ys = ap (◌∷◌ raw) (injections-append xs ys)
injections-append (direct raw ∷ xs) ys = injections-append xs ys

-- The transfer runs, or it was cancelled.
abbrev pub Follows : TransferContext → Type 0
Follows c = c.state ≡ (if c.cancel_event then Context.cancelled else Context.running)

-- From `s` to `t`, at most `k` datagrams have been injected, all of them in `P`.
pub record Sends (P : Bytes → Type 0) (k : ℕ) (s t : Sender) : Type 0 where
  pub transfer_id : t.port.context.transfer_id ≡ s.port.context.transfer_id
  pub config : t.port.context.config ≡ s.port.context.config
  pub grown : List Bytes
  pub log : injections t.port.log ≡ injections s.port.log ++ grown
  pub each : All P grown
  pub at_most : length grown ≤ k
  pub follows : Follows s.port.context → Follows t.port.context

module _ (P : Bytes → Type 0) where
  pub Sends-quiet :
      {s t : Sender}
      → t.port.context.transfer_id ≡ s.port.context.transfer_id
      → t.port.context.config ≡ s.port.context.config
      → injections t.port.log ≡ injections s.port.log
      → (Follows s.port.context → Follows t.port.context)
      → Sends P 0 s t
  Sends-quiet {s = s} i c e f = record {
    transfer_id = i;
    config = c;
    grown = [];
    log = e ∙ sym (append-nil (injections s.port.log));
    each = tt;
    at_most = omega arith;
    follows = f;
  }

  pub Sends-trans : {j k : ℕ} {s t u : Sender} → Sends P j s t → Sends P k t u → Sends P (j + k) s u
  Sends-trans {s = s} a b = record {
    transfer_id = b.transfer_id ∙ a.transfer_id;
    config = b.config ∙ a.config;
    grown = a.grown ++ b.grown;
    log =
        b.log ∙ ap (λ l. l ++ b.grown) a.log ∙ append_assoc (injections s.port.log) a.grown b.grown;
    each = All-append P a.grown b.grown a.each b.each;
    at_most = omega (arith, a.at_most, b.at_most, length-append a.grown b.grown);
    follows = λ x. b.follows (a.follows x);
  }

  pub Sends-weaken : {j k : ℕ} {s t : Sender} → j ≤ k → Sends P j s t → Sends P k s t
  Sends-weaken h a = record {
    transfer_id = a.transfer_id;
    config = a.config;
    grown = a.grown;
    log = a.log;
    each = a.each;
    at_most = omega (arith, a.at_most);
    follows = a.follows;
  }

  Sends-continue {ℓ κ} :
      {A : Type ℓ} {B : Type κ} {j k : ℕ} (r : Result Fault A) (f : A → Exec Sender B)
      (s t : Sender)
      → Sends P j s t
      → ((a : A) (u : Sender) → Sends P k u (f a u).1)
      → Sends P (j + k) s (continue r f t).1
  Sends-continue (ok a) f s t h hf = Sends-trans h (hf a t)
  Sends-continue (err e) f s t h hf = Sends-weaken (omega arith) h

  pub Sends-bind {ℓ κ} :
      {A : Type ℓ} {B : Type κ} {j k : ℕ} (m : Exec Sender A) (f : A → Exec Sender B) (s : Sender)
      → Sends P j s (m s).1
      → ((a : A) (t : Sender) → Sends P k t (f a t).1)
      → Sends P (j + k) s ((m >>= f) s).1
  Sends-bind m f s h hf = Sends-continue (m s).0 f s (m s).1 h hf

  -- Behind a part that injects nothing.
  pub Sends-then {ℓ κ} :
      {A : Type ℓ} {B : Type κ} {k : ℕ} (m : Exec Sender A) (f : A → Exec Sender B) (s : Sender)
      → Sends P 0 s (m s).1
      → ((a : A) (t : Sender) → Sends P k t (f a t).1)
      → Sends P k s ((m >>= f) s).1
  Sends-then m f s h hf = Sends-weaken (omega arith) (Sends-bind m f s h hf)

  pub Sends-refl : (s : Sender) → Sends P 0 s s
  Sends-refl s = Sends-quiet refl refl refl (λ f. f)

  injections-direct :
      (raw : Bytes) (log : List Sent) → injections (log ++ direct raw ∷ []) ≡ injections log
  injections-direct raw log =
      rw (injections-append log (direct raw ∷ [])) (append-nil (injections log))

  injections-injected :
      (raw : Bytes) (log : List Sent)
      → injections (log ++ injected raw ∷ []) ≡ injections log ++ raw ∷ []
  injections-injected raw log = injections-append log (injected raw ∷ [])

  Sends-send_direct : (raw : Bytes) (s : Sender) → Sends P 0 s (on_port (send_direct raw) s).1
  unfolding send_direct
  Sends-send_direct raw s =
      Sends-quiet (ground arith) (ground arith) (ground (arith, injections-direct raw s.port.log))
        (λ f. ground (arith, f))

  Sends-encode : (packet : RdtPacket) (s : Sender) → Sends P 0 s (encode packet s).1
  unfolding encode
  Sends-encode packet s = Sends-refl s

  pub Sends-check_cancelled : (s : Sender) → Sends P 0 s (check_cancelled s).1
  unfolding check_cancelled encode send_direct
  Sends-check_cancelled s = elim (Result-cases (encoded (encode_packet (cancel_packet s)))) [
    | inl (raw, e) ↦
        Sends-quiet (ground (arith, e)) (ground (arith, e))
          (ground (arith, e, injections-direct raw s.port.log)) (λ f. ground (arith, e, f))
    | inr (why, e) ↦
        Sends-quiet (ground (arith, e)) (ground (arith, e)) (ground (arith, e))
          (λ f. ground (arith, e, f))
  ]

  -- The next `sendto` goes through.
  abbrev is_sent : List Bool → Bool
  is_sent [] = true
  is_sent (b ∷ rest) = b

  Sends-inject : (raw : Bytes) (s : Sender) → P raw → Sends P 1 s (do_inject raw s).1
  unfolding inject
  Sends-inject raw s p = elim (Bool-cases (is_sent s.port.outcomes)) [
    | inl sent ↦ record {
      transfer_id = ground arith;
      config = ground arith;
      grown = raw ∷ [];
      log = ground (arith, sent, injections-injected raw s.port.log);
      each = (p, tt);
      at_most = omega arith;
      follows = λ f. ground (arith, f);
    }
    | inr lost ↦
        Sends-weaken (omega arith) (
          Sends-quiet (ground arith) (ground arith) (ground (arith, lost)) (λ f. ground (arith, f)))
  ]

  Sends-take_reply :
      (flag : PacketFlag) (ack : ℕ) (reply : RdtPacket) (address : Address) (s : Sender)
      → Sends P 0 s (take_reply flag ack reply address s).1
  unfolding take_reply
  Sends-take_reply flag ack reply address s =
      Sends-quiet (ground arith) (ground arith) (ground arith) (λ f. ground (arith, f))

  Sends-take_datagram :
      (flag : PacketFlag) (ack : ℕ) (d : Bytes) (address : Address) (s : Sender)
      → Sends P 0 s (take_datagram flag ack d address s).1
  unfolding take_datagram
  Sends-take_datagram flag ack d address s = elim (Result-cases (decode_packet d)) [
    | inl (reply, e) ↦ rw (e, take_datagram) (Sends-take_reply flag ack reply address s)
    | inr (why, e) ↦ rw (e, take_datagram) (Sends-quiet refl refl refl (λ f. f))
  ]

  Sends-found {ℓ κ} :
      {A : Type ℓ} {B : Type κ} {k : ℕ} (found : Option A) (again : Exec Sender B)
      (stop : A → Exec Sender B) (s : Sender)
      → Sends P k s (again s).1
      → ((a : A) → Sends P k s (stop a s).1)
      → Sends P k s ((elim found as (λ _. Exec Sender B) [ none ↦ again | some a ↦ stop a ]) s).1
  Sends-found none again stop s h hs = h
  Sends-found (some a) again stop s h hs = hs a

  pub Sends-wait_reply :
      (flag : PacketFlag) (ack : ℕ) (rounds : List Round) (s : Sender)
      → Sends P 0 s (wait_reply flag ack rounds s).1
  unfolding wait_reply
  Sends-wait_reply flag ack [] s = Sends-refl s
  Sends-wait_reply flag ack (timed_out ∷ rounds) s =
      Sends-then {B = Option RdtPacket} check_cancelled _ s (Sends-check_cancelled s)
        (λ _ t. Sends-refl t)
  Sends-wait_reply flag ack (receive_error ∷ rounds) s =
      Sends-then check_cancelled (λ _. raise os_error) s (Sends-check_cancelled s)
        (λ _ t. Sends-refl t)
  Sends-wait_reply flag ack (cancel_requested ∷ rounds) s =
      Sends-then (on_port (change_context Context.cancel) >> check_cancelled) (λ _. pure none) s
        (Sends-then (on_port (change_context Context.cancel)) (λ _. check_cancelled) s
          (Sends-quiet refl refl refl (λ f. refl)) (λ _ t. Sends-check_cancelled t))
        (λ _ t. Sends-refl t)
  Sends-wait_reply flag ack (arrived d address ∷ rounds) s =
      Sends-then check_cancelled _ s (Sends-check_cancelled s) (λ _ t.
        Sends-then (take_datagram flag ack d address) _ t (Sends-take_datagram flag ack d address t)
          (λ found u.
            Sends-found found _ _ u (Sends-wait_reply flag ack rounds u) (λ reply. Sends-refl u)))

  Sends-next_attempt : (s : Sender) → Sends P 0 s (next_attempt s).1
  Sends-next_attempt s =
      Sends-quiet (ground arith) (ground arith) (ground arith) (λ f. ground (arith, f))

  Sends-apply_request : (c : Bool) (s : Sender) → Sends P 0 s (apply_request c s).1
  Sends-apply_request c s =
      Sends-quiet (ground arith) (ground arith) (ground arith) (λ f. ground (arith, f))

  -- The wait behind a transmission, and the rounds that are left.
  Sends-waiting :
      (rounds : List Round) (again : Exec Sender RdtPacket) (n : ℕ) (flag : PacketFlag) (ack : ℕ)
      (s : Sender)
      → ((t : Sender) → Sends P n t (again t).1)
      → Sends P n s
          ((on_port (change_statistics (λ t. record t { packets_sent = t.packets_sent + 1 }))
              >> (wait_reply flag ack rounds >>= λ found. elim found [
                | none ↦ again
                | some reply ↦ pure reply
              ]))
            s).1
  Sends-waiting rounds again n flag ack s h =
      Sends-then (on_port (change_statistics (λ t. record t { packets_sent = t.packets_sent + 1 })))
        (λ _. wait_reply flag ack rounds >>= λ found. elim found [
          | none ↦ again
          | some reply ↦ pure reply
        ])
        s (Sends-quiet refl refl refl (λ f. f))
        (λ _ t.
          Sends-then (wait_reply flag ack rounds)
            (λ found. elim found [ none ↦ again | some reply ↦ pure reply ]) t
            (Sends-wait_reply flag ack rounds t)
            (λ found u.
              Sends-found found again (λ reply. pure reply) u (h u)
                (λ reply. Sends-weaken (omega arith) (Sends-refl u))))

  -- `n` rounds inject at most `n` times, always the same datagram.
  pub Sends-attempts :
      (n : ℕ) (raw : Bytes) (flag : PacketFlag) (ack : ℕ) (s : Sender)
      → P raw
      → Sends P n s (attempts n raw flag ack s).1
  unfolding attempts
  Sends-attempts zero raw flag ack s p = Sends-refl s
  Sends-attempts (suc n) raw flag ack s p = Sends-weaken (omega arith) (
      Sends-then next_attempt _ s (Sends-next_attempt s) (λ now t.
        Sends-then (apply_request now.cancel_before) _ t (Sends-apply_request now.cancel_before t)
          (λ _ u. Sends-then check_cancelled _ u (Sends-check_cancelled u) (λ _ v.
            Sends-bind {k = n} (do_inject raw) _ v (Sends-inject raw v p) (λ _ w.
              Sends-waiting now.rounds (attempts n raw flag ack) n flag ack w
                (λ x. Sends-attempts n raw flag ack x p))))))
