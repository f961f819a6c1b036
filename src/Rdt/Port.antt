-- ===== src/Rdt/Port.antt =====
-- What the sender and the receiver share: the transfer's context, the datagrams that they hand
-- over, and their exceptions. Sockets and the clock are the environment's: `outcomes` says of each
-- call of `sendto` to come whether it returns or raises `OSError` (it returns when the list is at
-- its end).
use hybrid_ftp_system.Prelude.{
  ℕ, ◌≡◌, refl, Bool, true, false, List, [], ◌∷◌, ◌++◌, Bytes, Result, ok, err,
}
use hybrid_ftp_system.Protocol.PacketFlag.{PacketFlag}
use hybrid_ftp_system.Protocol.Packet.{RdtPacket}
use hybrid_ftp_system.Protocol.Codec.{PacketEncodeError, encode_packet}
use hybrid_ftp_system.Rdt.Context.{TransferContext, TransferStatistics}

-- A peer address, `(host, port)`.
pub record Address : Type 0 where
  pub host : Bytes
  pub port : ℕ

-- The texts of `TransferError`.
pub data Reason : Type 0 where
  transfer_cancelled cancelled_by_receiver hash_mismatch : Reason
  too_much_data wrong_size receive_timeout unknown_peer : Reason
  no_reply : PacketFlag → ℕ → Reason

pub data Fault : Type 0 where
  transfer_error : Reason → Fault
  encode_error : PacketEncodeError → Fault
  os_error file_not_found unicode_error : Fault

-- By `injector.sendto`, or by the socket's own `sendto`.
pub data Sent : Type 0 where
  injected : Bytes → Sent
  direct : Bytes → Sent

pub record Port : Type 0 where
  pub context : TransferContext
  pub log : List Sent
  pub outcomes : List Bool

-- Methods that change an object and may raise.
abbrev pub Exec {ℓ κ} : Type ℓ → Type κ → Type (ℓ ⊔ κ)
Exec S A = S → Result Fault A × S

module _ {ℓ κ} {S : Type ℓ} {A : Type κ} where
  abbrev pub pure : A → Exec S A
  pure a s = (ok a, s)

  abbrev pub raise : Fault → Exec S A
  raise e s = (err e, s)

-- `if test: raise e`
abbrev pub raise_when {ℓ} : {S : Type ℓ} → Bool → Fault → Exec S (Unit {0})
raise_when true e = raise e
raise_when false e = pure tt

module _ {ℓ κ λ'} {S : Type ℓ} {A : Type κ} {B : Type λ'} where
  abbrev pub continue : Result Fault A → (A → Exec S B) → Exec S B
  continue (ok a) f s = f a s
  continue (err e) f s = (err e, s)

  infixl 5 ◌>>=◌ ◌>>◌
  abbrev pub ◌>>=◌ : Exec S A → (A → Exec S B) → Exec S B
  ◌>>=◌ m f s = continue (m s).0 f (m s).1

  abbrev pub ◌>>◌ : Exec S A → Exec S B → Exec S B
  m >> k = m >>= λ _. k

abbrev pub change_context : (TransferContext → TransferContext) → Port → Port
change_context f p = record p { context = f p.context }

abbrev pub change_statistics : (TransferStatistics → TransferStatistics) → Port → Port
change_statistics f = change_context (λ c. record c { statistics = f c.statistics })

abbrev pub note_sent : Sent → List Bool → Port → Port
note_sent d rest p = record p { log = p.log ++ d ∷ []; outcomes = rest }

-- `self.injector.sendto(self.sock, raw, self.peer)`
unfoldable pub inject : Bytes → Exec Port (Unit {0})
inject raw p = elim p.outcomes [
  | [] ↦ (ok tt, note_sent (injected raw) [] p)
  | true ∷ rest ↦ (ok tt, note_sent (injected raw) rest p)
  | false ∷ rest ↦ (err os_error, record p { outcomes = rest })
]

-- `try: self.sock.sendto(raw, self.peer)`, `except OSError: pass`
unfoldable pub send_direct : Bytes → Port → Port
send_direct raw p = elim p.outcomes [
  | [] ↦ note_sent (direct raw) [] p
  | true ∷ rest ↦ note_sent (direct raw) rest p
  | false ∷ rest ↦ record p { outcomes = rest }
]

abbrev pub encoded : Result PacketEncodeError (Bytes × RdtPacket) → Result Fault Bytes
encoded (ok (raw, _)) = ok raw
encoded (err e) = err (encode_error e)

-- `encode_packet(packet)`
unfoldable pub encode {ℓ} : {S : Type ℓ} → RdtPacket → Exec S Bytes
encode packet s = (encoded (encode_packet packet), s)

-- Inversion of a bind that returned.
module _ {ℓ κ λ'} {S : Type ℓ} {A : Type κ} {B : Type λ'} where
  continue-eq-ok :
      (r : Result Fault A) (f : A → Exec S B) (t : S) {b : B}
      → (continue r f t).0 ≡ ok b
      → (a : A) × (r ≡ ok a) × ((f a t).0 ≡ ok b) × (continue r f t ≡ f a t)
  continue-eq-ok (ok a) f t h = (a, refl, h, refl)
  continue-eq-ok (err e) f t h = cc

  pub >>=-eq-ok :
      (m : Exec S A) (f : A → Exec S B) (s : S) {b : B}
      → ((m >>= f) s).0 ≡ ok b
      → (a : A) × ((m s).0 ≡ ok a) × ((f a (m s).1).0 ≡ ok b) × ((m >>= f) s ≡ f a (m s).1)
  >>=-eq-ok m f s h = continue-eq-ok (m s).0 f (m s).1 h
