-- ===== src/Rdt/Receiver/Loop.antt =====
-- The rule for the receiving loop: an invariant of the rounds that go on, and what the last round
-- establishes.
use mathlib.Core.Path.{subst}
use hybrid_ftp_system.Prelude.{
  ℕ, ◌≡◌, refl, sym, arith, Bytes, Option, none, some, Result, ok, err, List, [], ◌∷◌,
}
use hybrid_ftp_system.Rdt.Context
use hybrid_ftp_system.Rdt.Port.{
  Address, Exec, Fault, os_error, raise, pure, continue, change_context, ◌>>=◌, >>=-eq-ok,
}
use hybrid_ftp_system.Rdt.Receiver.{check_cancelled, take_datagram, receive_loop}
use hybrid_ftp_system.Rdt.Reception.{
  Receiver, Poll, timed_out, receive_error, arrived, cancel_requested, on_port,
}
use hybrid_ftp_system.Rdt.Receiver.Frame.{Frame, Frame-check_cancelled}

-- Every datagram of a list of polls satisfies `Q`.
abbrev pub Arrivals : (Bytes → Address → Type 0) → List Poll → Type 0
Arrivals Q [] = Unit
Arrivals Q (timed_out ∷ polls) = Arrivals Q polls
Arrivals Q (receive_error ∷ polls) = Arrivals Q polls
Arrivals Q (cancel_requested ∷ polls) = Arrivals Q polls
Arrivals Q (arrived datagram address ∷ polls) = Q datagram address × Arrivals Q polls

pub Frame-cancel : (s : Receiver) → Frame s (on_port (change_context Context.cancel) s).1
Frame-cancel s = ground arith

-- What follows a datagram: the next poll, or the end of the loop.
abbrev pub after_datagram : ℕ → List Poll → Option ℕ → Exec Receiver ℕ
after_datagram size polls fin = elim fin [
  | none ↦ receive_loop size polls
  | some sequence ↦ pure sequence
]

after_round :
    (r : Result Fault (Option ℕ)) (size : ℕ) (polls : List Poll) (t : Receiver) (fin : ℕ)
    (Goal : Receiver → Type 0)
    → (continue r (after_datagram size polls) t).0 ≡ ok fin
    → (r ≡ ok none → (receive_loop size polls t).0 ≡ ok fin → Goal (receive_loop size polls t).1)
    → (r ≡ ok (some fin) → Goal t)
    → Goal (continue r (after_datagram size polls) t).1
after_round (ok none) size polls t fin Goal h again last = again refl h
after_round (ok (some f)) size polls t fin Goal h again last = last (cc)
after_round (err e) size polls t fin Goal h again last = cc

module _ (size : ℕ) (P : Receiver → Type 0) (Done : ℕ → Receiver → Type 0)
    (Q : Bytes → Address → Type 0) (framed : (s t : Receiver) → Frame s t → P s → P t)
    (again : (d : Bytes) (a : Address) (s : Receiver)
      → Q d a
      → P s
      → (take_datagram size d a s).0 ≡ ok none
      → P (take_datagram size d a s).1)
    (last : (d : Bytes) (a : Address) (s : Receiver) (fin : ℕ)
      → Q d a
      → P s
      → (take_datagram size d a s).0 ≡ ok (some fin)
      → Done fin (take_datagram size d a s).1) where
  checked : (s : Receiver) → P s → P (check_cancelled s).1
  checked s p = framed s _ (Frame-check_cancelled s) p

  pub receive_loop_rule :
      (polls : List Poll) (s : Receiver) (fin : ℕ)
      → Arrivals Q polls
      → P s
      → (receive_loop size polls s).0 ≡ ok fin
      → Done fin (receive_loop size polls s).1
  unfolding receive_loop
  receive_loop_rule [] s fin q p h = cc
  receive_loop_rule (timed_out ∷ polls) s fin q p h =
      let (u, e, rest, same) = >>=-eq-ok check_cancelled (λ _. receive_loop size polls) s h in
      subst (λ r. Done fin r.1) (sym same) (receive_loop_rule polls _ fin q (checked s p) rest)
  receive_loop_rule (receive_error ∷ polls) s fin q p h =
      let (u, e, rest, same) = >>=-eq-ok check_cancelled (λ _. raise os_error) s h in cc
  receive_loop_rule (cancel_requested ∷ polls) s fin q p h =
      let t = (on_port (change_context Context.cancel) s).1 in
      let (u, e, rest, same) = >>=-eq-ok check_cancelled (λ _. receive_loop size polls) t h in
      subst (λ r. Done fin r.1) (sym same)
        (receive_loop_rule polls _ fin q (checked t (framed s t (Frame-cancel s) p)) rest)
  receive_loop_rule (arrived d a ∷ polls) s fin (qd, q) p h =
      let (u, e, rest, same) =
        >>=-eq-ok check_cancelled (λ _. take_datagram size d a >>= after_datagram size polls) s h in
      let t = (check_cancelled s).1 in
      subst (λ r. Done fin r.1) (sym same)
        (after_round (take_datagram size d a t).0 size polls (take_datagram size d a t).1 fin
          (Done fin) rest (λ e. receive_loop_rule polls _ fin q (again d a t qd (checked s p) e))
          (λ e. last d a t fin qd (checked s p) e))
