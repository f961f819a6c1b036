-- ===== src/Server/Session/Requests.antt =====
-- One round of the loop over the requests.
use hybrid_ftp_system.Prelude.{
  ◌==◌, ◌≡◌, ◌⊎◌, inl, inr, refl, ap, ◌∙◌, Bool, Bool-cases, true, false, [], ◌∷◌, Bytes, none,
  some, if◌then◌else◌,
}
use hybrid_ftp_system.Prelude.Text.{is_empty, codes}
use hybrid_ftp_system.DataTransfer.Session.{FtpSession}
use hybrid_ftp_system.Server.FileSystem.{Os, verify_user_credentials}
use hybrid_ftp_system.Server.Replies.{
  Reply, Job, Request, Change, responded, answer, start_transfer,
}
use hybrid_ftp_system.Server.Commands.Login.{user, pass}
use hybrid_ftp_system.Server.Commands.Transfers.{quit}
use hybrid_ftp_system.Server.Commands.Allowed.{
  Placed, Kept, Kept-like, Allowed, DiskStep, JobWithin,
}
use hybrid_ftp_system.Server.Commands.Keeping.{Kept-aborted}
use hybrid_ftp_system.Server.Session.Phases.{
  phase, phase_from, codes_of, guest, transferring, Move, rests, asked_password, out_of_order,
  not_logged_in, logs_in, works, starts, quits, drops,
}

-- What a request does to a session that is placed in its root: it stays so; the disk changes only for
-- a logged-in client; a transfer is started only where none runs; and the replies are a move.
pub record Served {Disk : Type 0} (os : Os Disk) (root : Bytes) (s : FtpSession) (disk : Disk)
    (change : Change Disk) : Type 0 where
  pub placed : Placed root change.session
  pub login : s.is_authenticated ≡ true → change.session.is_authenticated ≡ true
  pub on_disk :
      (change.disk ≡ disk) ⊎ ((s.is_authenticated ≡ true) × DiskStep os root disk change.disk)
  pub transfer :
      ((change.job ≡ none) × (change.session.transfer_active ≡ s.transfer_active))
      ⊎ ((s.transfer_active ≡ false)
          × (s.is_authenticated ≡ true)
          × (change.session.transfer_active ≡ true)
          × (job : Job) × (change.job ≡ some job)
          × JobWithin root job)
  pub move : Move (phase true s) (codes_of change.replies) (phase change.is_open change.session)

pub phase-eq :
    (s : FtpSession) (active authenticated : Bool)
    → s.transfer_active ≡ active
    → s.is_authenticated ≡ authenticated
    → phase true s ≡ phase_from true active authenticated
phase-eq s active authenticated e f =
    ap (λ a. phase_from true a s.is_authenticated) e ∙ ap (phase_from true active) f

module _ {Disk : Type 0} (os : Os Disk) (root : Bytes) (s : FtpSession) (disk : Disk) where
  -- A reply that leaves the login, the transfer and the disk.
  Kept-Served :
      (after : FtpSession) (reply : Reply)
      → Kept root s after
      → Move (phase true s) (reply.code ∷ []) (phase true s)
      → Served os root s disk (responded after disk reply)
  Kept-Served after reply k m = record {
    placed = k.placed;
    login = λ h. k.same_login ∙ h;
    on_disk = inl refl;
    transfer = inl (refl, k.same_transfer);
    move = rw (phase-eq after s.transfer_active s.is_authenticated k.same_transfer k.same_login) m;
  }

  pub Allowed-Served :
      (change : Change Disk)
      → Placed root s
      → s.is_authenticated ≡ true
      → s.transfer_active ≡ false
      → Allowed os root s disk change
      → Served os root s disk change
  unfolding start_transfer
  Allowed-Served change p l i (Allowed.answers after left reply k d c) = record {
    placed = k.placed;
    login = λ h. k.same_login ∙ h;
    on_disk = inr (l, d);
    transfer = inl (refl, k.same_transfer);
    move =
        rw
          (
            phase-eq s false true i l,
            phase-eq after false true (k.same_transfer ∙ i) (k.same_login ∙ l),
          )
          (works reply.code c);
  }
  Allowed-Served change p l i (Allowed.starts left message job d w) = record {
    placed = record { at_root = p.at_root; current = p.current; renaming = p.renaming };
    login = λ h. h;
    on_disk = inr (l, d);
    transfer = inr (i, l, refl, job, refl, w);
    move = rw (phase-eq s false true i l) starts;
  }
  Allowed-Served change p l i (Allowed.raises left d) = record {
    placed = p;
    login = λ h. h;
    on_disk = inr (l, d);
    transfer = inl (refl, refl);
    move = drops _;
  }
  Allowed-Served change p l i Allowed.waits = record {
    placed = p;
    login = λ h. h;
    on_disk = inl refl;
    transfer = inl (refl, refl);
    move = rests _;
  }

  pub if-Served :
      (b : Bool) {x y : Change Disk}
      → (b ≡ true → Served os root s disk x)
      → (b ≡ false → Served os root s disk y)
      → Served os root s disk (if b then x else y)
  if-Served true f g = f refl
  if-Served false f g = g refl

  -- A reply while no transfer runs, to a guest or a member.
  pub idle-Served :
      (after : FtpSession) (reply : Reply)
      → Kept root s after
      → s.transfer_active ≡ false
      → (reply.code == 150) ≡ false
      → Move guest (reply.code ∷ []) guest
      → Served os root s disk (responded after disk reply)
  idle-Served after reply k i c m = elim (Bool-cases s.is_authenticated) [
    | inl l ↦ Kept-Served after reply k (rw (phase-eq s false true i l) (works reply.code c))
    | inr g ↦ Kept-Served after reply k (rw (phase-eq s false false i g) m)
  ]

  pub active-Served :
      (after : FtpSession) (reply : Reply)
      → Kept root s after
      → s.transfer_active ≡ true
      → Move transferring (reply.code ∷ []) transferring
      → Served os root s disk (responded after disk reply)
  active-Served after reply k a m =
      Kept-Served after reply k (rw (phase-eq s true s.is_authenticated a refl) m)

  module _ (p : Placed root s) (i : s.transfer_active ≡ false) where
    -- The login goes through.
    granted-Served :
        (message : Bytes)
        → Served os root s disk (answer (record s { is_authenticated = true }) disk 230 message)
    granted-Served message = record {
      placed = record { at_root = p.at_root; current = p.current; renaming = p.renaming };
      login = λ h. refl;
      on_disk = inl refl;
      transfer = inl (refl, refl);
      move = elim (Bool-cases s.is_authenticated) [
        | inl l ↦ rw (phase-eq s false true i l, i) (works 230 refl)
        | inr g ↦ rw (phase-eq s false false i g, i) logs_in
      ];
    }

    pub user-Served : (arg : Bytes) → Served os root s disk (user s disk arg)
    unfolding user
    user-Served arg =
        idle-Served _ _ (Kept-like s _ p refl refl refl refl refl) i refl asked_password

    pub pass-Served :
        (arg : Bytes) (request : Request) → Served os root s disk (pass s disk arg request)
    unfolding pass
    pass-Served arg request =
        let kept = Kept-like s s p refl refl refl refl refl in
        if-Served (is_empty s.username) (λ e. idle-Served s _ kept i refl out_of_order)
          (λ e.
            if-Served (verify_user_credentials request.users s.username arg)
              (λ v. granted-Served (codes "User logged in, proceed."))
              (λ v. idle-Served s _ kept i refl not_logged_in))

  pub quit-Served : Placed root s → Served os root s disk (quit s disk)
  unfolding quit
  quit-Served p =
      let k = Kept-aborted s disk p in
      record {
        placed = k.placed;
        login = λ h. k.same_login ∙ h;
        on_disk = inl refl;
        transfer = inl (refl, k.same_transfer);
        move = quits _;
      }
