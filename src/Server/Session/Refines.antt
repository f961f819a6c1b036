-- ===== src/Server/Session/Refines.antt =====
-- The connection implements the phases.
use hybrid_ftp_system.Prelude.{
  none, Option, ℕ, ◌≡◌, inl, inr, refl, sym, arith, Bool, Bool-cases, true, false, List, [], ◌++◌,
  append-nil, Bytes, some, if◌then◌else◌,
}
use hybrid_ftp_system.Protocol.FileHash.{Sha256}
use hybrid_ftp_system.DataTransfer.Session.{FtpSession}
use hybrid_ftp_system.DataTransfer.Upload.{TransferResult, success, failure}
use hybrid_ftp_system.Server.FileSystem.{Os}
use hybrid_ftp_system.Server.Replies.{Reply, Job}
use hybrid_ftp_system.Server.Session.{
  Connection, Event, requested, opened, returned, disk_changed, handle_request, is_running,
  opened_session, worker_replies, end_worker, applied, step,
}
use hybrid_ftp_system.Server.Session.Phases.{
  phase, codes_of, closed, member, transferring, Move, rests, completes, fails, stops,
}
use hybrid_ftp_system.Server.Session.Requests.{Served}
use hybrid_ftp_system.Server.Session.Loop.{handle_request-Served}
use hybrid_ftp_system.Server.Session.Runs.{Sound}

-- The replies that the second connection has sent behind those of the first are a move.
abbrev pub Moves : {Disk : Type 0} → Connection Disk → Connection Disk → Type 0
Moves c after =
    (replies : List Reply) × (after.sent ≡ c.sent ++ replies)
    × Move (phase c.is_open c.session) (codes_of replies) (phase after.is_open after.session)

stays_put : {Disk : Type 0} (c : Connection Disk) → Moves c c
stays_put c = ([], sym (append-nil c.sent), rests _)

if-Moves :
    {Disk : Type 0} (c : Connection Disk) (b : Bool) (x : Connection Disk)
    → (b ≡ true → Moves c x)
    → Moves c (if b then x else c)
if-Moves c true x f = f refl
if-Moves c false x f = stays_put c

worker-Move :
    (result : Option TransferResult) (error_msg : Bytes) (s : FtpSession)
    → Move transferring (codes_of (worker_replies result error_msg s)) member
unfolding worker_replies
worker-Move none error_msg s = elim (Bool-cases s.abort_requested) [
  | inl a ↦ rw a stops
  | inr a ↦ rw a stops
]
worker-Move (some (success count)) error_msg s = elim (Bool-cases s.abort_requested) [
  | inl a ↦ rw a stops
  | inr a ↦ rw a completes
]
worker-Move (some (failure e)) error_msg s = elim (Bool-cases s.abort_requested) [
  | inl a ↦ rw a stops
  | inr a ↦ rw a fails
]

module _ {Disk : Type 0} (c : Connection Disk) (result : Option TransferResult) (error_msg : Bytes)
    (left : Disk) where
  end_worker-Moves :
      (is_open : Bool)
      → c.is_open ≡ is_open
      → c.session.transfer_active ≡ true
      → c.session.is_authenticated ≡ true
      → Moves c (end_worker result error_msg left c)
  unfolding end_worker worker_replies
  end_worker-Moves true o a l = (
    worker_replies result error_msg c.session,
    rw o refl,
    rw (o, a, l) (worker-Move result error_msg c.session),
  )
  end_worker-Moves false o a l = ([], rw o (sym (append-nil c.sent)), rw o (rests closed))

opened-Move :
    {Disk : Type 0} (now : ℕ) (c : Connection Disk) (job : Option Job)
    → Move (phase c.is_open c.session) [] (phase c.is_open (opened_session now c.session job))
opened-Move now c none = rests _
opened-Move now c (some job) = rests _

module _ {Disk : Type 0} (os : Os Disk) (sha : Sha256) (root : Bytes)
    (stays : (d : Disk) → (os.files d).realpath root ≡ some root) where
  -- Every step of a sound connection is one move of the phases, with the codes of the replies that
  -- the step sends. The root is its own real path.
  pub step-Moves :
      (c : Connection Disk) (event : Event Disk) → Sound root c → Moves c (step os sha c event)
  unfolding step applied
  step-Moves c (requested request) sound = if-Moves c c.is_open _ (λ o.
      let change = handle_request os sha c.session c.disk request in
      let served : Served os root c.session c.disk change =
        handle_request-Served os sha root c.session c.disk request sound.placed stays sound.loyal in
      (change.replies, refl, rw o served.move))
  step-Moves c (opened now) sound = ([], sym (append-nil c.sent), opened-Move now c c.job)
  step-Moves c (returned result error_msg left) sound = if-Moves c (is_running c.job) _ (λ r.
      elim sound.transfer [
        | inl (no_job, idle) ↦ absurd (ground (arith, r, no_job))
        | inr (job, running, active, w) ↦
            end_worker-Moves c result error_msg left c.is_open refl active (sound.loyal active)
      ])
  step-Moves c (disk_changed left) sound = ([], sym (append-nil c.sent), rests _)
