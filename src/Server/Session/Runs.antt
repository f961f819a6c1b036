-- ===== src/Server/Session/Runs.antt =====
-- A connection through any sequence of requests, transfers and changes of the disk by others.
use hybrid_ftp_system.Prelude.{
  Option, ℕ, ℕ, ◌≡◌, ◌⊎◌, inl, inr, refl, sym, ap, ◌∙◌, Bool, true, false, List, [], ◌∷◌, Bytes,
  none, some, foldl, if◌then◌else◌,
}
use hybrid_ftp_system.Protocol.FileHash.{Sha256}
use hybrid_ftp_system.DataTransfer.Session.{tmp_dir}
use hybrid_ftp_system.DataTransfer.Upload.{TransferResult}
use hybrid_ftp_system.Server.FileSystem.{Os, exists}
use hybrid_ftp_system.Server.Replies.{Job, Change}
use hybrid_ftp_system.Server.Commands.Allowed.{Placed, JobWithin}
use hybrid_ftp_system.Server.Session.{
  Connection, Event, requested, opened, returned, disk_changed, accepted, handle_request,
  current_job, is_running, opened_session, end_worker, applied, step, run,
}
use hybrid_ftp_system.Server.Session.Requests.{Served}
use hybrid_ftp_system.Server.Session.Loop.{handle_request-Served}

-- The paths of the session lie in its root; a transfer is marked active exactly while one runs, of a
-- file of the root, of a temporary file or of a listing, and runs only for a logged-in client.
pub record Sound {Disk : Type 0} (root : Bytes) (c : Connection Disk) : Type 0 where
  pub placed : Placed root c.session
  pub loyal : c.session.transfer_active ≡ true → c.session.is_authenticated ≡ true
  pub transfer :
      ((c.job ≡ none) × (c.session.transfer_active ≡ false))
      ⊎ ((job : Job) × (c.job ≡ some job) × (c.session.transfer_active ≡ true) × JobWithin root job)

module _ {Disk : Type 0} (os : Os Disk) (sha : Sha256) (root : Bytes)
    (stays : (d : Disk) → (os.files d).realpath root ≡ some root) where
  applied-Sound :
      (c : Connection Disk) (change : Change Disk)
      → Sound root c
      → Served os root c.session c.disk change
      → Sound root (applied os sha c change)
  unfolding applied
  applied-Sound c change sound served = elim served.transfer [
    | inl (no_job, same_active) ↦ record {
      placed = served.placed;
      loyal = λ h. served.login (sound.loyal (sym same_active ∙ h));
      transfer = elim sound.transfer [
        | inl (none_before, idle) ↦
            inl (ap (λ j. current_job j c.job) no_job ∙ none_before, same_active ∙ idle)
        | inr (job, before, active, w) ↦
            inr (job, ap (λ j. current_job j c.job) no_job ∙ before, same_active ∙ active, w)
      ];
    }
    | inr (idle, member, active, job, started, w) ↦ record {
      placed = served.placed;
      loyal = λ h. served.login member;
      transfer = inr (job, ap (λ j. current_job j c.job) started, active, w);
    }
  ]

  end_worker-Sound :
      (result : Option TransferResult) (error_msg : Bytes) (left : Disk) (c : Connection Disk)
      → Sound root c
      → Sound root (end_worker result error_msg left c)
  unfolding end_worker
  end_worker-Sound result error_msg left c sound =
      let p = sound.placed in
      record {
        placed = record { at_root = p.at_root; current = p.current; renaming = p.renaming };
        loyal = λ h. absurd cc;
        transfer = inl (refl, refl);
      }

  if-Sound :
      (b : Bool) {x y : Connection Disk}
      → Sound root x
      → Sound root y
      → Sound root (if b then x else y)
  if-Sound true a b = a
  if-Sound false a b = b

  opened-Sound :
      (now : ℕ) (c : Connection Disk) (job : Option Job)
      → Sound root c
      → Sound root (record c { session = opened_session now c.session job })
  opened-Sound now c none sound = record {
    placed = sound.placed;
    loyal = sound.loyal;
    transfer = sound.transfer;
  }
  opened-Sound now c (some job) sound =
      let p = sound.placed in
      record {
        placed = record { at_root = p.at_root; current = p.current; renaming = p.renaming };
        loyal = sound.loyal;
        transfer = sound.transfer;
      }

  step-Sound :
      (c : Connection Disk) (event : Event Disk) → Sound root c → Sound root (step os sha c event)
  unfolding step
  step-Sound c (requested request) sound =
      if-Sound c.is_open
        (applied-Sound c (handle_request os sha c.session c.disk request) sound (
          handle_request-Served os sha root c.session c.disk request sound.placed stays
            sound.loyal))
        sound
  step-Sound c (opened now) sound = opened-Sound now c c.job sound
  step-Sound c (returned result error_msg left) sound =
      if-Sound (is_running c.job) (end_worker-Sound result error_msg left c sound) sound
  step-Sound c (disk_changed left) sound = record {
    placed = sound.placed;
    loyal = sound.loyal;
    transfer = sound.transfer;
  }

  run_from :
      (events : List (Event Disk)) (c : Connection Disk)
      → Sound root c
      → Sound root (foldl (step os sha) c events)
  run_from [] c sound = sound
  run_from (event ∷ events) c sound =
      run_from events (step os sha c event) (step-Sound c event sound)

-- The directory that a new session gets as its root.
abbrev pub first_root : {Disk : Type 0} → Os Disk → Bytes → Disk → Bytes
first_root os storage_server disk =
    if exists os disk storage_server then storage_server else tmp_dir

module _ {Disk : Type 0} (os : Os Disk) (sha : Sha256) (storage_server : Bytes) (control_fd : ℕ)
    (client_ip : Bytes) (client_port : ℕ) (disk : Disk) where
  accepted-Sound :
      Sound
        (first_root os storage_server disk)
        (accepted os storage_server control_fd client_ip client_port disk)
  unfolding accepted
  accepted-Sound = from (exists os disk storage_server) refl
    where
      from :
          (b : Bool)
          → exists os disk storage_server ≡ b
          → Sound
              (first_root os storage_server disk)
              (accepted os storage_server control_fd client_ip client_port disk)
      from true e = rw e (record {
        placed = record { at_root = refl; current = inl refl; renaming = inl refl };
        loyal = λ h. absurd cc;
        transfer = inl (refl, refl);
      })
      from false e = rw e (record {
        placed = record { at_root = refl; current = inl refl; renaming = inl refl };
        loyal = λ h. absurd cc;
        transfer = inl (refl, refl);
      })

  -- From the start of a session on, whatever requests come, transfers end and others do to the disk,
  -- the current directory and the path of a pending rename lie in the session's root; a transfer is
  -- marked active exactly while one runs, and it runs for a logged-in client only, on a file of the
  -- root, a temporary file or a listing. The root is its own real path at all times.
  pub run-Sound :
      (events : List (Event Disk))
      → ((d : Disk)
          → (os.files d).realpath (first_root os storage_server disk)
            ≡ some (first_root os storage_server disk))
      → Sound
          (first_root os storage_server disk)
          (run os sha (accepted os storage_server control_fd client_ip client_port disk) events)
  unfolding run
  run-Sound events stays =
      run_from os sha (first_root os storage_server disk) stays events
        (accepted os storage_server control_fd client_ip client_port disk) accepted-Sound
