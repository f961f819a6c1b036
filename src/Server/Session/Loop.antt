-- ===== src/Server/Session/Loop.antt =====
-- One round of the loop over the requests is served.
use hybrid_ftp_system.Prelude.{
  ◌≡◌, inl, inr, refl, arith, Bool-cases, true, false, not, ◌&&◌, Bytes, some, if◌then◌else◌,
}
use hybrid_ftp_system.Prelude.Text.{is_empty, codes}
use hybrid_ftp_system.Protocol.FileHash.{Sha256}
use hybrid_ftp_system.DataTransfer.Session.{FtpSession}
use hybrid_ftp_system.Server.FileSystem.{Os}
use hybrid_ftp_system.Server.Replies.{Request, answer, raised, silent}
use hybrid_ftp_system.Server.Commands.Transfers.{abor}
use hybrid_ftp_system.Server.Commands.Allowed.{Placed, Kept-like}
use hybrid_ftp_system.Server.Commands.Keeping.{Kept-aborted}
use hybrid_ftp_system.Server.Session.{
  Command, cmd_user, cmd_pass, cmd_noop, cmd_abor, cmd_quit, may_interrupt, member_command,
  run_command, handle_command, handle_request, parse_request, rstrip_crlf,
}
use hybrid_ftp_system.Server.Session.Members.{member_command-Allowed}
use hybrid_ftp_system.Server.Session.Phases.{rests, drops, not_logged_in, is_busy, is_alive, aborts}
use hybrid_ftp_system.Server.Session.Requests.{
  Served, Allowed-Served, if-Served, idle-Served, active-Served, user-Served, pass-Served,
  quit-Served,
}

module _ {Disk : Type 0} (os : Os Disk) (sha : Sha256) (root : Bytes) (s : FtpSession) (disk : Disk)
    (request : Request) (p : Placed root s)
    (stays : (d : Disk) → (os.files d).realpath root ≡ some root) where
  gated-Served :
      (command : Command) (arg : Bytes)
      → s.transfer_active ≡ false
      → Served os root s disk (
          if not s.is_authenticated
          then answer s disk 530 (codes "Please login with USER and PASS.")
          else member_command os sha s disk request command arg)
  gated-Served command arg i = elim (Bool-cases s.is_authenticated) [
    | inl l ↦
        if-Served os root s disk (not s.is_authenticated) (λ e. absurd (ground (arith, e, l)))
          (λ e.
            Allowed-Served os root s disk _ p l i
              (member_command-Allowed os sha root s disk request p stays command arg))
    | inr g ↦
        if-Served os root s disk (not s.is_authenticated)
          (λ e.
            idle-Served os root s disk s _ (Kept-like s s p refl refl refl refl refl) i refl
              not_logged_in)
          (λ e. absurd (ground (arith, e, g)))
  ]

  run_command-Served :
      (command : Command) (arg : Bytes)
      → s.transfer_active ≡ false
      → Served os root s disk (run_command os sha s disk request command arg)
  unfolding run_command
  run_command-Served cmd_user arg i = user-Served os root s disk p i arg
  run_command-Served cmd_pass arg i = pass-Served os root s disk p i arg request
  run_command-Served cmd_quit arg i = quit-Served os root s disk p
  run_command-Served other arg i = gated-Served other arg i

  -- A request while a transfer runs, to a client who is logged in.
  interrupt-Served :
      (command : Command) (arg : Bytes)
      → s.transfer_active ≡ true
      → s.is_authenticated ≡ true
      → may_interrupt command ≡ true
      → Served os root s disk (run_command os sha s disk request command arg)
  unfolding run_command member_command abor
  interrupt-Served cmd_quit arg a l m = quit-Served os root s disk p
  interrupt-Served cmd_noop arg a l m =
      if-Served os root s disk (not s.is_authenticated) (λ e. absurd (ground (arith, e, l)))
        (λ e.
          active-Served os root s disk s _ (Kept-like s s p refl refl refl refl refl) a is_alive)
  interrupt-Served cmd_abor arg a l m =
      if-Served os root s disk (not s.is_authenticated) (λ e. absurd (ground (arith, e, l)))
        (λ e.
          if-Served os root s disk s.transfer_active
            (λ b. active-Served os root s disk _ _ (Kept-aborted s disk p) a aborts)
            (λ b. absurd (ground (arith, a, b))))
  interrupt-Served other arg a l m = absurd cc

  handle_command-Served :
      (line : Command × Bytes)
      → (s.transfer_active ≡ true → s.is_authenticated ≡ true)
      → Served os root s disk (handle_command os sha s disk request line)
  unfolding handle_command
  handle_command-Served (command, arg) loyal = elim (Bool-cases s.transfer_active) [
    | inl a ↦
        if-Served os root s disk (s.transfer_active && not (may_interrupt command))
          (λ e.
            active-Served os root s disk s _ (Kept-like s s p refl refl refl refl refl) a is_busy)
          (λ e. interrupt-Served command arg a (loyal a) (ground (arith, e, a)))
    | inr i ↦
        if-Served os root s disk (s.transfer_active && not (may_interrupt command))
          (λ e. absurd (ground (arith, e, i))) (λ e. run_command-Served command arg i)
  ]

  -- In a session whose paths lie in its root, and in which a transfer runs only for a logged-in
  -- client, one round of the loop leaves the paths in the root; it logs nobody out; it changes the
  -- disk only for a logged-in client, by at most one call, on paths of the root or for a new temporary
  -- file; it starts a transfer only for a logged-in client without one, of a file of the root, of a
  -- temporary file or of a listing; and its replies are a move of the phases. The root is its own real path.
  pub handle_request-Served :
      (s.transfer_active ≡ true → s.is_authenticated ≡ true)
      → Served os root s disk (handle_request os sha s disk request)
  unfolding handle_request
  handle_request-Served loyal =
      let stopped : Served os root s disk (raised s disk) = record {
        placed = p;
        login = λ h. h;
        on_disk = inl refl;
        transfer = inl (refl, refl);
        move = drops _;
      } in
      let blank : Served os root s disk (silent s disk) = record {
        placed = p;
        login = λ h. h;
        on_disk = inl refl;
        transfer = inl (refl, refl);
        move = rests _;
      } in
      if-Served os root s disk (is_empty request.line) (λ e. stopped)
        (λ e.
          if-Served os root s disk (is_empty (rstrip_crlf request.line)) (λ b. blank)
            (λ b. handle_command-Served (parse_request (rstrip_crlf request.line)) loyal))
