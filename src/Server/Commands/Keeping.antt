-- ===== src/Server/Commands/Keeping.antt =====
-- The commands that change neither the disk nor the login: PASV, PORT, TYPE, MODE, the status
-- commands and ABOR.
use hybrid_ftp_system.Prelude.{
  ◌==◌, ◌≡◌, refl, arith, if◌then◌else◌, Bool, true, false, not, Bytes, Option, none, some, Result,
  ok, err,
}
use hybrid_ftp_system.Prelude.Int.{ℤ, pos, negsuc}
use hybrid_ftp_system.Prelude.Text.{is_empty, strip, upper}
use hybrid_ftp_system.Protocol.FileHash.{Sha256}
use hybrid_ftp_system.Rdt.Context.{TransferContext}
use hybrid_ftp_system.DataTransfer.Session.{FtpSession, udp_abort_transfer}
use hybrid_ftp_system.DataTransfer.Target.{
  Bound, refused, unnamed, bound, udp_prepare_passive_listener, udp_set_active_target,
}
use hybrid_ftp_system.Server.FileSystem.{
  Os, exists, get_file_size, get_file_mtime, calculate_sha256,
}
use hybrid_ftp_system.Server.Metadata.{PortError, value_of, parse_port_argument}
use hybrid_ftp_system.Server.Replies.{Request, send_multiline_reply}
use hybrid_ftp_system.Server.Commands.Login.{
  is_letter, pasv, passive_reply, port_command, port_reply, type, mode,
}
use hybrid_ftp_system.Server.Commands.Folders.{safe_path, pwd}
use hybrid_ftp_system.Server.Commands.Status.{
  server_status, path_status, details, help_summary, help_reply, help, stat, size_reply, size, mdtm,
  hash,
}
use hybrid_ftp_system.Server.Commands.Transfers.{aborted, abor}
use hybrid_ftp_system.Server.Commands.Allowed.{
  Placed, Kept, Kept-like, Allowed, answers, untouched, told, if-Allowed, with_path-Allowed,
  safe_path-OptWithin,
}

Kept-listener :
    {root : Bytes} (answer : Bound) (s : FtpSession)
    → Placed root s
    → Kept root s (udp_prepare_passive_listener answer s).1
unfolding udp_prepare_passive_listener
Kept-listener refused s p = Kept-like s _ p refl refl refl refl refl
Kept-listener (unnamed sock) s p = Kept-like s _ p refl refl refl refl refl
Kept-listener (bound sock n) s p = Kept-like s _ p refl refl refl refl refl

Kept-abort : {root : Bytes} (s : FtpSession) → Placed root s → Kept root s (udp_abort_transfer s).1
unfolding udp_abort_transfer
Kept-abort {root} s p = from s.transfer_context refl
  where
    from :
        (o : Option TransferContext) → s.transfer_context ≡ o → Kept root s (udp_abort_transfer s).1
    from none e =
        Kept-like s _ p (ground (arith, e)) (ground (arith, e)) (ground (arith, e))
          (ground (arith, e)) (ground (arith, e))
    from (some context) e =
        Kept-like s _ p (ground (arith, e)) (ground (arith, e)) (ground (arith, e))
          (ground (arith, e)) (ground (arith, e))

if-Kept :
    {root : Bytes} (b : Bool) {s x y : FtpSession}
    → Kept root s x
    → Kept root s y
    → Kept root s (if b then x else y)
if-Kept true a b = a
if-Kept false a b = b

pub Kept-aborted :
    {Disk : Type 0} {root : Bytes} (s : FtpSession) (disk : Disk)
    → Placed root s
    → Kept root s (aborted s disk)
unfolding aborted
Kept-aborted s disk p =
    if-Kept s.transfer_active (Kept-abort s p) (Kept-like s s p refl refl refl refl refl)

module _ {Disk : Type 0} (os : Os Disk) (root : Bytes) (s : FtpSession) (disk : Disk)
    (p : Placed root s) where
  pub pasv-Allowed : (request : Request) → Allowed os root s disk (pasv s disk request)
  unfolding pasv passive_reply
  pasv-Allowed request =
      let kept = Kept-listener request.listener s p in
      if-Allowed os root s disk ((udp_prepare_passive_listener request.listener s).0 == 0)
        (answers _ disk _ kept untouched refl) (answers _ disk _ kept untouched refl)

  port_reply-Allowed : (r : Result PortError _) → Allowed os root s disk (port_reply s disk r)
  unfolding udp_set_active_target
  port_reply-Allowed (err e) = told os root s disk _ p refl
  port_reply-Allowed (ok (ip, n)) =
      answers _ disk _ (Kept-like s _ p refl refl refl refl refl) untouched refl

  pub port-Allowed : (arg : Bytes) → Allowed os root s disk (port_command s disk arg)
  unfolding port_command
  port-Allowed arg = port_reply-Allowed (parse_port_argument arg)

  pub type-Allowed : (arg : Bytes) → Allowed os root s disk (type s disk arg)
  unfolding type
  type-Allowed arg =
      if-Allowed os root s disk (is_letter arg b'A')
        (answers _ disk _ (Kept-like s _ p refl refl refl refl refl) untouched refl)
        (if-Allowed os root s disk (is_letter arg b'I')
          (answers _ disk _ (Kept-like s _ p refl refl refl refl refl) untouched refl)
          (told os root s disk _ p refl))

  pub mode-Allowed : (arg : Bytes) → Allowed os root s disk (mode s disk arg)
  unfolding mode
  mode-Allowed arg =
      if-Allowed os root s disk (is_letter arg b'S') (told os root s disk _ p refl)
        (told os root s disk _ p refl)

  pub pwd-Allowed : Allowed os root s disk (pwd os s disk)
  unfolding pwd
  pwd-Allowed = told os root s disk _ p refl

  help_reply-Allowed : (o : Option Bytes) → Allowed os root s disk (help_reply s disk o)
  unfolding help_summary send_multiline_reply
  help_reply-Allowed none = told os root s disk _ p refl
  help_reply-Allowed (some text) = told os root s disk _ p refl

  pub help-Allowed : (arg : Bytes) → Allowed os root s disk (help s disk arg)
  unfolding help
  help-Allowed arg = help_reply-Allowed (value_of (upper (strip arg)) details)

  pub abor-Allowed : Allowed os root s disk (abor s disk)
  unfolding abor
  abor-Allowed =
      if-Allowed os root s disk s.transfer_active
        (answers _ disk _ (Kept-aborted s disk p) untouched refl) (told os root s disk _ p refl)

  module _ (sha : Sha256) (stays : (d : Disk) → (os.files d).realpath root ≡ some root)
      (arg : Bytes) where
    pub stat-Allowed : Allowed os root s disk (stat os sha s disk arg)
    unfolding stat server_status path_status
    stat-Allowed = if-Allowed os root s disk (is_empty arg) (told os root s disk _ p refl) (
        with_path-Allowed os root s disk (safe_path os s disk arg)
          (safe_path-OptWithin os root s disk arg stays p) (told os root s disk _ p refl)
          (λ path w.
            if-Allowed os root s disk (not (exists os disk path)) (told os root s disk _ p refl) (
              if-Allowed os root s disk (os.isdir disk path) (told os root s disk _ p refl)
                (told os root s disk _ p refl))))

    size_reply-Allowed : (n : ℤ) → Allowed os root s disk (size_reply os sha s disk n)
    size_reply-Allowed (pos n) = told os root s disk _ p refl
    size_reply-Allowed (negsuc n) = told os root s disk _ p refl

    pub size-Allowed : Allowed os root s disk (size os sha s disk arg)
    unfolding size
    size-Allowed =
        with_path-Allowed os root s disk (safe_path os s disk arg)
          (safe_path-OptWithin os root s disk arg stays p) (told os root s disk _ p refl)
          (λ path w.
            if-Allowed os root s disk (os.isdir disk path) (told os root s disk _ p refl)
              (size_reply-Allowed (get_file_size os disk path)))

    pub mdtm-Allowed : Allowed os root s disk (mdtm os sha s disk arg)
    unfolding mdtm
    mdtm-Allowed =
        with_path-Allowed os root s disk (safe_path os s disk arg)
          (safe_path-OptWithin os root s disk arg stays p) (told os root s disk _ p refl)
          (λ path w.
            if-Allowed os root s disk (is_empty (get_file_mtime os disk path))
              (told os root s disk _ p refl) (told os root s disk _ p refl))

    pub hash-Allowed : Allowed os root s disk (hash os sha s disk arg)
    unfolding hash
    hash-Allowed =
        with_path-Allowed os root s disk (safe_path os s disk arg)
          (safe_path-OptWithin os root s disk arg stays p) (told os root s disk _ p refl)
          (λ path w. if-Allowed os root s disk (os.isdir disk path) (told os root s disk _ p refl) (
            if-Allowed os root s disk (is_empty (calculate_sha256 os sha disk path))
              (told os root s disk _ p refl) (told os root s disk _ p refl)))
