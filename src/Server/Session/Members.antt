-- ===== src/Server/Session/Members.antt =====
-- Every command of a logged-in client is one of the allowed changes.
use hybrid_ftp_system.Prelude.{◌≡◌, refl, true, false, Bytes, some}
use hybrid_ftp_system.Protocol.FileHash.{Sha256}
use hybrid_ftp_system.DataTransfer.Session.{FtpSession}
use hybrid_ftp_system.Server.FileSystem.{Os}
use hybrid_ftp_system.Server.Replies.{Request}
use hybrid_ftp_system.Server.Commands.Allowed.{Placed, Allowed, told}
use hybrid_ftp_system.Server.Commands.Keeping.{
  pasv-Allowed, port-Allowed, type-Allowed, mode-Allowed, pwd-Allowed, help-Allowed, abor-Allowed,
  stat-Allowed, size-Allowed, mdtm-Allowed, hash-Allowed,
}
use hybrid_ftp_system.Server.Commands.Changing.{
  cwd-Allowed, cdup-Allowed, mkd-Allowed, rmd-Allowed, dele-Allowed, rnfr-Allowed, rnto-Allowed,
}
use hybrid_ftp_system.Server.Commands.Starting.{
  list-Allowed, retr-Allowed, stor-Allowed, stou-Allowed,
}
use hybrid_ftp_system.Server.Session.{
  Command, cmd_user, cmd_pass, cmd_pasv, cmd_port, cmd_type, cmd_pwd, cmd_cwd, cmd_cdup, cmd_mkd,
  cmd_rmd, cmd_list, cmd_nlst, cmd_stat, cmd_size, cmd_mdtm, cmd_hash, cmd_retr, cmd_stor, cmd_appe,
  cmd_stou, cmd_dele, cmd_rnfr, cmd_rnto, cmd_noop, cmd_mode, cmd_abor, cmd_help, cmd_quit,
  cmd_unknown, member_command,
}

module _ {Disk : Type 0} (os : Os Disk) (sha : Sha256) (root : Bytes) (s : FtpSession) (disk : Disk)
    (request : Request) (p : Placed root s)
    (stays : (d : Disk) → (os.files d).realpath root ≡ some root) where
  -- A command behind the test of the login sends one reply other than 150, and then keeps the login,
  -- the running transfer and the place of the session's paths in its root, and changes the disk by
  -- at most one call, on paths of the root; or it sends 150 and starts a transfer of a file of the
  -- root, of a new temporary file or of a listing; or it raises, with at most a temporary file
  -- written; or it has not responded yet, with nothing changed.
  pub member_command-Allowed :
      (command : Command) (arg : Bytes)
      → Allowed os root s disk (member_command os sha s disk request command arg)
  unfolding member_command
  member_command-Allowed cmd_user arg = told os root s disk _ p refl
  member_command-Allowed cmd_pass arg = told os root s disk _ p refl
  member_command-Allowed cmd_quit arg = told os root s disk _ p refl
  member_command-Allowed cmd_unknown arg = told os root s disk _ p refl
  member_command-Allowed cmd_noop arg = told os root s disk _ p refl
  member_command-Allowed cmd_pasv arg = pasv-Allowed os root s disk p request
  member_command-Allowed cmd_port arg = port-Allowed os root s disk p arg
  member_command-Allowed cmd_type arg = type-Allowed os root s disk p arg
  member_command-Allowed cmd_mode arg = mode-Allowed os root s disk p arg
  member_command-Allowed cmd_pwd arg = pwd-Allowed os root s disk p
  member_command-Allowed cmd_help arg = help-Allowed os root s disk p arg
  member_command-Allowed cmd_abor arg = abor-Allowed os root s disk p
  member_command-Allowed cmd_cwd arg = cwd-Allowed os root s disk p stays arg
  member_command-Allowed cmd_cdup arg = cdup-Allowed os root s disk p stays
  member_command-Allowed cmd_mkd arg = mkd-Allowed os root s disk p stays arg
  member_command-Allowed cmd_rmd arg = rmd-Allowed os root s disk p stays arg
  member_command-Allowed cmd_dele arg = dele-Allowed os root s disk p stays arg
  member_command-Allowed cmd_rnfr arg = rnfr-Allowed os root s disk p stays arg
  member_command-Allowed cmd_rnto arg = rnto-Allowed os root s disk p stays arg
  member_command-Allowed cmd_stat arg = stat-Allowed os root s disk p sha stays arg
  member_command-Allowed cmd_size arg = size-Allowed os root s disk p sha stays arg
  member_command-Allowed cmd_mdtm arg = mdtm-Allowed os root s disk p sha stays arg
  member_command-Allowed cmd_hash arg = hash-Allowed os root s disk p sha stays arg
  member_command-Allowed cmd_list arg = list-Allowed os sha root s disk request p stays true arg
  member_command-Allowed cmd_nlst arg = list-Allowed os sha root s disk request p stays false arg
  member_command-Allowed cmd_retr arg = retr-Allowed os sha root s disk request p stays arg
  member_command-Allowed cmd_stor arg = stor-Allowed os sha root s disk request p stays false arg
  member_command-Allowed cmd_appe arg = stor-Allowed os sha root s disk request p stays true arg
  member_command-Allowed cmd_stou arg = stou-Allowed os sha root s disk request p stays arg
