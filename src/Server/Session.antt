-- ===== src/Server/Session.antt =====
-- server/tcp_server.py, `handle_client_session`: the loop over the requests, with the worker of a
-- transfer beside it.
pub mod Members
pub mod Phases
pub mod Requests
pub mod Loop
pub mod Runs
pub mod Refines
use hybrid_ftp_system.Prelude.{
  ℕ, ◌==◌, Bool, true, false, not, ◌&&◌, ◌||◌, List, [], ◌∷◌, ◌++◌, Bytes, Option, none, some, same,
  if◌then◌else◌, foldl,
}
use hybrid_ftp_system.Prelude.Text.{codes, is_empty, split_once, strip, upper}
use hybrid_ftp_system.Protocol.FileHash.{Sha256}
use hybrid_ftp_system.DataTransfer.Session.{FtpSession, new_session, end_transfer}
use hybrid_ftp_system.DataTransfer.Upload.{TransferResult, success, failure, open_context}
use hybrid_ftp_system.Server.FileSystem.{Os, exists}
use hybrid_ftp_system.Server.Replies.{
  download_file, download_text, download_buffer, receive_upload, Reply, Job, Request, Change,
  send_reply, answer, raised, silent,
}
use hybrid_ftp_system.Server.Commands.Login.{user, pass, pasv, port_command, type, mode}
use hybrid_ftp_system.Server.Commands.Folders.{pwd, cwd, cdup, mkd, rmd, dele, rnfr, rnto}
use hybrid_ftp_system.Server.Commands.Status.{stat, size, mdtm, hash, help}
use hybrid_ftp_system.Server.Commands.Transfers.{list, retr, stor, stou, abor, quit}

pub data Command : Type 0 where
  cmd_user cmd_pass cmd_pasv cmd_port cmd_type cmd_pwd cmd_cwd cmd_cdup cmd_mkd cmd_rmd : Command
  cmd_list cmd_nlst cmd_stat cmd_size cmd_mdtm cmd_hash cmd_retr cmd_stor cmd_appe cmd_stou :
      Command
  cmd_dele cmd_rnfr cmd_rnto cmd_noop cmd_mode cmd_abor cmd_help cmd_quit cmd_unknown : Command

-- The names of the commands that the loop knows.
unfoldable pub commands : List (Bytes × Command)
commands =
    (codes "USER", cmd_user)
    ∷ (codes "PASS", cmd_pass)
    ∷ (codes "PASV", cmd_pasv)
    ∷ (codes "PORT", cmd_port)
    ∷ (codes "TYPE", cmd_type)
    ∷ (codes "PWD", cmd_pwd)
    ∷ (codes "CWD", cmd_cwd)
    ∷ (codes "CDUP", cmd_cdup)
    ∷ (codes "MKD", cmd_mkd)
    ∷ (codes "RMD", cmd_rmd)
    ∷ (codes "LIST", cmd_list)
    ∷ (codes "NLST", cmd_nlst)
    ∷ (codes "STAT", cmd_stat)
    ∷ (codes "SIZE", cmd_size)
    ∷ (codes "MDTM", cmd_mdtm)
    ∷ (codes "HASH", cmd_hash)
    ∷ (codes "RETR", cmd_retr)
    ∷ (codes "STOR", cmd_stor)
    ∷ (codes "APPE", cmd_appe)
    ∷ (codes "STOU", cmd_stou)
    ∷ (codes "DELE", cmd_dele)
    ∷ (codes "RNFR", cmd_rnfr)
    ∷ (codes "RNTO", cmd_rnto)
    ∷ (codes "NOOP", cmd_noop)
    ∷ (codes "MODE", cmd_mode)
    ∷ (codes "ABOR", cmd_abor)
    ∷ (codes "HELP", cmd_help)
    ∷ (codes "QUIT", cmd_quit)
    ∷ []

abbrev pub command_in : Bytes → List (Bytes × Command) → Command
command_in name [] = cmd_unknown
command_in name ((n, c) ∷ rest) =
    let behind = command_in name rest in if same n name then c else behind

-- `request.rstrip("\r\n")`
abbrev pub rstrip_crlf : Bytes → Bytes
rstrip_crlf [] = []
rstrip_crlf (c ∷ cs) =
    let rest = rstrip_crlf cs in if (c == 13 || c == 10) && is_empty rest then [] else c ∷ rest

abbrev pub argument : Option Bytes → Bytes
argument none = []
argument (some text) = strip text

-- The command of a request and its argument.
unfoldable pub parse_request : Bytes → Command × Bytes
parse_request text =
    let (name, behind) = split_once b' ' text in (command_in (upper name) commands, argument behind)

-- `cmd in ("ABOR", "NOOP", "QUIT")`
abbrev pub may_interrupt : Command → Bool
may_interrupt cmd_abor = true
may_interrupt cmd_noop = true
may_interrupt cmd_quit = true
may_interrupt other = false

module _ {Disk : Type 0} (os : Os Disk) (sha : Sha256) (s : FtpSession) (disk : Disk)
    (request : Request) where
  -- The branches behind the test of the login; USER and PASS do not come here.
  unfoldable pub member_command : Command → Bytes → Change Disk
  member_command cmd_pasv arg = pasv s disk request
  member_command cmd_port arg = port_command s disk arg
  member_command cmd_type arg = type s disk arg
  member_command cmd_pwd arg = pwd os s disk
  member_command cmd_cwd arg = cwd os s disk arg
  member_command cmd_cdup arg = cdup os s disk
  member_command cmd_mkd arg = mkd os s disk arg
  member_command cmd_rmd arg = rmd os s disk arg
  member_command cmd_list arg = list os sha s disk request true arg
  member_command cmd_nlst arg = list os sha s disk request false arg
  member_command cmd_stat arg = stat os sha s disk arg
  member_command cmd_size arg = size os sha s disk arg
  member_command cmd_mdtm arg = mdtm os sha s disk arg
  member_command cmd_hash arg = hash os sha s disk arg
  member_command cmd_retr arg = retr os sha s disk request arg
  member_command cmd_stor arg = stor os sha s disk request false arg
  member_command cmd_appe arg = stor os sha s disk request true arg
  member_command cmd_stou arg = stou os sha s disk request arg
  member_command cmd_dele arg = dele os s disk arg
  member_command cmd_rnfr arg = rnfr os s disk arg
  member_command cmd_rnto arg = rnto os s disk arg
  member_command cmd_noop arg = answer s disk 200 (codes "NOOP ok.")
  member_command cmd_mode arg = mode s disk arg
  member_command cmd_abor arg = abor s disk
  member_command cmd_help arg = help s disk arg
  member_command other arg = answer s disk 502 (codes "Command not implemented.")

  unfoldable pub run_command : Command → Bytes → Change Disk
  run_command cmd_user arg = user s disk arg
  run_command cmd_pass arg = pass s disk arg request
  run_command cmd_quit arg = quit s disk
  run_command other arg =
      if not s.is_authenticated
      then answer s disk 530 (codes "Please login with USER and PASS.")
      else member_command other arg

  unfoldable pub handle_command : Command × Bytes → Change Disk
  handle_command (command, arg) =
      if s.transfer_active && not (may_interrupt command)
      then answer s disk 450 (codes "Transfer in progress.")
      else run_command command arg

  -- One round of the loop. The empty text is the end of the stream.
  unfoldable pub handle_request : Change Disk
  handle_request =
      let text = rstrip_crlf request.line in
      if is_empty request.line
      then raised s disk
      else if is_empty text
      then silent s disk
      else handle_command (parse_request text)

-- A session with its connection: what was sent, oldest first, the transfer that runs, and whether
-- the loop goes on.
pub record Connection (Disk : Type 0) : Type 0 where
  pub session : FtpSession
  pub disk : Disk
  pub sent : List Reply
  pub job : Option Job
  pub is_open : Bool

-- The start of `handle_client_session`; `storage_server` is `<project>/storage/server_files`.
unfoldable pub accepted : {Disk : Type 0} → Os Disk → Bytes → ℕ → Bytes → ℕ → Disk → Connection Disk
accepted os storage_server control_fd client_ip client_port disk =
    let fresh = new_session control_fd client_ip client_port in
    record {
      session =
          if exists os disk storage_server
          then record fresh { root_dir = storage_server; current_dir = storage_server }
          else fresh;
      disk = disk;
      sent = send_reply 220 (codes "Welcome to RDT-FTP Server (Hybrid TCP/UDP)") ∷ [];
      job = none;
      is_open = true;
    }

-- A request arrives; the worker opens its transfer, at a reading of the clock; the worker's call
-- returns, with its `error_msg` and the disk that it leaves, or raises, without a result; someone else changes the disk.
pub data Event (Disk : Type 0) : Type 0 where
  requested : Request → Event Disk
  opened : ℕ → Event Disk
  returned : Option TransferResult → Bytes → Disk → Event Disk
  disk_changed : Disk → Event Disk

-- The running transfer, and one that the request has started.
abbrev pub current_job : Option Job → Option Job → Option Job
current_job (some started) running = some started
current_job none running = running

abbrev pub job_id : Job → ℕ
job_id (download_file path transfer_id) = transfer_id
job_id (download_text content transfer_id) = transfer_id
job_id (download_buffer content transfer_id) = transfer_id
job_id (receive_upload path transfer_id size file_hash is_append) = transfer_id

-- The worker's transfer has its context.
abbrev pub opened_session : ℕ → FtpSession → Option Job → FtpSession
opened_session now s none = s
opened_session now s (some job) = record s {
  transfer_context = some (open_context (job_id job) now s);
}

abbrev pub is_running : Option Job → Bool
is_running none = false
is_running (some job) = true

-- The worker's reply, unless the transfer was aborted, or its call has raised.
unfoldable pub worker_replies : Option TransferResult → Bytes → FtpSession → List Reply
worker_replies result error_msg s = if s.abort_requested then [] else (elim result [
  | none ↦ []
  | some (success count) ↦ send_reply 226 (codes "Transfer complete.") ∷ []
  | some (failure e) ↦ send_reply 426 (codes "Transfer aborted: " ++ error_msg) ∷ []
])

-- The end of `worker`; its reply is lost if the connection is closed.
unfoldable pub end_worker :
    {Disk : Type 0} → Option TransferResult → Bytes → Disk → Connection Disk → Connection Disk
end_worker result error_msg left c = record c {
  session = record (end_transfer c.session) { transfer_active = false; abort_requested = false };
  disk = left;
  sent = if c.is_open then c.sent ++ worker_replies result error_msg c.session else c.sent;
  job = none;
}

module _ {Disk : Type 0} (os : Os Disk) (sha : Sha256) where
  unfoldable pub applied : Connection Disk → Change Disk → Connection Disk
  applied c change = record {
    session = change.session;
    disk = change.disk;
    sent = c.sent ++ change.replies;
    job = current_job change.job c.job;
    is_open = change.is_open;
  }

  -- A request is read while the loop goes on, and a worker runs while there is a transfer.
  unfoldable pub step : Connection Disk → Event Disk → Connection Disk
  step c (requested request) =
      if c.is_open then applied c (handle_request os sha c.session c.disk request) else c
  step c (opened now) = record c { session = opened_session now c.session c.job }
  step c (returned result error_msg left) =
      if is_running c.job then end_worker result error_msg left c else c
  step c (disk_changed left) = record c { disk = left }

  unfoldable pub run : Connection Disk → List (Event Disk) → Connection Disk
  run = foldl step
