-- ===== src/Server/Replies.antt =====
-- server/tcp_server.py: the replies of a session and what one request changes. A reply is written
-- whole; a connection that breaks shows as the end of the requests. The log is left out.
use hybrid_ftp_system.Prelude.{
  ℕ, Bool, true, false, List, [], ◌∷◌, ◌++◌, map, concat, Bytes, Option, none, some,
}
use hybrid_ftp_system.Prelude.Text.{decimal, codes}
use hybrid_ftp_system.DataTransfer.Session.{FtpSession}
use hybrid_ftp_system.DataTransfer.Target.{Bound}
use hybrid_ftp_system.Server.FileSystem.{UsersFile, crlf}

-- The code, and the text that goes over the connection.
pub record Reply : Type 0 where
  pub code : ℕ
  pub text : Bytes

-- `send_reply`
abbrev pub send_reply : ℕ → Bytes → Reply
send_reply code message = record {
  code = code;
  text = decimal code ++ codes " " ++ message ++ crlf;
}

-- `send_multiline_reply`, in its second definition, which is the one in force; the lines are not
-- empty.
unfoldable pub send_multiline_reply : ℕ → Bytes → List Bytes → Reply
send_multiline_reply code first lines = record {
  code = code;
  text =
      decimal code
      ++ codes "-"
      ++ first
      ++ crlf
      ++ concat (map (λ line. line ++ crlf) lines)
      ++ decimal code
      ++ codes " End of status."
      ++ crlf;
}

-- What the worker of a transfer runs: a file as it is, a temporary file that it removes behind the
-- transfer, a listing, or an upload.
pub data Job : Type 0 where
  download_file download_text : Bytes → ℕ → Job
  download_buffer : Bytes → ℕ → Job
  receive_upload : Bytes → ℕ → ℕ → Bytes → Bool → Job

-- A request of the client, and what its handling meets: the random transfer id, the second, the
-- answers to `socket` and `bind`, the address of the connection, the file of users, and the rounds that are given to the search of a free name.
pub record Request : Type 0 where
  pub line : Bytes
  pub transfer_id : ℕ
  pub timestamp : ℕ
  pub rounds : ℕ
  pub listener : Bound
  pub local_ip : Option Bytes
  pub users : UsersFile

-- What a request leaves: the session, the disk, the replies in their order, the transfer that it
-- starts, and whether the session goes on.
pub record Change (Disk : Type 0) : Type 0 where
  pub session : FtpSession
  pub disk : Disk
  pub replies : List Reply
  pub job : Option Job
  pub is_open : Bool

module _ {Disk : Type 0} where
  -- A reply, and the session goes on.
  abbrev pub responded : FtpSession → Disk → Reply → Change Disk
  responded session disk reply = record {
    session = session;
    disk = disk;
    replies = reply ∷ [];
    job = none;
    is_open = true;
  }

  abbrev pub answer : FtpSession → Disk → ℕ → Bytes → Change Disk
  answer session disk code message = responded session disk (send_reply code message)

  -- The reply 150 and `start_transfer`.
  unfoldable pub start_transfer : FtpSession → Disk → Bytes → Job → Change Disk
  start_transfer session disk message job = record {
    session = record session { transfer_active = true; abort_requested = false };
    disk = disk;
    replies = send_reply 150 message ∷ [];
    job = some job;
    is_open = true;
  }

  -- An exception in the loop ends the session without a reply.
  abbrev pub raised : FtpSession → Disk → Change Disk
  raised session disk = record {
    session = session;
    disk = disk;
    replies = [];
    job = none;
    is_open = false;
  }

  -- Nothing is responded yet.
  abbrev pub silent : FtpSession → Disk → Change Disk
  silent session disk = record {
    session = session;
    disk = disk;
    replies = [];
    job = none;
    is_open = true;
  }

  -- `valid, target_path = resolve_safe_path(…)` and the test of `valid`.
  abbrev pub with_path : Option Bytes → Change Disk → (Bytes → Change Disk) → Change Disk
  with_path none refused go = refused
  with_path (some path) refused go = go path
