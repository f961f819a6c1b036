-- ===== src/Server/Commands/Login.antt =====
-- server/tcp_server.py, `handle_client_session`: USER, PASS, TYPE, MODE, PASV and PORT.
use hybrid_ftp_system.Prelude.{
  ℕ, ◌+◌, ◌/◌, ◌%◌, ◌==◌, Bool, true, ◌||◌, map, ◌++◌, [], ◌∷◌, Bytes, Option, none, some, Result,
  ok, err, same, if◌then◌else◌,
}
use hybrid_ftp_system.Prelude.Text.{codes, is_empty, decimal}
use hybrid_ftp_system.DataTransfer.Session.{FtpSession, type_ascii, type_binary}
use hybrid_ftp_system.DataTransfer.Target.{udp_prepare_passive_listener, udp_set_active_target}
use hybrid_ftp_system.Server.FileSystem.{verify_user_credentials}
use hybrid_ftp_system.Server.Metadata.{
  PortError, bad_syntax, bad_host, bad_port, parse_port_argument,
}
use hybrid_ftp_system.Server.Replies.{Request, Change, answer}

-- `get_local_ip`; `none` is the exception of `getsockname`.
unfoldable pub get_local_ip : Option Bytes → Bytes
get_local_ip none = codes "127.0.0.1"
get_local_ip (some ip) = if same ip (codes "0.0.0.0") then codes "127.0.0.1" else ip

-- `arg in ("A", "a")`, for a capital letter.
unfoldable pub is_letter : Bytes → ℕ → Bool
is_letter arg letter = same arg (letter ∷ []) || same arg ((letter + 32) ∷ [])

unfoldable pub port_error_text : PortError → Bytes
port_error_text bad_syntax = codes "Syntax error in IP/PORT."
port_error_text bad_host = codes "Invalid IP or Port range."
port_error_text bad_port = codes "Port number must be >= 1024."

-- `replace('.', ',')`, on one character.
abbrev pub to_comma : ℕ → ℕ
to_comma c = if c == b'.' then b',' else c

-- `Entering Passive Mode (h1,h2,h3,h4,p1,p2)`
unfoldable pub passive_message : Bytes → ℕ → Bytes
passive_message ip port =
    codes "Entering Passive Mode ("
    ++ map to_comma ip
    ++ codes ","
    ++ decimal (port / 256)
    ++ codes ","
    ++ decimal (port % 256)
    ++ codes ")"

module _ {Disk : Type 0} (s : FtpSession) (disk : Disk) where
  unfoldable pub user : Bytes → Change Disk
  user arg = answer (record s { username = arg }) disk 331 (codes "User name okay, need password.")

  unfoldable pub pass : Bytes → Request → Change Disk
  pass arg request =
      if is_empty s.username
      then answer s disk 503 (codes "Bad sequence of commands. Send USER first.")
      else if verify_user_credentials request.users s.username arg
      then answer (record s { is_authenticated = true }) disk 230 (codes "User logged in, proceed.")
      else answer s disk 530 (codes "Authentication failed.")

  -- The reply to PASV, once the listener is prepared.
  unfoldable pub passive_reply : Request → ℕ × FtpSession → Change Disk
  passive_reply request (port, prepared) =
      if port == 0
      then answer prepared disk 425 (codes "Cannot open data connection.")
      else answer prepared disk 227 (passive_message (get_local_ip request.local_ip) port)

  unfoldable pub pasv : Request → Change Disk
  pasv request = passive_reply request (udp_prepare_passive_listener request.listener s)

  abbrev pub port_reply : Result PortError (Bytes × ℕ) → Change Disk
  port_reply (err e) = answer s disk 501 (port_error_text e)
  port_reply (ok (ip, port)) =
      answer (udp_set_active_target ip port s) disk 200 (codes "PORT command successful.")

  unfoldable pub port_command : Bytes → Change Disk
  port_command arg = port_reply (parse_port_argument arg)

  unfoldable pub type : Bytes → Change Disk
  type arg =
      if is_letter arg b'A'
      then answer (record s { type = type_ascii }) disk 200 (codes "Switching to ASCII mode.")
      else if is_letter arg b'I'
      then answer (record s { type = type_binary }) disk 200 (codes "Switching to Binary mode.")
      else answer s disk 504 (codes "Command not implemented for that parameter.")

  unfoldable pub mode : Bytes → Change Disk
  mode arg =
      if is_letter arg b'S'
      then answer s disk 200 (codes "Mode set to Stream.")
      else answer s disk 504 (codes "Bad MODE parameter.")
