-- ===== src/Client/Control.antt =====
-- client/control_client.py: `FTPClient`, on its own thread or on that of a transfer. What the system
-- and the server answer is the environment's; what is printed, and the line editor, are left out.
pub mod Transfers
pub mod Cli
pub mod Safety
pub mod Upload
pub mod Port
pub mod Keys
use hybrid_ftp_system.Prelude.{
  ℕ, ◌/◌, ◌%◌, ◌==◌, Bool, true, false, not, ◌&&◌, ◌||◌, ltb, leb, List, [], ◌∷◌, ◌++◌, take, drop,
  length, Bytes, Option, none, some, same, Result, ok, err, if◌then◌else◌,
}
use hybrid_ftp_system.Prelude.Int.{ℤ, pos, negsuc, pos_part}
use hybrid_ftp_system.Prelude.Text.{
  codes, is_empty, is_digit, strip, upper, split_once, split_on, split_words, join_with, decimal,
}
use hybrid_ftp_system.Protocol.FileHash.{Sha256, sha256_file}
use hybrid_ftp_system.Rdt.Port.{Address}
use hybrid_ftp_system.DataTransfer.Session.{DataMode, mode_passive, mode_active}
use hybrid_ftp_system.DataTransfer.Target.{SocketError}
use hybrid_ftp_system.DataTransfer.Upload.{Run}
use hybrid_ftp_system.DataTransfer.Download.{SendRun}
use hybrid_ftp_system.DataTransfer.Client.{
  ClientData, no_client_data, Opening, udp_client_set_passive, udp_client_prepare_active,
  udp_client_abort_transfer, udp_client_receive_file, udp_client_receive_buffer,
  udp_client_send_file,
}
use hybrid_ftp_system.Server.Paths.{starts_with}
use hybrid_ftp_system.Server.FileSystem.{crlf}
use hybrid_ftp_system.Server.Session.{argument}
use hybrid_ftp_system.Client.Responses.{
  get_response_code, has_code, passive_address, parse_transfer_metadata,
}

-- What `readline` gives: a line, or an exception; a list that ends is a closed connection.
pub data Incoming : Type 0 where
  line : Bytes → Incoming
  broken : Incoming

-- An `FTPClient` with the module variables of the data transfer, the commands that it has sent, what
-- its connection will bring, and what its `sendall` will answer (which goes through where the list
-- ends). `transfer_running` tells that the transfer's thread is alive.
pub record FtpClient : Type 0 where
  pub has_socket : Bool
  pub has_reader : Bool
  pub connected : Bool
  pub data_mode : Option DataMode
  pub transfer_running : Bool
  pub channel : ClientData
  pub sent : List Bytes
  pub incoming : List Incoming
  pub outcomes : List Bool

-- `FTPClient()`
abbrev pub new_client : List Incoming → List Bool → FtpClient
new_client incoming outcomes = record {
  has_socket = false;
  has_reader = false;
  connected = false;
  data_mode = none;
  transfer_running = false;
  channel = no_client_data;
  sent = [];
  incoming = incoming;
  outcomes = outcomes;
}

abbrev pub all_digits : Bytes → Bool
all_digits [] = true
all_digits (c ∷ cs) = is_digit c && all_digits cs

abbrev pub is_dash_at : ℕ → Bytes → Bool
is_dash_at n text = starts_with (drop n text) (b'-' ∷ [])

-- The lines behind the first of a multi-line response; `none` is an exception.
unfoldable pub more_lines : Bytes → Bytes → List Incoming → Option Bytes × List Incoming
more_lines final_prefix response [] = (some response, [])
more_lines final_prefix response (broken ∷ rest) = (none, rest)
more_lines final_prefix response (line text ∷ rest) =
    let further = more_lines final_prefix (response ++ text) rest in
    if is_empty text
    then (some response, rest)
    else if starts_with text final_prefix
    then (some (response ++ text), rest)
    else further

abbrev pub whole_response : FtpClient → Option Bytes × List Incoming → Bytes × FtpClient
whole_response c (some response, rest) = (response, record c { incoming = rest })
whole_response c (none, rest) = ([], record c { incoming = rest; connected = false })

-- Behind the first `readline`.
unfoldable pub after_first : FtpClient → List Incoming → Bytes × FtpClient
after_first c [] = ([], record c { connected = false })
after_first c (broken ∷ rest) = ([], record c { incoming = rest; connected = false })
after_first c (line first ∷ rest) =
    if is_empty first
    then ([], record c { incoming = rest; connected = false })
    else if leb 4 (length first) && all_digits (take 3 first) && is_dash_at 3 first
    then whole_response c (more_lines (take 3 first ++ codes " ") first rest)
    else (first, record c { incoming = rest })

-- `_receive_response`
unfoldable pub receive_response : FtpClient → Bytes × FtpClient
receive_response c = if not c.has_reader then ([], c) else after_first c c.incoming

abbrev pub after_sendall : Bytes → FtpClient → List Bool → Bool × FtpClient
after_sendall text c [] = (true, record c { sent = c.sent ++ text ∷ [] })
after_sendall text c (true ∷ rest) =
    (true, record c { sent = c.sent ++ text ∷ []; outcomes = rest })
after_sendall text c (false ∷ rest) = (false, record c { outcomes = rest })

-- `_send_command`
unfoldable pub send_command : Bytes → FtpClient → Bool × FtpClient
send_command cmd c =
    if not c.has_socket then (false, c) else after_sendall (cmd ++ crlf) c c.outcomes

-- The end of `_enter_passive`: `udp_client_set_passive` may raise.
abbrev pub passive_prepared :
    FtpClient → Result SocketError (Unit {0}) × ClientData → Result SocketError Bool × FtpClient
passive_prepared c (ok u, channel) =
    (ok true, record c { channel = channel; data_mode = some mode_passive })
passive_prepared c (err e, channel) = (err e, record c { channel = channel })

abbrev pub passive_answered :
    Opening → Bytes × FtpClient → Option (Bytes × ℕ) → Result SocketError Bool × FtpClient
passive_answered opening (response, c) none = (ok false, c)
passive_answered opening (response, c) (some (ip, port)) =
    passive_prepared c (udp_client_set_passive ip port opening c.channel)

abbrev pub passive_sent : Opening → Bool × FtpClient → Result SocketError Bool × FtpClient
passive_sent opening (false, c) = (ok false, c)
passive_sent opening (true, c) =
    let answered = receive_response c in
    passive_answered opening answered (passive_address answered.0)

-- `_enter_passive`
unfoldable pub enter_passive : Opening → FtpClient → Result SocketError Bool × FtpClient
enter_passive opening c = passive_sent opening (send_command (codes "PASV") c)

-- The command of `_enter_active`.
unfoldable pub port_text : Address → Bytes
port_text name =
    codes "PORT "
    ++ join_with (codes ",")
        (split_on b'.' name.host ++ decimal (name.port / 256) ∷ decimal (name.port % 256) ∷ [])

abbrev pub active_sent : Bool × FtpClient → Bool × FtpClient
active_sent (false, c) = (false, c)
active_sent (true, c) =
    let (response, after) = receive_response c in
    if has_code 200 (get_response_code response)
    then (true, record after { data_mode = some mode_active })
    else (false, after)

abbrev pub active_prepared :
    FtpClient → Result SocketError Address × ClientData → Result SocketError Bool × FtpClient
active_prepared c (err e, channel) = (err e, record c { channel = channel })
active_prepared c (ok name, channel) =
    let (accepted, after) =
      active_sent (send_command (port_text name) (record c { channel = channel })) in
    (ok accepted, after)

-- `_enter_active`
unfoldable pub enter_active : Opening → FtpClient → Result SocketError Bool × FtpClient
enter_active opening c =
    if not c.has_socket
    then (ok false, c)
    else active_prepared c (udp_client_prepare_active opening c.channel)

-- The command of an upload.
unfoldable pub upload_command : Bytes → Bytes → ℕ → Bytes → Bytes
upload_command cmd name size file_hash =
    cmd ++ codes " " ++ name ++ codes " SIZE=" ++ decimal size ++ codes " SHA256=" ++ file_hash

-- `cmd in ("STOR", "APPE", "STOU")`, and the like.
abbrev pub is_upload : Bytes → Bool
is_upload cmd = same cmd (codes "STOR") || same cmd (codes "APPE") || same cmd (codes "STOU")

abbrev pub is_listing : Bytes → Bool
is_listing cmd = same cmd (codes "LIST") || same cmd (codes "NLST")

-- What a transfer meets: the local file of an upload with its name, the sockets, and the file at
-- `save_path` before a download.
pub record Meets : Type 0 where
  pub opening : Opening
  pub local_name : Bytes
  pub local_file : Option Bytes
  pub ready_sent : Bool
  pub first_datagram : Option (Bytes × Address)
  pub receive_run : Run
  pub send_run : SendRun
  pub saved : Option Bytes
