-- ===== src/Client/Control/Cli.antt =====
-- client/control_client.py: the connection, and the loop over the lines of the user.
use hybrid_ftp_system.Prelude.{
  ℕ, ltb, ◌==◌, Bool, true, false, not, ◌&&◌, ◌||◌, List, [], ◌∷◌, map, Bytes, Option, none, some,
  same, Result, ok, err, if◌then◌else◌,
}
use hybrid_ftp_system.Prelude.Int.{ℤ, pos, negsuc}
use hybrid_ftp_system.Prelude.Text.{codes, is_empty, strip, upper, split_on, split_words, to_int}
use hybrid_ftp_system.DataTransfer.Target.{SocketError}
use hybrid_ftp_system.DataTransfer.Client.{
  ClientData, Opening, udp_client_set_active, udp_client_abort_transfer,
}
use hybrid_ftp_system.DataTransfer.Session.{mode_active}
use hybrid_ftp_system.Server.Metadata.{occurrences}
use hybrid_ftp_system.Client.Responses.{get_response_code, has_code}
use hybrid_ftp_system.Client.Control.{
  FtpClient, receive_response, send_command, enter_passive, is_upload, is_listing,
}

-- `connect_to_server`, where `connect` goes through or raises.
unfoldable pub connect_to_server : Bool → FtpClient → Bool × FtpClient
connect_to_server connects c =
    if connects
    then (
      true,
      (receive_response (record c { has_socket = true; has_reader = true; connected = true })).1,
    )
    else (false, record c { has_socket = true; has_reader = false })

-- ABOR to the server and to the transfer.
abbrev pub abort_running : FtpClient → FtpClient
abort_running c = record c { channel = udp_client_abort_transfer c.channel }

-- The transfer that runs is aborted on both sides.
abbrev pub stop_transfer : FtpClient → FtpClient
stop_transfer c = if c.transfer_running then abort_running (send_command (codes "ABOR") c).1 else c

-- `disconnect`, up to the time that the transfer's thread is given; `tcp_sock` stays set.
unfoldable pub disconnect : FtpClient → FtpClient
disconnect c =
    let after = (receive_response (send_command (codes "QUIT") (stop_transfer c)).1).1 in
    if c.connected then record after { has_reader = false; connected = false } else c

-- A line of the loop leaves the client, whether the loop goes on, and the command that the new
-- thread of a transfer runs.
pub record CliStep : Type 0 where
  pub client : FtpClient
  pub goes_on : Bool
  pub started : Option Bytes

abbrev pub going_on : FtpClient → CliStep
going_on c = record { client = c; goes_on = true; started = none }

abbrev pub leaving : FtpClient → CliStep
leaving c = record { client = c; goes_on = false; started = none }

abbrev pub aborted_line : Bool × FtpClient → CliStep
aborted_line (false, c) = going_on c
aborted_line (true, c) = going_on (abort_running c)

-- PASV; an exception leaves the loop.
abbrev pub passive_line : Result SocketError Bool × FtpClient → CliStep
passive_line (err e, c) = leaving c
passive_line (ok b, c) = going_on c

-- Any other command: an empty response is a closed connection.
abbrev pub response_line : Bytes × FtpClient → CliStep
response_line (response, c) = if is_empty response then leaving c else going_on c

abbrev pub plain_line : Bool × FtpClient → CliStep
plain_line (false, c) = going_on c
plain_line (true, c) = response_line (receive_response c)

abbrev pub port_response : Bytes × FtpClient → CliStep
port_response (response, c) =
    if is_empty response
    then leaving c
    else if has_code 200 (get_response_code response)
    then going_on (record c { data_mode = some mode_active })
    else going_on c

abbrev pub port_sent : Bool × FtpClient → CliStep
port_sent (false, c) = going_on c
port_sent (true, c) = port_response (receive_response c)

abbrev pub port_bound : Bytes → FtpClient → Result SocketError (Unit {0}) × ClientData → CliStep
port_bound user_input c (err e, channel) = going_on (record c { channel = channel })
port_bound user_input c (ok u, channel) =
    port_sent (send_command user_input (record c { channel = channel }))

-- `h1, h2, h3, h4, p1, p2 = map(int, …)`
abbrev pub are_six_numbers : List (Option ℤ) → Bool
are_six_numbers (some a ∷ some b ∷ some c ∷ some d ∷ some high ∷ some low ∷ []) = true
are_six_numbers parts = false

-- PORT with its argument, the second word of the line.
unfoldable pub port_line : Opening → Bytes → FtpClient → List Bytes → CliStep
port_line opening user_input c [] = going_on c
port_line opening user_input c (arg ∷ words) =
    if not (occurrences b',' arg == 5)
    then going_on c
    else if are_six_numbers (map (λ part. to_int (strip part)) (split_on b',' arg))
    then port_bound user_input c (udp_client_set_active opening c.channel)
    else going_on c

-- A line of the user, which is neither empty nor blank, in words.
unfoldable pub command_line : Opening → Bytes → Bytes → List Bytes → FtpClient → CliStep
command_line opening user_input cmd words c =
    if same cmd (codes "ABOR") && c.transfer_running
    then aborted_line (send_command (codes "ABOR") c)
    else if c.transfer_running
    then going_on c
    else if same cmd (codes "EXIT") || same cmd (codes "QUIT")
    then leaving (disconnect c)
    else if same cmd (codes "PASV")
    then passive_line (enter_passive opening c)
    else if same cmd (codes "PORT")
    then port_line opening user_input c words
    else if is_listing cmd || same cmd (codes "RETR") || is_upload cmd
    then record {
      client = record c { transfer_running = true };
      goes_on = true;
      started = some user_input;
    }
    else plain_line (send_command user_input c)

abbrev pub in_words : Opening → Bytes → List Bytes → FtpClient → CliStep
in_words opening user_input [] c = going_on c
in_words opening user_input (cmd ∷ words) c = command_line opening user_input (upper cmd) words c

-- One round of the loop of `run_cli` with the native prompt.
unfoldable pub cli_round : Opening → Bytes → FtpClient → CliStep
cli_round opening text c = in_words opening (strip text) (split_words (strip text)) c

abbrev pub valid_port : ℤ → Option ℕ
valid_port (negsuc n) = none
valid_port (pos n) = if n == 0 || ltb 65535 n then none else some n

-- `main`: the port is given, or 2121; one that is out of range, or no number, ends the program.
unfoldable pub main_port : Option Bytes → Option ℕ
main_port none = some 2121
main_port (some text) = elim (to_int text) [ none ↦ none | some n ↦ valid_port n ]
