-- ===== src/Client/Control/Keys.antt =====
-- client/control_client.py: the loop over single keys, which `run_cli` has on Windows. A key is the
-- code point that `getwch` gives; the echo and the prompt are left out.
pub mod Native
use hybrid_ftp_system.Prelude.{
  ℕ, ◌==◌, ◌≡◌, refl, sym, ap, ◌∙◌, Bool, true, false, not, ◌&&◌, ◌||◌, List, [], ◌∷◌, ◌++◌,
  append-nil, append_assoc, All, Bytes, Option, none, some, if◌then◌else◌, same, map, Result, ok,
  err,
}
use hybrid_ftp_system.Prelude.Text.{codes, is_empty, strip, upper, split_on, split_words, to_int}
use hybrid_ftp_system.DataTransfer.Session.{mode_active}
use hybrid_ftp_system.DataTransfer.Target.{SocketError}
use hybrid_ftp_system.DataTransfer.Client.{
  ClientData, Opening, udp_client_set_active, udp_client_abort_transfer,
}
use hybrid_ftp_system.Server.Metadata.{occurrences}
use hybrid_ftp_system.Client.Responses.{get_response_code, has_code}
use hybrid_ftp_system.Client.Control.{
  FtpClient, receive_response, send_command, enter_passive, is_upload, is_listing,
}
use hybrid_ftp_system.Client.Control.Cli.{
  CliStep, going_on, leaving, disconnect, aborted_line, passive_line, plain_line, port_sent,
  port_bound, are_six_numbers, port_line, command_line, in_words, cli_round,
}

-- The client, `_current_buffer`, whether the loop has been left, and the commands for which threads
-- were started.
pub record KeyLoop : Type 0 where
  pub client : FtpClient
  pub current_buffer : Bytes
  pub goes_on : Bool
  pub started : List Bytes

abbrev pub with_started : Option Bytes → List Bytes → List Bytes
with_started none commands = commands
with_started (some command) commands = commands ++ command ∷ []

-- ABOR while a transfer runs.
abbrev pub key_abort : Bool × FtpClient → CliStep
key_abort (sent, c) =
    if sent
    then going_on (record c { channel = udp_client_abort_transfer c.channel })
    else going_on c

-- PASV; an exception leaves the loop.
abbrev pub key_passive : Result SocketError Bool × FtpClient → CliStep
key_passive (entered, c) = elim entered [ ok b ↦ going_on c | err e ↦ leaving c ]

-- PORT, behind `_send_command`.
abbrev pub key_port_answer : Bool × FtpClient → CliStep
key_port_answer (sent, c) =
    let (response, after) = receive_response c in
    if not sent
    then going_on c
    else if is_empty response
    then leaving after
    else if has_code 200 (get_response_code response)
    then going_on (record after { data_mode = some mode_active })
    else going_on after

abbrev pub key_port_bound : Bytes → FtpClient → Result SocketError (Unit {0}) × ClientData → CliStep
key_port_bound user_input c (opened, channel) = elim opened [
  | err e ↦ going_on (record c { channel = channel })
  | ok u ↦ key_port_answer (send_command user_input (record c { channel = channel }))
]

-- PORT with the words behind it.
unfoldable pub key_port : Opening → Bytes → List Bytes → FtpClient → CliStep
key_port opening user_input parts c = elim parts [
  | [] ↦ going_on c
  | arg ∷ more ↦
      if occurrences b',' arg == 5
      then (if are_six_numbers (map (λ x. to_int (strip x)) (split_on b',' arg))
          then key_port_bound user_input c (udp_client_set_active opening c.channel)
          else going_on c)
      else going_on c
]

-- A command that has no case of its own.
abbrev pub key_other : Bool × FtpClient → CliStep
key_other (sent, c) =
    let (response, after) = receive_response c in
    if not sent then going_on c else if is_empty response then leaving after else going_on after

-- The text of the buffer, in words, behind Enter.
unfoldable pub key_command : Opening → Bytes → List Bytes → FtpClient → CliStep
key_command opening user_input [] c = going_on c
key_command opening user_input (word ∷ parts) c =
    let cmd = upper word in
    if same cmd (codes "ABOR") && c.transfer_running
    then key_abort (send_command (codes "ABOR") c)
    else if c.transfer_running
    then going_on c
    else if same cmd (codes "EXIT") || same cmd (codes "QUIT")
    then leaving (disconnect c)
    else if same cmd (codes "PASV")
    then key_passive (enter_passive opening c)
    else if same cmd (codes "PORT")
    then key_port opening user_input parts c
    else if is_listing cmd || same cmd (codes "RETR") || is_upload cmd
    then record {
      client = record c { transfer_running = true };
      goes_on = true;
      started = some user_input;
    }
    else key_other (send_command user_input c)

-- Enter.
unfoldable pub enter_key : Opening → KeyLoop → KeyLoop
enter_key opening s =
    let user_input = strip s.current_buffer in
    let step = key_command opening user_input (split_words user_input) s.client in
    record {
      client = step.client;
      current_buffer = [];
      goes_on = step.goes_on;
      started = with_started step.started s.started;
    }

-- `self._current_buffer[:-1]`
abbrev pub drop_last : Bytes → Bytes
drop_last [] = []
drop_last (c ∷ []) = []
drop_last (c ∷ d ∷ cs) = c ∷ drop_last (d ∷ cs)

abbrev pub is_extended : ℕ → Bool
is_extended key = key == 0 || key == 0xE0

-- Any key but the first of an extended one. Ctrl-C disconnects and leaves the loop.
unfoldable pub press : Opening → ℕ → KeyLoop → KeyLoop
press opening key s =
    if key == 13
    then enter_key opening s
    else if key == 3
    then record s { client = disconnect s.client; goes_on = false }
    else if key == 8
    then record s { current_buffer = drop_last s.current_buffer }
    else record s { current_buffer = s.current_buffer ++ key ∷ [] }

-- `while self.connected`
abbrev pub is_live : KeyLoop → Bool
is_live s = s.client.connected && s.goes_on

-- The keys one after the other; the second of an extended key is passed over.
unfoldable pub key_loop : Opening → List ℕ → KeyLoop → KeyLoop
key_loop opening [] s = s
key_loop opening (key ∷ []) s = elim (is_live s && not (is_extended key)) [
  | true ↦ press opening key s
  | false ↦ s
]
key_loop opening (key ∷ next ∷ keys) s = elim (is_live s) [
  | false ↦ s
  | true ↦ elim (is_extended key) [
    | true ↦ key_loop opening keys s
    | false ↦ key_loop opening (next ∷ keys) (press opening key s)
  ]
]
