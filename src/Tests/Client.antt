-- ===== src/Tests/Client.antt =====
-- A client that downloads two bytes, and its commands.
use hybrid_ftp_system.Prelude.{
  ℕ, zero, suc, ◌≡◌, refl, arith, true, false, [], ◌∷◌, Bytes, Option, none, some, ok,
}
use hybrid_ftp_system.Prelude.Int.{pos}
use hybrid_ftp_system.Prelude.Text.{codes, decimal, upper, lower, to_lower, is_space, contains}
use hybrid_ftp_system.Prelude.Decimal.{IsWord}
use hybrid_ftp_system.DataTransfer.Session.{FtpSession, new_session, mode_passive}
use hybrid_ftp_system.DataTransfer.Upload.{crlf_to_lf}
use hybrid_ftp_system.DataTransfer.Client.{
  ClientData, no_client_data, bound_at, udp_client_receive_file,
}
use hybrid_ftp_system.DataTransfer.Client.Ends.{Received, udp_client_receive_file-ends}
use hybrid_ftp_system.Server.Paths as Paths
use hybrid_ftp_system.Server.Replies.{send_reply, start_transfer, receive_upload}
use hybrid_ftp_system.Server.Commands.Folders.{safe_path}
use hybrid_ftp_system.Client.Exchange.{upload_exchange}
use hybrid_ftp_system.Tests.Server.{folders, disk, storage, asks}
use hybrid_ftp_system.Server.Metadata.{parse_upload_metadata, parse_port_argument}
use hybrid_ftp_system.Server.Commands.Login.{passive_message}
use hybrid_ftp_system.Server.Commands.Transfers.{announcement, network_text}
use hybrid_ftp_system.Server.Commands.Newlines.{crlf_to_lf-network_text}
use hybrid_ftp_system.Server.Session.{handle_command, command_in, commands, cmd_port, parse_request}
use hybrid_ftp_system.Client.Responses.{passive_address, parse_transfer_metadata}
use hybrid_ftp_system.Client.Responses.Address.{dotted, passive_address-message}
use hybrid_ftp_system.Client.Responses.Metadata.{parse_transfer_metadata-announcement}
use hybrid_ftp_system.Client.Control.{FtpClient, Meets, new_client, line, upload_command, port_text}
use hybrid_ftp_system.Client.Control.Transfers.{handle_data_transfer}
use hybrid_ftp_system.Client.Control.Cli.{cli_round}
use hybrid_ftp_system.Client.Control.Keys.{KeyLoop, key_loop}
use hybrid_ftp_system.Client.Control.Keys.Native.{native_line, key_loop-line}
use hybrid_ftp_system.Client.Control.Safety.{
  IsQuiet, Safe, announced, handle_data_transfer-Safe, cli_round-IsQuiet,
}
use hybrid_ftp_system.Client.Control.Upload.{upload_command-received}
use hybrid_ftp_system.Client.Control.Port.{port_text-received}
use hybrid_ftp_system.Tests.Samples.{toy_sha, copies, peer}
use hybrid_ftp_system.Tests.Upload.{sample_run}

abbrev passive_data : ClientData
passive_data = record no_client_data { socket = some 3; peer = some peer; mode = mode_passive }

abbrev old_file : Option Bytes
old_file = some (1 ∷ [])

abbrev hash : Bytes
hash = copies 64 49

udp_client_receive_file-ends_example :
    Received toy_sha 7 2 hash true sample_run passive_data
      (udp_client_receive_file toy_sha 7 2 hash true sample_run passive_data old_file).0
      old_file
      (udp_client_receive_file toy_sha 7 2 hash true sample_run passive_data old_file).2
    × ((udp_client_receive_file toy_sha 7 2 hash true sample_run passive_data old_file).1
        ≡ no_client_data)
udp_client_receive_file-ends_example =
    udp_client_receive_file-ends toy_sha 7 2 hash true sample_run passive_data old_file

passive_address-message_example :
    passive_address (send_reply 227 (passive_message (dotted 127 0 0 1) 5001)).text
    ≡ some (dotted 127 0 0 1, 5001)
passive_address-message_example = passive_address-message 127 0 0 1 5001

copies-IsWord : (n : ℕ) → IsWord (copies n 49)
unfolding is_space
copies-IsWord zero = tt
copies-IsWord (suc n) = (refl, copies-IsWord n)

hash_is : IsWord hash × (lower hash ≡ hash)
unfolding is_space lower to_lower
hash_is = (copies-IsWord 64, refl)

parse_transfer_metadata-announcement_example :
    parse_transfer_metadata (send_reply 150 (announcement 7 (decimal 2) hash)).text
    ≡ some (pos 7, pos 2, hash)
parse_transfer_metadata-announcement_example =
    parse_transfer_metadata-announcement 7 2 hash hash_is.0 refl

abbrev name : Bytes
name = b'a' ∷ []

-- The text STOR.
abbrev stor : Bytes
stor = b'S' ∷ b'T' ∷ b'O' ∷ b'R' ∷ []

words : IsWord name × IsWord stor × (contains b'=' name ≡ false)
unfolding is_space contains
words = ((refl, tt), (refl, (refl, (refl, (refl, tt)))), refl)

upload_command-received_example :
    ((parse_request (upload_command stor name 2 hash)).0 ≡ command_in (upper stor) commands)
    × (parse_upload_metadata (parse_request (upload_command stor name 2 hash)).1
        ≡ some (name, 2, hash))
upload_command-received_example =
    upload_command-received name 2 hash words.0 refl hash_is.0 stor words.1 words.2 refl hash_is.1

abbrev meets : Meets
meets = record {
  opening = bound_at 3 none;
  local_name = b'a' ∷ [];
  local_file = none;
  ready_sent = true;
  first_datagram = none;
  receive_run = sample_run;
  send_run = record { started_at = 0; finished_at = 1; outcomes = []; schedule = [] };
  saved = old_file;
}

-- The line RETR a.
abbrev retr_a : Bytes
retr_a = b'R' ∷ b'E' ∷ b'T' ∷ b'R' ∷ b' ' ∷ b'a' ∷ []

abbrev online : FtpClient
online =
    record (new_client (line (send_reply 150 (announcement 7 (decimal 2) hash)).text ∷ []) []) {
      has_socket = true;
      has_reader = true;
      connected = true;
      data_mode = some mode_passive;
      channel = passive_data;
    }

handle_data_transfer-Safe_example :
    Safe toy_sha
      (announced toy_sha retr_a meets online)
      old_file
      (handle_data_transfer toy_sha retr_a meets online).1
handle_data_transfer-Safe_example = handle_data_transfer-Safe toy_sha retr_a meets online

abbrev busy : FtpClient
busy = record online { transfer_running = true }

cli_round-IsQuiet_example : IsQuiet busy (cli_round (bound_at 3 none) retr_a busy)
cli_round-IsQuiet_example = cli_round-IsQuiet (bound_at 3 none) retr_a busy refl

port_text-received_example :
    ((parse_request (port_text (record { host = dotted 127 0 0 1; port = 5001 }))).0 ≡ cmd_port)
    × (parse_port_argument
          (parse_request (port_text (record { host = dotted 127 0 0 1; port = 5001 }))).1
        ≡ ok (dotted 127 0 0 1, 5001))
port_text-received_example =
    port_text-received 127 0 0 1 5001 (omega arith) (omega arith) (omega arith) (omega arith)
      (omega arith) (omega arith)

crlf_to_lf-network_text_example :
    crlf_to_lf (network_text (b'a' ∷ 13 ∷ 10 ∷ 10 ∷ [])) ≡ crlf_to_lf (b'a' ∷ 13 ∷ 10 ∷ 10 ∷ [])
crlf_to_lf-network_text_example = crlf_to_lf-network_text (b'a' ∷ 13 ∷ 10 ∷ 10 ∷ [])

abbrev keys : KeyLoop
keys = record { client = online; current_buffer = b'n' ∷ []; goes_on = true; started = [] }

key_loop-line_example :
    key_loop (bound_at 3 none) (b'o' ∷ b'o' ∷ b'p' ∷ 13 ∷ []) keys
    ≡ native_line (bound_at 3 none) (b'n' ∷ b'o' ∷ b'o' ∷ b'p' ∷ []) keys
key_loop-line_example =
    key_loop-line (bound_at 3 none) (b'o' ∷ b'o' ∷ b'p' ∷ []) keys
      ((refl, refl, refl, refl), ((refl, refl, refl, refl), ((refl, refl, refl, refl), tt))) refl

abbrev member : FtpSession
member = record (new_session 3 (b'c' ∷ []) 5000) {
  root_dir = storage;
  current_dir = storage;
  is_authenticated = true;
  mode = mode_passive;
}

-- The path /s/a.
abbrev stored : Bytes
stored = b'/' ∷ b's' ∷ b'/' ∷ b'a' ∷ []

stored_inside : safe_path folders member disk name ≡ some stored
unfolding safe_path Paths.resolve_safe_path Paths.out_path Paths.target_path Paths.join
    Paths.dirname Paths.basename Paths.is_inside
stored_inside = refl

upload_exchange_example :
    (handle_command folders toy_sha member disk
        (asks [])
        (parse_request (upload_command (codes "STOR") name 2 hash))
      ≡ start_transfer member disk
          (announcement 7 (decimal 2) hash)
          (receive_upload stored 7 2 hash false))
    × (parse_transfer_metadata (send_reply 150 (announcement 7 (decimal 2) hash)).text
        ≡ some (pos 7, pos 2, hash))
upload_exchange_example =
    upload_exchange folders toy_sha member disk (asks []) name 2 hash stored words.0 refl hash_is.0
      words.2 refl hash_is.1 refl refl refl stored_inside
