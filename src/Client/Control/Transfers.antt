-- ===== src/Client/Control/Transfers.antt =====
-- client/control_client.py: `handle_data_transfer`, which runs on the transfer's thread.
use hybrid_ftp_system.Prelude.{
  Bool, true, false, length, Bytes, Option, none, some, same, Result, ok, err, if◌then◌else◌,
}
use hybrid_ftp_system.Prelude.Int.{ℤ, pos, negsuc}
use hybrid_ftp_system.Prelude.Text.{codes, upper, split_once}
use hybrid_ftp_system.Protocol.FileHash.{Sha256, sha256_file}
use hybrid_ftp_system.DataTransfer.Target.{SocketError}
use hybrid_ftp_system.DataTransfer.Client.{
  close_client_socket, udp_client_receive_file, udp_client_receive_buffer, udp_client_send_file,
}
use hybrid_ftp_system.Client.Responses.{get_response_code, has_code, parse_transfer_metadata}
use hybrid_ftp_system.Client.Control.{
  FtpClient, Meets, receive_response, send_command, enter_passive, upload_command, is_upload,
  is_listing,
}

-- The client, and the file at `save_path`.
abbrev pub Left : Type 0
Left = FtpClient × Option Bytes

-- Behind a transfer: the last response, and no data mode.
abbrev pub final_response : FtpClient × Option Bytes → Left
final_response (c, saved) =
    let (response, after) = receive_response c in (record after { data_mode = none }, saved)

module _ (sha : Sha256) (cmd : Bytes) (m : Meets) where
  -- A UDP call that can only fail: no datagram has a negative transfer id, and no count of bytes is a
  -- negative size.
  abbrev pub never_done : FtpClient → Left
  never_done c = (record c { channel = close_client_socket c.channel }, m.saved)

  abbrev pub receive_listing : ℤ → ℤ → Bytes → FtpClient → Left
  receive_listing (pos transfer_id) (pos expected_size) expected_hash c =
      let (_, listed) =
        udp_client_receive_buffer sha transfer_id expected_size expected_hash m.ready_sent
          m.receive_run c.channel in
      (record c { channel = listed }, m.saved)
  receive_listing transfer_id expected_size expected_hash c = never_done c

  abbrev pub receive_saved : ℤ → ℤ → Bytes → FtpClient → Left
  receive_saved (pos transfer_id) (pos expected_size) expected_hash c =
      let (_, received, left) =
        udp_client_receive_file sha transfer_id expected_size expected_hash m.ready_sent
          m.receive_run c.channel m.saved in
      (record c { channel = received }, left)
  receive_saved transfer_id expected_size expected_hash c = never_done c

  abbrev pub send_local : ℤ → FtpClient → Left
  send_local (negsuc n) c = never_done c
  send_local (pos transfer_id) c =
      let (_, sent) =
        udp_client_send_file sha m.local_file transfer_id m.first_datagram m.send_run c.channel in
      (record c { channel = sent }, m.saved)

  -- The UDP call of each command.
  unfoldable pub transfer : ℤ × ℤ × Bytes → FtpClient → Left
  transfer (transfer_id, expected_size, expected_hash) c =
      if is_listing cmd
      then receive_listing transfer_id expected_size expected_hash c
      else if same cmd (codes "RETR")
      then receive_saved transfer_id expected_size expected_hash c
      else if is_upload cmd
      then send_local transfer_id c
      else (c, m.saved)

  abbrev pub announced_transfer : FtpClient → Option (ℤ × ℤ × Bytes) → Left
  announced_transfer c none = (c, m.saved)
  announced_transfer c (some metadata) = final_response (transfer metadata c)

  abbrev pub answered : Bytes × FtpClient → Left
  answered (response, c) =
      if has_code 150 (get_response_code response)
      then announced_transfer c (parse_transfer_metadata response)
      else (c, m.saved)

  abbrev pub command_sent : Bool × FtpClient → Left
  command_sent (false, c) = (c, m.saved)
  command_sent (true, c) = answered (receive_response c)

  -- The command to send; `none` where the local file is not there.
  abbrev pub command_to_send : Bytes → Bool → Option Bytes → Option Bytes
  command_to_send cmd_line false file = some cmd_line
  command_to_send cmd_line true none = none
  command_to_send cmd_line true (some content) =
      some (upload_command cmd m.local_name (length content) (sha256_file sha content))

  abbrev pub with_command : FtpClient → Option Bytes → Left
  with_command c none = (c, m.saved)
  with_command c (some command) = command_sent (send_command command c)

  -- Behind the data channel: it is there, it could not be prepared, or preparing it has raised.
  abbrev pub prepared : Bytes → Result SocketError Bool × FtpClient → Left
  prepared cmd_line (err e, c) = (c, m.saved)
  prepared cmd_line (ok false, c) = (c, m.saved)
  prepared cmd_line (ok true, c) =
      with_command c (command_to_send cmd_line (is_upload cmd) m.local_file)

abbrev pub with_channel : Meets → FtpClient → Result SocketError Bool × FtpClient
with_channel m c = elim c.data_mode [ some mode ↦ (ok true, c) | none ↦ enter_passive m.opening c ]

-- `handle_data_transfer`
unfoldable pub handle_data_transfer : Sha256 → Bytes → Meets → FtpClient → Left
handle_data_transfer sha cmd_line m c =
    let (name, _) = split_once b' ' cmd_line in
    prepared sha (upper name) m cmd_line (with_channel m c)

-- `_run_transfer`
unfoldable pub run_transfer : Sha256 → Bytes → Meets → FtpClient → Left
run_transfer sha command m c =
    let (after, left) = handle_data_transfer sha command m c in
    (record after { transfer_running = false }, left)
