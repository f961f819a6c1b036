-- ===== src/Client/Control/Safety.antt =====
-- What the client leaves of the file that it downloads, and what it sends while a transfer runs.
use hybrid_ftp_system.Prelude.{
  ℕ, ◌≡◌, ◌⊎◌, inl, inr, refl, arith, Bool, true, false, not, ◌&&◌, List, [], ◌∷◌, ◌++◌, Bytes,
  Option, none, some, same, Result, ok, err, if◌then◌else◌,
}
use hybrid_ftp_system.Prelude.Int.{ℤ, pos, negsuc}
use hybrid_ftp_system.Prelude.Text.{codes, upper, split_once, strip, split_words}
use hybrid_ftp_system.Protocol.FileHash.{Sha256}
use hybrid_ftp_system.Rdt.Receiver.Files.{IsVerified}
use hybrid_ftp_system.DataTransfer.Target.{SocketError}
use hybrid_ftp_system.DataTransfer.Client.{Opening}
use hybrid_ftp_system.DataTransfer.Client.Ends.{Received, udp_client_receive_file-ends}
use hybrid_ftp_system.Server.FileSystem.{crlf}
use hybrid_ftp_system.Client.Responses.{get_response_code, has_code, parse_transfer_metadata}
use hybrid_ftp_system.Client.Control.{
  FtpClient, Meets, receive_response, send_command, after_sendall, is_upload, is_listing,
}
use hybrid_ftp_system.Client.Control.Transfers.{
  Left, transfer, receive_saved, receive_listing, send_local, announced_transfer, command_sent,
  command_to_send, with_command, prepared, with_channel, handle_data_transfer,
}
use hybrid_ftp_system.Client.Control.Cli.{CliStep, aborted_line, command_line, in_words, cli_round}

-- What a reply announces: nothing where it is not a 150.
abbrev announced_in : Bytes × FtpClient → Option (ℤ × ℤ × Bytes)
announced_in (response, c) =
    if has_code 150 (get_response_code response) then parse_transfer_metadata response else none

-- What is announced behind a command that was sent, if one was.
abbrev announced_behind : Bool × FtpClient → Option (ℤ × ℤ × Bytes)
announced_behind (false, c) = none
announced_behind (true, c) = announced_in (receive_response c)

abbrev announced_for : FtpClient → Option Bytes → Option (ℤ × ℤ × Bytes)
announced_for c none = none
announced_for c (some command) = announced_behind (send_command command c)

abbrev announced_to :
    Sha256 → Bytes → Meets → Bytes → Result SocketError Bool × FtpClient → Option (ℤ × ℤ × Bytes)
announced_to sha cmd m cmd_line (err e, c) = none
announced_to sha cmd m cmd_line (ok false, c) = none
announced_to sha cmd m cmd_line (ok true, c) =
    announced_for c (command_to_send sha cmd m cmd_line (is_upload cmd) m.local_file)

-- The metadata in the server's reply to a data command: its data channel is prepared, the command is
-- sent, and the next response is read.
abbrev pub announced : Sha256 → Bytes → Meets → FtpClient → Option (ℤ × ℤ × Bytes)
announced sha cmd_line m c =
    announced_to sha (upper (split_once b' ' cmd_line).0) m cmd_line (with_channel m c)

-- The file as it was, or one of the size and the hash that were announced.
abbrev pub Safe : Sha256 → Option (ℤ × ℤ × Bytes) → Option Bytes → Option Bytes → Type 0
Safe sha metadata before left =
    (left ≡ before)
    ⊎ ((id size : ℕ) × (file_hash : Bytes) × (metadata ≡ some (pos id, pos size, file_hash))
        × IsVerified sha size file_hash left)

module _ (sha : Sha256) (cmd : Bytes) (m : Meets) where
  if-Safe :
      (metadata : Option (ℤ × ℤ × Bytes)) (b : Bool) (x y : Left)
      → Safe sha metadata m.saved x.1
      → Safe sha metadata m.saved y.1
      → Safe sha metadata m.saved (if b then x else y).1
  if-Safe metadata true x y f g = f
  if-Safe metadata false x y f g = g

  Received-Safe :
      (id size : ℕ) (expected_hash : Bytes) (c : FtpClient) (b : Bool) (left : Option Bytes)
      → Received sha id size expected_hash m.ready_sent m.receive_run c.channel b m.saved left
      → Safe sha (some (pos id, pos size, expected_hash)) m.saved left
  Received-Safe id size expected_hash c true left v = inr (id, size, expected_hash, refl, v)
  Received-Safe id size expected_hash c false left (inl e) = inl e
  Received-Safe id size expected_hash c false left (inr v) = inr (id, size, expected_hash, refl, v)

  receive_saved-Safe :
      (id size : ℤ) (expected_hash : Bytes) (c : FtpClient)
      → Safe sha
          (some (id, size, expected_hash))
          m.saved
          (receive_saved sha cmd m id size expected_hash c).1
  receive_saved-Safe (pos id) (pos size) expected_hash c =
      let (received, _) =
        udp_client_receive_file-ends sha id size expected_hash m.ready_sent m.receive_run c.channel
          m.saved in
      Received-Safe id size expected_hash c _ _ received
  receive_saved-Safe (pos id) (negsuc n) expected_hash c = inl refl
  receive_saved-Safe (negsuc n) size expected_hash c = inl refl

  receive_listing-saved :
      (id size : ℤ) (expected_hash : Bytes) (c : FtpClient)
      → (receive_listing sha cmd m id size expected_hash c).1 ≡ m.saved
  receive_listing-saved (pos id) (pos size) expected_hash c = refl
  receive_listing-saved (pos id) (negsuc n) expected_hash c = refl
  receive_listing-saved (negsuc n) size expected_hash c = refl

  send_local-saved : (id : ℤ) (c : FtpClient) → (send_local sha cmd m id c).1 ≡ m.saved
  send_local-saved (pos id) c = refl
  send_local-saved (negsuc n) c = refl

  transfer-Safe :
      (metadata : ℤ × ℤ × Bytes) (c : FtpClient)
      → Safe sha (some metadata) m.saved (transfer sha cmd m metadata c).1
  unfolding transfer
  transfer-Safe (id, size, expected_hash) c =
      let metadata = some (id, size, expected_hash) in
      if-Safe metadata (is_listing cmd) _ _ (inl (receive_listing-saved id size expected_hash c)) (
        if-Safe metadata (same cmd (codes "RETR")) _ _ (receive_saved-Safe id size expected_hash c)
          (if-Safe metadata (is_upload cmd) _ _ (inl (send_local-saved id c)) (inl refl)))

  announced_transfer-Safe :
      (c : FtpClient) (metadata : Option (ℤ × ℤ × Bytes))
      → Safe sha metadata m.saved (announced_transfer sha cmd m c metadata).1
  announced_transfer-Safe c none = inl refl
  announced_transfer-Safe c (some metadata) = transfer-Safe metadata c

  answered-Safe :
      (b : Bool) (c : FtpClient) (metadata : Option (ℤ × ℤ × Bytes))
      → Safe sha
          (if b then metadata else none)
          m.saved
          (if b then announced_transfer sha cmd m c metadata else (c, m.saved)).1
  answered-Safe true c metadata = announced_transfer-Safe c metadata
  answered-Safe false c metadata = inl refl

  command_sent-Safe :
      (r : Bool × FtpClient) → Safe sha (announced_behind r) m.saved (command_sent sha cmd m r).1
  command_sent-Safe (false, c) = inl refl
  command_sent-Safe (true, c) =
      let (response, after) = receive_response c in
      answered-Safe (has_code 150 (get_response_code response)) after
        (parse_transfer_metadata response)

  with_command-Safe :
      (c : FtpClient) (command : Option Bytes)
      → Safe sha (announced_for c command) m.saved (with_command sha cmd m c command).1
  with_command-Safe c none = inl refl
  with_command-Safe c (some command) = command_sent-Safe (send_command command c)

  prepared-Safe :
      (cmd_line : Bytes) (r : Result SocketError Bool × FtpClient)
      → Safe sha (announced_to sha cmd m cmd_line r) m.saved (prepared sha cmd m cmd_line r).1
  prepared-Safe cmd_line (err e, c) = inl refl
  prepared-Safe cmd_line (ok false, c) = inl refl
  prepared-Safe cmd_line (ok true, c) =
      with_command-Safe c (command_to_send sha cmd m cmd_line (is_upload cmd) m.local_file)

-- Whatever the server answers and whatever arrives, a data command leaves the file at the path of a
-- download as it was, or the server's reply to the command was a 150 that announced a size and a
-- SHA-256, and the file is one of this size and this SHA-256.
pub handle_data_transfer-Safe :
    (sha : Sha256) (cmd_line : Bytes) (m : Meets) (c : FtpClient)
    → Safe sha (announced sha cmd_line m c) m.saved (handle_data_transfer sha cmd_line m c).1
unfolding handle_data_transfer
handle_data_transfer-Safe sha cmd_line m c =
    prepared-Safe sha (upper (split_once b' ' cmd_line).0) m cmd_line (with_channel m c)

-- Nothing is sent but perhaps ABOR, no transfer is started, and the loop goes on.
abbrev pub IsQuiet : FtpClient → CliStep → Type 0
IsQuiet c s =
    (s.goes_on ≡ true)
    × (s.started ≡ none)
    × ((s.client.sent ≡ c.sent) ⊎ (s.client.sent ≡ c.sent ++ (codes "ABOR" ++ crlf) ∷ []))

after_sendall-IsQuiet :
    (c : FtpClient) (outcomes : List Bool)
    → IsQuiet c (aborted_line (after_sendall (codes "ABOR" ++ crlf) c outcomes))
after_sendall-IsQuiet c [] = (refl, refl, inr refl)
after_sendall-IsQuiet c (true ∷ rest) = (refl, refl, inr refl)
after_sendall-IsQuiet c (false ∷ rest) = (refl, refl, inl refl)

sent-IsQuiet :
    (c : FtpClient) (b : Bool) (x y : Bool × FtpClient)
    → IsQuiet c (aborted_line x)
    → IsQuiet c (aborted_line y)
    → IsQuiet c (aborted_line (if b then x else y))
sent-IsQuiet c true x y f g = f
sent-IsQuiet c false x y f g = g

send_command-IsQuiet : (c : FtpClient) → IsQuiet c (aborted_line (send_command (codes "ABOR") c))
unfolding send_command
send_command-IsQuiet c =
    sent-IsQuiet c (not c.has_socket) _ _ (refl, refl, inl refl)
      (after_sendall-IsQuiet c c.outcomes)

if-IsQuiet :
    (c : FtpClient) (b : Bool) (x y : CliStep)
    → (b ≡ true → IsQuiet c x)
    → (b ≡ false → IsQuiet c y)
    → IsQuiet c (if b then x else y)
if-IsQuiet c true x y f g = f refl
if-IsQuiet c false x y f g = g refl

in_words-IsQuiet :
    (opening : Opening) (user_input : Bytes) (words : List Bytes) (c : FtpClient)
    → c.transfer_running ≡ true
    → IsQuiet c (in_words opening user_input words c)
unfolding command_line
in_words-IsQuiet opening user_input [] c running = (refl, refl, inl refl)
in_words-IsQuiet opening user_input (cmd ∷ words) c running =
    if-IsQuiet c (same (upper cmd) (codes "ABOR") && c.transfer_running) _ _
      (λ e. send_command-IsQuiet c)
      (λ e.
        if-IsQuiet c c.transfer_running _ _ (λ r. (refl, refl, inl refl))
          (λ r. absurd (ground (arith, running, r))))

-- While a transfer runs, a line of the user sends nothing but perhaps ABOR, starts no other
-- transfer, and does not end the loop.
pub cli_round-IsQuiet :
    (opening : Opening) (text : Bytes) (c : FtpClient)
    → c.transfer_running ≡ true
    → IsQuiet c (cli_round opening text c)
unfolding cli_round
cli_round-IsQuiet opening text c running =
    in_words-IsQuiet opening (strip text) (split_words (strip text)) c running
