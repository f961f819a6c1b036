-- ===== src/DataTransfer/Session.antt =====
-- common/session.py. A socket is its descriptor; the locks only serialise threads.
use hybrid_ftp_system.Prelude.{ℕ, Bool, true, false, Option, none, some, Bytes, [], ◌∷◌}
use hybrid_ftp_system.Rdt.Context.{TransferContext, cancel}

pub data DataMode : Type 0 where
  mode_none mode_passive mode_active : DataMode

pub data TransferType : Type 0 where
  type_ascii type_binary : TransferType

pub record FtpSession : Type 0 where
  pub control_fd : ℕ
  pub client_ip : Bytes
  pub client_port : ℕ
  pub is_authenticated : Bool
  pub username : Bytes
  pub root_dir : Bytes
  pub current_dir : Bytes
  pub rename_from_path : Bytes
  pub mode : DataMode
  pub type : TransferType
  pub data_ip : Bytes
  pub data_port : ℕ
  pub pasv_udp_sock : Option ℕ
  pub transfer_context : Option TransferContext
  pub transfer_active : Bool
  pub abort_requested : Bool

-- The text /tmp.
abbrev pub tmp_dir : Bytes
tmp_dir = b'/' ∷ b't' ∷ b'm' ∷ b'p' ∷ []

-- `FTPSession(control_fd, client_ip, client_port)`
abbrev pub new_session : ℕ → Bytes → ℕ → FtpSession
new_session control_fd client_ip client_port = record {
  control_fd = control_fd;
  client_ip = client_ip;
  client_port = client_port;
  is_authenticated = false;
  username = [];
  root_dir = tmp_dir;
  current_dir = tmp_dir;
  rename_from_path = [];
  mode = mode_none;
  type = type_binary;
  data_ip = [];
  data_port = 0;
  pasv_udp_sock = none;
  transfer_context = none;
  transfer_active = false;
  abort_requested = false;
}

-- `close_data_socket`; that `close` raises is passed over.
abbrev pub close_data_socket : FtpSession → FtpSession
close_data_socket s = record s { pasv_udp_sock = none }

-- The `finally` of `udp_send_file` and `udp_receive_file`.
abbrev pub end_transfer : FtpSession → FtpSession
end_transfer s = record s { transfer_context = none; pasv_udp_sock = none; mode = mode_none }

-- `udp_abort_transfer`
unfoldable pub udp_abort_transfer : FtpSession → Bool × FtpSession
udp_abort_transfer s =
    let requested = record s { abort_requested = true } in
    elim s.transfer_context [
      | some context ↦ (true, record requested { transfer_context = some (cancel context) })
      | none ↦ (s.transfer_active, close_data_socket requested)
    ]
