-- ===== src/DataTransfer/Target.antt =====
-- common/data_transfer.py: where the data connection goes. What the operating system answers to
-- `socket`, `bind`, `recvfrom` and `sendto` is the environment's.
use hybrid_ftp_system.Prelude.{
  ℕ, ◌==◌, Bool, not, ◌||◌, Option, none, some, Bytes, [], ◌∷◌, same, Result, ok, err,
  if◌then◌else◌,
}
use hybrid_ftp_system.Prelude.Text.{is_empty}
use hybrid_ftp_system.Rdt.Port.{Address}
use hybrid_ftp_system.DataTransfer.Session.{
  FtpSession, mode_none, mode_passive, mode_active, close_data_socket,
}

-- `socket`, `bind` and `getsockname`: refused, bound with the port not told, or bound.
pub data Bound : Type 0 where
  refused : Bound
  unnamed : ℕ → Bound
  bound : ℕ → ℕ → Bound

-- `udp_prepare_passive_listener`
unfoldable pub udp_prepare_passive_listener : Bound → FtpSession → ℕ × FtpSession
udp_prepare_passive_listener answer s =
    let closed = close_data_socket s in
    elim answer [
      | refused ↦ (0, closed)
      | unnamed sock ↦ (0, record closed { pasv_udp_sock = some sock; mode = mode_passive })
      | bound sock port ↦ (port, record closed { pasv_udp_sock = some sock; mode = mode_passive })
    ]

-- `udp_set_active_target`
unfoldable pub udp_set_active_target : Bytes → ℕ → FtpSession → FtpSession
udp_set_active_target ip port s = record (close_data_socket s) {
  data_ip = ip;
  data_port = port;
  mode = mode_active;
}

pub data SocketError : Type 0 where
  no_passive_socket no_ready_datagram no_target no_mode system_error : SocketError

-- `READY`, the text RDT-READY.
abbrev pub ready : Bytes
ready = 82 ∷ 68 ∷ 84 ∷ 45 ∷ 82 ∷ 69 ∷ 65 ∷ 68 ∷ 89 ∷ []

pub record SocketAnswers : Type 0 where
  pub first_datagram : Option (Bytes × Address)
  pub fresh_socket : Option ℕ
  pub ready_sent : Bool

-- A socket, and the peer where it is known.
abbrev pub Target : Type 0
Target = ℕ × Option Address

-- The two branches of `_server_socket_and_peer`.
unfoldable pub passive_target : Bool → SocketAnswers → FtpSession → Result SocketError Target
passive_target sending answers s = elim s.pasv_udp_sock [
  | none ↦ err no_passive_socket
  | some sock ↦ if not sending then ok (sock, none) else (elim answers.first_datagram [
    | none ↦ err system_error
    | some (text, peer) ↦
        if not (same text ready) then err no_ready_datagram else ok (sock, some peer)
  ])
]

unfoldable pub active_target : Bool → SocketAnswers → FtpSession → Result SocketError Target
active_target sending answers s =
    if is_empty s.data_ip || s.data_port == 0 then err no_target else (elim answers.fresh_socket [
      | none ↦ err system_error
      | some sock ↦
          if not sending
          then (if answers.ready_sent then ok (sock, none) else err system_error)
          else ok (sock, some (record { host = s.data_ip; port = s.data_port }))
    ])

-- `_server_socket_and_peer`
unfoldable pub server_socket_and_peer :
    Bool → SocketAnswers → FtpSession → Result SocketError Target
server_socket_and_peer sending answers s = elim s.mode [
  | mode_passive ↦ passive_target sending answers s
  | mode_active ↦ active_target sending answers s
  | mode_none ↦ err no_mode
]
