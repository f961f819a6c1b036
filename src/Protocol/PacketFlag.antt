-- ===== src/Protocol/PacketFlag.antt =====
-- `PacketFlag` of protocol/packet.py: a set of flags is its value.
use hybrid_ftp_system.Prelude.{ℕ}

abbrev pub PacketFlag : Type 0
PacketFlag = ℕ

abbrev pub none_set : PacketFlag
none_set = 0

-- `DATA`
abbrev pub data_flag : PacketFlag
data_flag = 1

abbrev pub ack : PacketFlag
ack = 2

abbrev pub fin : PacketFlag
fin = 4

abbrev pub fin_ack : PacketFlag
fin_ack = 8

abbrev pub error : PacketFlag
error = 16

abbrev pub cancel : PacketFlag
cancel = 32
