-- ===== src/Rdt/Config.antt =====
-- rdt/config.py. Times are integers of some unit (the source has floats of a second), since the
-- code compares them with 0 and with each other only.
use hybrid_ftp_system.Prelude.{◌≤◌, ◌≡◌, ◌↔◌, arith, not, ◌&&◌, leb, Result, ok, raise_if, ◌>>◌}
use hybrid_ftp_system.Prelude.Int.{ℤ, pos, pos_part, at_least}
use hybrid_ftp_system.Protocol.Packet.{max_payload_size}

pub record RdtConfig : Type 0 where
  pub payload_size : ℤ
  pub retransmission_timeout : ℤ
  pub idle_timeout : ℤ
  pub maximum_retries : ℤ
  pub receive_poll_interval : ℤ

pub data ConfigError : Type 0 where
  payload_size_range retransmission_not_positive idle_not_positive : ConfigError
  retries_negative poll_not_positive : ConfigError

-- `x <= 0` is `not (1 <= x)` on integers.
unfoldable pub post_init : RdtConfig → Result ConfigError (Unit {0})
post_init c = do
  raise_if (not (at_least 1 c.payload_size && leb (pos_part c.payload_size) max_payload_size))
      payload_size_range
  raise_if (not (at_least 1 c.retransmission_timeout)) retransmission_not_positive
  raise_if (not (at_least 1 c.idle_timeout)) idle_not_positive
  raise_if (not (at_least 0 c.maximum_retries)) retries_negative
  raise_if (not (at_least 1 c.receive_poll_interval)) poll_not_positive
  ok tt

-- `RDTConfig()`, in milliseconds.
abbrev pub default_config : RdtConfig
default_config = record {
  payload_size = pos max_payload_size;
  retransmission_timeout = pos 500;
  idle_timeout = pos 10000;
  maximum_retries = pos 10;
  receive_poll_interval = pos 200;
}

-- The sizes that `file.read` is given, and the number of transmissions, in an accepted
-- configuration: a chunk has at least one byte and fits a packet, and each timeout is positive.
pub record IsAccepted (c : RdtConfig) : Type 0 where
  pub chunk_positive : 1 ≤ pos_part c.payload_size
  pub chunk_fits : pos_part c.payload_size ≤ 1024
  pub retries_is : c.maximum_retries ≡ pos (pos_part c.maximum_retries)
  pub timeout_positive : 1 ≤ pos_part c.retransmission_timeout
  pub idle_positive : 1 ≤ pos_part c.idle_timeout
  pub poll_positive : 1 ≤ pos_part c.receive_poll_interval

-- A configuration is constructed exactly when it has a payload size from 1 to 1024, no negative
-- number of retries and positive times.
pub post_init-IsAccepted : (c : RdtConfig) → (post_init c ≡ ok tt) ↔ IsAccepted c
unfolding post_init
post_init-IsAccepted c = ((λ h. ground arith), (λ a. ground arith))
