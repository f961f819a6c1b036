-- ===== src/Rdt/Context.antt =====
-- rdt/context.py: the state of one transfer. A reading of the monotonic clock is a number, and the
-- `threading.Event` is the flag that it holds.
use hybrid_ftp_system.Prelude.{ℕ, ◌-◌, Bool, true, false}
use hybrid_ftp_system.Rdt.Config.{RdtConfig}

pub record TransferStatistics : Type 0 where
  pub bytes_transferred : ℕ
  pub packets_sent : ℕ
  pub packets_received : ℕ
  pub acknowledgments_sent : ℕ
  pub acknowledgments_received : ℕ
  pub duplicate_packets : ℕ
  pub corrupted_packets : ℕ
  pub duration : ℕ

abbrev pub no_statistics : TransferStatistics
no_statistics = record {
  bytes_transferred = 0;
  packets_sent = 0;
  packets_received = 0;
  acknowledgments_sent = 0;
  acknowledgments_received = 0;
  duplicate_packets = 0;
  corrupted_packets = 0;
  duration = 0;
}

pub data TransferState : Type 0 where
  created negotiating running verifying completed failed cancelled : TransferState

pub record TransferContext : Type 0 where
  pub transfer_id : ℕ
  pub config : RdtConfig
  pub state : TransferState
  pub statistics : TransferStatistics
  pub cancel_event : Bool
  pub started_at : ℕ

-- `TransferContext(transfer_id, config)`, created when the clock shows `now`.
abbrev pub new_context : ℕ → RdtConfig → ℕ → TransferContext
new_context transfer_id config now = record {
  transfer_id = transfer_id;
  config = config;
  state = created;
  statistics = no_statistics;
  cancel_event = false;
  started_at = now;
}

abbrev pub cancel : TransferContext → TransferContext
cancel c = record c { cancel_event = true; state = cancelled }

abbrev pub is_cancelled : TransferContext → Bool
is_cancelled c = c.cancel_event

-- The clock is monotonic, so that `now` is at least `started_at`.
abbrev pub finish : TransferState → ℕ → TransferContext → TransferContext
finish state now c = record c {
  state = state;
  statistics = record (c.statistics) { duration = now - c.started_at };
}
