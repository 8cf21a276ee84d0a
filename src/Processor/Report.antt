-- ===== src/Processor/Report.antt =====
-- `Stats` of pkg/processor/processor.go.
use extend_game_telemetry_co.Prelude.{ℕ, length}
use extend_game_telemetry_co.Processor.{Processor}

pub record Stats : Type 0 where
  pub workers : ℕ
  pub queue_depth : ℕ
  pub queue_capacity : ℕ
  pub events_received : ℕ
  pub events_processed : ℕ
  pub events_duplicated : ℕ
  pub events_dropped : ℕ
  pub plugins : ℕ

pub stats : {D T : Type 0} → Processor D T → Stats
stats p = record {
  workers = p.workers;
  queue_depth = length p.input_chan.buf;
  queue_capacity = p.input_chan.cap;
  events_received = p.events_received;
  events_processed = p.events_processed;
  events_duplicated = p.events_duplicated;
  events_dropped = p.events_dropped;
  plugins = length p.plugins;
}
