-- ===== src/Delivery/Examples.antt =====
-- One event on its way through a processor with one worker into a database that answers.
mod Backends
mod Replied
mod Durable
mod Undeduplicated
use extend_game_telemetry_co.Prelude.{
  ltb, zero, suc, ◌≡◌, refl, inl, Bool, false, List, [], ◌∷◌, Option, none, some, Text, codes, pos,
  arith, count, get_elem?, ◌<◌,
}
use extend_game_telemetry_co.Events.{Value, str, Fields, field, end}
use extend_game_telemetry_co.Delivery.{processor_plugin, backend_calls}
use extend_game_telemetry_co.Delivery.Committed.{postgres_at, accepted_committed}
use extend_game_telemetry_co.Processor.{
  Processor, Limits, Config, idle, start, receive, leave, enter, advance, close_input,
  process_batches,
}
use extend_game_telemetry_co.Processor.Batcher.{new_batcher, make_cap, add, flush}
use extend_game_telemetry_co.Processor.FanOut.{Slot, fan_out}
use extend_game_telemetry_co.Processor.Steps.{
  Reach, here, later, receives, leaves_closed, enters, advances, closes,
}
use extend_game_telemetry_co.Processor.Safety.{Reachable, AllExited}
use extend_game_telemetry_co.Storage.Plugin.{StoragePlugin}
use extend_game_telemetry_co.Storage.Postgres.{PluginConfig, Database, Call, Row, transform}
use extend_game_telemetry_co.Storage.Postgres.Plugin.{plugin}
use extend_game_telemetry_co.Storage.Postgres.Writes.{arguments}
use extend_game_telemetry_co.Storage.Postgres.Commits.{committed, passes}

abbrev cfg : PluginConfig
cfg = record { dsn = codes "postgres://db"; table = codes "t"; workers = pos 8 }

abbrev answers : Bool → List (List Text) → Database
answers done earlier = record {
  open_error = none;
  ping_error = none;
  table_error = none;
  begin_error = none;
  exec_error = λ query args. none;
  commit_error = none;
  rows_affected = λ query args. pos 1;
}

abbrev marshal : Value → Option Text
marshal payload = some (codes "{}")

abbrev to_document : Text → Fields
to_document user = field (codes "user_id") (str user) end

abbrev at : Bool → List (List Text) → StoragePlugin Text Call
at = postgres_at marshal to_document answers none (codes "postgres:user") cfg

abbrev pub limits : Limits
limits = record { chan_cap = λ n. ltb n 100; slice_cap = λ n. ltb n 100 }

abbrev config : Config
config = record {
  workers = pos 1;
  channel_buffer = pos 2;
  batch_size = pos 2;
  flush_interval = pos 5;
}

abbrev first : Processor (Unit {0}) Text
first = record {
  workers = 1;
  input_chan = record { buf = []; cap = 2; closed = false };
  plugins = record { plugin = processor_plugin at; written = []; results = [] } ∷ [];
  deduplicator = none;
  dedup_state = tt;
  cancelled = false;
  events_received = 0;
  events_processed = 0;
  events_duplicated = 0;
  events_dropped = 0;
  pool = λ _. record {
    batcher = record {
      events = [];
      max_size = pos 2;
      max_wait = pos 5;
      timer = none;
      running = [];
      fired = 0;
      next_timer = 0;
    };
    exited = false;
  };
  callers = λ _. idle;
  accepted = [];
  flushed = [];
}

abbrev last : Processor (Unit {0}) Text
last = leave 0 (
    receive 0 (codes "ann") []
      (close_input (advance 0 0 (advance 0 0 (enter 0 (codes "ann") first)))))

abbrev slot : Slot Text
slot = record {
  plugin = processor_plugin at;
  written = (codes "ann" ∷ []) ∷ [];
  results = ((at false []).write_batch (codes "ann" ∷ [])).1 ∷ [];
}

last_plugin : get_elem? last.plugins 0 ≡ some slot
unfolding enter advance receive add leave flush close_input process_batches fan_out plugin
last_plugin = refl

last_exited : AllExited last
unfolding enter advance receive add leave flush close_input process_batches
last_exited zero lt = refl
last_exited (suc i) lt = absurd (omega arith)

first_starts : start limits config (processor_plugin at ∷ []) none tt ≡ some first
unfolding start new_batcher make_cap
first_starts = refl

last-Reach : Reach first last
unfolding enter advance receive add close_input process_batches
last-Reach =
    later
      (later
        (later
          (later (later (later here (enters 0 (codes "ann") (inl refl))) (advances 0 0))
            (advances 0 0))
          (closes refl))
        (receives 0 (codes "ann") [] (omega arith) refl refl))
      (leaves_closed 0 (omega arith) refl refl refl)

abbrev last_reachable : Reachable last
last_reachable = record {
  limits = limits;
  config = config;
  plugins = processor_plugin at ∷ [];
  dedup = none;
  dedup_state = tt;
  first = first;
  starts = first_starts;
  steps = last-Reach;
}

last_live : (0 < last.workers) × (last.cancelled ≡ false)
unfolding enter advance receive add leave flush close_input process_batches
last_live = (omega arith, refl)

accepted_committed_example :
    (rows : List Row) × (committed cfg.table [] (backend_calls at [] slot.written) ≡ arguments rows)
    × ((t : Row → Bool)
        → count t rows ≡ count (λ e. passes t (transform marshal to_document e)) last.accepted)
accepted_committed_example =
    accepted_committed marshal to_document answers none (codes "postgres:user") cfg 0 slot
      last_reachable last_live.0 last_exited last_live.1 last_plugin refl
      (λ before. (refl, (λ query args. refl), refl))
