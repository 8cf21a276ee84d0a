-- ===== src/Delivery/Examples/Durable.antt =====
-- A stat item event on its way from a request to a row, on a processor with one worker and one
-- PostgreSQL plugin.
use extend_game_telemetry_co.Prelude.{
  Bool, ◌≡◌, ◌⊎◌, refl, inl, zero, suc, ◌<◌, arith, get_elem?, false, List, [], ◌∷◌, none, some,
  codes, pos, text_eq,
}
use extend_game_telemetry_co.Delivery.{processor_plugin}
use extend_game_telemetry_co.Delivery.Committed.{postgres_at}
use extend_game_telemetry_co.Delivery.Durable.{Submitted, Finished, InTable, stat_item_durable}
use extend_game_telemetry_co.Delivery.Examples.{limits, cfg, marshal}
use extend_game_telemetry_co.Delivery.Examples.Replied.{no_struct, request, event}
use extend_game_telemetry_co.Events.{str, int, get, put}
use extend_game_telemetry_co.Events.StatItemUpdated.{StatItemUpdatedEvent, to_document}
use extend_game_telemetry_co.Processor.Batcher.{new_batcher, make_cap, add, flush}
use extend_game_telemetry_co.Processor.FanOut.{Slot, Plugin, fan_out}
use extend_game_telemetry_co.Processor.Safety.{AllExited}
use extend_game_telemetry_co.Processor.Shutdown.{Shutdown, completed, completes}
use extend_game_telemetry_co.Processor.Steps.{Reach, here, later, receives, leaves_closed, advances}
use extend_game_telemetry_co.Processor.{
  Processor, Config, queued, skipped, finished, idle, start, receive, leave, enter, advance,
  close_input, process_batches,
}
use extend_game_telemetry_co.Service.{stat_event, stat_on_message}
use extend_game_telemetry_co.Storage.Postgres.{Database, Row, transform}
use extend_game_telemetry_co.Storage.Postgres.Plugin.{plugin}

abbrev pub answers : Bool → List (List StatItemUpdatedEvent) → Database
answers done earlier = record {
  open_error = none;
  ping_error = none;
  table_error = none;
  begin_error = none;
  exec_error = λ query args. none;
  commit_error = none;
  rows_affected = λ query args. pos 1;
}

abbrev pub table : Plugin StatItemUpdatedEvent
table = processor_plugin (postgres_at marshal to_document answers none (codes "postgres") cfg)

abbrev pub config : Config
config = record {
  workers = pos 1;
  channel_buffer = pos 2;
  batch_size = pos 2;
  flush_interval = pos 5;
}

abbrev first : Processor (Unit {0}) StatItemUpdatedEvent
first = record {
  workers = 1;
  input_chan = record { buf = []; cap = 2; closed = false };
  plugins = record { plugin = table; written = []; results = [] } ∷ [];
  deduplicator = none;
  dedup_state = tt;
  cancelled = false;
  events_received = 0;
  events_processed = 0;
  events_duplicated = 0;
  events_dropped = 0;
  pool = λ _. record {
    batcher = record {
      events = [];
      max_size = pos 2;
      max_wait = pos 5;
      timer = none;
      running = [];
      fired = 0;
      next_timer = 0;
    };
    exited = false;
  };
  callers = λ _. idle;
  accepted = [];
  flushed = [];
}

first_starts : start limits config (table ∷ []) none tt ≡ some first
unfolding start new_batcher make_cap
first_starts = refl

abbrev sent : Processor (Unit {0}) StatItemUpdatedEvent
sent = advance 0 0 (advance 0 0 (advance 0 0 (enter 0 event first)))

sent_queued : sent.callers 0 ≡ finished queued
unfolding enter advance
sent_queued = refl

submitted : Submitted 0 event first queued sent
submitted = record {
  reachable = record {
    limits = limits;
    config = config;
    plugins = table ∷ [];
    dedup = none;
    dedup_state = tt;
    first = first;
    starts = first_starts;
    steps = here;
  };
  free = inl refl;
  run = later (later (later here (advances 0 0)) (advances 0 0)) (advances 0 0);
  one = (((tt, tt), tt), tt);
  ended = sent_queued;
}

abbrev last : Processor (Unit {0}) StatItemUpdatedEvent
last = leave 0 (receive 0 event [] (close_input sent))

last-Reach : Reach (close_input sent) last
unfolding enter advance receive add close_input process_batches
last-Reach =
    later (later here (receives 0 event [] (omega arith) refl refl))
      (leaves_closed 0 (omega arith) refl refl refl)

last_exited : AllExited last
unfolding enter advance receive add leave flush close_input process_batches
last_exited zero lt = refl
last_exited (suc i) lt = absurd (omega arith)

last-Shutdown : Shutdown sent completed last
unfolding enter advance receive add leave flush close_input process_batches
last-Shutdown = completes refl last-Reach refl last_exited

abbrev pub slot : Slot StatItemUpdatedEvent
slot = record {
  plugin = table;
  written = (event ∷ []) ∷ [];
  results = (table.write_batch false [] (event ∷ [])) ∷ [];
}

last_plugin : get_elem? last.plugins 0 ≡ some slot
unfolding enter advance receive add leave flush close_input process_batches fan_out plugin
last_plugin = refl

last_live : (0 < last.workers) × (sent.cancelled ≡ false)
unfolding enter advance receive add leave flush close_input process_batches
last_live = (omega arith, refl)

last-Finished : Finished marshal to_document answers none (codes "postgres") cfg 0 slot sent last
last-Finished = record {
  shutdown = last-Shutdown;
  live = last_live.1;
  some_worker = last_live.0;
  found = last_plugin;
  same = refl;
  fine = λ before. (refl, (λ query args. refl), refl);
}

abbrev pub row : Row
row = record {
  namespace = str (codes "game");
  user_id = str (codes "u1");
  event_id = str (codes "e1");
  timestamp = str (codes "2025-01-02T03:04:05Z");
  server_timestamp = int (pos 7);
  payload = str (codes "{}");
}

pub converted : transform marshal to_document event ≡ some row
unfolding transform to_document stat_event get put text_eq
converted = refl

stat_item_durable_example :
    (queued ≡ skipped) ⊎ InTable marshal to_document answers none (codes "postgres") cfg slot row
unfolding stat_on_message
stat_item_durable_example =
    stat_item_durable marshal none (codes "postgres") cfg no_struct (codes "game") 7 request answers
      0 0 row slot queued submitted refl last-Finished converted
