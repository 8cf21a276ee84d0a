-- ===== src/Delivery/Examples/Undeduplicated.antt =====
-- The same way with deduplication switched off.
use extend_game_telemetry_co.Prelude.{
  ℕ, Text, ◌≡◌, refl, inl, zero, suc, ◌<◌, arith, get_elem?, false, List, [], ◌∷◌, none, some,
  codes, pos,
}
use extend_game_telemetry_co.Delivery.Durable.{Submitted, Finished, InTable}
use extend_game_telemetry_co.Delivery.Examples.{cfg, marshal}
use extend_game_telemetry_co.Delivery.Examples.Replied.{no_struct, request, event}
use extend_game_telemetry_co.Events.StatItemUpdated.{StatItemUpdatedEvent, to_document}
use extend_game_telemetry_co.Processor.Batcher.{new_batcher, make_cap, add, flush}
use extend_game_telemetry_co.Processor.FanOut.{fan_out}
use extend_game_telemetry_co.Processor.Safety.{AllExited}
use extend_game_telemetry_co.Processor.Shutdown.{Shutdown, completed, completes}
use extend_game_telemetry_co.Processor.Steps.{Reach, here, later, receives, leaves_closed, advances}
use extend_game_telemetry_co.Processor.{
  Processor, queued, finished, idle, start, receive, leave, enter, advance, close_input,
  process_batches,
}
use extend_game_telemetry_co.Service.{stat_on_message}
use extend_game_telemetry_co.Storage.Postgres.Plugin.{plugin}
use extend_game_telemetry_co.Bootstrap.{build_deduplicator}
use extend_game_telemetry_co.Bootstrap.Deduplication.{install, OffOrDown}
use extend_game_telemetry_co.Config.{DeduplicationConfig}
use extend_game_telemetry_co.Dedup.Redis.{Server, Options}
use extend_game_telemetry_co.Delivery.Examples.{limits}
use extend_game_telemetry_co.Delivery.Examples.Durable.{
  answers, table, config, slot, row, converted,
}
use extend_game_telemetry_co.Delivery.Undeduplicated.{installed_for, stat_item_committed}
use extend_game_telemetry_co.Events.{Float64}

abbrev off : DeduplicationConfig
off = record {
  enabled = false;
  type = codes "noop";
  ttl = pos 60;
  redis = record { addr = []; password = []; db = pos 0 };
}

-- No client is made, and this one answers every command with an error.
abbrev client : Options → Server (Unit {0})
client o = record {
  exists = λ done now key state. none;
  set = λ done now key text ttl state. (state, false);
  close = λ state. (state, false);
  ping = λ state. some (codes "refused");
  info = λ part state. inl (codes "refused");
}

off-OffOrDown : OffOrDown client off
unfolding OffOrDown
off-OffOrDown = inl refl

abbrev digest : Text → List ℕ
digest key = key

abbrev float_text : Float64 → Text
float_text v = codes "0"

abbrev first : Processor (installed_for client tt digest float_text off).State StatItemUpdatedEvent
first = record {
  workers = 1;
  input_chan = record { buf = []; cap = 2; closed = false };
  plugins = record { plugin = table; written = []; results = [] } ∷ [];
  deduplicator = some (installed_for client tt digest float_text off).deduplicator;
  dedup_state = (installed_for client tt digest float_text off).initial;
  cancelled = false;
  events_received = 0;
  events_processed = 0;
  events_duplicated = 0;
  events_dropped = 0;
  pool = λ _. record {
    batcher = record {
      events = [];
      max_size = pos 2;
      max_wait = pos 5;
      timer = none;
      running = [];
      fired = 0;
      next_timer = 0;
    };
    exited = false;
  };
  callers = λ _. idle;
  accepted = [];
  flushed = [];
}

first_starts :
    start limits config
      (table ∷ [])
      (some (installed_for client tt digest float_text off).deduplicator)
      (installed_for client tt digest float_text off).initial
    ≡ some first
unfolding start new_batcher make_cap
first_starts = refl

abbrev sent : Processor (installed_for client tt digest float_text off).State StatItemUpdatedEvent
sent = advance 3 0 (advance 2 0 (advance 1 0 (advance 0 0 (enter 0 event first))))

sent_queued : sent.callers 0 ≡ finished queued
unfolding install build_deduplicator enter advance
sent_queued = refl

submitted : Submitted 0 event first queued sent
submitted = record {
  reachable = record {
    limits = limits;
    config = config;
    plugins = table ∷ [];
    dedup = some (installed_for client tt digest float_text off).deduplicator;
    dedup_state = (installed_for client tt digest float_text off).initial;
    first = first;
    starts = first_starts;
    steps = here;
  };
  free = inl refl;
  run =
      later (later (later (later here (advances 0 0)) (advances 1 0)) (advances 2 0))
        (advances 3 0);
  one = ((((tt, tt), tt), tt), tt);
  ended = sent_queued;
}

abbrev last : Processor (installed_for client tt digest float_text off).State StatItemUpdatedEvent
last = leave 0 (receive 0 event [] (close_input sent))

last-Reach : Reach (close_input sent) last
unfolding install build_deduplicator enter advance receive add close_input process_batches
last-Reach =
    later (later here (receives 0 event [] (omega arith) refl refl))
      (leaves_closed 0 (omega arith) refl refl refl)

last_exited : AllExited last
unfolding install build_deduplicator enter advance receive add leave flush close_input
    process_batches
last_exited zero lt = refl
last_exited (suc i) lt = absurd (omega arith)

last-Shutdown : Shutdown sent completed last
unfolding install build_deduplicator enter advance receive add leave flush close_input
    process_batches
last-Shutdown = completes refl last-Reach refl last_exited

last_plugin : get_elem? last.plugins 0 ≡ some slot
unfolding install build_deduplicator enter advance receive add leave flush close_input
    process_batches fan_out plugin
last_plugin = refl

last_live : (0 < last.workers) × (sent.cancelled ≡ false)
unfolding install build_deduplicator enter advance receive add leave flush close_input
    process_batches
last_live = (omega arith, refl)

last-Finished : Finished marshal to_document answers none (codes "postgres") cfg 0 slot sent last
last-Finished = record {
  shutdown = last-Shutdown;
  live = last_live.1;
  some_worker = last_live.0;
  found = last_plugin;
  same = refl;
  fine = λ before. (refl, (λ query args. refl), refl);
}

stat_item_committed_example :
    (sent.events_duplicated ≡ 0)
    × InTable marshal to_document answers none (codes "postgres") cfg slot row
unfolding stat_on_message submitted
stat_item_committed_example =
    stat_item_committed client tt digest float_text off marshal none (codes "postgres") cfg
      no_struct (codes "game") 7 request answers 0 0 row slot queued off-OffOrDown submitted refl
      refl last-Finished converted
