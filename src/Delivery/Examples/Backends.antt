-- ===== src/Delivery/Examples/Backends.antt =====
-- The processor of Delivery/Examples as one that was started with a PostgreSQL plugin.
use extend_game_telemetry_co.Prelude.{
  ◌≡◌, refl, inr, Bool, true, List, [], ◌∷◌, none, Text, codes, pos, map, count, concat, Each,
}
use extend_game_telemetry_co.Bootstrap.{Backend, postgres}
use extend_game_telemetry_co.Delivery.Backends.{Services, plugin_of, every_backend_served}
use extend_game_telemetry_co.Delivery.Examples.{
  cfg, answers, marshal, to_document, last, last_reachable, last_live, last_exited,
}
use extend_game_telemetry_co.Events.{str}
use extend_game_telemetry_co.Processor.FanOut.Installed.{installed}
use extend_game_telemetry_co.Storage.{Stored}
use extend_game_telemetry_co.Storage.Mongodb.{inserted}
use extend_game_telemetry_co.Storage.Postgres.Plugin.{plugin}

abbrev stored : Stored Text
stored = record {
  to_document = to_document;
  user_id = λ e. e;
  namespace = λ e. codes "game";
  server_timestamp = λ e. pos 7;
}

abbrev services : Backend → Bool → List (List Text) → Services
services b done earlier = record {
  marshal = marshal;
  marshal_fields = λ fields. none;
  marshal_indent = λ documents. (true, codes "[]");
  unmarshal = λ text. none;
  moment = record { year = 2025; month = 1; day = 2; unix_milli = 7; rfc3339 = [] };
  timestamp = str (codes "now");
  database = answers done earlier;
  server = record { connect_error = none; ping_error = none; index_error = none };
  insert = λ documents. inserted 0;
  writer = λ messages. none;
  dial = λ broker. none;
  partitions = λ broker topic. inr 1;
  load_error = λ region. none;
  store = λ object. none;
  head_bucket = λ bucket. none;
  close_error = none;
}

abbrev backends : List Backend
backends = postgres cfg ∷ []

same_plugins : last_reachable.plugins ≡ map (plugin_of (codes "user") stored services) backends
unfolding plugin_of plugin
same_plugins = refl

every_backend_served_example :
    (installed last.plugins ≡ map (plugin_of (codes "user") stored services) backends)
    × Each
        (λ s. (t : Text → Bool) → count t (concat s.written) ≡ count t last.accepted)
        last.plugins
every_backend_served_example =
    every_backend_served (codes "user") stored services backends last_reachable same_plugins
      last_live.0 last_exited last_live.1
