-- ===== src/App/Examples.antt =====
-- A start that succeeds and one whose login is refused, and the shutdown after the first.
use extend_game_telemetry_co.Prelude.{
  ltb, ◌⊎◌, ℕ, ◌≡◌, ◌↔◌, refl, false, true, [], ◌∷◌, Option, none, some, Text, codes, inl, inr,
  Each, text_eq, split, trim_space, is_space,
}
use extend_game_telemetry_co.Config
use extend_game_telemetry_co.Config.{
  AbExtendConfig, load_config, validate_config, get_enabled_plugins, names_of, trimmed_names,
}
use extend_game_telemetry_co.Config.Defaults.{default_config}
use extend_game_telemetry_co.Config.Plugins.{with_list}
use extend_game_telemetry_co.Bootstrap.{noop, initialize_storage_plugins}
use extend_game_telemetry_co.Processor.{Limits, start}
use extend_game_telemetry_co.Processor.Launch.{Refused}
use extend_game_telemetry_co.Server.{setup_telemetry}
use extend_game_telemetry_co.Server.Grpc.{configured}
use extend_game_telemetry_co.App.{
  World, Application, IamServices, new, with_tracer, assemble, assembled, initialize_iam,
}
use extend_game_telemetry_co.App.Start.{opens, failed_start, started_processor_panics_iff}
use extend_game_telemetry_co.App.Close.{
  Part, processor, tracer, stat_item_updated, oauth_token_generated,
}

abbrev credentials : AbExtendConfig
credentials = record {
  base_url = codes "https://api.accelbyte.io";
  client_id = codes "c1";
  client_secret = codes "secret";
  namespace = codes "game";
}

abbrev config : Config.Config
config = with_list (default_config credentials) (codes "noop")

abbrev working : World
working = record {
  getenv = λ key. [];
  lower_case = λ s. s;
  parsed = inr config;
  credentials = record { client_id = codes "c1"; client_secret = codes "secret" };
  login = λ id secret. none;
  exporter_error = λ endpoint. none;
  init_stat = λ b. none;
  init_token = λ b. none;
  listen_error = λ address. none;
}

abbrev refused : World
refused = record working { login = λ id secret. some (codes "unauthorized") }

abbrev iam : IamServices
iam = record {
  config_repo = working.credentials;
  refresh_repo = record { refresh_rate = 0x3FE999999999999A; auto_refresh = true };
}

abbrev application : Application
application =
    assembled working config iam
      (record {
        endpoint = codes "http://localhost:9411/api/v2/spans";
        service_name = codes "extend-app-service-extension";
      })
      (record { stat_item_updated = noop ∷ []; oauth_token_generated = noop ∷ [] }) configured

starts : (new working).1 ≡ inr application
unfolding new with_tracer assemble assembled initialize_iam load_config validate_config
    setup_telemetry initialize_storage_plugins get_enabled_plugins names_of trimmed_names
    default_config split trim_space is_space text_eq
starts = refl

refuses : (new refused).1 ≡ inl (codes "failed to initialize IAM: unauthorized")
unfolding new with_tracer initialize_iam load_config validate_config default_config split trim_space
    is_space text_eq
refuses = refl

failed_start_example : Each (λ a. opens a ≡ false) (new refused).0
failed_start_example = failed_start refused (codes "failed to initialize IAM: unauthorized") refuses

abbrev limits : Limits
limits = record { chan_cap = λ n. ltb n 100000; slice_cap = λ n. ltb n 100000 }

started_processor_panics_iff_example :
    (start {D = Unit {0}} {T = ℕ} limits application.processors [] none tt ≡ none) ↔ (
      Refused limits.chan_cap application.config.processor.channel_buffer
      ⊎ Refused limits.slice_cap application.config.processor.default_batch_size)
started_processor_panics_iff_example =
    started_processor_panics_iff working application [] none tt limits starts

-- The tracer fails to stop.
abbrev answer : Part → Option Text
answer tracer = some (codes "timeout")
answer _ = none
