-- ===== src/App.antt =====
-- internal/app/app.go with internal/bootstrap/iam.go and main.go: the start of the program and its
-- shutdown. What the environment and the libraries answer is a parameter.
pub mod Start
pub mod Close
mod Examples
use extend_game_telemetry_co.Prelude.{
  ℕ, Bool, true, false, List, [], ◌∷◌, ◌++◌, Option, none, some, Text, codes, text_eq, to_lower,
  is_empty, map, if◌then◌else◌, ◌⊎◌, inl, inr, ◌||◌,
}
use extend_game_telemetry_co.Config
use extend_game_telemetry_co.Config.{load_config}
use extend_game_telemetry_co.Bootstrap.{
  Backend, StoragePlugins, DeduplicatorKind, initialize_storage_plugins, build_deduplicator,
  processor_config,
}
use extend_game_telemetry_co.Processor
use extend_game_telemetry_co.Server.Grpc.{
  GrpcServer, new_grpc_server, register, stat_item_updated, oauth_token_generated,
}
use extend_game_telemetry_co.Server.{
  Environment, TracerProvider, setup_telemetry, start_grpc_server, start_metrics_server,
  grpc_server_port, metrics_port,
}

-- What the SDK's repository of the configuration holds.
pub record ConfigRepository : Type 0 where
  pub client_id : Text
  pub client_secret : Text

-- `RefreshTokenImpl`, with the bits of its rate.
pub record RefreshToken : Type 0 where
  pub refresh_rate : ℕ
  pub auto_refresh : Bool

-- `IAMServices`: the OAuth service is made of the repositories, and that of tokens is the SDK's.
pub record IamServices : Type 0 where
  pub config_repo : ConfigRepository
  pub refresh_repo : RefreshToken

-- What the libraries and the environment answer; `none` is no error. `parsed` is the parsed
-- environment, `credentials` the SDK's repository of the configuration, `login` what `LoginClient`
-- reports for an id and a secret, `exporter_error` is of `zipkin.New`, `listen_error` of
-- `net.Listen`, and the two for plugins of `Initialize` for the two event types.
pub record World : Type 0 where
  pub getenv : Environment
  pub lower_case : Text → Text
  pub parsed : Text ⊎ Config.Config
  pub credentials : ConfigRepository
  pub login : Text → Text → Option Text
  pub exporter_error : Text → Option Text
  pub init_stat : Backend → Option Text
  pub init_token : Backend → Option Text
  pub listen_error : Text → Option Text

-- `slog.Level`
pub data Level : Type 0 where
  debug info warn error : Level

pub parse_slog_level : Text → Level
parse_slog_level level_str =
    let level = to_lower level_str in
    if text_eq level (codes "debug")
    then debug
    else if text_eq level (codes "info")
    then info
    else if text_eq level (codes "warn") || text_eq level (codes "warning")
    then warn
    else if text_eq level (codes "error")
        || text_eq level (codes "fatal")
        || text_eq level (codes "panic")
    then error
    else info

-- `GetNamespace`
pub get_namespace : Environment → Text
get_namespace getenv =
    let namespace = getenv (codes "AB_NAMESPACE") in
    if is_empty namespace then codes "accelbyte" else namespace

-- `Deduplicators` and `InitializeDeduplicators`
pub record Deduplicators : Type 0 where
  pub stat_item_updated : DeduplicatorKind
  pub oauth_token_generated : DeduplicatorKind

pub initialize_deduplicators : Config.Config → Deduplicators
initialize_deduplicators c = record {
  stat_item_updated = build_deduplicator c.deduplication;
  oauth_token_generated = build_deduplicator c.deduplication;
}

-- `Application`. Both processors are started with the same configuration. The services that are
-- registered at the server stand there with their namespace.
pub record Application : Type 0 where
  pub config : Config.Config
  pub log_level : Level
  pub iam_services : IamServices
  pub tracer : TracerProvider
  pub plugins : StoragePlugins
  pub deduplicators : Deduplicators
  pub processors : Processor.Config
  pub grpc_server : GrpcServer

-- What the start does to the outside, in order.
pub data Action : Type 0 where
  log_in : Action
  set_tracer_provider : TracerProvider → Action
  start_plugins : StoragePlugins → Action
  start_processors : Processor.Config → Action
  register_stat_item_updated register_oauth_token_generated : Text → Action

-- A part of the start: what it did, and its error or its result.
abbrev pub Starting : Type 0 → Type 0
Starting A = List Action × (Text ⊎ A)

infixl 5 ◌>>=◌ ◌>>◌
abbrev pub ◌>>=◌ : {A B : Type 0} → Starting A → (A → Starting B) → Starting B
(actions, inl e) >>= f = (actions, inl e)
(actions, inr a) >>= f = let (more, result) = f a in (actions ++ more, result)

abbrev pub ◌>>◌ : {B : Type 0} → Starting (Unit {0}) → Starting B → Starting B
m >> k = m >>= λ _. k

abbrev pub act : Action → Starting (Unit {0})
act action = (action ∷ [], inr tt)

-- `fmt.Errorf("…: %w", err)` on an error.
abbrev pub wrapped : {A : Type 0} → Text → Text ⊎ A → Starting A
wrapped what (inl e) = ([], inl (what ++ e))
wrapped what (inr a) = ([], inr a)

-- `InitializeIAM`. The rate is 0.8.
pub initialize_iam : World → Text ⊎ IamServices
initialize_iam w = elim (w.login w.credentials.client_id w.credentials.client_secret) [
  | some e ↦ inl e
  | none ↦ inr (record {
    config_repo = w.credentials;
    refresh_repo = record { refresh_rate = 0x3FE999999999999A; auto_refresh = true };
  })
]

-- `New` from the registration of the services on.
assembled :
    World → Config.Config → IamServices → TracerProvider → StoragePlugins → GrpcServer → Application
assembled w c iam tracer plugins server = record {
  config = c;
  log_level = parse_slog_level c.server.log_level;
  iam_services = iam;
  tracer = tracer;
  plugins = plugins;
  deduplicators = initialize_deduplicators c;
  processors = processor_config c;
  grpc_server =
      register (oauth_token_generated (get_namespace w.getenv))
        (register (stat_item_updated (get_namespace w.getenv)) server);
}

assemble :
    World → Config.Config → IamServices → TracerProvider → StoragePlugins → Starting Application
unfolding assembled new_grpc_server
assemble w c iam tracer plugins = do
  act (start_plugins plugins)
  act (start_processors (processor_config c))
  server ← wrapped (codes "failed to create gRPC server: ") new_grpc_server
  act (register_stat_item_updated (get_namespace w.getenv))
  act (register_oauth_token_generated (get_namespace w.getenv))
  ([], inr (assembled w c iam tracer plugins server))

-- `New` from the tracer provider on.
with_tracer : World → Config.Config → IamServices → TracerProvider → Starting Application
unfolding assemble
with_tracer w c iam tracer = do
  act (set_tracer_provider tracer)
  plugins ←
      wrapped (codes "failed to initialize storage plugins: ")
        (initialize_storage_plugins w.init_stat w.init_token c)
  assemble w c iam tracer plugins

pub new : World → Starting Application
unfolding initialize_iam with_tracer
new w = do
  c ← wrapped (codes "failed to load configuration: ") (load_config w.parsed)
  iam ← wrapped (codes "failed to initialize IAM: ") (initialize_iam w)
  act log_in
  tracer ← wrapped (codes "failed to setup telemetry: ") (
      setup_telemetry w.exporter_error w.lower_case w.getenv (codes "extend-app-service-extension"))
  with_tracer w c iam tracer

-- `basePath` of `Run`, which nothing uses afterwards.
pub base_path : Environment → Text
base_path getenv =
    let server = getenv (codes "SERVER_BASE_PATH") in
    let plain = if is_empty server then getenv (codes "BASE_PATH") else server in
    if is_empty plain then codes "/telemetry" else plain

-- `Run`: the metrics server always starts; the error is that of the gRPC server.
pub run : World → Option Text
run w = elim (start_grpc_server w.listen_error grpc_server_port) [
  | some e ↦ some (codes "failed to start gRPC server: " ++ e)
  | none ↦ none
]
