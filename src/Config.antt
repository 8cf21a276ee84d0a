-- ===== src/Config.antt =====
-- pkg/config/config.go. Reading the environment is the work of a library; the model begins with
-- the parsed configuration. Ports, counts and durations are integers.
pub mod Plugins
pub mod Validity
pub mod Defaults
mod Examples
use extend_game_telemetry_co.Prelude.{
  ℕ, Bool, true, false, not, ◌&&◌, ◌||◌, List, [], ◌∷◌, ◌++◌, ◌⊎◌, inl, inr, itoa, Option, none,
  some, Text, codes, text_eq, ℤ, pos, leℤ, ltℤ, split, trim_space, is_empty, if◌then◌else◌, map,
}
use extend_game_telemetry_co.Events.{Float64}

pub record ServerConfig : Type 0 where
  pub grpc_port : ℤ
  pub http_port : ℤ
  pub base_path : Text
  pub log_level : Text

pub record ProcessorConfig : Type 0 where
  pub workers : ℤ
  pub channel_buffer : ℤ
  pub default_batch_size : ℤ
  pub default_flush_interval : ℤ

pub record RedisConfig : Type 0 where
  pub addr : Text
  pub password : Text
  pub db : ℤ

pub record DeduplicationConfig : Type 0 where
  pub enabled : Bool
  pub type : Text
  pub ttl : ℤ
  pub redis : RedisConfig

pub record RetryConfig : Type 0 where
  pub max_retries : ℤ
  pub initial_backoff : ℤ
  pub max_backoff : ℤ
  pub multiplier : Float64

pub record PluginConfig : Type 0 where
  pub batch_size : ℤ
  pub flush_interval : ℤ
  pub workers : ℤ
  pub retry : RetryConfig
  pub s3_bucket : Text
  pub s3_prefix : Text
  pub s3_region : Text
  pub s3_endpoint : Text
  pub postgres_dsn : Text
  pub postgres_table : Text
  pub kafka_brokers : Text
  pub kafka_topic : Text
  pub kafka_compression : Text
  pub mongo_uri : Text
  pub mongo_database : Text
  pub mongo_collection : Text

pub record StorageConfig : Type 0 where
  pub enabled_plugins : Text
  pub noop : PluginConfig
  pub s3 : PluginConfig
  pub postgres : PluginConfig
  pub kafka : PluginConfig
  pub mongodb : PluginConfig

pub record AbExtendConfig : Type 0 where
  pub base_url : Text
  pub client_id : Text
  pub client_secret : Text
  pub namespace : Text

pub record Config : Type 0 where
  pub ab_extend : AbExtendConfig
  pub server : ServerConfig
  pub processor : ProcessorConfig
  pub deduplication : DeduplicationConfig
  pub storage : StorageConfig

-- The errors of `ValidateConfig`.
pub data ConfigError : Type 0 where
  invalid_grpc_port invalid_http_port : ℤ → ConfigError
  empty_base_path no_workers no_channel_buffer : ConfigError
  invalid_dedup_type : Text → ConfigError
  redis_addr_required no_plugins : ConfigError

-- `port <= 0 || port > 65535`
bad_port : ℤ → Bool
bad_port port = leℤ port (pos 0) || ltℤ (pos 65535) port

valid_dedup_type : Text → Bool
valid_dedup_type t =
    text_eq t (codes "memory") || text_eq t (codes "redis") || text_eq t (codes "noop")

-- The first check that fails gives the error.
check_all : List (Bool × ConfigError) → Option ConfigError
check_all [] = none
check_all ((failed, e) ∷ rest) = if failed then some e else check_all rest

checks : Config → List (Bool × ConfigError)
unfolding bad_port valid_dedup_type
checks c =
    (bad_port c.server.grpc_port, invalid_grpc_port c.server.grpc_port)
    ∷ (bad_port c.server.http_port, invalid_http_port c.server.http_port)
    ∷ (is_empty c.server.base_path, empty_base_path)
    ∷ (leℤ c.processor.workers (pos 0), no_workers)
    ∷ (leℤ c.processor.channel_buffer (pos 0), no_channel_buffer)
    ∷ (
      c.deduplication.enabled && not (valid_dedup_type c.deduplication.type),
      invalid_dedup_type c.deduplication.type,
    )
    ∷ (
      c.deduplication.enabled
          && text_eq c.deduplication.type (codes "redis")
          && is_empty c.deduplication.redis.addr,
      redis_addr_required,
    )
    ∷ (is_empty (trim_space c.storage.enabled_plugins), no_plugins)
    ∷ []

unfoldable pub validate_config : Config → Option ConfigError
unfolding checks check_all
validate_config c = check_all (checks c)

pub error_text : ConfigError → Text
error_text (invalid_grpc_port port) = codes "invalid GRPC port: " ++ itoa port
error_text (invalid_http_port port) = codes "invalid HTTP port: " ++ itoa port
error_text empty_base_path = codes "base_path cannot be empty"
error_text no_workers = codes "processor workers must be > 0"
error_text no_channel_buffer = codes "processor channel buffer must be > 0"
error_text (invalid_dedup_type t) =
    codes "invalid deduplication type: " ++ t ++ codes " (must be memory, redis, or noop)"
error_text redis_addr_required = codes "redis addr is required when deduplication type is redis"
error_text no_plugins =
    codes "at least one storage plugin must be enabled (STORAGE_ENABLED_PLUGINS)"

-- `LoadConfig`, with what the parser of the environment gives: an error or a configuration.
unfoldable pub load_config : Text ⊎ Config → Text ⊎ Config
unfolding validate_config error_text
load_config (inl e) = inl (codes "failed to parse config from environment: " ++ e)
load_config (inr c) = elim (validate_config c) [
  | some e ↦ inl (codes "invalid configuration: " ++ error_text e)
  | none ↦ inr c
]

-- The loop of `GetEnabledPlugins`.
unfoldable pub trimmed_names : List Text → List Text
trimmed_names [] = []
trimmed_names (name ∷ rest) =
    let name' = trim_space name in
    let names = trimmed_names rest in if is_empty name' then names else name' ∷ names

unfoldable pub names_of : Text → List Text
unfolding trimmed_names
names_of s = trimmed_names (split b',' s)

unfoldable pub get_enabled_plugins : Config → List Text
unfolding names_of
get_enabled_plugins c = names_of c.storage.enabled_plugins
