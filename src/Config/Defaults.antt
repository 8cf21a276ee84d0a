-- ===== src/Config/Defaults.antt =====
-- The `envDefault` tags of pkg/config/config.go: what the environment library puts where no
-- variable is set. The three credentials and the namespace have no default.
use extend_game_telemetry_co.Prelude.{
  ◌≡◌, refl, ℕ, ◌*◌, false, none, [], ◌∷◌, codes, pos, ℤ, text_eq, trim_space, split, is_space,
}
use extend_game_telemetry_co.Config
use extend_game_telemetry_co.Config.{
  AbExtendConfig, PluginConfig, RetryConfig, validate_config, get_enabled_plugins, names_of, checks,
  check_all, bad_port, valid_dedup_type, trimmed_names,
}

-- Durations count nanoseconds.
abbrev pub milliseconds : ℕ → ℤ
milliseconds n = pos (n * 1000000)

-- The multiplier 2.0 by its IEEE 754 bits.
unfoldable pub default_retry : RetryConfig
default_retry = record {
  max_retries = pos 3;
  initial_backoff = milliseconds 100;
  max_backoff = milliseconds 10000;
  multiplier = 0x4000000000000000;
}

unfoldable pub default_plugin : PluginConfig
unfolding default_retry
default_plugin = record {
  batch_size = pos 100;
  flush_interval = milliseconds 5000;
  workers = pos 2;
  retry = default_retry;
  s3_bucket = [];
  s3_prefix = codes "telemetry";
  s3_region = codes "us-east-1";
  s3_endpoint = [];
  postgres_dsn = [];
  postgres_table = codes "telemetry_events";
  kafka_brokers = codes "localhost:9092";
  kafka_topic = codes "game-telemetry";
  kafka_compression = codes "snappy";
  mongo_uri = codes "mongodb://localhost:27017";
  mongo_database = codes "telemetry";
  mongo_collection = codes "events";
}

unfoldable pub default_config : AbExtendConfig → Config.Config
unfolding default_plugin
default_config credentials = record {
  ab_extend = credentials;
  server = record {
    grpc_port = pos 6565;
    http_port = pos 8000;
    base_path = codes "/telemetry";
    log_level = codes "info";
  };
  processor = record {
    workers = pos 10;
    channel_buffer = pos 10000;
    default_batch_size = pos 100;
    default_flush_interval = milliseconds 5000;
  };
  deduplication = record {
    enabled = false;
    type = codes "noop";
    ttl = milliseconds 3600000;
    redis = record { addr = codes "localhost:6379"; password = []; db = pos 0 };
  };
  storage = record {
    enabled_plugins = codes "noop";
    noop = default_plugin;
    s3 = default_plugin;
    postgres = default_plugin;
    kafka = default_plugin;
    mongodb = default_plugin;
  };
}

-- With any credentials the defaults pass the validation and enable the plugin "noop" alone.
pub defaults_pass :
    (credentials : AbExtendConfig)
    → (validate_config (default_config credentials) ≡ none)
      × (get_enabled_plugins (default_config credentials) ≡ codes "noop" ∷ [])
unfolding default_config validate_config get_enabled_plugins names_of checks check_all bad_port
    valid_dedup_type trimmed_names text_eq trim_space split is_space
defaults_pass credentials = (refl, refl)
