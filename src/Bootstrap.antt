-- ===== src/Bootstrap.antt =====
-- internal/bootstrap: which plugins, deduplicators and processors the configuration builds. How they
-- are stopped is in App/Close. How a plugin's `Initialize` ends is a parameter here; Storage has its
-- model.
pub mod Processors
pub mod Deduplication
pub mod Selection
mod Examples
use extend_game_telemetry_co.Prelude.{
  ℕ, Bool, true, false, List, [], ◌∷◌, ◌++◌, Option, none, some, Text, codes, text_eq, ℤ, pos, map,
  split, trim_space, if◌then◌else◌, ◌⊎◌, inl, inr,
}
use extend_game_telemetry_co.Config
use extend_game_telemetry_co.Config.{get_enabled_plugins, StorageConfig, DeduplicationConfig}
use extend_game_telemetry_co.Storage.Postgres
use extend_game_telemetry_co.Storage.Mongodb
use extend_game_telemetry_co.Storage.Kafka
use extend_game_telemetry_co.Storage.S3
use extend_game_telemetry_co.Processor

-- A constructed plugin of one event type.
pub data Backend : Type 0 where
  postgres : Postgres.PluginConfig → Backend
  s3 : S3.PluginConfig → Backend
  kafka : Kafka.PluginConfig → Backend
  mongodb : Mongodb.PluginConfig → Backend
  noop : Backend

-- The name before the colon of `Name()`.
pub name_of : Backend → Text
name_of (postgres cfg) = codes "postgres"
name_of (s3 cfg) = codes "s3"
name_of (kafka cfg) = codes "kafka"
name_of (mongodb cfg) = codes "mongodb"
name_of noop = codes "noop"

postgres_of : StorageConfig → Text → Postgres.PluginConfig
postgres_of storage table = record {
  dsn = storage.postgres.postgres_dsn;
  table = table;
  workers = storage.postgres.workers;
}

s3_of : StorageConfig → S3.PluginConfig
s3_of storage = S3.new_plugin (record {
  bucket = storage.s3.s3_bucket;
  prefix = storage.s3.s3_prefix;
  region = storage.s3.s3_region;
  endpoint = storage.s3.s3_endpoint;
})

kafka_of : StorageConfig → Text → Kafka.PluginConfig
kafka_of storage suffix = record {
  brokers = map trim_space (split b',' storage.kafka.kafka_brokers);
  topic = storage.kafka.kafka_topic ++ suffix;
  compression = storage.kafka.kafka_compression;
  batch_size = storage.kafka.batch_size;
  flush_interval = storage.kafka.flush_interval;
}

mongodb_of : StorageConfig → Text → Mongodb.PluginConfig
mongodb_of storage collection = record {
  uri = storage.mongodb.mongo_uri;
  database = storage.mongodb.mongo_database;
  collection = collection;
  workers = storage.mongodb.workers;
}

-- The `switch`: the plugins for stat item and for token events, or an unknown name.
plugins_of : StorageConfig → Text → Option (Backend × Backend)
unfolding postgres_of s3_of kafka_of mongodb_of
plugins_of storage name =
    if text_eq name (codes "postgres")
    then some (
      postgres (
          Postgres.new_stat_item_updated_plugin
            (postgres_of storage (codes "stat_item_updated_events"))),
      postgres (
          Postgres.new_oauth_token_generated_plugin
            (postgres_of storage (codes "oauth_token_generated_events"))),
    )
    else if text_eq name (codes "s3")
    then some (s3 (s3_of storage), s3 (s3_of storage))
    else if text_eq name (codes "kafka")
    then some (
      kafka (kafka_of storage (codes ".stat_item_updated")),
      kafka (kafka_of storage (codes ".oauth_token_generated")),
    )
    else if text_eq name (codes "mongodb")
    then some (
      mongodb (
          Mongodb.new_stat_item_updated_plugin
            (mongodb_of storage (codes "stat_item_updated_events"))),
      mongodb (
          Mongodb.new_oauth_token_generated_plugin
            (mongodb_of storage (codes "oauth_token_generated_events"))),
    )
    else if text_eq name (codes "noop")
    then some (noop, noop)
    else none

pub record StoragePlugins : Type 0 where
  pub stat_item_updated : List Backend
  pub oauth_token_generated : List Backend

cons_plugins : Backend × Backend → Text ⊎ StoragePlugins → Text ⊎ StoragePlugins
cons_plugins (s, t) (inl error) = inl error
cons_plugins (s, t) (inr plugins) = inr (record {
  stat_item_updated = s ∷ plugins.stat_item_updated;
  oauth_token_generated = t ∷ plugins.oauth_token_generated;
})

-- `if len(plugins.…) == 0`, with the no-op plugin, whose `Initialize` does not fail.
or_noop : List Backend → List Backend
or_noop [] = noop ∷ []
or_noop (p ∷ plugins) = p ∷ plugins

with_fallback : Text ⊎ StoragePlugins → Text ⊎ StoragePlugins
unfolding or_noop
with_fallback (inl error) = inl error
with_fallback (inr plugins) = inr (record {
  stat_item_updated = or_noop plugins.stat_item_updated;
  oauth_token_generated = or_noop plugins.oauth_token_generated;
})

-- What `Initialize` reports for a plugin of the one and of the other event type.
module _ (init_stat init_token : Backend → Option Text) where
  -- `Initialize` of both plugins; the first error ends the start.
  add_plugins : Backend × Backend → Text ⊎ StoragePlugins → Text ⊎ StoragePlugins
  unfolding cons_plugins
  add_plugins (s, t) rest = elim (init_stat s) [
    | some error ↦ inl error
    | none ↦ elim (init_token t) [ some error ↦ inl error | none ↦ cons_plugins (s, t) rest ]
  ]

  -- The body of the loop: an unknown name is logged and skipped.
  add_known : Option (Backend × Backend) → Text ⊎ StoragePlugins → Text ⊎ StoragePlugins
  unfolding add_plugins
  add_known none rest = rest
  add_known (some both) rest = add_plugins both rest

  load_plugins : StorageConfig → List Text → Text ⊎ StoragePlugins
  unfolding add_known plugins_of
  load_plugins storage [] = inr (record { stat_item_updated = []; oauth_token_generated = [] })
  load_plugins storage (name ∷ names) =
      add_known (plugins_of storage name) (load_plugins storage names)

  unfoldable pub initialize_storage_plugins : Config.Config → Text ⊎ StoragePlugins
  unfolding load_plugins with_fallback
  initialize_storage_plugins c = with_fallback (load_plugins c.storage (get_enabled_plugins c))

-- The deduplicator of either event type.
pub data DeduplicatorKind : Type 0 where
  noop_kind : DeduplicatorKind
  memory_kind : ℤ → DeduplicatorKind
  redis_kind : Config.RedisConfig → ℤ → DeduplicatorKind

unfoldable pub build_deduplicator : DeduplicationConfig → DeduplicatorKind
build_deduplicator d =
    if d.enabled
    then if text_eq d.type (codes "memory")
      then memory_kind d.ttl
      else if text_eq d.type (codes "redis")
      then redis_kind d.redis d.ttl
      else noop_kind
    else noop_kind

-- The configuration of both processors.
unfoldable pub processor_config : Config.Config → Processor.Config
processor_config c = record {
  workers = c.processor.workers;
  channel_buffer = c.processor.channel_buffer;
  batch_size = c.processor.default_batch_size;
  flush_interval = c.processor.default_flush_interval;
}
