-- ===== src/Storage/Kafka.antt =====
-- pkg/storage/plugins/kafka. The broker is not under our control: what it answers is a parameter,
-- and so is encoding/json.
pub mod Messages
pub mod Plugin
mod Examples
use extend_game_telemetry_co.Prelude.{
  ℕ, Bool, true, false, List, [], ◌∷◌, Option, none, some, Text, codes, ℤ, pos, text_eq, is_empty,
  length, if◌then◌else◌, ◌==◌, ◌⊎◌, inl, inr,
}
use extend_game_telemetry_co.Events.{Fields}
use extend_game_telemetry_co.Events.StatItemUpdated.{StatItemUpdatedEvent}
use extend_game_telemetry_co.Events.OauthTokenGenerated.{OauthTokenGeneratedEvent}
use extend_game_telemetry_co.Storage.{
  prepare_all, or_default, Stored, stored_stat_item, stored_token,
}

-- `StatItemUpdatedPluginConfig` and `OauthTokenGeneratedPluginConfig`
pub record PluginConfig : Type 0 where
  pub brokers : List Text
  pub topic : Text
  pub compression : Text
  pub batch_size : ℤ
  pub flush_interval : ℤ

pub data Compression : Type 0 where
  gzip lz4 zstd snappy : Compression

pub compression_codec : Text → Compression
compression_codec name =
    if text_eq name (codes "gzip")
    then gzip
    else if text_eq name (codes "lz4")
    then lz4
    else if text_eq name (codes "zstd")
    then zstd
    else snappy

-- `kafkago.Writer`, as `Initialize` sets it: hashed keys, synchronous, acknowledged by all
-- replicas.
pub record Writer : Type 0 where
  pub addr : List Text
  pub topic : Text
  pub batch_size : ℤ
  pub batch_timeout : ℤ
  pub compression : Compression

pub initialize : PluginConfig → Writer
unfolding compression_codec
initialize cfg = record {
  addr = cfg.brokers;
  topic = cfg.topic;
  batch_size = cfg.batch_size;
  batch_timeout = cfg.flush_interval;
  compression = compression_codec (or_default (codes "snappy") cfg.compression);
}

-- `kafkago.Message`; `time` counts milliseconds, and the headers are pairs.
pub record Message : Type 0 where
  pub key : Text
  pub value : Text
  pub time : ℤ
  pub headers : List (Text × Text)

pub data Error : Type 0 where
  all_failed : Error
  write_failed : Text → Error
  no_brokers : Error
  dial_failed partitions_failed no_partitions : Text → Error

-- `writer.WriteMessages` and the result of `WriteBatch`; `none` is no error.
write_messages :
    (List Message → Option Text) → List Message → List (List Message) × (ℕ × Option Error)
write_messages writer [] = ([], (0, some all_failed))
write_messages writer (m ∷ messages) = elim (writer (m ∷ messages)) [
  | some e ↦ ((m ∷ messages) ∷ [], (0, some (write_failed e)))
  | none ↦ ((m ∷ messages) ∷ [], (length (m ∷ messages), none))
]

module _ (marshal : Fields → Option Text) {E : Type 0} (stored : Stored E) (kind : Text) where
  message_of : E → Option Text → Option Message
  message_of e none = none
  message_of e (some data_bytes) = some (record {
    key = stored.user_id e;
    value = data_bytes;
    time = stored.server_timestamp e;
    headers = (codes "namespace", stored.namespace e) ∷ (codes "kind", kind) ∷ [];
  })

  -- `transform`, and the message that is made of its result.
  pub message : E → Option Message
  unfolding message_of
  message e = message_of e (marshal (stored.to_document e))

  -- The calls of `WriteMessages`, and the result of `WriteBatch`.
  pub write_batch : (List Message → Option Text) → List E → List (List Message) × (ℕ × Option Error)
  unfolding message write_messages
  write_batch writer [] = ([], (0, none))
  write_batch writer (e ∷ events) = write_messages writer (prepare_all message (e ∷ events))

-- The plugins of the two event types.
pub write_stat_items :
    (Fields → Option Text)
    → (List Message → Option Text)
    → List StatItemUpdatedEvent
    → List (List Message) × (ℕ × Option Error)
unfolding write_batch
write_stat_items marshal = write_batch marshal stored_stat_item (codes "stat_item_updated")

pub write_tokens :
    (Fields → Option Text)
    → (List Message → Option Text)
    → List OauthTokenGeneratedEvent
    → List (List Message) × (ℕ × Option Error)
unfolding write_batch
write_tokens marshal = write_batch marshal stored_token (codes "oauth_token_generated")

-- `HealthCheck`: `dial` is the error of reaching the first broker, if any, and `partitions` gives
-- the number of partitions of the topic, or the error.
pub health_check : (Text → Option Text) → (Text → Text → Text ⊎ ℕ) → PluginConfig → Option Error
health_check dial partitions cfg = elim cfg.brokers [
  | [] ↦ some no_brokers
  | broker ∷ brokers ↦ elim (dial broker) [
    | some e ↦ some (dial_failed e)
    | none ↦ elim (partitions broker cfg.topic) [
      | inl e ↦ some (partitions_failed e)
      | inr n ↦ if n == 0 then some (no_partitions cfg.topic) else none
    ]
  ]
]
