-- ===== src/Storage/S3.antt =====
-- pkg/storage/plugins/s3. The object store is not under our control: what it answers is a parameter,
-- and so are encoding/json and the calendar of package time.
pub mod Objects
pub mod Plugin
mod Examples
use extend_game_telemetry_co.Prelude.{
  ℕ, ◌+◌, Bool, true, false, List, [], ◌∷◌, ◌++◌, Option, none, some, Text, codes, is_empty, ltb,
  length, map, decimal, if◌then◌else◌,
}
use extend_game_telemetry_co.Events.{Fields}
use extend_game_telemetry_co.Events.StatItemUpdated.{StatItemUpdatedEvent}
use extend_game_telemetry_co.Events.OauthTokenGenerated.{OauthTokenGeneratedEvent}
use extend_game_telemetry_co.Storage.{or_default, Stored, stored_stat_item, stored_token}

-- `StatItemUpdatedPluginConfig` and `OauthTokenGeneratedPluginConfig`
pub record PluginConfig : Type 0 where
  pub bucket : Text
  pub prefix : Text
  pub region : Text
  pub endpoint : Text

-- The constructor, which is the same for both event types.
pub new_plugin : PluginConfig → PluginConfig
new_plugin cfg = record cfg {
  prefix = or_default (codes "telemetry") cfg.prefix;
  region = or_default (codes "us-east-1") cfg.region;
}

pub data Error : Type 0 where
  bucket_required : Error
  config_failed marshal_failed upload_failed head_bucket_failed : Text → Error

-- The options of the client: an endpoint of its own, with path-style addresses, or AWS.
pub data Client : Type 0 where
  custom_endpoint : Text → Client
  aws : Client

-- `Initialize`, with what loading the AWS configuration for a region reports.
pub initialize : (Text → Option Text) → PluginConfig → Option Client × Option Error
initialize load_error cfg =
    if is_empty cfg.bucket then (none, some bucket_required) else elim (load_error cfg.region) [
      | some e ↦ (none, some (config_failed e))
      | none ↦
          if is_empty cfg.endpoint
          then (some aws, none)
          else (some (custom_endpoint cfg.endpoint), none)
    ]

-- What the plugin reads of `time.Now().UTC()`.
pub record Moment : Type 0 where
  pub year : ℕ
  pub month : ℕ
  pub day : ℕ
  pub unix_milli : ℕ
  pub rfc3339 : Text

-- The verb %02d.
pub two_digits : ℕ → Text
two_digits n = if ltb n 10 then b'0' ∷ decimal n else decimal n

-- The part of the key behind the namespace.
pub key_rest : Moment → Text
unfolding two_digits
key_rest now =
    codes "year="
    ++ (decimal now.year
        ++ (codes "/month="
            ++ (two_digits now.month
                ++ (codes "/day="
                    ++ (two_digits now.day
                        ++ (codes "/" ++ (decimal now.unix_milli ++ codes ".json")))))))

pub object_key : Text → Text → Text → Moment → Text
unfolding key_rest
object_key prefix kind namespace now =
    prefix ++ (codes "/" ++ (kind ++ (codes "/" ++ (namespace ++ (codes "/" ++ key_rest now)))))

-- `PutObjectInput`
pub record PutObject : Type 0 where
  pub bucket : Text
  pub key : Text
  pub body : Text
  pub content_type : Text
  pub namespace : Text
  pub event_count : Text
  pub created_at : Text

put_of : Text → PluginConfig → Moment → Text → ℕ → Text → PutObject
unfolding object_key
put_of kind cfg now namespace event_count data_bytes = record {
  bucket = cfg.bucket;
  key = object_key cfg.prefix kind namespace now;
  body = data_bytes;
  content_type = codes "application/json";
  namespace = namespace;
  event_count = decimal event_count;
  created_at = now.rfc3339;
}

-- `PutObject` and the result of `WriteBatch`.
upload : (PutObject → Option Text) → PutObject → ℕ → List PutObject × (ℕ × Option Error)
upload store put event_count = elim (store put) [
  | some e ↦ (put ∷ [], (0, some (upload_failed e)))
  | none ↦ (put ∷ [], (event_count, none))
]

-- `marshal_indent` gives the bytes or the error of `json.MarshalIndent`.
module _ (marshal_indent : List Fields → Bool × Text) where
  module _ {E : Type 0} (stored : Stored E) (kind : Text) where
    -- The calls of `PutObject`, and the result of `WriteBatch`.
    pub write_batch :
        (PutObject → Option Text)
        → PluginConfig
        → Moment
        → List E
        → List PutObject × (ℕ × Option Error)
    unfolding upload put_of
    write_batch store cfg now [] = ([], (0, none))
    write_batch store cfg now (e ∷ events) =
        let (encoded, text) = marshal_indent (map stored.to_document (e ∷ events)) in
        if encoded
        then upload store (put_of kind cfg now (stored.namespace e) (length (e ∷ events)) text)
            (length (e ∷ events))
        else ([], (0, some (marshal_failed text)))

  -- The plugins of the two event types.
  pub write_stat_items :
      (PutObject → Option Text)
      → PluginConfig
      → Moment
      → List StatItemUpdatedEvent
      → List PutObject × (ℕ × Option Error)
  unfolding write_batch
  write_stat_items = write_batch stored_stat_item (codes "stat_item_updated")

  pub write_tokens :
      (PutObject → Option Text)
      → PluginConfig
      → Moment
      → List OauthTokenGeneratedEvent
      → List PutObject × (ℕ × Option Error)
  unfolding write_batch
  write_tokens = write_batch stored_token (codes "oauth_token_generated")

-- `HealthCheck`, with what `HeadBucket` reports.
pub health_check : (Text → Option Text) → PluginConfig → Option Error
health_check head_bucket cfg = elim (head_bucket cfg.bucket) [
  | some e ↦ some (head_bucket_failed e)
  | none ↦ none
]
