-- ===== src/Storage/S3/Plugin.antt =====
-- The plugins of pkg/storage/plugins/s3 as a whole.
use extend_game_telemetry_co.Prelude.{
  refl, true, false, Bool, [], ◌++◌, List, Option, none, some, Text, codes, pos,
}
use extend_game_telemetry_co.Events.{Fields}
use extend_game_telemetry_co.Events.StatItemUpdated.{StatItemUpdatedEvent}
use extend_game_telemetry_co.Events.OauthTokenGenerated.{OauthTokenGeneratedEvent}
use extend_game_telemetry_co.Storage.{Stored, stored_stat_item, stored_token}
use extend_game_telemetry_co.Storage.Plugin.{StoragePlugin, TakesAll, texts}
use extend_game_telemetry_co.Storage.S3.{
  PluginConfig, PutObject, Moment, Client, Error, bucket_required, config_failed, marshal_failed,
  upload_failed, head_bucket_failed, new_plugin, initialize, write_batch, health_check,
}

error_text : Error → Text
error_text bucket_required = codes "s3 bucket is required"
error_text (config_failed e) = codes "failed to load AWS config: " ++ e
error_text (marshal_failed e) = codes "failed to marshal events: " ++ e
error_text (upload_failed e) = codes "failed to upload to S3: " ++ e
error_text (head_bucket_failed e) = codes "S3 health check failed: " ++ e

has_client : Option Client → Bool
has_client none = false
has_client (some client) = true

-- `now` is the time of a batch. The calls are those of `PutObject`.
module _ (marshal_indent : List Fields → Bool × Text) (now : Moment)
    (load_error : Text → Option Text) (store : PutObject → Option Text)
    (head_bucket : Text → Option Text) where
  -- `kind` is a part of the object keys; the name is made of it.
  unfoldable pub plugin : {E : Type 0} → Text → Stored E → PluginConfig → StoragePlugin E PutObject
  unfolding error_text has_client initialize write_batch health_check
  plugin kind stored cfg = record {
    name = codes "s3:" ++ kind;
    initialize =
        let (client, error) = initialize load_error cfg in
        ([], (has_client client, texts error_text error));
    filter = λ e. true;
    write_batch = λ events.
        let (calls, result) = write_batch marshal_indent stored kind store cfg now events in
        (calls, (pos result.0, texts error_text result.1));
    close = λ holds. ([], none);
    health_check = texts error_text (health_check head_bucket cfg);
  }

  pub stat_item_updated_plugin : PluginConfig → StoragePlugin StatItemUpdatedEvent PutObject
  unfolding plugin new_plugin
  stat_item_updated_plugin cfg =
      plugin (codes "stat_item_updated") stored_stat_item (new_plugin cfg)

  pub oauth_token_generated_plugin : PluginConfig → StoragePlugin OauthTokenGeneratedEvent PutObject
  unfolding plugin new_plugin
  oauth_token_generated_plugin cfg =
      plugin (codes "oauth_token_generated") stored_token (new_plugin cfg)

  pub plugin-TakesAll :
      {E : Type 0} (kind : Text) (stored : Stored E) (cfg : PluginConfig)
      → TakesAll (plugin kind stored cfg)
  unfolding plugin
  plugin-TakesAll kind stored cfg = record { filter = λ e. refl; write_batch = refl }
