-- ===== src/Storage/Mongodb/Plugin.antt =====
-- The plugins of pkg/storage/plugins/mongodb as a whole.
use extend_game_telemetry_co.Prelude.{
  refl, true, if◌then◌else◌, [], ◌∷◌, ◌++◌, List, Option, none, Text, codes, map, pos,
}
use extend_game_telemetry_co.Events.{Value, Fields}
use extend_game_telemetry_co.Events.StatItemUpdated.{StatItemUpdatedEvent}
use extend_game_telemetry_co.Events.OauthTokenGenerated.{OauthTokenGeneratedEvent}
use extend_game_telemetry_co.Storage.{Stored, stored_stat_item, stored_token}
use extend_game_telemetry_co.Storage.Plugin.{StoragePlugin, TakesAll, texts}
use extend_game_telemetry_co.Storage.Mongodb.{
  PluginConfig, Server, Call, insert_many, disconnect, Error, uri_required, connect_failed,
  ping_failed, indexes_failed, insert_failed, InsertResult, new_stat_item_updated_plugin,
  new_oauth_token_generated_plugin, initialize, write_batch,
}

-- The error of an insertion is returned as it is.
error_text : Text → Error → Text
error_text collection uri_required = codes "mongodb URI is required"
error_text collection (connect_failed e) = codes "failed to connect to mongodb: " ++ e
error_text collection (ping_failed e) = codes "failed to ping mongodb: " ++ e
error_text collection (indexes_failed e) =
    codes "failed to create indexes on " ++ collection ++ codes ": " ++ e
error_text collection (insert_failed e) = e

-- `insert` is what `InsertMany` answers, `now` the time of a batch, and `disconnect_error` what
-- disconnecting reports.
module _ (marshal : Value → Option Text) (unmarshal : Text → Option Fields) (now : Value)
    (server : Server) (insert : List Fields → InsertResult) (disconnect_error : Option Text) where
  unfoldable pub plugin : {E : Type 0} → Text → Stored E → PluginConfig → StoragePlugin E Call
  unfolding error_text initialize write_batch
  plugin name stored cfg = record {
    name = name;
    initialize =
        let (calls, ending) = initialize server cfg in
        (calls, (ending.0, texts (error_text cfg.collection) ending.1));
    filter = λ e. true;
    write_batch = λ events.
        let (calls, result) = write_batch marshal unmarshal now stored insert events in
        (map insert_many calls, (pos result.0, texts (error_text cfg.collection) result.1));
    close = λ holds. if holds then (disconnect ∷ [], disconnect_error) else ([], none);
    health_check = server.ping_error;
  }

  pub stat_item_updated_plugin : PluginConfig → StoragePlugin StatItemUpdatedEvent Call
  unfolding plugin new_stat_item_updated_plugin
  stat_item_updated_plugin cfg =
      plugin (codes "mongodb:stat_item_updated") stored_stat_item (new_stat_item_updated_plugin cfg)

  pub oauth_token_generated_plugin : PluginConfig → StoragePlugin OauthTokenGeneratedEvent Call
  unfolding plugin new_oauth_token_generated_plugin
  oauth_token_generated_plugin cfg =
      plugin (codes "mongodb:oauth_token_generated") stored_token
        (new_oauth_token_generated_plugin cfg)

  pub plugin-TakesAll :
      {E : Type 0} (name : Text) (stored : Stored E) (cfg : PluginConfig)
      → TakesAll (plugin name stored cfg)
  unfolding plugin
  plugin-TakesAll name stored cfg = record { filter = λ e. refl; write_batch = refl }
