-- ===== src/Storage/Postgres/Plugin.antt =====
-- The plugins of pkg/storage/plugins/postgres as a whole.
use extend_game_telemetry_co.Prelude.{
  refl, List, ◌≡◌, true, if◌then◌else◌, ◌++◌, Option, none, Text, codes,
}
use extend_game_telemetry_co.Events.{Value, Fields}
use extend_game_telemetry_co.Events.StatItemUpdated.{StatItemUpdatedEvent}
use extend_game_telemetry_co.Events.StatItemUpdated
use extend_game_telemetry_co.Events.OauthTokenGenerated.{OauthTokenGeneratedEvent}
use extend_game_telemetry_co.Events.OauthTokenGenerated
use extend_game_telemetry_co.Storage.Plugin.{StoragePlugin, TakesAll, texts}
use extend_game_telemetry_co.Storage.Postgres.{
  PluginConfig, Database, Call, Error, dsn_required, all_failed, open_failed, ping_failed,
  table_failed, begin_failed, insert_failed, commit_failed, new_stat_item_updated_plugin,
  new_oauth_token_generated_plugin, initialize, write_batch, close,
}

error_text : Text → Error → Text
error_text table dsn_required = codes "postgres DSN is required"
error_text table all_failed = codes "all events failed transformation"
error_text table (open_failed e) = codes "failed to open database: " ++ e
error_text table (ping_failed e) = codes "failed to ping database: " ++ e
error_text table (table_failed e) = codes "failed to create table " ++ table ++ codes ": " ++ e
error_text table (begin_failed e) = codes "failed to begin transaction: " ++ e
error_text table (insert_failed e) = codes "failed to insert events: " ++ e
error_text table (commit_failed e) = codes "failed to commit transaction: " ++ e

-- `close_error` is what closing the database reports.
module _ (marshal : Value → Option Text) (database : Database) (close_error : Option Text) where
  -- The methods of a constructed plugin.
  unfoldable pub plugin : {E : Type 0} → Text → (E → Fields) → PluginConfig → StoragePlugin E Call
  unfolding error_text initialize write_batch close
  plugin name to_document cfg = record {
    name = name;
    initialize =
        let (calls, ending) = initialize database cfg in
        (calls, (ending.0, texts (error_text cfg.table) ending.1));
    filter = λ e. true;
    write_batch = λ events.
        let (calls, result) = write_batch marshal to_document database cfg events in
        (calls, (result.0, texts (error_text cfg.table) result.1));
    close = λ holds. (close holds, if holds then close_error else none);
    health_check = database.ping_error;
  }

  pub stat_item_updated_plugin : PluginConfig → StoragePlugin StatItemUpdatedEvent Call
  unfolding plugin new_stat_item_updated_plugin
  stat_item_updated_plugin cfg =
      plugin (codes "postgres:stat_item_updated") StatItemUpdated.to_document
        (new_stat_item_updated_plugin cfg)

  pub oauth_token_generated_plugin : PluginConfig → StoragePlugin OauthTokenGeneratedEvent Call
  unfolding plugin new_oauth_token_generated_plugin
  oauth_token_generated_plugin cfg =
      plugin (codes "postgres:oauth_token_generated") OauthTokenGenerated.to_document
        (new_oauth_token_generated_plugin cfg)

  pub plugin-TakesAll :
      {E : Type 0} (name : Text) (to_document : E → Fields) (cfg : PluginConfig)
      → TakesAll (plugin name to_document cfg)
  unfolding plugin
  plugin-TakesAll name to_document cfg = record { filter = λ e. refl; write_batch = refl }

  pub plugin-write_batch :
      {E : Type 0} (name : Text) (to_document : E → Fields) (cfg : PluginConfig) (events : List E)
      → ((plugin name to_document cfg).write_batch events).0
        ≡ (write_batch marshal to_document database cfg events).0
  unfolding plugin
  plugin-write_batch name to_document cfg events = refl
