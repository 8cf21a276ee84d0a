-- ===== src/Storage/Kafka/Plugin.antt =====
-- The plugins of pkg/storage/plugins/kafka as a whole.
use extend_game_telemetry_co.Prelude.{
  ℕ, refl, true, if◌then◌else◌, [], ◌∷◌, ◌++◌, ◌⊎◌, List, Option, none, Text, codes, map, pos,
}
use extend_game_telemetry_co.Events.{Fields}
use extend_game_telemetry_co.Events.StatItemUpdated.{StatItemUpdatedEvent}
use extend_game_telemetry_co.Events.OauthTokenGenerated.{OauthTokenGeneratedEvent}
use extend_game_telemetry_co.Storage.{Stored, stored_stat_item, stored_token}
use extend_game_telemetry_co.Storage.Plugin.{StoragePlugin, TakesAll, texts}
use extend_game_telemetry_co.Storage.Kafka.{
  PluginConfig, Writer, Message, Error, all_failed, write_failed, no_brokers, dial_failed,
  partitions_failed, no_partitions, initialize, write_batch, health_check,
}

-- `Initialize` only makes the writer, which connects by itself.
pub data Call : Type 0 where
  new_writer : Writer → Call
  write_messages : List Message → Call
  close_writer : Call

error_text : Error → Text
error_text all_failed = codes "all events failed transformation"
error_text (write_failed e) = codes "failed to write messages to Kafka: " ++ e
error_text no_brokers = codes "no kafka brokers configured"
error_text (dial_failed e) = codes "kafka health check failed: " ++ e
error_text (partitions_failed e) = codes "failed to read topic partitions: " ++ e
error_text (no_partitions topic) = codes "topic " ++ topic ++ codes " has no partitions"

module _ (marshal : Fields → Option Text) (writer : List Message → Option Text)
    (dial : Text → Option Text) (partitions : Text → Text → Text ⊎ ℕ)
    (close_error : Option Text) where
  -- `kind` is the header of the messages; the name is made of it.
  unfoldable pub plugin : {E : Type 0} → Text → Stored E → PluginConfig → StoragePlugin E Call
  unfolding error_text initialize write_batch health_check
  plugin kind stored cfg = record {
    name = codes "kafka:" ++ kind;
    initialize = (new_writer (initialize cfg) ∷ [], (true, none));
    filter = λ e. true;
    write_batch = λ events.
        let (calls, result) = write_batch marshal stored kind writer events in
        (map write_messages calls, (pos result.0, texts error_text result.1));
    close = λ holds. if holds then (close_writer ∷ [], close_error) else ([], none);
    health_check = texts error_text (health_check dial partitions cfg);
  }

  pub stat_item_updated_plugin : PluginConfig → StoragePlugin StatItemUpdatedEvent Call
  unfolding plugin
  stat_item_updated_plugin = plugin (codes "stat_item_updated") stored_stat_item

  pub oauth_token_generated_plugin : PluginConfig → StoragePlugin OauthTokenGeneratedEvent Call
  unfolding plugin
  oauth_token_generated_plugin = plugin (codes "oauth_token_generated") stored_token

  pub plugin-TakesAll :
      {E : Type 0} (kind : Text) (stored : Stored E) (cfg : PluginConfig)
      → TakesAll (plugin kind stored cfg)
  unfolding plugin
  plugin-TakesAll kind stored cfg = record { filter = λ e. refl; write_batch = refl }
