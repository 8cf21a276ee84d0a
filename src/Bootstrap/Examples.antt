-- ===== src/Bootstrap/Examples.antt =====
-- A configuration with a list of two known names and an unknown one.
use extend_game_telemetry_co.Prelude.{
  ◌≡◌, refl, [], ◌∷◌, Option, none, Text, codes, map, keep, inr, text_eq, split, trim_space,
  is_space,
}
use extend_game_telemetry_co.Config
use extend_game_telemetry_co.Config.{AbExtendConfig, get_enabled_plugins, names_of, trimmed_names}
use extend_game_telemetry_co.Config.Defaults.{default_config}
use extend_game_telemetry_co.Config.Plugins.{with_list}
use extend_game_telemetry_co.Bootstrap.{
  Backend, name_of, StoragePlugins, initialize_storage_plugins, load_plugins, add_known,
  add_plugins, cons_plugins, with_fallback, or_noop, plugins_of, kafka, noop, kafka_of,
}
use extend_game_telemetry_co.Bootstrap.Selection.{is_known, or_noop_name, chosen_plugins}

abbrev credentials : AbExtendConfig
credentials = record {
  base_url = codes "https://api.accelbyte.io";
  client_id = codes "c1";
  client_secret = codes "secret";
  namespace = codes "game";
}

abbrev config : Config.Config
config = with_list (default_config credentials) (codes "kafka, redshift, noop")

abbrev init : Backend → Option Text
init b = none

abbrev loaded : StoragePlugins
loaded = record {
  stat_item_updated = kafka (kafka_of config.storage (codes ".stat_item_updated")) ∷ noop ∷ [];
  oauth_token_generated =
      kafka (kafka_of config.storage (codes ".oauth_token_generated")) ∷ noop ∷ [];
}

loads : initialize_storage_plugins init init config ≡ inr loaded
unfolding initialize_storage_plugins load_plugins add_known add_plugins cons_plugins with_fallback
    or_noop plugins_of get_enabled_plugins names_of trimmed_names default_config split trim_space
    is_space text_eq
loads = refl

chosen_plugins_example :
    (map name_of loaded.stat_item_updated
      ≡ or_noop_name (keep is_known (get_enabled_plugins config)))
    × (map name_of loaded.oauth_token_generated
        ≡ or_noop_name (keep is_known (get_enabled_plugins config)))
chosen_plugins_example = chosen_plugins init init config loaded loads
