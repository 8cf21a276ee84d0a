-- ===== src/Config/Examples.antt =====
-- What `ValidateConfig` and `GetEnabledPlugins` make of concrete configurations.
use extend_game_telemetry_co.Prelude.{
  ◌≡◌, ◌↔◌, refl, [], ◌∷◌, none, codes, join, Each, split, trim_space, is_space,
}
use extend_game_telemetry_co.Config.{
  AbExtendConfig, validate_config, get_enabled_plugins, names_of, trimmed_names,
}
use extend_game_telemetry_co.Config
use extend_game_telemetry_co.Config.Validity.{IsValid, validate_config_lem}
use extend_game_telemetry_co.Config.Defaults.{default_config}
use extend_game_telemetry_co.Config.Plugins.{IsName, comma, with_list, names_of-join}

abbrev credentials : AbExtendConfig
credentials = record {
  base_url = codes "https://api.accelbyte.io";
  client_id = codes "c1";
  client_secret = codes "secret";
  namespace = codes "game";
}

abbrev kafka_and_s3 : Config.Config
kafka_and_s3 = with_list (default_config credentials) (codes " kafka, ,s3")

reads_two : get_enabled_plugins kafka_and_s3 ≡ codes "kafka" ∷ codes "s3" ∷ []
unfolding get_enabled_plugins names_of trimmed_names default_config split trim_space is_space
reads_two = refl

validate_config_example :
    (validate_config (default_config credentials) ≡ none) ↔ IsValid (default_config credentials)
validate_config_example = validate_config_lem (default_config credentials)

two_names-IsName : Each IsName (codes "kafka" ∷ codes "s3" ∷ [])
unfolding IsName trim_space is_space
two_names-IsName = ((refl, refl, refl), ((refl, refl, refl), tt))

names_of-join_example :
    names_of (join (comma ∷ []) (codes "kafka" ∷ codes "s3" ∷ [])) ≡ codes "kafka" ∷ codes "s3" ∷ []
names_of-join_example = names_of-join (codes "kafka" ∷ codes "s3" ∷ []) two_names-IsName
