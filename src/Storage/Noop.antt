-- ===== src/Storage/Noop.antt =====
-- pkg/storage/plugins/noop/noop.go: the plugin that discards every event. It makes no calls.
use extend_game_telemetry_co.Prelude.{refl, true, [], none, codes, pos, length}
use extend_game_telemetry_co.Storage.Plugin.{StoragePlugin, TakesAll}

unfoldable pub noop_plugin : {E : Type 0} → StoragePlugin E (Unit {0})
noop_plugin = record {
  name = codes "noop";
  initialize = ([], (true, none));
  filter = λ e. true;
  write_batch = λ events. ([], (pos (length events), none));
  close = λ holds. ([], none);
  health_check = none;
}

pub noop_plugin-TakesAll : {E : Type 0} → TakesAll (noop_plugin {E = E})
unfolding noop_plugin
noop_plugin-TakesAll = record { filter = λ e. refl; write_batch = refl }
