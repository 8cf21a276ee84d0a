-- ===== src/App/Close.antt =====
-- `Shutdown` of internal/app/app.go with the functions of internal/bootstrap that it calls, and `main`
-- of main.go.
use extend_game_telemetry_co.Prelude.{
  ◌≡◌, List, [], ◌∷◌, ◌++◌, Option, none, some, Text, ◌⊎◌, inl, inr,
}
use extend_game_telemetry_co.Bootstrap.{Backend, StoragePlugins}
use extend_game_telemetry_co.App.{World, Application, Action, new, run}

pub data Kind : Type 0 where
  stat_item_updated oauth_token_generated : Kind

-- The parts that are stopped, a plugin by its configuration: each call is `Shutdown` of a processor (with a timeout of 30 s),
-- `Close` of a deduplicator or a plugin, or the shutdown function of the tracer.
pub data Part : Type 0 where
  processor deduplicator : Kind → Part
  plugin : Kind → Backend → Part
  tracer : Part

-- What a function of the shutdown leaves: the parts that it stopped, in order, and the errors
-- that it logged.
abbrev pub Stopped : Type 0
Stopped = List Part × List (Part × Text)

infixr 6 ◌then◌
◌then◌ : Stopped → Stopped → Stopped
first then second = (first.0 ++ second.0, first.1 ++ second.1)

-- `answer` is the error that a part reports. For a processor it is that of the timeout.
module _ (answer : Part → Option Text) where
  -- `if err := …; err != nil { logger.Error(…) }`
  logged : Part → Option Text → List (Part × Text)
  logged part none = []
  logged part (some e) = (part, e) ∷ []

  stop : Part → Stopped
  unfolding logged
  stop part = (part ∷ [], logged part (answer part))

  pub shutdown_processors : Stopped
  unfolding stop ◌then◌
  shutdown_processors =
      stop (processor stat_item_updated) then stop (processor oauth_token_generated)

  pub close_deduplicators : Stopped
  unfolding stop ◌then◌
  close_deduplicators =
      stop (deduplicator stat_item_updated) then stop (deduplicator oauth_token_generated)

  close_plugins : Kind → List Backend → Stopped
  unfolding stop ◌then◌
  close_plugins kind [] = ([], [])
  close_plugins kind (p ∷ plugins) = stop (plugin kind p) then close_plugins kind plugins

  pub close_storage_plugins : StoragePlugins → Stopped
  unfolding close_plugins ◌then◌
  close_storage_plugins plugins =
      close_plugins stat_item_updated plugins.stat_item_updated
      then close_plugins oauth_token_generated plugins.oauth_token_generated

  -- The method of the application.
  pub shutdown : Application → Stopped
  unfolding shutdown_processors close_deduplicators close_storage_plugins stop ◌then◌
  shutdown app =
      shutdown_processors
      then close_deduplicators
      then close_storage_plugins app.plugins
      then stop tracer

  -- The errors of the given parts.
  pub errors_of : List Part → List (Part × Text)
  unfolding logged
  errors_of [] = []
  errors_of (part ∷ parts) = logged part (answer part) ++ errors_of parts

  -- What was logged are the errors of what was stopped.
  abbrev AllLogged : Stopped → Type 0
  AllLogged s = s.1 ≡ errors_of s.0

-- How `main` ends: `os.Exit(1)` after an error, or a return after the shutdown on a signal.
pub data Exit : Type 0 where
  exits : Text → Exit
  returns : Stopped → Exit

main_from : World → (Part → Option Text) → Text ⊎ Application → Exit
unfolding shutdown run
main_from w answer (inl e) = exits e
main_from w answer (inr app) = elim (run w) [
  | some e ↦ exits e
  | none ↦ returns (shutdown answer app)
]

pub main : World → (Part → Option Text) → List Action × Exit
unfolding main_from
main w answer = let (actions, result) = new w in (actions, main_from w answer result)
