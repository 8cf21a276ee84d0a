-- ===== src/App/Start.antt =====
-- How the start in internal/app/app.go ends.
use mathlib.Core.Path.{subst}
use extend_game_telemetry_co.Prelude.{
  ◌≡◌, ◌↔◌, refl, Bool, true, false, List, Option, none, Text, codes, arith, Each, Each-append, ◌⊎◌,
  inl, inr,
}
use extend_game_telemetry_co.Config
use extend_game_telemetry_co.Config.{load_config, validate_config}
use extend_game_telemetry_co.Config.Validity.{IsValid, IsPositive, load_config-IsValid}
use extend_game_telemetry_co.Bootstrap.{
  StoragePlugins, initialize_storage_plugins, processor_config,
}
use extend_game_telemetry_co.Dedup.{Deduplicator}
use extend_game_telemetry_co.Processor.{Limits, start}
use extend_game_telemetry_co.Processor.Launch.{start_panics, Refused}
use extend_game_telemetry_co.Processor.FanOut.{Plugin}
use extend_game_telemetry_co.Server.{TracerProvider, setup_telemetry}
use extend_game_telemetry_co.Server.Grpc.{configured}
use extend_game_telemetry_co.App.{
  World, Application, IamServices, Action, log_in, set_tracer_provider, start_plugins,
  start_processors, register_stat_item_updated, register_oauth_token_generated, Starting, ◌>>=◌,
  act, wrapped, new, initialize_iam, assemble, assembled, with_tracer,
}

-- The actions that let events in.
abbrev pub opens : Action → Bool
opens log_in = false
opens (set_tracer_provider provider) = false
opens (start_plugins plugins) = false
opens (start_processors config) = true
opens (register_stat_item_updated namespace) = true
opens (register_oauth_token_generated namespace) = true

-- If this part fails, it has not let events in.
abbrev Safe : {A : Type 0} → Starting A → Type 0
Safe m = (e : Text) → m.1 ≡ inl e → Each (λ a. opens a ≡ false) m.0

bind-Safe :
    {A B : Type 0} (m : Starting A) (f : A → Starting B)
    → Each (λ a. opens a ≡ false) m.0
    → ((a : A) → Safe (f a))
    → Safe (m >>= f)
bind-Safe (actions, inl failed) f closed safe e h = closed
bind-Safe (actions, inr a) f closed safe e h =
    Each-append (λ a. opens a ≡ false) actions (f a).0 closed (safe a e h)

wrapped-Safe :
    {A B : Type 0} (what : Text) (r : Text ⊎ A) (f : A → Starting B)
    → ((a : A) → Safe (f a))
    → Safe (wrapped what r >>= f)
wrapped-Safe what (inl failed) f safe = bind-Safe (wrapped what (inl failed)) f tt safe
wrapped-Safe what (inr a) f safe = bind-Safe (wrapped what (inr a)) f tt safe

assemble-Safe :
    (w : World) (c : Config.Config) (tracer : TracerProvider) (plugins : StoragePlugins)
    (iam : IamServices)
    → Safe (assemble w c iam tracer plugins)
unfolding assemble
assemble-Safe w c tracer plugins iam e h = ground arith

-- When the start fails, no processor was started and no service was registered.
pub failed_start :
    (w : World) (e : Text) → (new w).1 ≡ inl e → Each (λ a. opens a ≡ false) (new w).0
unfolding new with_tracer
failed_start w = wrapped-Safe (codes "failed to load configuration: ") (load_config w.parsed) _ λ c.
    wrapped-Safe (codes "failed to initialize IAM: ") (initialize_iam w) _ λ iam.
      bind-Safe (act log_in) _ (refl, tt)
        λ _.
          wrapped-Safe (codes "failed to setup telemetry: ")
            (setup_telemetry w.exporter_error w.lower_case w.getenv
              (codes "extend-app-service-extension"))
            (with_tracer w c iam)
            λ tracer.
              bind-Safe (act (set_tracer_provider tracer)) _ (refl, tt)
                λ _.
                  wrapped-Safe (codes "failed to initialize storage plugins: ")
                    (initialize_storage_plugins w.init_stat w.init_token c)
                    (assemble w c iam tracer) (λ plugins. assemble-Safe w c tracer plugins iam)

-- If this part succeeds, its result is good.
abbrev Yields : {A : Type 0} → (A → Type 0) → Starting A → Type 0
Yields {A} Good m = (a : A) → m.1 ≡ inr a → Good a

bind-Yields :
    {A B : Type 0} (Good : B → Type 0) (m : Starting A) (f : A → Starting B)
    → ((a : A) → m.1 ≡ inr a → Yields Good (f a))
    → Yields Good (m >>= f)
bind-Yields Good (actions, inl e) f good b h = ground arith
bind-Yields Good (actions, inr a) f good b h = good a refl b h

wrapped-inr :
    {A : Type 0} (what : Text) (r : Text ⊎ A) (a : A) → (wrapped what r).1 ≡ inr a → r ≡ inr a
wrapped-inr what (inl e) a h = ground arith
wrapped-inr what (inr b) a h = h

-- A valid configuration, from which the processors are set up.
abbrev WellSet : Application → Type 0
WellSet app = IsValid app.config × (app.processors ≡ processor_config app.config)

assemble-WellSet :
    (w : World) (c : Config.Config) (tracer : TracerProvider) (plugins : StoragePlugins)
    (iam : IamServices)
    → IsValid c
    → Yields WellSet (assemble w c iam tracer plugins)
unfolding assemble assembled
assemble-WellSet w c tracer plugins iam valid app made =
    let same : assembled w c iam tracer plugins configured ≡ app = ground (arith, made) in
    subst WellSet same (valid, refl)

started-WellSet : (w : World) → Yields WellSet (new w)
unfolding new with_tracer
started-WellSet w =
    bind-Yields WellSet (wrapped (codes "failed to load configuration: ") (load_config w.parsed)) _
      λ c loaded.
        bind-Yields WellSet (wrapped (codes "failed to initialize IAM: ") (initialize_iam w)) _
          λ iam _.
            bind-Yields WellSet
              (wrapped (codes "failed to setup telemetry: ") (
                setup_telemetry w.exporter_error w.lower_case w.getenv
                  (codes "extend-app-service-extension")))
              (with_tracer w c iam)
              λ tracer _.
                bind-Yields WellSet
                  (wrapped (codes "failed to initialize storage plugins: ")
                    (initialize_storage_plugins w.init_stat w.init_token c))
                  (assemble w c iam tracer)
                  λ plugins _. assemble-WellSet w c tracer plugins iam (
                    load_config-IsValid w.parsed c (
                      wrapped-inr (codes "failed to load configuration: ") (load_config w.parsed) c
                        loaded))

-- When the processors of a started application panic. Setting up a processor with its
-- configuration, whatever the plugins and the deduplicator, panics exactly if the channel buffer or
-- the batch size is a capacity that `make` does not take: a negative one, or one larger than the
-- runtime allows.
pub started_processor_panics_iff :
    {D T : Type 0} (w : World) (app : Application) (plugins : List (Plugin T))
    (dedup : Option (Deduplicator D T)) (state : D) (limits : Limits)
    → (new w).1 ≡ inr app
    → (start limits app.processors plugins dedup state ≡ none) ↔ (
        Refused limits.chan_cap app.config.processor.channel_buffer
        ⊎ Refused limits.slice_cap app.config.processor.default_batch_size)
unfolding processor_config IsPositive
started_processor_panics_iff w app plugins dedup state limits started =
    let (valid, same) = started-WellSet w app started in
    let (n, workers) = valid.workers in
    rw same (start_panics plugins dedup state limits (processor_config app.config) n workers)
