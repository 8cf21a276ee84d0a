-- ===== src/Bootstrap/Processors.antt =====
-- internal/bootstrap/processor.go: the processors of the two event types.
use extend_game_telemetry_co.Prelude.{◌⊎◌, ◌≡◌, ◌↔◌, refl, List, Option, none, some, arith}
use extend_game_telemetry_co.Config
use extend_game_telemetry_co.Config.Validity.{IsValid, IsPositive}
use extend_game_telemetry_co.Dedup.{Deduplicator}
use extend_game_telemetry_co.Bootstrap.{processor_config}
use extend_game_telemetry_co.Processor.{Processor, Limits, start}
use extend_game_telemetry_co.Processor.FanOut.{Plugin}
use extend_game_telemetry_co.Processor.Launch.{start_panics, Refused}

-- `Processors`, for events `S` and `T` and deduplicators with states `C` and `D`.
pub record Processors (C D S T : Type 0) : Type 0 where
  pub stat_item_updated : Processor C S
  pub oauth_token_generated : Processor D T

both_of :
    {C D S T : Type 0}
    → Option (Processor C S)
    → Option (Processor D T)
    → Option (Processors C D S T)
both_of none t = none
both_of (some s) none = none
both_of (some s) (some t) = some (record { stat_item_updated = s; oauth_token_generated = t })

module _ {C D S T : Type 0} (c : Config.Config) (plugins : List (Plugin S) × List (Plugin T))
    (dedups : Deduplicator C S × Deduplicator D T) (states : C × D) (limits : Limits) where
  -- `InitializeProcessors`; `none` is a panic, while a processor is made or while it starts.
  unfoldable pub initialize_processors : Option (Processors C D S T)
  unfolding both_of processor_config
  initialize_processors =
      both_of (start limits (processor_config c) plugins.0 (some dedups.0) states.0)
        (start limits (processor_config c) plugins.1 (some dedups.1) states.1)

  both_of-none :
      (s : Option (Processor C S)) (t : Option (Processor D T)) {P : Type 0}
      → (s ≡ none) ↔ P
      → (t ≡ none) ↔ P
      → (both_of s t ≡ none) ↔ P
  unfolding both_of
  both_of-none none t left right = ((λ h. left.0 refl), (λ p. refl))
  both_of-none (some s) none left right = ((λ h. right.0 refl), (λ p. refl))
  both_of-none (some s) (some t) left right =
      ((λ h. left.0 (ground (arith, h))), (λ h. ground (arith, left.1 h)))

  -- With a valid configuration, setting up the processors panics exactly if the channel buffer or
  -- the batch size is negative or larger than the runtime allows, whatever the plugins and the
  -- deduplicators.
  pub initialize_processors_panics_iff :
      IsValid c
      → (initialize_processors ≡ none) ↔ (
          Refused limits.chan_cap c.processor.channel_buffer
          ⊎ Refused limits.slice_cap c.processor.default_batch_size)
  unfolding initialize_processors processor_config IsPositive
  initialize_processors_panics_iff valid =
      let (n, workers) = valid.workers in
      both_of-none _ _
        (start_panics plugins.0 (some dedups.0) states.0 limits (processor_config c) n workers)
        (start_panics plugins.1 (some dedups.1) states.1 limits (processor_config c) n workers)
