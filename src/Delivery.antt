-- ===== src/Delivery.antt =====
-- The processor of pkg/processor with the plugins of pkg/storage/plugins: what reaches a backend.
pub mod Backends
pub mod Committed
pub mod Replied
pub mod Durable
pub mod Undeduplicated
mod Examples
use extend_game_telemetry_co.Prelude.{Bool, false, ℤ, List, [], ◌∷◌, ◌++◌, Option, Text}
use extend_game_telemetry_co.Processor.FanOut.{Plugin}
use extend_game_telemetry_co.Storage.Plugin.{StoragePlugin}

-- The backend may answer differently at each call: the plugin is a function of whether the context of
-- the call is done and of the batches that it was given before.
module _ {E C : Type 0} (at : Bool → List (List E) → StoragePlugin E C) where
  -- What the processor sees of it.
  abbrev pub processor_plugin : Plugin E
  processor_plugin = record {
    name = (at false []).name;
    filter = (at false []).filter;
    write_batch = λ done earlier batch. ((at done earlier).write_batch batch).1;
  }

  -- The calls of the backend for a sequence of batches that are written before the context is
  -- cancelled.
  pub backend_calls : List (List E) → List (List E) → List C
  backend_calls earlier [] = []
  backend_calls earlier (batch ∷ batches) =
      ((at false earlier).write_batch batch).0 ++ backend_calls (earlier ++ batch ∷ []) batches
