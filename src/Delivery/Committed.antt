-- ===== src/Delivery/Committed.antt =====
-- Events of pkg/processor in a table of pkg/storage/plugins/postgres.
use extend_game_telemetry_co.Prelude.{
  ℕ, ◌<◌, ◌≡◌, refl, ap, sym, ◌∙◌, Bool, false, List, [], ◌∷◌, ◌++◌, Option, some, Text, count,
  concat, get_elem?, Each-get_elem?, ◌&&◌,
}
use extend_game_telemetry_co.Events.{Value, Fields}
use extend_game_telemetry_co.Delivery.{processor_plugin, backend_calls}
use extend_game_telemetry_co.Processor.{Processor}
use extend_game_telemetry_co.Processor.FanOut.{Slot, Plugin}
use extend_game_telemetry_co.Processor.FanOut.Installed.{count-all}
use extend_game_telemetry_co.Processor.Safety.{Reachable, AllExited, graceful_shutdown}
use extend_game_telemetry_co.Storage.{prepare_all}
use extend_game_telemetry_co.Storage.Plugin.{StoragePlugin}
use extend_game_telemetry_co.Storage.Postgres.{PluginConfig, Database, Call, Row, transform}
use extend_game_telemetry_co.Storage.Postgres.Plugin
use extend_game_telemetry_co.Storage.Postgres.Writes.{arguments}
use extend_game_telemetry_co.Storage.Postgres.Commits.{
  committed, NoErrors, passes, committed-write_batch, arguments-prepare_all, count-prepare_all,
}

-- The answers of the database depend on whether the context is done and on the batches before.
module _ (marshal : Value → Option Text) {E : Type 0} (to_document : E → Fields)
    (answers : Bool → List (List E) → Database) (close_error : Option Text) (name : Text)
    (cfg : PluginConfig) where
  abbrev pub postgres_at : Bool → List (List E) → StoragePlugin E Call
  postgres_at done earlier =
      Plugin.plugin marshal (answers done earlier) close_error name to_document cfg

  committed-backend_calls :
      (earlier batches : List (List E))
      → ((before : List (List E)) → NoErrors (answers false before))
      → committed cfg.table [] (backend_calls postgres_at earlier batches)
        ≡ arguments (prepare_all (transform marshal to_document) (concat batches))
  unfolding committed backend_calls prepare_all
  committed-backend_calls earlier [] fine = refl
  committed-backend_calls earlier (batch ∷ batches) fine =
      ap
        (λ calls.
          committed cfg.table []
            (calls ++ backend_calls postgres_at (earlier ++ batch ∷ []) batches))
        (Plugin.plugin-write_batch marshal (answers false earlier) close_error name to_document cfg
          batch)
      ∙ committed-write_batch marshal to_document (answers false earlier) cfg batch
          (backend_calls postgres_at (earlier ++ batch ∷ []) batches) (fine earlier)
      ∙ (ap (λ rest. arguments (prepare_all (transform marshal to_document) batch) ++ rest)
            (committed-backend_calls (earlier ++ batch ∷ []) batches fine)
          ∙ sym (arguments-prepare_all (transform marshal to_document) batch (concat batches)))

  takes_all :
      (plugin : Plugin E) (t : E → Bool) (events : List E)
      → plugin ≡ processor_plugin postgres_at
      → count (λ e. plugin.filter e && t e) events ≡ count t events
  takes_all plugin t events same =
      let all =
        Plugin.plugin-TakesAll marshal (answers false []) close_error name to_document cfg in
      ap (λ p. count (λ e. p.filter e && t e) events) same
      ∙ count-all ((postgres_at false []).filter) t events all.filter

  -- What was accepted is in the table. In a reachable state of a processor with at least one
  -- worker, where all workers have returned and the context was not cancelled, for each PostgreSQL
  -- plugin of the processor whose database reports no error in any transaction whose context is not
  -- done: the arguments of the committed INSERTs are those of rows among which each row stands as
  -- often as accepted events are converted to it (counted by any test), so no event is lost and none
  -- written twice.
  pub accepted_committed :
      {D : Type 0} {q : Processor D E} (i : ℕ) (s : Slot E)
      → Reachable q
      → 0 < q.workers
      → AllExited q
      → q.cancelled ≡ false
      → get_elem? q.plugins i ≡ some s
      → s.plugin ≡ processor_plugin postgres_at
      → ((before : List (List E)) → NoErrors (answers false before))
      → (rows : List Row) × (committed cfg.table [] (backend_calls postgres_at [] s.written)
          ≡ arguments rows)
        × ((t : Row → Bool)
            → count t rows ≡ count (λ e. passes t (transform marshal to_document e)) q.accepted)
  accepted_committed {q} i s reachable some_worker gone live found same fine = (
    prepare_all (transform marshal to_document) (concat s.written),
    committed-backend_calls [] s.written fine,
    λ t.
        let t_of : E → Bool = λ e. passes t (transform marshal to_document e) in
        count-prepare_all (transform marshal to_document) t (concat s.written)
        ∙ (Each-get_elem?
              (λ s.
                count t_of (concat s.written) ≡ count (λ e. s.plugin.filter e && t_of e) q.accepted)
              q.plugins i s (graceful_shutdown reachable some_worker gone live t_of) found
            ∙ takes_all s.plugin t_of q.accepted same),
  )
