-- ===== src/Delivery/Undeduplicated.antt =====
-- The whole way of an event when the deduplicator that internal/bootstrap installs is off or cannot
-- reach its Redis server.
use mathlib.Core.Path.{subst}
use extend_game_telemetry_co.Prelude.{Bool, ℕ, ◌≡◌, inl, inr, ap, ◌∙◌, List, Option, some, Text}
use extend_game_telemetry_co.Bootstrap.{build_deduplicator}
use extend_game_telemetry_co.Bootstrap.Deduplication.{
  Installed, install, OffOrDown, install-NeverFinds,
}
use extend_game_telemetry_co.Config.{DeduplicationConfig}
use extend_game_telemetry_co.Dedup.Redis.{Server, Options}
use extend_game_telemetry_co.Delivery.Durable.{Submitted, Finished, InTable, stat_item_durable}
use extend_game_telemetry_co.Events.{Value, Fields, Float64}
use extend_game_telemetry_co.Events.StatItemUpdated.{StatItemUpdatedEvent}
use extend_game_telemetry_co.Events.StatItemUpdated
use extend_game_telemetry_co.Pb
use extend_game_telemetry_co.Processor.{Processor, Outcome, finished}
use extend_game_telemetry_co.Processor.FanOut.{Slot}
use extend_game_telemetry_co.Processor.Unskipped.{NotSkipped, nothing_skipped}
use extend_game_telemetry_co.Processor.Steps.{later, here, enters, continued}
use extend_game_telemetry_co.Service.{empty, stat_event, stat_on_message}
use extend_game_telemetry_co.Storage.Postgres.{PluginConfig, Database, Row, transform}

module _ {R : Type 0} (new_client : Options → Server R) (now_there : R) (sha256 : Text → List ℕ)
    (float_text : Float64 → Text) where
  -- The deduplicator of stat item events.
  abbrev pub installed_for : DeduplicationConfig → Installed StatItemUpdatedEvent
  installed_for c =
      install new_client now_there sha256 (StatItemUpdated.deduplication_key float_text)
        (build_deduplicator c)

  -- Without duplicates an empty reply means a committed row. Where deduplication is switched off, or
  -- is not of the type memory and Redis answers every check with an error, and the processor has the
  -- deduplicator of the configuration: when the call of `Submit` for a request, from a reachable state, has ended
  -- with an outcome that the handler answers with the empty message, and later a `Shutdown` that is
  -- not cut off returns nil, then the counter of duplicates is 0 and the row of the event (where it
  -- can be converted) is among the rows that are the arguments of the committed INSERTs, for each
  -- PostgreSQL plugin whose database reports no error to a write whose context is not done.
  pub stat_item_committed :
      (c : DeduplicationConfig) (marshal : Value → Option Text) (close_error : Option Text)
      (name : Text) (cfg : PluginConfig) {Struct : Type 0} (as_map : Option Struct → Fields)
      (service : Text) (now_ms : ℕ) (req : Pb.StatItemUpdated Struct)
      (answers : Bool → List (List StatItemUpdatedEvent) → Database) (i j : ℕ) (row : Row)
      (slot : Slot StatItemUpdatedEvent) (outcome : Outcome)
      {p q r : Processor (installed_for c).State StatItemUpdatedEvent}
      → OffOrDown new_client c
      → (s : Submitted j (stat_event as_map service now_ms req) p outcome q)
      → s.reachable.dedup ≡ some (installed_for c).deduplicator
      → (stat_on_message as_map service now_ms (λ _. outcome) (some req)).0 ≡ empty
      → Finished marshal StatItemUpdated.to_document answers close_error name cfg i slot q r
      → transform marshal StatItemUpdated.to_document (stat_event as_map service now_ms req)
        ≡ some row
      → (q.events_duplicated ≡ 0)
        × InTable marshal StatItemUpdated.to_document answers close_error name cfg slot row
  unfolding NotSkipped
  stat_item_committed c marshal close_error name cfg as_map service now_ms req answers i j row slot
        outcome off s built replied f converts =
      let event = stat_event as_map service now_ms req in
      let never =
        install-NeverFinds new_client now_there sha256
          (StatItemUpdated.deduplication_key float_text) c off in
      let unskipped =
        nothing_skipped (installed_for c).deduplicator never s.reachable built
          (continued (later here (enters j event s.free)) s.run) in
      (
        unskipped.none_counted,
        elim (stat_item_durable marshal close_error name cfg as_map service now_ms req answers i j
            row slot outcome s replied f converts) [
              | inl duplicate ↦
                  absurd (subst NotSkipped (s.ended ∙ ap finished duplicate) (unskipped.callers j))
              | inr stored ↦ stored
            ],
      )
