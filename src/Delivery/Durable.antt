-- ===== src/Delivery/Durable.antt =====
-- The whole way of an event: from a request to pkg/service, over pkg/processor and its shutdown, to a
-- committed row of pkg/storage/plugins/postgres.
use extend_game_telemetry_co.Prelude.{
  ℕ, ◌<◌, ◌≡◌, ◌⊎◌, inl, inr, refl, ap, ◌∙◌, Bool, true, false, List, [], Option, some, Text, arith,
  count, get_elem?,
}
use extend_game_telemetry_co.Delivery.{processor_plugin, backend_calls}
use extend_game_telemetry_co.Delivery.Committed.{postgres_at, accepted_committed}
use extend_game_telemetry_co.Events.{Value, Fields}
use extend_game_telemetry_co.Events.StatItemUpdated.{StatItemUpdatedEvent}
use extend_game_telemetry_co.Events.StatItemUpdated
use extend_game_telemetry_co.Events.OauthTokenGenerated.{OauthTokenGeneratedEvent}
use extend_game_telemetry_co.Events.OauthTokenGenerated
use extend_game_telemetry_co.Pb
use extend_game_telemetry_co.Processor.{
  Processor, Outcome, queued, skipped, refused, panicked, finished, idle, enter,
}
use extend_game_telemetry_co.Processor.Acknowledged.{OneCall, acknowledged_accepted}
use extend_game_telemetry_co.Processor.FanOut.{Slot}
use extend_game_telemetry_co.Processor.Safety.{Reachable}
use extend_game_telemetry_co.Processor.Shutdown.{Shutdown, completed}
use extend_game_telemetry_co.Processor.Shutdown.Losses.{
  completed_shutdown, completed-Reachable, completed-live,
}
use extend_game_telemetry_co.Processor.Steps.{Reach, later, enters, continued}
use extend_game_telemetry_co.Service.{
  empty, stat_event, stat_on_message, token_event, token_on_message,
}
use extend_game_telemetry_co.Storage.Postgres.{PluginConfig, Database, Row, transform}
use extend_game_telemetry_co.Storage.Postgres.Writes.{arguments}
use extend_game_telemetry_co.Storage.Postgres.Commits.{committed, NoErrors, passes}

module _ {D E : Type 0} (j : ℕ) (event : E) (p : Processor D E) where
  -- A caller that is free enters `Submit` with the event in a reachable state, and the call has ended
  -- with an outcome in the state `q`, whatever ran in between.
  pub record Submitted (outcome : Outcome) (q : Processor D E) : Type 0 where
    pub reachable : Reachable p
    pub free : (p.callers j ≡ idle) ⊎ ((o : Outcome) × (p.callers j ≡ finished o))
    pub run : Reach (enter j event p) q
    pub one : OneCall event p.accepted j run
    pub ended : q.callers j ≡ finished outcome

  pub Submitted-Reachable :
      {outcome : Outcome} {q : Processor D E} → Submitted outcome q → Reachable q
  Submitted-Reachable s = record {
    limits = s.reachable.limits;
    config = s.reachable.config;
    plugins = s.reachable.plugins;
    dedup = s.reachable.dedup;
    dedup_state = s.reachable.dedup_state;
    first = s.reachable.first;
    starts = s.reachable.starts;
    steps = continued (later s.reachable.steps (enters j event s.free)) s.run;
  }

-- The shutdown `Shutdown` returns nil, and plugin `i` is a PostgreSQL plugin without errors as long as the
-- context is not done.
module _ {E : Type 0} (marshal : Value → Option Text) (to_document : E → Fields)
    (answers : Bool → List (List E) → Database) (close_error : Option Text) (name : Text)
    (cfg : PluginConfig) where
  pub record Finished {D : Type 0} (i : ℕ) (slot : Slot E) (q r : Processor D E) : Type 0 where
    pub shutdown : Shutdown q completed r
    pub live : q.cancelled ≡ false
    pub some_worker : 0 < r.workers
    pub found : get_elem? r.plugins i ≡ some slot
    pub same :
        slot.plugin
        ≡ processor_plugin (postgres_at marshal to_document answers close_error name cfg)
    pub fine : (before : List (List E)) → NoErrors (answers false before)

  -- The committed INSERTs are those of rows among which the row is.
  abbrev pub InTable : Slot E → Row → Type 0
  InTable slot row =
      (rows : List Row) × (committed cfg.table [] (
          backend_calls (postgres_at marshal to_document answers close_error name cfg) []
            slot.written)
        ≡ arguments rows)
      × ((t : Row → Bool) → t row ≡ true → 0 < count t rows)

  acknowledged_committed :
      {D : Type 0} (i j : ℕ) (event : E) (row : Row) (slot : Slot E) {p q r : Processor D E}
      → Submitted j event p queued q
      → Finished i slot q r
      → transform marshal to_document event ≡ some row
      → InTable slot row
  acknowledged_committed i j event row slot {p} {q} {r} s f converts =
      let reachable = Submitted-Reachable j event p s in
      let (live, gone) = completed-live f.shutdown f.live in
      let (rows, stored, counts) =
        accepted_committed marshal to_document answers close_error name cfg i slot
          (completed-Reachable reachable f.shutdown) f.some_worker gone live f.found f.same
          f.fine in
      (
        rows,
        stored,
        λ t passing.
            let u : E → Bool = λ e. passes t (transform marshal to_document e) in
            omega (
              arith,
              counts t,
              ap (count u) (completed_shutdown reachable f.shutdown f.live f.some_worker).0,
              acknowledged_accepted j event p q s.run u s.one s.ended
                  (ap (passes t) converts ∙ passing),
            ),
      )

module _ (marshal : Value → Option Text) (close_error : Option Text) (name : Text)
    (cfg : PluginConfig) where
  -- A stat item event with an empty reply is committed, or a duplicate. When the call of `Submit` that
  -- the handler makes for a request, in a reachable state of its processor, has ended with an
  -- outcome, whatever ran in between, and the handler answers that outcome with the empty message,
  -- and later a `Shutdown` that is not cut off returns nil: then the event was skipped as a
  -- duplicate, or its row (where it can be converted) is among the rows that are the arguments of the
  -- committed INSERTs, for each PostgreSQL plugin whose database reports no error to a write
  -- whose context is not done.
  pub stat_item_durable :
      {D Struct : Type 0} (as_map : Option Struct → Fields) (service : Text) (now_ms : ℕ)
      (req : Pb.StatItemUpdated Struct)
      (answers : Bool → List (List StatItemUpdatedEvent) → Database) (i j : ℕ) (row : Row)
      (slot : Slot StatItemUpdatedEvent) (outcome : Outcome)
      {p q r : Processor D StatItemUpdatedEvent}
      → Submitted j (stat_event as_map service now_ms req) p outcome q
      → (stat_on_message as_map service now_ms (λ _. outcome) (some req)).0 ≡ empty
      → Finished marshal StatItemUpdated.to_document answers close_error name cfg i slot q r
      → transform marshal StatItemUpdated.to_document (stat_event as_map service now_ms req)
        ≡ some row
      → (outcome ≡ skipped)
        ⊎ InTable marshal StatItemUpdated.to_document answers close_error name cfg slot row
  unfolding stat_on_message
  stat_item_durable as_map service now_ms req answers i j row slot queued s replied f converts =
      inr (
        acknowledged_committed marshal StatItemUpdated.to_document answers close_error name cfg i j
          (stat_event as_map service now_ms req) row slot s f converts)
  stat_item_durable as_map service now_ms req answers i j row slot skipped s replied f converts =
      inl refl
  stat_item_durable as_map service now_ms req answers i j row slot refused s replied f converts = cc
  stat_item_durable as_map service now_ms req answers i j row slot panicked s replied f converts =
      cc

  -- The same for the events of generated tokens.
  token_durable :
      {D : Type 0} (service : Text) (now_ms : ℕ) (req : Pb.OauthTokenGenerated)
      (answers : Bool → List (List OauthTokenGeneratedEvent) → Database) (i j : ℕ) (row : Row)
      (slot : Slot OauthTokenGeneratedEvent) (outcome : Outcome)
      {p q r : Processor D OauthTokenGeneratedEvent}
      → Submitted j (token_event service now_ms req) p outcome q
      → (token_on_message service now_ms (λ _. outcome) (some req)).0 ≡ empty
      → Finished marshal OauthTokenGenerated.to_document answers close_error name cfg i slot q r
      → transform marshal OauthTokenGenerated.to_document (token_event service now_ms req)
        ≡ some row
      → (outcome ≡ skipped)
        ⊎ InTable marshal OauthTokenGenerated.to_document answers close_error name cfg slot row
  unfolding token_on_message
  token_durable service now_ms req answers i j row slot queued s replied f converts = inr (
      acknowledged_committed marshal OauthTokenGenerated.to_document answers close_error name cfg i
        j (token_event service now_ms req) row slot s f converts)
  token_durable service now_ms req answers i j row slot skipped s replied f converts = inl refl
  token_durable service now_ms req answers i j row slot refused s replied f converts = cc
  token_durable service now_ms req answers i j row slot panicked s replied f converts = cc
