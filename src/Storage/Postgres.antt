-- ===== src/Storage/Postgres.antt =====
-- pkg/storage/plugins/postgres. The database is not under our control: what its calls answer is a
-- parameter, and the model gives the calls that the plugin makes.
pub mod Placeholders
pub mod Writes
pub mod Commits
pub mod Setup
pub mod Plugin
pub mod Table
mod Examples
use extend_game_telemetry_co.Prelude.{
  ℕ, zero, suc, ◌+◌, ◌/◌, Bool, true, false, List, [], ◌∷◌, ◌++◌, Option, none, some, Text, codes,
  ℤ, pos, ltℤ, join, decimal, is_empty, if◌then◌else◌, pos_part, map,
}
use Table.{create_table_query}
use extend_game_telemetry_co.Events.{Value, str, Fields, get}
use extend_game_telemetry_co.Events.StatItemUpdated.{StatItemUpdatedEvent}
use extend_game_telemetry_co.Events.StatItemUpdated
use extend_game_telemetry_co.Events.OauthTokenGenerated.{OauthTokenGeneratedEvent}
use extend_game_telemetry_co.Events.OauthTokenGenerated
use extend_game_telemetry_co.Storage.{prepare_all, or_default, workers_or_two, twice, to_int64}

-- `StatItemUpdatedPluginConfig` and `OauthTokenGeneratedPluginConfig`
pub record PluginConfig : Type 0 where
  pub dsn : Text
  pub table : Text
  pub workers : ℤ

-- The constructors.
new_plugin : Text → PluginConfig → PluginConfig
new_plugin table cfg = record cfg {
  table = or_default table cfg.table;
  workers = workers_or_two cfg.workers;
}

pub new_stat_item_updated_plugin : PluginConfig → PluginConfig
unfolding new_plugin
new_stat_item_updated_plugin = new_plugin (codes "stat_item_updated_events")

pub new_oauth_token_generated_plugin : PluginConfig → PluginConfig
unfolding new_plugin
new_oauth_token_generated_plugin = new_plugin (codes "oauth_token_generated_events")

-- `maxOpenConns`
pub max_open_conns : PluginConfig → ℤ
unfolding twice
max_open_conns cfg =
    let doubled = to_int64 (twice cfg.workers) in if ltℤ doubled (pos 10) then pos 10 else doubled

-- The calls that the plugin makes.
pub data Call : Type 0 where
  open_database : Text → Call
  set_max_open_conns set_max_idle_conns : ℤ → Call
  ping begin_tx commit_tx rollback_tx close_database : Call
  create_table : Text → Call
  exec_query : Text → List Value → Call

-- What the database answers: `none` where there is no error, and the affected rows of an insert.
pub record Database : Type 0 where
  pub open_error : Option Text
  pub ping_error : Option Text
  pub table_error : Option Text
  pub begin_error : Option Text
  pub exec_error : Text → List Value → Option Text
  pub commit_error : Option Text
  pub rows_affected : Text → List Value → ℤ

pub data Error : Type 0 where
  dsn_required all_failed : Error
  open_failed ping_failed table_failed begin_failed insert_failed commit_failed : Text → Error

-- `Initialize`: the calls, whether the plugin holds the database afterwards, and the error.
abbrev pub Initialized : Type 0
Initialized = List Call × (Bool × Option Error)

-- `maxOpenConns / 2`, of a number that is at least 10.
pub max_idle_conns : PluginConfig → ℤ
unfolding max_open_conns
max_idle_conns cfg = pos (pos_part (max_open_conns cfg) / 2)

pooled : PluginConfig → List Call
unfolding max_open_conns max_idle_conns
pooled cfg =
    open_database cfg.dsn
    ∷ set_max_open_conns (max_open_conns cfg)
    ∷ set_max_idle_conns (max_idle_conns cfg)
    ∷ ping
    ∷ []

pub initialize : Database → PluginConfig → Initialized
unfolding pooled
initialize database cfg =
    if is_empty cfg.dsn then ([], (false, some dsn_required)) else elim database.open_error [
      | some e ↦ (open_database cfg.dsn ∷ [], (false, some (open_failed e)))
      | none ↦ elim database.ping_error [
        | some e ↦ (pooled cfg, (false, some (ping_failed e)))
        | none ↦ elim database.table_error [
          | some e ↦ (
            pooled cfg ++ create_table (create_table_query cfg.table) ∷ [],
            (true, some (table_failed e)),
          )
          | none ↦ (pooled cfg ++ create_table (create_table_query cfg.table) ∷ [], (true, none))
        ]
      ]
    ]

-- The map that `transform` returns.
pub record Row : Type 0 where
  pub namespace : Value
  pub user_id : Value
  pub event_id : Value
  pub timestamp : Value
  pub server_timestamp : Value
  pub payload : Value

-- `json.Marshal` of the payload, with `none` as its error.
row_of : Fields → Option Text → Option Row
row_of doc none = none
row_of doc (some payload_json) = some (record {
  namespace = get (codes "namespace") doc;
  user_id = get (codes "user_id") doc;
  event_id = get (codes "event_id") doc;
  timestamp = get (codes "timestamp") doc;
  server_timestamp = get (codes "server_timestamp") doc;
  payload = str payload_json;
})

pub row_args : Row → List Value
row_args row =
    row.namespace ∷ row.user_id ∷ row.event_id ∷ row.timestamp ∷ row.server_timestamp ∷ row.payload
    ∷ []

-- `fmt.Sprintf("($%d,$%d,$%d,$%d,$%d,$%d)", argPos, …)`
pub placeholders : ℕ → Text
placeholders arg_pos =
    codes "($"
    ++ decimal arg_pos
    ++ codes ",$"
    ++ decimal (arg_pos + 1)
    ++ codes ",$"
    ++ decimal (arg_pos + 2)
    ++ codes ",$"
    ++ decimal (arg_pos + 3)
    ++ codes ",$"
    ++ decimal (arg_pos + 4)
    ++ codes ",$"
    ++ decimal (arg_pos + 5)
    ++ codes ")"

-- `valueStrings` and `valueArgs`, from `argPos` on.
abbrev pub Values : Type 0
Values = List Text × List Value

add_row : ℕ → Option Row → (ℕ → Values) → Values
unfolding placeholders row_args
add_row arg_pos none rest = rest arg_pos
add_row arg_pos (some row) rest =
    let (strings, args) = rest (arg_pos + 6) in
    (placeholders arg_pos ∷ strings, row_args row ++ args)

query_of : Text → List Text → Text
query_of table strings =
    codes "INSERT INTO "
    ++ table
    ++ codes " (namespace, user_id, event_id, timestamp, server_timestamp, payload) VALUES "
    ++ join (codes ",") strings

-- From `ExecContext` on; `tx.Rollback` is deferred, and does nothing after a commit.
insert_values : Database → Text → List Value → List Call × (ℤ × Option Error)
insert_values database query args = elim (database.exec_error query args) [
  | some e ↦ (begin_tx ∷ exec_query query args ∷ rollback_tx ∷ [], (pos 0, some (insert_failed e)))
  | none ↦ elim database.commit_error [
    | some e ↦ (
      begin_tx ∷ exec_query query args ∷ commit_tx ∷ rollback_tx ∷ [],
      (pos 0, some (commit_failed e)),
    )
    | none ↦ (
      begin_tx ∷ exec_query query args ∷ commit_tx ∷ rollback_tx ∷ [],
      (database.rows_affected query args, none),
    )
  ]
]

write_values : Database → PluginConfig → Values → List Call × (ℤ × Option Error)
unfolding insert_values query_of
write_values database cfg ([], args) = (begin_tx ∷ rollback_tx ∷ [], (pos 0, some all_failed))
write_values database cfg (s ∷ strings, args) =
    insert_values database (query_of cfg.table (s ∷ strings)) args

module _ (marshal : Value → Option Text) {E : Type 0} (to_document : E → Fields) where
  unfoldable pub transform : E → Option Row
  unfolding row_of
  transform e = let doc = to_document e in row_of doc (marshal (get (codes "payload") doc))

  -- The loop of `WriteBatch`.
  pub build : List E → ℕ → Values
  unfolding transform add_row
  build [] arg_pos = ([], [])
  build (e ∷ events) arg_pos = add_row arg_pos (transform e) (build events)

  pub write_batch : Database → PluginConfig → List E → List Call × (ℤ × Option Error)
  unfolding build write_values
  write_batch database cfg [] = ([], (pos 0, none))
  write_batch database cfg (e ∷ events) = elim database.begin_error [
    | some error ↦ (begin_tx ∷ [], (pos 0, some (begin_failed error)))
    | none ↦ write_values database cfg (build (e ∷ events) 1)
  ]

-- The plugins of the two event types.
pub write_stat_items :
    (Value → Option Text)
    → Database
    → PluginConfig
    → List StatItemUpdatedEvent
    → List Call × (ℤ × Option Error)
unfolding write_batch
write_stat_items marshal = write_batch marshal StatItemUpdated.to_document

pub write_tokens :
    (Value → Option Text)
    → Database
    → PluginConfig
    → List OauthTokenGeneratedEvent
    → List Call × (ℤ × Option Error)
unfolding write_batch
write_tokens marshal = write_batch marshal OauthTokenGenerated.to_document

-- `Close`, with whether the plugin holds a database.
pub close : Bool → List Call
close holds = if holds then close_database ∷ [] else []
