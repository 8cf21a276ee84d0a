-- ===== src/Storage/Mongodb.antt =====
-- pkg/storage/plugins/mongodb. The driver is not under our control: what it answers is a parameter,
-- and so are encoding/json and the value of the time of a call.
pub mod Inserts
pub mod Plugin
mod Examples
use extend_game_telemetry_co.Prelude.{
  ℕ, Bool, true, false, List, [], ◌∷◌, ◌++◌, Option, none, some, Text, codes, ℤ, pos, negsuc, ltb,
  is_empty, if◌then◌else◌,
}
use extend_game_telemetry_co.Events.{Value, object, Fields, end, field, get, has, put}
use extend_game_telemetry_co.Events.StatItemUpdated.{StatItemUpdatedEvent}
use extend_game_telemetry_co.Events.OauthTokenGenerated.{OauthTokenGeneratedEvent}
use extend_game_telemetry_co.Storage.{
  prepare_all, or_default, workers_or_two, twice, Stored, stored_stat_item, stored_token,
}

-- `StatItemUpdatedPluginConfig` and `OauthTokenGeneratedPluginConfig`
pub record PluginConfig : Type 0 where
  pub uri : Text
  pub database : Text
  pub collection : Text
  pub workers : ℤ

new_plugin : Text → PluginConfig → PluginConfig
new_plugin collection cfg = record cfg {
  database = or_default (codes "telemetry") cfg.database;
  collection = or_default collection cfg.collection;
  workers = workers_or_two cfg.workers;
}

pub new_stat_item_updated_plugin : PluginConfig → PluginConfig
unfolding new_plugin
new_stat_item_updated_plugin = new_plugin (codes "stat_item_updated_events")

pub new_oauth_token_generated_plugin : PluginConfig → PluginConfig
unfolding new_plugin
new_oauth_token_generated_plugin = new_plugin (codes "oauth_token_generated_events")

-- `poolSize`, an unsigned number of 64 bits.
pub pool_size : PluginConfig → ℕ
unfolding twice
pool_size cfg = let doubled = twice cfg.workers in if ltb doubled 10 then 10 else doubled

pub data Call : Type 0 where
  connect : Text → ℕ → Call
  ping disconnect : Call
  create_indexes : List (List (Text × ℤ)) → Call
  insert_many : List Fields → Call

-- What the server answers while the plugin is set up; `none` is no error.
pub record Server : Type 0 where
  pub connect_error : Option Text
  pub ping_error : Option Text
  pub index_error : Option Text

pub data Error : Type 0 where
  uri_required : Error
  connect_failed ping_failed indexes_failed insert_failed : Text → Error

-- The keys of `createIndexes`, each with its direction.
abbrev pub index_models : List (List (Text × ℤ))
index_models =
    ((codes "namespace", pos 1) ∷ (codes "server_timestamp", negsuc 0) ∷ [])
    ∷ ((codes "user_id", pos 1) ∷ [])
    ∷ ((codes "event_id", pos 1) ∷ [])
    ∷ []

-- `Initialize`: the calls, whether the plugin holds a client afterwards, and the error. A client
-- that does not answer the ping is disconnected.
pub initialize : Server → PluginConfig → List Call × (Bool × Option Error)
unfolding pool_size
initialize server cfg =
    let connected = connect cfg.uri (pool_size cfg) in
    if is_empty cfg.uri then ([], (false, some uri_required)) else elim server.connect_error [
      | some e ↦ (connected ∷ [], (false, some (connect_failed e)))
      | none ↦ elim server.ping_error [
        | some e ↦ (connected ∷ ping ∷ disconnect ∷ [], (false, some (ping_failed e)))
        | none ↦ elim server.index_error [
          | some e ↦
              (connected ∷ ping ∷ create_indexes index_models ∷ [], (true, some (indexes_failed e)))
          | none ↦ (connected ∷ ping ∷ create_indexes index_models ∷ [], (true, none))
        ]
      ]
    ]

-- What `InsertMany` returns: a result with the number of inserted identifiers, or an error, with
-- or without a result.
pub data InsertResult : Type 0 where
  inserted : ℕ → InsertResult
  partial : Option ℕ → Text → InsertResult

-- `for k, v := range flat { doc[k] = v }`
put_all : Fields → Fields → Fields
put_all end doc = doc
put_all (field k v rest) doc = put_all rest (put k v doc)

-- The count and the error that `WriteBatch` makes of it.
pub result_of : InsertResult → ℕ × Option Error
result_of (inserted n) = (n, none)
result_of (partial (some n) e) = (n, some (insert_failed e))
result_of (partial none e) = (0, some (insert_failed e))

insert_documents :
    (List Fields → InsertResult) → List Fields → List (List Fields) × (ℕ × Option Error)
unfolding result_of
insert_documents answer [] = ([], (0, none))
insert_documents answer (d ∷ documents) = ((d ∷ documents) ∷ [], result_of (answer (d ∷ documents)))

-- `json.Marshal` and `json.Unmarshal` into a map.
reencode : (Text → Option Fields) → Option Text → Option Fields
reencode unmarshal none = none
reencode unmarshal (some text) = unmarshal text

set_payload : Fields → Option Fields → Option Fields
set_payload flat none = none
set_payload flat (some payload) = some (put (codes "payload") (object payload) flat)

stamped : Value → Option Fields → Option Fields
unfolding put_all
stamped now none = none
stamped now (some flat) = some (put_all flat (field (codes "created_at") now end))

module _ (marshal : Value → Option Text) (unmarshal : Text → Option Fields) (now : Value) where
  -- The map `flat` at the loop, or the error.
  flattened : Fields → Option Fields
  unfolding reencode set_payload
  flattened flat =
      if has (codes "payload") flat
      then set_payload flat (reencode unmarshal (marshal (get (codes "payload") flat)))
      else some flat

  module _ {E : Type 0} (stored : Stored E) where
    pub transform : E → Option Fields
    unfolding flattened stamped
    transform e = stamped now (flattened (stored.to_document e))

    -- The calls of `InsertMany`, each with its documents, and the result of `WriteBatch`.
    pub write_batch :
        (List Fields → InsertResult) → List E → List (List Fields) × (ℕ × Option Error)
    unfolding transform insert_documents
    write_batch answer [] = ([], (0, none))
    write_batch answer (e ∷ events) = insert_documents answer (prepare_all transform (e ∷ events))

  -- The plugins of the two event types.
  pub write_stat_items :
      (List Fields → InsertResult)
      → List StatItemUpdatedEvent
      → List (List Fields) × (ℕ × Option Error)
  unfolding write_batch
  write_stat_items = write_batch stored_stat_item

  pub write_tokens :
      (List Fields → InsertResult)
      → List OauthTokenGeneratedEvent
      → List (List Fields) × (ℕ × Option Error)
  unfolding write_batch
  write_tokens = write_batch stored_token
