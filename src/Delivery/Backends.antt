-- ===== src/Delivery/Backends.antt =====
-- The plugins that internal/bootstrap/plugins.go constructs, given to the processor.
use extend_game_telemetry_co.Prelude.{
  ℕ, ◌<◌, ◌≡◌, refl, sym, ◌∙◌, ◌⊎◌, Bool, true, false, List, [], ◌∷◌, ◌++◌, Option, Text, codes,
  map, count, concat, Each,
}
use mathlib.Core.Path.{subst}
use extend_game_telemetry_co.Bootstrap.{Backend, postgres, s3, kafka, mongodb, noop}
use extend_game_telemetry_co.Delivery.{processor_plugin}
use extend_game_telemetry_co.Events.{Value, Fields}
use extend_game_telemetry_co.Processor.{Processor}
use extend_game_telemetry_co.Processor.FanOut.{Plugin}
use extend_game_telemetry_co.Processor.FanOut.Installed.{installed}
use extend_game_telemetry_co.Processor.Installed.{Reachable-installed, everything_written}
use extend_game_telemetry_co.Processor.Safety.{Reachable, AllExited}
use extend_game_telemetry_co.Storage.{Stored}
use extend_game_telemetry_co.Storage.Noop.{noop_plugin}
use extend_game_telemetry_co.Storage.Postgres
use extend_game_telemetry_co.Storage.Postgres.Plugin as PostgresPlugin
use extend_game_telemetry_co.Storage.Mongodb
use extend_game_telemetry_co.Storage.Mongodb.Plugin as MongodbPlugin
use extend_game_telemetry_co.Storage.Kafka
use extend_game_telemetry_co.Storage.Kafka.Plugin as KafkaPlugin
use extend_game_telemetry_co.Storage.S3
use extend_game_telemetry_co.Storage.S3.Plugin as S3Plugin

-- What the libraries and the services behind the plugins answer to one write: encoding/json, its
-- indented output and the way back, the times of a batch, the database, the MongoDB server, the Kafka
-- broker and the object store.
pub record Services : Type 0 where
  pub marshal : Value → Option Text
  pub marshal_fields : Fields → Option Text
  pub marshal_indent : List Fields → Bool × Text
  pub unmarshal : Text → Option Fields
  pub moment : S3.Moment
  pub timestamp : Value
  pub database : Postgres.Database
  pub server : Mongodb.Server
  pub insert : List Fields → Mongodb.InsertResult
  pub writer : List Kafka.Message → Option Text
  pub dial : Text → Option Text
  pub partitions : Text → Text → Text ⊎ ℕ
  pub load_error : Text → Option Text
  pub store : S3.PutObject → Option Text
  pub head_bucket : Text → Option Text
  pub close_error : Option Text

-- `label` is the name of the event type. The answers depend on the plugin, on whether the
-- context of the write is done and on the batches that the plugin was given before.
module _ {E : Type 0} (label : Text) (stored : Stored E)
    (services : Backend → Bool → List (List E) → Services) where
  -- The plugin of a backend, as the processor sees it.
  unfoldable pub plugin_of : Backend → Plugin E
  unfolding PostgresPlugin.plugin S3Plugin.plugin KafkaPlugin.plugin MongodbPlugin.plugin
      noop_plugin
  plugin_of (postgres cfg) = processor_plugin (λ done earlier.
      let s = services (postgres cfg) done earlier in
      PostgresPlugin.plugin s.marshal s.database s.close_error (codes "postgres:" ++ label)
        stored.to_document cfg)
  plugin_of (s3 cfg) = processor_plugin (λ done earlier.
      let s = services (s3 cfg) done earlier in
      S3Plugin.plugin s.marshal_indent s.moment s.load_error s.store s.head_bucket label stored cfg)
  plugin_of (kafka cfg) = processor_plugin (λ done earlier.
      let s = services (kafka cfg) done earlier in
      KafkaPlugin.plugin s.marshal_fields s.writer s.dial s.partitions s.close_error label stored
        cfg)
  plugin_of (mongodb cfg) = processor_plugin (λ done earlier.
      let s = services (mongodb cfg) done earlier in
      MongodbPlugin.plugin s.marshal s.unmarshal s.timestamp s.server s.insert s.close_error
        (codes "mongodb:" ++ label) stored cfg)
  plugin_of noop = processor_plugin (λ done earlier. noop_plugin)

  plugin_of-takes_all : (b : Backend) (e : E) → (plugin_of b).filter e ≡ true
  unfolding plugin_of
  plugin_of-takes_all (postgres cfg) e = refl
  plugin_of-takes_all (s3 cfg) e = refl
  plugin_of-takes_all (kafka cfg) e = refl
  plugin_of-takes_all (mongodb cfg) e = refl
  plugin_of-takes_all noop e = refl

  take_all : (bs : List Backend) → Each (λ p. (e : E) → p.filter e ≡ true) (map plugin_of bs)
  take_all [] = tt
  take_all (b ∷ bs) = (plugin_of-takes_all b, take_all bs)

  -- In a reachable state of a processor that was started with the plugins of the backends `bs` and
  -- has at least one worker, after a graceful shutdown: the processor still has these plugins, in
  -- their order, and each was given every accepted event exactly as often as it was accepted,
  -- whatever the backends answered.
  pub every_backend_served :
      {D : Type 0} {q : Processor D E} (bs : List Backend) (r : Reachable q)
      → r.plugins ≡ map plugin_of bs
      → 0 < q.workers
      → AllExited q
      → q.cancelled ≡ false
      → (installed q.plugins ≡ map plugin_of bs)
        × Each (λ s. (t : E → Bool) → count t (concat s.written) ≡ count t q.accepted) q.plugins
  every_backend_served {q = q} bs r same some_worker gone live = (
    Reachable-installed r ∙ same,
    everything_written r some_worker gone live
        (subst (Each (λ p. (e : E) → p.filter e ≡ true)) (sym same) (take_all bs)),
  )
