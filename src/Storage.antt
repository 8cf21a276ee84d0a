-- ===== src/Storage.antt =====
-- pkg/storage: the retry policy and the interface of plugin.go, and the plugins. What the processor
-- sees of the interface stands in Processor/FanOut.antt. Each backend has two source files, one for
-- each event type, that differ in the type and in some names only: the shared code is a function of
-- the document of an event, and each file is an instance.
pub mod Postgres
pub mod Mongodb
pub mod Kafka
pub mod S3
pub mod Retry
pub mod Plugin
pub mod Noop
use extend_game_telemetry_co.Prelude.{
  ℕ, Bool, List, [], ◌∷◌, Option, none, some, Text, ◌*◌, ◌-◌, ◌%◌, ℤ, pos, negsuc, ltb, leℤ,
  if◌then◌else◌, is_empty, suc,
}
use extend_game_telemetry_co.Events.{Fields}
use extend_game_telemetry_co.Events.StatItemUpdated.{StatItemUpdatedEvent}
use extend_game_telemetry_co.Events.StatItemUpdated
use extend_game_telemetry_co.Events.OauthTokenGenerated.{OauthTokenGeneratedEvent}
use extend_game_telemetry_co.Events.OauthTokenGenerated

unfoldable pub cons_some : {R : Type 0} → Option R → List R → List R
cons_some none rest = rest
cons_some (some r) rest = r ∷ rest

-- What a plugin prepares of the events: those that cannot be prepared are logged and left out.
unfoldable pub prepare_all : {E R : Type 0} → (E → Option R) → List E → List R
unfolding cons_some
prepare_all prepare [] = []
prepare_all prepare (e ∷ es) = cons_some (prepare e) (prepare_all prepare es)

-- `if s == "" { s = fallback }`
unfoldable pub or_default : Text → Text → Text
or_default fallback s = if is_empty s then fallback else s

-- `if workers <= 0 { workers = 2 }`
unfoldable pub workers_or_two : ℤ → ℤ
workers_or_two w = if leℤ w (pos 0) then pos 2 else w

-- The numbers of an int, from 2^63 on with a negative sign.
abbrev pub to_int64 : ℕ → ℤ
to_int64 n = if ltb n 0x8000000000000000 then pos n else negsuc (0x10000000000000000 - suc n)

-- `workers * 2` for a positive number of workers, in 64 bits.
unfoldable pub twice : ℤ → ℕ
twice (pos w) = (w * 2) % 0x10000000000000000
twice (negsuc w) = (0x10000000000000000 - (suc w * 2) % 0x10000000000000000) % 0x10000000000000000

-- What the plugins use of an event.
pub record Stored (E : Type 0) : Type 0 where
  pub to_document : E → Fields
  pub user_id : E → Text
  pub namespace : E → Text
  pub server_timestamp : E → ℤ

abbrev pub stored_stat_item : Stored StatItemUpdatedEvent
stored_stat_item = record {
  to_document = StatItemUpdated.to_document;
  user_id = λ e. e.user_id;
  namespace = λ e. e.namespace;
  server_timestamp = λ e. e.server_timestamp;
}

abbrev pub stored_token : Stored OauthTokenGeneratedEvent
stored_token = record {
  to_document = OauthTokenGenerated.to_document;
  user_id = λ e. e.user_id;
  namespace = λ e. e.namespace;
  server_timestamp = λ e. e.server_timestamp;
}
