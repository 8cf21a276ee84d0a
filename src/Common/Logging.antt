-- ===== src/Common/Logging.antt =====
-- pkg/common/logging.go: `InterceptorLogger`.
use extend_game_telemetry_co.Prelude.{List, Option, none, some, Text, ℤ}
use extend_game_telemetry_co.App.{Level, debug, info, warn, error}

-- `logging.Level` of the gRPC middleware.
pub data ClientLevel : Type 0 where
  level_debug level_info level_warn level_error : ClientLevel
  other_level : ℤ → ClientLevel

pub slog_level : ClientLevel → Option Level
slog_level level_debug = some debug
slog_level level_info = some info
slog_level level_warn = some warn
slog_level level_error = some error
slog_level (other_level lvl) = none

-- A call of `LogAttrs`.
pub record Record (A : Type 0) : Type 0 where
  pub level : Level
  pub msg : Text
  pub attrs : List (Text × A)

-- `pairs` is the iterator over the fields, a part of the middleware; `none` is the panic.
pub interceptor_logger :
    {A : Type 0} → (List A → List (Text × A)) → ClientLevel → Text → List A → Option (Record A)
unfolding slog_level
interceptor_logger pairs lvl msg fields = elim (slog_level lvl) [
  | none ↦ none
  | some level ↦ some (record { level = level; msg = msg; attrs = pairs fields })
]
