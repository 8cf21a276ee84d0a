-- ===== src/Server/Grpc.antt =====
-- `NewGRPCServer` of internal/server/grpc.go. What the interceptors and the options do is in the
-- libraries: the model says which are installed, in which order, and computes the fields of the log.
use extend_game_telemetry_co.Prelude.{
  Bool, List, [], ◌∷◌, ◌++◌, Text, codes, ◌⊎◌, inr, if◌then◌else◌,
}

-- `logging.LoggableEvent`
pub data LoggableEvent : Type 0 where
  start_call finish_call payload_received payload_sent : LoggableEvent

-- What `trace.SpanContextFromContext` finds in the context of a call.
pub record SpanContext : Type 0 where
  pub sampled : Bool
  pub trace_id : Text

-- The function given to `WithFieldsFromContext`: keys and values in turn.
pub fields_from_context : SpanContext → List Text
fields_from_context span = if span.sampled then codes "traceID" ∷ span.trace_id ∷ [] else []

-- The options of the logging interceptors. The levels and the form of a duration are the library's.
pub record LoggingOptions : Type 0 where
  pub log_on : List LoggableEvent
  pub fields : SpanContext → List Text

pub logging_options : LoggingOptions
unfolding fields_from_context
logging_options = record {
  log_on = start_call ∷ finish_call ∷ payload_received ∷ payload_sent ∷ [];
  fields = fields_from_context;
}

-- An interceptor of either kind of call; the logger is `InterceptorLogger` (Common/Logging).
pub data Interceptor : Type 0 where
  prometheus_metrics : Interceptor
  logging : LoggingOptions → Interceptor

-- What is registered at the server.
pub data Registration : Type 0 where
  reflection health_check metrics : Registration
  stat_item_updated oauth_token_generated : Text → Registration

-- The handler of OpenTelemetry is its only stats handler.
pub record GrpcServer : Type 0 where
  pub unary_interceptors : List Interceptor
  pub stream_interceptors : List Interceptor
  pub registered : List Registration

interceptors : List Interceptor
unfolding logging_options
interceptors = prometheus_metrics ∷ logging logging_options ∷ []

pub register : Registration → GrpcServer → GrpcServer
register r s = record s { registered = s.registered ++ r ∷ [] }

-- The server that it makes.
unfoldable pub configured : GrpcServer
unfolding interceptors register
configured = register metrics (
    register health_check (
      register reflection (record {
        unary_interceptors = interceptors;
        stream_interceptors = interceptors;
        registered = [];
      })))

-- It has an error to return, and never does.
unfoldable pub new_grpc_server : Text ⊎ GrpcServer
unfolding configured
new_grpc_server = inr configured
