-- ===== src/Server.antt =====
-- internal/server and pkg/common/tracerProvider.go: which addresses the servers listen on, and what
-- the tracer is set up with. The libraries for gRPC, Prometheus and OpenTelemetry are not
-- modelled: what they are called with is, and where a call can fail its answer is a parameter.
pub mod Grpc
use extend_game_telemetry_co.Prelude.{
  ℕ, List, [], ◌∷◌, ◌++◌, Option, none, some, Text, codes, decimal, is_empty, if◌then◌else◌, ◌⊎◌,
  inl, inr,
}

abbrev pub grpc_server_port : ℕ
grpc_server_port = 6565

abbrev pub metrics_port : ℕ
metrics_port = 8080

abbrev pub metrics_endpoint : Text
metrics_endpoint = codes "/metrics"

-- `fmt.Sprintf(":%d", port)`
pub address : ℕ → Text
address port = b':' ∷ decimal port

-- `StartGRPCServer`, with what `net.Listen` reports for an address; serving itself goes on in a
-- goroutine of its own.
pub start_grpc_server : (Text → Option Text) → ℕ → Option Text
unfolding address
start_grpc_server listen port = elim (listen (address port)) [
  | none ↦ none
  | some e ↦ some (codes "failed to listen on port " ++ decimal port ++ codes ": " ++ e)
]

-- A collector of metrics.
pub data Collector : Type 0 where
  go_collector process_collector grpc_server_metrics : Collector

-- The Prometheus server: where it listens, which path it serves, and the metrics there.
pub record MetricsServer : Type 0 where
  pub address : Text
  pub endpoint : Text
  pub collectors : List Collector

-- `StartMetricsServer`: the address is only opened in the goroutine, so it reports no error; the
-- result is what is served where.
pub start_metrics_server : ℕ → MetricsServer
unfolding address
start_metrics_server port = record {
  address = address port;
  endpoint = metrics_endpoint;
  collectors = go_collector ∷ process_collector ∷ grpc_server_metrics ∷ [];
}

-- `os.Getenv`: an unset variable is empty.
abbrev pub Environment : Type 0
Environment = Text → Text

pub zipkin_endpoint : Environment → Text
zipkin_endpoint getenv =
    let val = getenv (codes "OTEL_EXPORTER_ZIPKIN_ENDPOINT") in
    if is_empty val then codes "http://localhost:9411/api/v2/spans" else val

-- `TracerProvider`: the exporter's endpoint and the service name. Every span is sampled.
pub record TracerProvider : Type 0 where
  pub endpoint : Text
  pub service_name : Text

-- `NewTracerProvider`, with what `zipkin.New` reports for an endpoint.
pub new_tracer_provider : (Text → Option Text) → Environment → Text → Text ⊎ TracerProvider
unfolding zipkin_endpoint
new_tracer_provider exporter getenv service_name = elim (exporter (zipkin_endpoint getenv)) [
  | some e ↦ inl e
  | none ↦ inr (record { endpoint = zipkin_endpoint getenv; service_name = service_name })
]

-- The name that `SetupTelemetry` gives the service; `lower_case` is `strings.ToLower`.
pub service_name_of : (Text → Text) → Environment → Text → Text
service_name_of lower_case getenv service_name =
    let val = getenv (codes "OTEL_SERVICE_NAME") in
    if is_empty val then service_name else codes "extend-app-se-" ++ lower_case val

unfoldable pub setup_telemetry :
    (Text → Option Text) → (Text → Text) → Environment → Text → Text ⊎ TracerProvider
unfolding new_tracer_provider service_name_of
setup_telemetry exporter lower_case getenv service_name =
    elim (new_tracer_provider exporter getenv (service_name_of lower_case getenv service_name)) [
      | inl e ↦ inl (codes "failed to create tracer provider: " ++ e)
      | inr provider ↦ inr provider
    ]
