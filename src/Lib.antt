-- ===== src/Lib.antt =====
-- Verification of the game telemetry collector (extend-game-telemetry-collector-event-handler).
--
-- The program receives events over gRPC, drops duplicates, queues the rest in a buffered channel,
-- batches them in worker goroutines, and writes each batch to every storage plugin. The files
-- follow that path:
--
--   Pb          pkg/pb: the messages and getters that the handlers read.
--   Service     pkg/service: the handlers `OnMessage` of the two event types.
--   Events      pkg/events: the events, their deduplication keys and their documents.
--   Dedup       pkg/dedup: the interface, the fingerprint, the memory and Redis deduplicators.
--               Dedup/Memory/History is about any history of calls, Dedup/Memory/Cleanup about the
--               clean-up goroutine beside the callers under one clock.
--   Processor   pkg/processor: the batcher (Processor/Batcher), the fan-out to plugins
--               (Processor/FanOut), `Submit`, the workers and `Shutdown` as atomic actions, and all
--               their interleavings (Processor/Steps).
--               Processor/Bags is the abstract queue that Processor/Refines shows it to refine.
--               Of the other children that prove, Processor/Safety is about every reachable state,
--               Processor/Duplicates about the duplicate check with the memory deduplicator (and
--               Processor/Duplicates/Timed with its time to live), Processor/Duplicates/Shared about
--               the check with Redis, Processor/Duplicates/Race about calls that overlap,
--               Processor/Unskipped about deduplicators that find nothing,
--               Processor/Shutdown about the call of `Shutdown` as a whole, what it delivers and what
--               its timeout leaves,
--               Processor/Closed and Processor/Drain about a shutdown, Processor/Quiet about what
--               still runs after it, Processor/Acknowledged about a finished call of `Submit`,
--               and Processor/Installed with Processor/FanOut/Installed about the plugins that the
--               processor was given.
--   Storage     pkg/storage: the retry policy, the plugin interface (Storage/Plugin), and what the
--               PostgreSQL, MongoDB, Kafka and S3 plugins send to their backends and make of the
--               answers; the file Plugin of each has the plugins of both event types as a whole.
--   Delivery    the parts together: from accepted events to the plugins that internal/bootstrap
--               constructs (Delivery/Backends) and to committed rows (Delivery/Committed), from a
--               request to an accepted event (Delivery/Replied) and to a row (Delivery/Durable, and
--               Delivery/Undeduplicated where deduplication is off or Redis is down).
--   Config      pkg/config: the parsed configuration, its defaults (Config/Defaults), its validation
--               (Config/Validity), the list of plugins (Config/Plugins).
--   Bootstrap   internal/bootstrap: which plugins and deduplicators a configuration builds, and how
--               both processors are set up (Bootstrap/Processors, and Bootstrap/Deduplication for
--               the deduplicator that each gets).
--   Server      internal/server: addresses, metrics, the service name and the tracer; Server/Grpc is
--               the gRPC server with its interceptors and registrations.
--   App         internal/app and main.go: the start as a chain of fallible steps that records what it
--               did (App/Start), the shutdown as the list of parts stopped and errors logged
--               (App/Close).
--   Common      pkg/common: environment variables, the interceptor's logger, tracing scopes, trace
--               identifiers.
--   Prelude     names, tests, lists, texts and families that the others share.
--
-- How the state corresponds. A Go struct is a record with the same fields. A method under a mutex
-- is one function from the state to the state and the result; time is an argument. A goroutine is a
-- member of a family indexed by numbers, and its program counter is data: a caller of `Submit` is
-- `entered`, `fresh`, `sending`, `waiting` or `finished`, a worker has its batcher and a flag that
-- it has returned. The runtime's timers are part of the batcher: armed, expired, callback waiting.
-- A call of the deduplicator or of `WriteBatch` is told whether the processor's context is cancelled,
-- which after a `Shutdown` that timed out it is; that the 100 ms or the 30 s of its own timeout have
-- passed shows as an error of the backend, which may answer each call with one. What a property says
-- of calls of `WriteBatch` after such a `Shutdown` is that they are made and with which events, not
-- that a backend, whose context is then done, takes them.
-- `processBatch` is one step of the goroutine that flushes, which holds the batcher's mutex and waits
-- for the plugins. The mutex is that of one worker: in the program the batches of two workers that
-- flush at once can come to two plugins in different orders, and `eventsProcessed` is counted only
-- after the writes. The properties do not depend on either: they speak of how often an event reaches
-- a plugin, and not of the order of batches across workers or of that counter.
-- The history of accepted events and of processed batches is kept beside the state, to state the
-- theorems.
--
-- Texts are lists of code points. A float64 is its bit pattern, and how package fmt prints one is a
-- parameter. Signed integers and durations are integers without a bound; the counters wrap at 2 ^ 64.
-- No loop takes fuel: all are recursions on lists, or on the number of rounds. Only the printing
-- of a number n takes n as a bound on its digits, which is shown to be enough (Prelude/Decimal).
--
-- Parameters, since their code is not in the repository: the SHA-256 digest, structpb's `AsMap`, the
-- random generator, `fmt.Sprintf`, the JSON encoder, the calendar, what Redis, the databases, the
-- broker and the object store answer, and which capacities `make` takes besides not a negative one.
-- Not modelled: what the interceptors of the gRPC server and the metrics server do, the inside of the
-- IAM login, the set-up of the JSON logger, and log lines other than errors of the shutdown. An
-- unbuffered channel, which the validation of the configuration excludes, would hand events over
-- without the buffer, and is not modelled.
pub mod App
pub mod Bootstrap
pub mod Common
pub mod Config
pub mod Dedup
pub mod Delivery
pub mod Events
pub mod Pb
pub mod Prelude
pub mod Processor
pub mod Server
pub mod Service
pub mod Storage
