-- ===== src/Lib.antt =====
-- The Go services of VYOMM, a monitor of simulated network devices: samples of devices are validated
-- and stored, threshold breaches are detected, incidents are correlated and decided, and a forecast
-- is extrapolated, behind an HTTP interface, and runbooks are searched.
--
-- The parts and the files that model them:
--   Telemetry     internal/telemetry/model.go: DeviceTelemetry, the provenance Value, Validate
--   Detection     internal/detection/anomaly.go: Detect
--   Forecast      internal/forecast/forecast.go: Build
--   Incidents     internal/incidents/incidents.go: the records; Incidents/Neighbors is
--                 resolveNeighbors, Incidents/Rules the rules and Correlate
--   Incidents/Store    internal/incidents/store.go: Upsert, Decide, Active, List, Restore
--   Persistence   internal/persistence/store.go: the caches; Persistence/Tables has the rows of
--                 migrations/00001_init.sql and the statements on them, Persistence/Ingest is Ingest
--                 and Prune, Persistence/Incidents is UpsertIncident and DecideIncident, and
--                 Persistence/Restore is restore and NewStore
--   Config        internal/config/config.go: load, RetentionDuration, HasRealLLMKey
--   Api           internal/api/handlers.go: handleIngestTelemetry, handleDecideIncident and
--                 riskiestDevice, over the store and the metrics of internal/api/server.go;
--                 Api/Reading has the handlers that read and internal/api/dto.go, Api/Health is
--                 handleHealth
--   Api/Routing   internal/api/server.go: the table of NewMux, withCORS and withMetrics around the
--                 handlers; Api/Errors has the error bodies, and Api/Routing/Mux a reading of the
--                 patterns of the table
--   Runbooks      internal/runbooks/runbooks.go: Retrieve; Runbooks/Loading is Load
--   Logging       internal/observability/logging/logger.go: redactingHandler, New and
--                 LevelFromString; Logging/Secrets is redactPattern and redactString
--   Simulator     cmd/vyomm-simulator/main.go: Generate and post
--   Process       cmd/vyomm-api/main.go: the interval of startRetentionPruning; Process/Startup is
--                 main up to where it listens, and Process/Pruning the pruning loop
-- The files below these hold proofs and are named for what they prove. Prelude, NameSet, GoMap, GoInt,
-- GoTime, GoStrings and Float64 hold the shared types and lemmas; Examples holds runs at concrete
-- samples.
--
-- How the code corresponds. An ingest validates a batch and stores the valid samples; their anomalies
-- go to the buffer of the durable store, and their candidates through UpsertIncident to the incident
-- store and the incidents table. A method that changes a store is a function from the store to the
-- new store and the results. The mutex of the incident store makes each of its methods one step, and
-- Incidents/Store/Recurrence has the step relation. UpsertIncident and DecideIncident hold no lock
-- over memory and table: upsert_incident and decide_incident are the calls of one caller, with no other
-- call in between, and so are the handlers in Api, whose runs serve one request after the other, while
-- Persistence/Incidents/Concurrent lets any number of calls stand between their change of memory and
-- their statement, and write in any order. Fields and functions keep their names in snake case.
--
-- A request goes through withCORS to the route that the multiplexer picks, and its handler's status
-- is counted. Incidents/Store/Refinement states what the incident store promises: a specification that
-- knows of each fault the IDs given out for it and whether it is open, and the answers that it allows
-- each call.
--
-- Parameters of the model, for code outside the repository: float64 is an interface (Float64), whose
-- laws are those of IEEE comparisons and of short constants, and which Float64/Fixed instantiates; the
-- hexadecimal SHA-1 digest, json.Marshal and json.Unmarshal (Codec), and ORDER BY (Sql) are functions;
-- the order in which a map is visited is any permutation; each database call may fail (Faults);
-- strings.ToLower and strconv.ParseFloat are functions; so is the choice of a route by http.ServeMux,
-- with its documented laws (IsMux), and the status of promhttp's handler; a wrapped slog.Handler is
-- a record of its methods; the bytes of rand.Read and the numbers of package math/rand are inputs,
-- and the answers of an HTTP client are a function of the attempt. The regular expression of the secrets is written out as a matcher on runes,
-- with the two runes outside ASCII that fold to Latin letters.
--
-- Bounds and simplifications. Times are nanoseconds since the year 1 without an upper bound, and
-- UnixNano and the index of a host name wrap at 64 bits as in Go. An RFC 3339 text is the second that
-- it denotes. Counters and sequence numbers do not wrap. No definition needs fuel but the printing of
-- decimals, whose 20 digits hold every 64-bit number, and the retries of post, which are three.
--
-- The title of a runbook takes its first byte in upper case by a parameter, since a byte of a longer
-- rune is no text. The directory, the database with its migrations applied, and whether tracing can be
-- set up are inputs of the start of the process.
--
-- Not modelled: the decoding of request bodies, the durations of the request metrics, and spans;
-- tracing, the registration of metrics, the migration runner, the HTTP listener with its shutdown and
-- the flags of the simulator only call libraries.
pub mod Prelude
pub mod Float64
pub mod GoMap
pub mod NameSet
pub mod GoInt
pub mod GoTime
pub mod GoStrings
pub mod Config
pub mod Telemetry
pub mod Detection
pub mod Forecast
pub mod Incidents
pub mod Logging
pub mod Simulator
pub mod Persistence
pub mod Runbooks
pub mod Process
pub mod Api
pub mod Examples
