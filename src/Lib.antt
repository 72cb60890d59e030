-- ===== src/Lib.antt =====
-- IngestKit takes events over HTTP, publishes them to a broker, and has a consumer write them to
-- PostgreSQL. This library models the core of that way and proves what the parts promise to each
-- other. Strings are lists of bytes, a duration or a time is a number of nanoseconds.
--
-- The way of an event. A request enters `serve` (Api/App.antt, of internal/api/app.go and
-- internal/api/ingest.go), is authenticated (Api/Auth.antt) and limited by its tenant's bucket
-- (Api/RateLimit.antt; both of internal/api/middleware). Api/Middleware.antt (of app.go,
-- requestid.go and errors.go) has the handlers in front of the routes, which give a request its
-- identifier and observe its outcome, and the handler of errors. Api/RateLimit/Interleaved.antt
-- takes the two critical sections of the limiter apart, with buckets that requests share. The body
-- is decoded and checked (Event/*, of internal/event), each event is stamped with the tenant and
-- the time of receipt, and `publish_events` (Messaging/Publisher.antt, of
-- internal/messaging/publisher.go) encodes the envelopes and waits for the broker's answers. A
-- reader polls the broker (`run`, Messaging/Reader.antt, of internal/messaging/reader.go), and
-- works off each partition (`process_partition`, Messaging/Process.antt, of
-- internal/messaging/process.go): it decodes the records, writes batches with retries, quarantines
-- what does not decode, and commits. A batch is one insert statement (Persistence.antt, of
-- internal/persistence/events.go). What the consumer's operations report ends up in its readiness
-- and its log (Service/Health.antt and Service/Diagnostics.antt, of internal/service).
-- Config/ApiKeys.antt and Config/Runtime.antt (of internal/config) read the environment with which
-- the service starts. A record that does not decode is kept by `write` (Messaging/Quarantine.antt,
-- of internal/messaging/quarantine.go), and Messaging/Topics.antt (of publisher.go) tells whether
-- the topics are ready. Messaging/Delivery.antt puts publisher, reader and table together, over
-- any number of processes that fail or are killed.
--
-- The processes. `supervise` and `drain` (Service/Lifecycle.antt, of
-- internal/service/lifecycle.go) run the attempts of a worker and end a process;
-- Commands/Consumer.antt (of cmd/consumer/main.go) has the worker, the readiness and the shutdown
-- of the consumer, Commands/Server.antt (of cmd/api/main.go) the life of the API process,
-- Commands/Bench.antt (of cmd/bench/main.go) the checks of the benchmark's flags and a measured
-- run with its cleanup. Telemetry/Metrics.antt and Telemetry/Runtime.antt (of internal/telemetry)
-- are the calls that the measurements make of the metrics library, Telemetry/Registry.antt the
-- metrics that are registered, Telemetry/Limits.antt the limits of the process (of
-- internal/runtimeinfo/limits.go).
--
-- The projects of experiments and of the demo (internal/runenv). Runenv/DeploymentConfig.antt
-- reads the settings of a deployment, Runenv/Stack.antt (of compose.go) runs docker on a project
-- that a run owns, in the monad of Runenv/Shell.antt, Runenv/Startup.antt and its children (of
-- compose.go and deployment.go) start a project and take it down again where that fails, and
-- Runenv/Demo.antt and Demo/Run.antt (of demo.go) run the demo and reconcile what was accepted
-- with what is stored. Runenv/Access.antt (of deployment.go) has the key and the client with which
-- a run talks to its project.
--
-- Files. Event/Types has the data of internal/event/event.go, Event/Validate its `validate` and
-- `Accept`, Event/Decode the functions of decode.go, Event/Unicode, Event/Number and Event/Jsonb
-- those of jsonb.go; Event/Laws and its children prove what they accept. Prelude/Action is the
-- monad of state and failure, and Prelude/Action/Triples has the rules for what holds of an
-- outcome. In Messaging/World, where a reader runs, its state is the clock and a trace of every
-- call of another system; in Runenv/Shell it is the trace of the docker commands. Examples applies
-- the theorems to concrete data.
--
-- What stands outside is a parameter. encoding/json is the record `Json`; the broker client, the
-- pool, the clock and the contexts are functions of an environment that may answer anything at any
-- moment, so that every failure and every delay is covered. The table of events is a parameter
-- with what PostgreSQL documents of `ON CONFLICT DO NOTHING`; whether a write or a commit that
-- reports an error was made all the same is a function of what came before it. What Fiber does
-- with a panic is a parameter too. An error's text is not modelled beyond what the code tells
-- apart.
--
-- Bounds and fuel. `persist` runs on fuel: the retry window in nanoseconds and two rounds. That is
-- enough, since each further round waits for a backoff of at least a nanosecond within the window;
-- `NewReader` refuses any other. A polling loop runs over the list of the fetches that its polls
-- return. Tokens of a bucket are counted in billionths, where the source has a float64: a refill
-- does not round here, as it may there, and nothing is claimed of how many requests a limiter
-- grants. In `serve` a request takes its token in one step; Api/RateLimit/Interleaved.antt has the
-- two critical sections. Go's int64 and durations are unbounded integers here. The loop of `supervise`
-- runs on fuel too: one round takes six moments, so it is given a round more than begin before its
-- context is done. The wait for the gateway of a deployment and that for the stored identifiers
-- run on any fuel, and what is proved of a start and of a demo holds for each. Texts are
-- trimmed of the white space of Unicode; what docker prints is split at that of ASCII only.
--
-- Not modelled: the goroutines that cancel an idle poll or tick a cleanup (their effects are steps
-- and answers), what a demo or a benchmark prints and reports, the parsing of flags, the demo
-- command, which passes three flags on, and the benchmark harness (internal/benchmark), whose
-- answers are inputs of the benchmark command. Of a metric only the calls are modelled, not the
-- float64 that they add up to.
pub mod Prelude
pub mod Event
pub mod Messaging
pub mod Persistence
pub mod Api
pub mod Service
pub mod Config
pub mod Runenv
pub mod Telemetry
pub mod Commands
mod Examples
