-- ===== src/Lib.antt =====
-- A model of GoTaskQ (Conduit), a job queue: Postgres keeps the jobs, Kafka announces them, workers
-- run them under a lease. The files follow the program's parts:
--
--   Models                  pkg/models/models.go: Job, Task, JobState
--   Time                    instants and durations of the Go standard library, in nanoseconds
--   Store                   internal/store/store.go and errors.go, a method a definition
--     Store/State           CanTransition and the lifecycle as a relation
--     Store/Rows, Table     the columns, scanJob, and the SQL the statements are made of
--     Store/Create          CreateJob, GetJob, GetJobByIdempotencyKey
--     Store/Update          UpdateJob, CancelJob
--     Store/Claim, Leases   ClaimNextJob; RenewLease, ReleaseClaim, RequeueExpiredRunning
--     Store/Listing         ListJobs, and the client that follows its cursors
--     Store/Unique .. Races proofs: indexes, what a statement does to each row, histories of
--                           operations, fencing by lease tokens, exclusive claims, races
--   Service                 internal/service/job_service.go: Enqueue, Cancel
--   Api                     internal/api/handler.go: the handlers and their status codes
--   Breaker                 internal/circuitbreaker/circuitbreaker.go
--   Retry                   internal/retry/backoff.go
--   Runner                  cmd/server/main.go: jobWorker.Run and what it calls
--   Pool                    internal/worker/pool.go: queue, dispatcher, semaphore, step by step
--   Reconciler              internal/reconciler/reconciler.go: one pass over the store
--     Reconciler/Lifecycle  Start, Stop and the loop
--   Lock                    internal/lock/redlock.go: a lease on a quorum of Redis nodes
--   Scheduler               internal/scheduler/scheduler.go: Register, dispatch, cronSchedule.Next
--     Scheduler/Cron        parseCron and parseField, and the fields as crontab(5) writes them
--   Kafka                   internal/queue/kafka.go: ConsumeClaim, with kafkaJobHandler of
--                           cmd/server/main.go
--   Etl                     internal/etl/executor.go
--     Etl/Lexer             sqlTokens
--     Etl/Extract, Insert   normalizeExtractSQL; BuildInsertSQL and the identifiers
--     Etl/Handler           ParseSpec and Handler
--   Webhook                 internal/webhook/executor.go: validateURL and validateAddr
--     Webhook/Requests      Handler and the redirects that its client follows
--   Configuration           pkg/models/models.go and internal/config/config.go: the settings, their
--                           defaults, LoadFromEnvironment and Validate
--   Readiness               cmd/server/main.go: readinessHandler
--   Base                    Booleans, lists, bytes and whole numbers that the parts share
--   Examples                concrete runs
--
-- A statement of the store takes the table to a result and a table. What is outside the repository
-- is a parameter: `Answer` says whether the connection carries a statement out and reports it
-- (`done`), does not carry it out (`refused`) or carries it out and loses the answer (`lost`);
-- `NullText` says what the driver makes of a NULL that is scanned into a Go string (`none`: an
-- error, as with pgx), and `Store.Readable.readable` which rows it can then read; `locked` names
-- the rows that other transactions have locked, which SKIP LOCKED passes over; every clock reading
-- is an argument. UpdateJob and CancelJob read and write in two statements without a transaction:
-- their argument `between` is what other clients do to the table in the meantime. The service calls
-- the store, and the worker calls the store, the breaker and the retry engine;
-- `Service.Surroundings` and `Runner.Surroundings` hold what one call meets: answers, clocks,
-- random values, and the effects of other clients at each point where the code lets go of the
-- table.
--
-- The worker pool is a set of steps on its channels that any interleaving may order
-- (`Pool.Events`); the reconciler's pass takes one `Turn` of surroundings per claim.
--
-- A handler of a task gets the job's payload or metadata as bytes. Of the libraries it calls, a
-- parameter stands for what Go knows of letters beyond ASCII (`Etl.Text`, with `Etl.IsText`), for
-- pgx's `Identifier.Sanitize` (with `Etl.Insert.Names.IsSanitizer`), for `json.Unmarshal`,
-- `url.Parse`, `netip.ParseAddr` (`Webhook.Net`), `time.ParseDuration`, the resolver of names and
-- the servers that answer; the tests of `netip.Addr` are written out. `Kafka.Session` is what
-- sarama keeps of marked messages, and `Kafka.Positions.IsSession` what the protocol documents of
-- it. `Webhook.Requests.Public.IsNet` says that what is parsed and resolved are addresses, and
-- `Store.Listing.Order.IsTextOrder` that Postgres sorts texts by a strict total order.
--
-- Bounds: whole numbers are unbounded (attempt counters and thresholds stay far below 2^63); an
-- instant is a count of nanoseconds since the zero time, and `Time.sub` saturates as Go's does.
-- Table rows keep times in microseconds, rounded down. The floats of the retry engine are a
-- parameter with named laws (`Retry.Bounds.IsExact`), and so are a Redis node (`Lock.Redis`, with
-- `Lock.Nodes.IsRedis`, which speaks of a time in which no key expires; the script that releases a
-- lock is `Lock.release_script`) and the calendar of the scheduler (`Scheduler.Calendar`, the dates
-- of one location, with `Scheduler.Next.IsCalendar`, which holds where the clock is never set
-- forward or back, as in UTC). The search of the scheduler runs on fuel, one round for each minute
-- of the 4 * 365 days that it may span, since a round moves on by a minute at least in such a
-- location; it gives `none` where the rounds are not enough. The client's loop over redirects gets
-- as many rounds as redirects are allowed and one more, a loop of a cron field one for each value
-- of the field; every other loop of the modelled code runs over a list or a counter.
--
-- Not modelled: json encoding of metadata (a map is kept as it is), contexts and cancellation
-- except where the code looks at them, metrics and logs, the routing and the middleware of the HTTP
-- API, the base64 text of a cursor, cron expressions that are not ASCII, the calls of sarama that
-- publish and subscribe, and the wiring.
mod Base
pub mod Models
pub mod Time
pub mod Breaker
pub mod Store
pub mod Service
pub mod Retry
pub mod Runner
pub mod Pool
pub mod Reconciler
pub mod Lock
pub mod Scheduler
pub mod Readiness
pub mod Kafka
pub mod Api
pub mod Configuration
pub mod Etl
pub mod Webhook
mod Examples
