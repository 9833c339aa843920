-- ===== src/Lib.antt =====
-- A model of the task queue system: a web service that takes jobs over HTTP, keeps them in BullMQ
-- queues on Redis, runs them in a worker with an idempotency store in SQLite, and shows the queues
-- on a public dashboard behind a snapshot cache. Paths are from the repository's root.
--
-- A client's input becomes a job in src/queue/producer.ts (Producer), under the ceiling on the
-- queue's depth, with the correlation ID of src/logging/context.ts (Context) stamped on it. The
-- schemas of src/types/job.types.ts (Schema) check it on the way in and again in the processors of
-- src/processors/ (Processors), which ask the store of src/storage/idempotency.db.ts (Storage)
-- whether the work was done. src/workers/task.worker.ts (Worker) runs them and, after a job's last
-- attempt, records the failure and hands the job to the dead letter queue of src/queue/dlq.ts.
-- Every change of a queue invalidates the snapshots of src/middleware/dashboard.cache.ts
-- (Dashboard), which answers the dashboard's polls from memory and bounds how many reach Redis.
--
-- Dashboard/Query has the reduction of a query to a view and the cache key (in its Views as a
-- quotient of the queries), Dashboard/Cache the module's state and its middleware,
-- Dashboard/System the process in which polls, responses and mutations interleave in any order,
-- and Dashboard/Guard src/middleware/dashboard.guard.ts and the chain of handlers in front of the
-- dashboard's router. App has the job routes, the webhook sink and the error handler of
-- src/app.ts, Health its health check, metrics route and service index, and Server the whole of
-- its buildApp: each handler in its order, for one request. RateLimit has the limiters of
-- src/middleware/rate.limit.ts, Cors src/middleware/cors.ts and parseOriginList, and AdminAuth
-- src/middleware/admin.auth.ts. The Trace modules say of each part what it does to the header with
-- the correlation ID, and Server/Traced puts them together.
--
-- Storage has the table and its statements, Storage/Ledger the store as its clients see it, and
-- Storage/Sessions its constructor and processes that open the file one after another. Processors
-- has processEmailJob and processWebhookJob, with the requests that were sent as part of the
-- state, Processors/Runs sequences of their runs, and Processors/Overlap the webhook processor
-- split at its await, for runs that overlap up to the worker's concurrency, with the records of
-- the worker's failed handler in between. Redis has the URL, the options and the retry delay of
-- src/config/redis.connection.ts, and Lifecycle the start and the shutdown of src/index.ts with
-- what they open and close, and Lifecycle/Signals the shutdowns of several signals, split at their
-- awaits. Worker has getProcessorForJob of src/processors/registry.ts, the function that runs for
-- a job, the `completed` and `failed` handlers, and sendToDLQ; Worker/Life puts a run and its
-- handler together, for each attempt that BullMQ makes of a job, and Worker/Life/Accepted follows
-- a submission to its job's end. Process is what src/index.ts runs, the server and the worker on
-- one board, in any order of requests, attempts and answers of Bull Board's handler; the Boards
-- modules say of each part what it does to that board. Server/Admission which requests reach it at
-- all, Server/Sealed what failures tell a client (the Retold modules follow a queue that throws
-- other errors), and Cors/Passing what src/middleware/cors.ts keeps of a request. Failure holds
-- what the code throws (src/errors/app.errors.ts and the libraries' errors), Queue what it uses of
-- BullMQ, Metrics what it reports to the metrics client, Environment and Config
-- src/config/environment.ts, Http and Json the values that go in and out. Cli has what a choice at
-- the menu of src/cli.ts and a session of them send, and Logging redactSecrets of
-- src/logging/logger.ts, the scrubbing of a log line and the options that go to pino. Prelude
-- holds texts, lists, decimal numerals, white space and dictionaries; Samples has the values that
-- the tests share.
--
-- State is passed explicitly: a function takes a component's record and gives the new one beside
-- its result. Asynchronous code is a list of events or runs. The handlers of one HTTP request run
-- as one step; so does a submission with its two awaits, so the bound that the ceiling puts on the
-- queue under concurrent submissions is not stated. In Processors a run of a processor is one step
-- too, and in Processors/Overlap it is two. A text is a list of UTF-16 code units. A clock
-- reading, a random text and the current correlation ID are arguments; times are natural numbers
-- of milliseconds, and clocks do not run backwards within one run. Every loop is structural
-- recursion, so no fuel is needed. BullMQ's queues and its retrying of a job, zod's `parse`,
-- `fetch`, JSON's texts, faults of SQLite, the counting of express-rate-limit, the URL parser,
-- helmet, the body parser and Express's matching of paths are parameters, with what their
-- documentation states as named hypotheses (Queue.ReturnsJob, Schema.Zod.IsZod,
-- Processors.Replay.IsRestored, RateLimit.Trace.IsStandard, Environment.IsInRange).
--
-- Not modelled: what is logged where and how the library pino writes a line, the metrics registry
-- and its text format, Bull Board's router, and what the command line client prints.
pub mod Prelude
pub mod Config
pub mod Json
pub mod Http
pub mod Metrics
pub mod Samples
pub mod Dashboard
pub mod Storage
pub mod Context
pub mod Schema
pub mod Failure
pub mod Queue
pub mod Producer
pub mod AdminAuth
pub mod App
pub mod Cli
pub mod Cors
pub mod Environment
pub mod Health
pub mod Lifecycle
pub mod Logging
pub mod Process
pub mod Processors
pub mod RateLimit
pub mod Redis
pub mod Server
pub mod Worker
