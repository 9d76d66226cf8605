-- ===== src/Lib.antt =====
-- Vparser's gateway (server-go): a video analysis service. A request enters by HTTP, is charged to
-- the rate limiter and dispatched as a message on Kafka; the consumer takes the task's lock in Redis,
-- runs the analysis through the agent, and records, announces, retries or dead-letters the outcome.
-- Videos come as chunks, or by a proof that a stored copy is known, and their rows share the stored
-- object; the stages of an analysis are kept as checkpoints. Users log in with a password and carry a
-- session's token. The task events reach the browsers' streams through Redis and a hub in every gateway.
--
-- The parts, by file:
--   Prelude        tests and lemmas on lists, options and numbers; an integer over the native ℕ
--   Go             what the code uses of Go: bytes and UTF-8, decimals, Base64, hexadecimal
--                  digits, trimming
--   Errors         internal/common/errors.go, result.go: typed errors, their codes, `ToHTTP`
--   Model          internal/model/enums.go, dto.go: modes, stages, states, task messages
--   TaskKeys       internal/taskkeys/taskkeys.go: the keys of a task and the digest of its goal
--   Analysis.Sanitize    internal/analysis/failedtask.go: the texts that the ledger of failures keeps
--   Analysis.FailedTask  the same file: the rows of the ledger and their replay
--   Analysis.Dispatch    internal/analysis/dispatch.go: the submission of a task, with the daily
--                        limit of internal/billing/billing.go
--   Analysis.Status      internal/analysis/status.go: the status that a user sees
--   Analysis.Transcription  internal/analysis/transcription.go: a transcription of its own
--   Http           internal/httpapi: Http.Params parameters and file names, Http.Middleware CORS and
--                  authentication
--   Mq.Routing     internal/mq/routing.go, topics.go: topics, delays, the route of a failure
--   Mq.Headers     internal/mq/headers.go: the headers of a record, written and read
--   Mq.Effects     the calls of the consumer (the interfaces of internal/mq/consumer.go)
--   Mq.Consumer    `process` and `tryReuse`, with the body of `Handle` under the lock
--   Mq.Settle      the end of `Handle`: success, budget, retry topic, dead letters
--   Mq.Handle      `Handle`, `RejectionReason`, `discardPoison`, `releasePoisonTaskState`
--   Mq.Runner      internal/mq/runner.go: the poll loop and the workers of a partition
--   RateLimit      internal/ratelimit/limiter.go: `takeScript` and `TakeUserThenGlobal`
--   RedisLock      internal/redislock/lock.go: leases, watchdog and unlocking as events, `TryLock`
--   WorkerPool     internal/workerpool/pool.go: `Submit` and `Shutdown` as atomic actions
--   TaskEvents     internal/taskevents/hub.go: the fan-out of task events to the streams
--   Redis          a command or statement that may fail before or after it was executed
--   Auth           internal/auth/auth.go: users; Auth.Password the stored passwords, Auth.Throttle the
--                  failed logins, Auth.Session tokens, Auth.Login `Login`, Auth.Register `Register`
--   Checkpoint     internal/checkpoint/checkpoint.go: Checkpoint.Stages the stages of a goal,
--                  Checkpoint.Context the video contexts, Checkpoint.Keys the keys
--   Media          internal/media/media.go: ownership; Media.Filename `NormalizeVideoFilename`,
--                  Media.Objects the rows that share one object, deleted and inserted concurrently,
--                  Media.Ingest insertions, the ingest of files and the cached lists
--   Upload         internal/upload/chunk.go: chunks; Upload.Complete `Complete`
--   Upload.Instant internal/upload/instant.go: `Challenge`; Upload.Instant.Proof `Prove`
--   Tests          the theorems at concrete inputs
-- All paths are below server-go.
--
-- Strings are lists of bytes. Sequential code is a function; the consumer is an action over a trace
-- of its calls, whose answers an arbitrary environment gives, so that nothing is assumed of failures
-- or of other workers. The lock, the pool, the runner and the deletion of shared objects, which run
-- concurrently, are steps of one shared state, and a schedule is a list of steps. Numbers are
-- unbounded, with the machine's bounds as conditions where a theorem needs them; the rate limiter's
-- fractions are exact.
--
-- Fuel: `poll_loop` gets one round for each millisecond of the wait and one more, which is enough
-- since a round that goes on sleeps for a millisecond at least; `shrink` gets the length to cut from;
-- A chain of errors is walked to the depth that the code sets.
--
-- Not modelled: logs, metrics, contexts and timeouts as such (a cancelled call is a failed call); SQL,
-- the object store, external processes; JSON decoding, SHA-256, MD5, PBKDF2, the parsing of UUIDs,
-- the folding of case and the masking of secrets, which are parameters. An upload's expiry after a day
-- is not a step, other than that of its completion marker, and the quotation of a bad number in an error is left out.
pub mod Prelude
pub mod Analysis
pub mod Auth
pub mod Checkpoint
pub mod Errors
pub mod Go
pub mod Http
pub mod Media
pub mod Model
pub mod Mq
pub mod RateLimit
pub mod Redis
pub mod RedisLock
pub mod TaskEvents
pub mod TaskKeys
pub mod Upload
pub mod WorkerPool
pub mod Tests
