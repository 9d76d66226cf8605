-- ===== src/Tests.antt =====
-- The theorems at concrete inputs.
mod Auth
mod Http
mod Checkpoint
mod Upload
mod Instant
mod Media
mod Transcription
mod Mq
mod Runner
mod TaskEvents
mod Analysis
mod RedisLock
mod RateLimit
mod WorkerPool
mod Errors
mod Tasks
