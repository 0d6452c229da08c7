-- ===== src/Jobs.antt =====
-- The background jobs of internal/jobs: the queue on Redis, and the worker.
pub mod Redis
pub mod Job
pub mod Queue
pub mod Worker
pub mod Server
pub mod Views
pub mod Kept
pub mod Handled
pub mod Served
pub mod Backoff
pub mod Lossless
pub mod Failure
