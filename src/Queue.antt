-- ===== src/Queue.antt =====
-- internal/queue: the job queue on Redis.
pub mod Keys
pub mod Job
pub mod Double
pub mod Scripts
pub mod Link
pub mod Api
pub mod Batch
pub mod Stats
pub mod View
pub mod Transitions
pub mod Refine
pub mod Lifecycle
pub mod Tests
