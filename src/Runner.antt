-- ===== src/Runner.antt =====
-- apps/bzy-runner: the task queue on Redis Streams, and the workers that take tasks from it.
mod Examples
pub mod Queue
pub mod Worker
pub mod Locks
pub mod Scheduler
pub mod Cluster
