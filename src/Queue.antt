-- ===== src/Queue.antt =====
-- backend/app/queue: durable jobs and how a worker claims, runs, retries and abandons them.
pub mod Settings
pub mod Publish
pub mod Transport
pub mod Claim
pub mod Finish
pub mod Manual
pub mod Lifecycle
pub mod Abandon
pub mod Worker
pub mod Enqueue
