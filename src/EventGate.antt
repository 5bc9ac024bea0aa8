-- ===== src/EventGate.antt =====
-- The event gate of the two workers, bot/src/runtime/worker-event-gate.
pub mod Types
pub mod Results
pub mod Keys
pub mod Checks
pub mod StageResults
pub mod Stages
pub mod Routing
pub mod Gate
pub mod Writes
pub mod Verdict
pub mod Order
pub mod Shape
pub mod Invariant
pub mod Seen
pub mod Content
pub mod Redelivery
pub mod Batches
pub mod Workers
pub mod Examples
