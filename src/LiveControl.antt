-- ===== src/LiveControl.antt =====
-- The micro-live control of bot/src/runtime/live-control.ts: what must hold before a live trade
-- intent goes out, the operator's arm, disarm and kill, the live-test round, and the counters.
pub mod Types
pub mod Config
pub mod State
pub mod Snapshot
pub mod Operator
pub mod Rounds
pub mod Intents
pub mod Calls
pub mod Durable
pub mod Conditions
pub mod Checks
pub mod Admission
pub mod Killed
pub mod Flights
pub mod RoundSteps
pub mod RoundGraph
pub mod Posture
pub mod Examples
