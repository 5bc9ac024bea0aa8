-- ===== src/Engine.antt =====
-- The trading engine's cycle, bot/src/core/engine.ts, and the authority that runs its stages,
-- bot/src/core/decision/decision-coordinator.ts.
pub mod Types
pub mod Coordinator
pub mod Ingest
pub mod Stages
pub mod Cycle
pub mod Rules
pub mod Journaled
pub mod Guarded
pub mod Executions
pub mod Mandatory
pub mod Escalation
pub mod Halts
pub mod Examples
