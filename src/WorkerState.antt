-- ===== src/WorkerState.antt =====
-- The two worker state machines and their transition journal,
-- bot/src/runtime/worker-state-machines.ts.
pub mod Types
pub mod LowCap
pub mod Shadow
pub mod Journal
pub mod Reconstruct
pub mod LowCapGraph
pub mod ShadowGraph
pub mod Replay
pub mod RunReplay
pub mod Examples
