-- ===== src/RuntimeConfig.antt =====
-- The runtime configuration and its manager, bot/src/runtime/runtime-config-manager.ts.
pub mod Types
pub mod Behavior
pub mod Records
pub mod Views
pub mod Queue
pub mod Overlay
pub mod Patch
pub mod Boundary
pub mod Cycle
pub mod Restore
pub mod Refresh
pub mod Calls
pub mod Keeps
pub mod Steady
pub mod Killed
pub mod Halt
pub mod Locked
pub mod Coherent
pub mod Escape
pub mod Lapse
pub mod Fixture
pub mod Examples
