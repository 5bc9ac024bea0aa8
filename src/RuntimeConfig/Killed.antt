-- ===== src/RuntimeConfig/Killed.antt =====
-- The kill switch of the runtime configuration, in memory, in what waits and in the repository.
pub mod Boundary
pub mod Runs
use bobby_execute.Base.{
  ℕ, zero, suc, ◌≡◌, refl, sym, ◌∙◌, String, Bool, true, false, not, ◌&&◌, ◌||◌, if◌then◌else◌,
  Option, none, some, List, [], ◌∷◌, ltb, ◌otherwise◌, Bool-cases, inl, inr, arith, every,
}
use bobby_execute.KillSwitch.{KillSwitchState}
use bobby_execute.RuntimeConfig.Types.{RuntimeBehavior, RuntimeBehaviorPatch, RuntimeOverlay}
use bobby_execute.RuntimeConfig.Behavior.{restart_required_for_patch}
use bobby_execute.RuntimeConfig.Records.{
  VersionRecord, Action, reload, restart_ack, ActiveRecord, ConfigState, Manager, Env,
}
use bobby_execute.RuntimeConfig.Queue.{persist_snapshot}
use bobby_execute.RuntimeConfig.Overlay.{request_overlay}
use bobby_execute.RuntimeConfig.Patch.{request_version, mode_reason, mode_patch, set_mode}
use bobby_execute.RuntimeConfig.Cycle.{reload_config, confirm_restart_applied, after_reload}
use bobby_execute.RuntimeConfig.Restore.{state_of, load_version}
use bobby_execute.RuntimeConfig.Refresh.{same_active, refreshed_from, refresh_from, refresh}
use bobby_execute.RuntimeConfig.Calls.{
  Command, patches, sets_mode, pauses, resumes, reloads, switches, Sender, command, Call, sends,
  acknowledges, begins, ends, refreshes, perform, Performed, perform_all,
}
use bobby_execute.RuntimeConfig.Keeps.{
  Ignores, enqueue-keeps, after_call-keeps, if-keeps, option-cases, apply_behavior_patch-keeps,
  set_pause-keeps, resume_runtime-keeps, apply_kill_switch_snapshot-keeps,
}

abbrev pub waiting_killed : Option ConfigState → Bool
waiting_killed none = true
waiting_killed (some p) = p.overlay.kill_switch

abbrev pub stored_killed : Option ActiveRecord → Bool
stored_killed none = false
stored_killed (some a) = a.kill_switch

-- The kill switch is on wherever a later state can come from.
pub record Killed (m : Manager) : Type 0 where
  pub requested : m.state.requested.overlay.kill_switch ≡ true
  pub applied : m.state.applied.overlay.kill_switch ≡ true
  pub active : m.state.active.kill_switch ≡ true
  pub waiting : waiting_killed m.pending_applied ≡ true
  pub stored : stored_killed m.repository.active ≡ true

-- from its five parts
pub five :
    {m : Manager}
    → m.state.requested.overlay.kill_switch ≡ true
    → m.state.applied.overlay.kill_switch ≡ true
    → m.state.active.kill_switch ≡ true
    → waiting_killed m.pending_applied ≡ true
    → stored_killed m.repository.active ≡ true
    → Killed m
five r a c w s = record { requested = r; applied = a; active = c; waiting = w; stored = s }

pub Killed-Ignores : Ignores Killed
Killed-Ignores = record {
  queue = λ m e k. five k.requested k.applied k.active k.waiting k.stored;
  log = λ m r e k. five k.requested k.applied k.active k.waiting (rw e k.stored);
}
