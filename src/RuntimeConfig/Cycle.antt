-- ===== src/RuntimeConfig/Cycle.antt =====
-- Reloads and the acknowledgement of a restart, bot/src/runtime/runtime-config-manager.ts.
use bobby_execute.Base.{
  ◌+◌, String, Bool, true, false, ◌||◌, Option, none, some, ltb, if◌then◌else◌, ◌otherwise◌,
  ◌or_else◌,
}
use bobby_execute.RuntimeConfig.Records.{
  reload, restart_ack, ConfigState, ManagedState, Manager, Env,
}
use bobby_execute.RuntimeConfig.Views.{build_status, build_signal}
use bobby_execute.RuntimeConfig.Boundary.{finish_request, pass_boundaries}
use bobby_execute.RuntimeConfig.Queue.{
  MutationResult, ended, result, enqueue, make_state, persist_snapshot, after_call, stored_active,
  stored_change, change,
}

-- a reload that waits for a restart is finished
abbrev pub after_reload : Bool → Bool → ConfigState → Env → Manager → Manager
after_reload true cycling requested env m = m
after_reload false cycling requested env m = finish_request cycling requested env m

-- `reload`, which reads again whether a cycle runs once the repository has answered
unfoldable pub reload_config : String → Option String → Env → Manager → Manager × MutationResult
unfolding enqueue build_signal build_status
reload_config actor reason env = enqueue reload λ m.
    let base = m.state in
    let cycling = ltb 0 m.cycle_depth in
    let restart = base.requested.requires_restart in
    let waiting = cycling || restart in
    let version = base.requested.version in
    let overlay = record base.requested.overlay {
      reload_nonce = base.requested.overlay.reload_nonce + 1;
      pending_restart = restart;
      pending_reason = reason or_else base.active.pending_reason;
    } in
    let requested = make_state version overlay env.now base.applied.applied_at waiting restart in
    let applied =
      if waiting
      then base.applied
      else make_state version overlay env.now (some env.now) false false in
    let active = record base.active {
      active_version_id = version.id;
      requested_version_id = version.id;
      applied_version_id = applied.version.id;
      last_valid_version_id = base.last_valid_version.id;
      reload_nonce = overlay.reload_nonce;
      pending_apply = waiting;
      pending_reason = if waiting then some (reason otherwise "reload requested") else none;
      requires_restart = restart;
      requested_at = env.now;
      applied_at = some (applied.applied_at otherwise env.now);
      updated_at = env.now;
    } in
    let row = record active {
      paused = overlay.paused;
      pause_scope = overlay.pause_scope;
      pause_reason = overlay.pause_reason;
      kill_switch = overlay.kill_switch;
      kill_switch_reason = overlay.kill_switch_reason;
    } in
    let entry =
      change reload actor true version (some version.config) base.requested.overlay overlay reason
        none version env.now in
    let m1 = record m {
      state = record base { requested = requested; applied = applied; active = active };
    } in
    let m2 = pass_boundaries env.faults.meanwhile env (stored_active row m1) in
    let m3 = stored_change entry m2 in
    let m4 = after_reload restart (ltb 0 m3.cycle_depth) requested env m3 in
    after_call env.faults.update_active m1 (
      after_call env.faults.append_change_log m2
        (m4, ended (result reload true none (some applied.version.id) m4)))

-- the state of a restart that has applied the requested version
abbrev restarted : Env → ManagedState → ManagedState
restarted env base =
    let overlay = record base.requested.overlay {
      pending_restart = false;
      pending_reason = none;
    } in
    record base {
      requested = record base.requested {
        overlay = overlay;
        pending_apply = false;
        requires_restart = false;
      };
      applied =
          make_state base.requested.version overlay base.requested.requested_at (some env.now) false
            false;
      last_valid_version = base.requested.version;
      active = record base.active {
        applied_version_id = base.requested.version.id;
        last_valid_version_id = base.requested.version.id;
        applied_at = some env.now;
        updated_at = env.now;
        pending_apply = false;
        pending_reason = none;
        requires_restart = false;
      };
    }

-- `confirmRestartApplied`
unfoldable pub confirm_restart_applied : Env → Manager → Manager × MutationResult
unfolding enqueue build_signal build_status
confirm_restart_applied env = enqueue restart_ack λ m.
    let base = m.state in
    let m1 = record m { state = restarted env base; pending_applied = none } in
    let m2 = persist_snapshot env (stored_active m1.state.active m1) in
    if base.active.requires_restart
    then after_call env.faults.update_active m1
        (m2, ended (result restart_ack true none (some base.requested.version.id) m2))
    else (m, ended (result restart_ack true none (some base.applied.version.id) m))
