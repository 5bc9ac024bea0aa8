-- ===== src/RuntimeConfig/Overlay.antt =====
-- Pausing, resuming and the kill switch, bot/src/runtime/runtime-config-manager.ts.
use bobby_execute.Base.{
  String, Bool, true, false, Option, none, some, ltb, if◌then◌else◌, ◌otherwise◌, ◌or_else◌,
}
use bobby_execute.KillSwitch.{KillSwitchState}
use bobby_execute.RuntimeConfig.Types.{PauseScope, soft, hard, RuntimeOverlay}
use bobby_execute.RuntimeConfig.Records.{
  ActiveRecord, Action, pause, resume, kill_switch, Manager, Env,
}
use bobby_execute.RuntimeConfig.Views.{build_status, build_signal}
use bobby_execute.RuntimeConfig.Boundary.{finish_request, pass_boundaries}
use bobby_execute.RuntimeConfig.Queue.{
  MutationResult, ended, Work, result, enqueue, make_state, after_call, stored_active,
  stored_change, change, refuse,
}

-- The end that `setPause`, `resume` and `applyKillSwitchSnapshot` share, from the overlay that they
-- request and the active record's fields that they set: outside a cycle the requested version is
-- applied with the overlay, and in a cycle both wait for its end. Whether a cycle runs is read once
-- before the repository's calls, and again after them.
module _ (action : Action) (actor : String) (reason : Option String) (queued : String)
    (env : Env) where
  unfoldable pub request_overlay : RuntimeOverlay → (ActiveRecord → ActiveRecord) → Manager → Work
  unfolding build_signal build_status
  request_overlay overlay set m =
      let base = m.state in
      let cycling = ltb 0 m.cycle_depth in
      let version = base.requested.version in
      let requested = make_state version overlay env.now base.applied.applied_at cycling false in
      let applied =
        if cycling
        then base.applied
        else make_state version overlay env.now (some env.now) false false in
      let active = set (record base.active {
        active_version_id = version.id;
        requested_version_id = version.id;
        applied_version_id = applied.version.id;
        last_valid_version_id = base.last_valid_version.id;
        reload_nonce = overlay.reload_nonce;
        paused = overlay.paused;
        pause_scope = overlay.pause_scope;
        pause_reason = overlay.pause_reason;
        pending_apply = cycling;
        pending_reason = if cycling then some queued else none;
        requested_at = env.now;
        applied_at = some (applied.applied_at otherwise env.now);
        updated_at = env.now;
      }) in
      let row = record active {
        kill_switch = overlay.kill_switch;
        kill_switch_reason = overlay.kill_switch_reason;
        requires_restart = false;
      } in
      let entry =
        change action actor true version (some version.config) base.requested.overlay overlay reason
          none version env.now in
      let m1 = record m {
        state = record base { requested = requested; applied = applied; active = active };
      } in
      let m2 = pass_boundaries env.faults.meanwhile env (stored_active row m1) in
      let m3 = stored_change entry m2 in
      let m4 = finish_request (ltb 0 m3.cycle_depth) requested env m3 in
      after_call env.faults.update_active m1 (
        after_call env.faults.append_change_log m2
          (m4, ended (result action true none (some applied.version.id) m4)))

abbrev default_reason : PauseScope → String
default_reason soft = "soft pause"
default_reason hard = "hard pause"

unfoldable pub set_pause :
    PauseScope → String → Option String → Env → Manager → Manager × MutationResult
unfolding enqueue request_overlay
set_pause scope actor reason env = enqueue pause λ m.
    request_overlay pause actor reason "pause queued until cycle boundary" env
      (record m.state.requested.overlay {
        paused = true;
        pause_scope = some scope;
        pause_reason = some (reason otherwise default_reason scope);
      })
      (λ a. a) m

unfoldable pub resume_runtime : String → Option String → Env → Manager → Manager × MutationResult
unfolding enqueue request_overlay
resume_runtime actor reason env = enqueue resume λ m.
    if m.state.requested.overlay.kill_switch
    then refuse resume actor reason "kill switch is active" env m
    else request_overlay resume actor reason "resume queued until cycle boundary" env
        (record m.state.requested.overlay {
          paused = false;
          pause_scope = none;
          pause_reason = none;
        })
        (λ a. a) m

-- `applyKillSwitchSnapshot`, whose time is the snapshot's where it has one
unfoldable pub apply_kill_switch_snapshot :
    KillSwitchState → String → Option String → Env → Manager → Manager × MutationResult
unfolding enqueue request_overlay
apply_kill_switch_snapshot next actor reason env = enqueue kill_switch λ m.
    let old = m.state.requested.overlay in
    let why = next.reason otherwise reason otherwise "kill-switch" in
    let overlay = record old {
      kill_switch = next.halted;
      kill_switch_reason = if next.halted then some why else none;
      paused = if next.halted then true else old.paused;
      pause_scope = if next.halted then some hard else old.pause_scope;
      pause_reason = if next.halted then some why else old.pause_reason;
    } in
    request_overlay kill_switch actor (reason or_else next.reason)
      "kill switch queued until cycle boundary"
      (record env { now = next.triggered_at otherwise env.now }) overlay
      (λ a. record a {
        kill_switch = overlay.kill_switch;
        kill_switch_reason = overlay.kill_switch_reason;
      })
      m

-- `setKillSwitch`
unfoldable pub set_kill_switch :
    Bool → String → Option String → Env → Manager → Manager × MutationResult
unfolding apply_kill_switch_snapshot
set_kill_switch trigger actor reason env =
    apply_kill_switch_snapshot
      (record { halted = trigger; reason = reason; triggered_at = some env.now }) actor reason env
