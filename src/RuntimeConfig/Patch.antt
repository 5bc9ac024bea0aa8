-- ===== src/RuntimeConfig/Patch.antt =====
-- A patch of the behaviour, bot/src/runtime/runtime-config-manager.ts.
use bobby_execute.Base.{
  ◌+◌, String, Bool, true, false, not, ◌&&◌, ◌||◌, Option, none, some, [], ◌∷◌, ◌++◌, ltb,
  if◌then◌else◌, ◌otherwise◌,
}
use bobby_execute.RuntimeConfig.Types.{RuntimeMode, RuntimeBehavior, RuntimeBehaviorPatch, absent}
use bobby_execute.RuntimeConfig.Behavior.{
  is_live_mode_family, is_valid_patch, build_runtime_behavior_from_seed, restart_required_for_patch,
}
use bobby_execute.RuntimeConfig.Records.{
  VersionRecord, active_version, ActiveRecord, runtime_config, Manager, Env,
}
use bobby_execute.RuntimeConfig.Views.{build_status, build_signal}
use bobby_execute.RuntimeConfig.Boundary.{pass_boundaries}
use bobby_execute.RuntimeConfig.Queue.{
  MutationResult, ended, threw, Work, result, enqueue, make_state, latest_number, persist_snapshot,
  after_call, stored_active, stored_change, change, refuse,
}

abbrev pub is_live_patch : Option RuntimeMode → Bool
is_live_patch none = false
is_live_patch (some mode) = is_live_mode_family mode

-- a version that is applied is shown, and for another one only the signal in memory changes
abbrev pub finish_version : Bool → Env → Manager → Manager
finish_version true env m = persist_snapshot env m
finish_version false env m = record m { state = record m.state { signal = build_signal m.state } }

-- The behaviour patch, once it has a new version: outside a cycle it is applied at once, unless it
-- requires a restart. A boundary that passes while the version is created stands before the patch.
module _ (patch : RuntimeBehaviorPatch) (actor : String) (reason : Option String) (env : Env) where
  unfoldable pub request_version : RuntimeBehavior → Manager → Work
  unfolding restart_required_for_patch build_signal build_status
  request_version behavior m =
      let base = m.state in
      let restart = restart_required_for_patch patch in
      let version : VersionRecord = record {
        id = env.version_id;
        version_number = latest_number m.repository.versions + 1;
        config = behavior;
        config_hash = env.hash behavior base.requested.overlay;
        previous_version_id = some base.requested.version.id;
        status = active_version;
        created_by = actor;
        reason = some (reason otherwise "runtime config patch");
        created_at = env.now;
        activated_at = none;
        activated_by = none;
        applied_at = none;
        applied_by = none;
      } in
      let m0 = record m {
        repository = record m.repository { versions = m.repository.versions ++ version ∷ [] };
      } in
      let overlay = record base.requested.overlay {
        pending_restart = restart;
        pending_reason = if restart then some "runtime config change requires restart" else none;
      } in
      let now = not restart && not (ltb 0 m.cycle_depth) in
      let requested =
        make_state version overlay env.now (if now then some env.now else base.applied.applied_at)
          (not now) restart in
      let applied =
        if now
        then make_state version overlay env.now (some env.now) false false
        else base.applied in
      let valid = if now then version else base.last_valid_version in
      let row : ActiveRecord = record {
        active_version_id = version.id;
        requested_version_id = version.id;
        applied_version_id = applied.version.id;
        last_valid_version_id = valid.id;
        reload_nonce = overlay.reload_nonce;
        paused = overlay.paused;
        pause_scope = overlay.pause_scope;
        pause_reason = overlay.pause_reason;
        kill_switch = overlay.kill_switch;
        kill_switch_reason = overlay.kill_switch_reason;
        pending_apply = not now;
        pending_reason = overlay.pending_reason;
        requires_restart = restart;
        requested_at = env.now;
        applied_at = if now then some env.now else base.applied.applied_at;
        updated_at = env.now;
      } in
      let active = record row {
        pending_reason =
            if now
            then overlay.pending_reason
            else some "runtime config change queued until cycle boundary";
      } in
      let entry =
        change runtime_config actor true version (some behavior) base.requested.overlay overlay
          reason none base.requested.version env.now in
      let m1 = record m0 {
        state = record base {
          requested = requested;
          applied = applied;
          last_valid_version = valid;
          active = active;
          signal = build_signal base;
        };
        pending_applied = if restart || now then none else some requested;
      } in
      let m2 = pass_boundaries env.faults.meanwhile env (stored_active row m1) in
      let m3 = stored_change entry m2 in
      let m4 = finish_version now env m3 in
      after_call env.faults.create_version m (
        after_call env.faults.update_active m1 (
          after_call env.faults.append_change_log m2
            (m4, ended (result runtime_config true none (some applied.version.id) m4))))

  -- the merged behaviour's schema may throw
  abbrev pub patch_merged : Option RuntimeBehavior → Manager → Work
  patch_merged none m = (m, threw env.schema_error)
  patch_merged (some behavior) m = request_version behavior m

  -- `applyBehaviorPatch`
  unfoldable pub apply_behavior_patch : Bool → Manager → Manager × MutationResult
  unfolding enqueue is_valid_patch build_runtime_behavior_from_seed request_version
  apply_behavior_patch allow_live = enqueue runtime_config λ m.
      if not (is_valid_patch patch)
      then refuse runtime_config actor reason env.schema_error env m
      else if is_live_patch patch.mode && not allow_live
      then refuse runtime_config actor reason
          "live mode changes require the live promotion workflow" env m
      else patch_merged (build_runtime_behavior_from_seed m.state.requested.version.config patch) m

-- `` `mode set to ${mode}` ``
abbrev pub mode_reason : RuntimeMode → String
mode_reason RuntimeMode.disabled = "mode set to disabled"
mode_reason RuntimeMode.observe = "mode set to observe"
mode_reason RuntimeMode.paper = "mode set to paper"
mode_reason RuntimeMode.live_limited = "mode set to live_limited"
mode_reason RuntimeMode.live = "mode set to live"

abbrev pub mode_patch : RuntimeMode → RuntimeBehaviorPatch
mode_patch mode = record {
  mode = some mode;
  rollout_posture = none;
  execution_toggles = none;
  polling_interval_ms = none;
  filters = none;
  adapter_toggles = none;
  rate_caps = none;
  thresholds = none;
  feature_flags = none;
  notes = absent;
}

-- `setMode`, which passes the workflow of a live promotion by itself
unfoldable pub set_mode :
    RuntimeMode → String → Option String → Env → Manager → Manager × MutationResult
set_mode mode actor reason env =
    apply_behavior_patch (mode_patch mode) actor (some (reason otherwise mode_reason mode)) env true
