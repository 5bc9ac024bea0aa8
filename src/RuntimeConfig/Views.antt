-- ===== src/RuntimeConfig/Views.antt =====
-- What the manager of the runtime configuration shows of its state: the signal, the status, the view
-- that the live control reads, and the kill switch's state.
use bobby_execute.Base.{
  ℕ, String, Bool, true, false, not, ◌&&◌, ◌||◌, Option, none, some, ◌==◌, ◌===◌, if◌then◌else◌,
}
use bobby_execute.KillSwitch.{KillSwitchState}
use bobby_execute.LiveControl.Types.{
  ExecutionMode, MicroLiveCaps, micro_live_config_invalid, Message, say, ControlView,
}
use bobby_execute.RuntimeConfig.Types.{
  RuntimeMode, PauseScope, soft, hard, RateCaps, FilterConfig, RuntimeBehavior, RuntimeOverlay,
}
use bobby_execute.RuntimeConfig.Behavior.{derive_execution_mode}
use bobby_execute.RuntimeConfig.Records.{
  SignalState, ConfigState, SeedSource, ManagedState, Manager,
}

abbrev pub same_bool : Bool → Bool → Bool
same_bool a b = if a then b else not b

abbrev pub same_text : Option String → Option String → Bool
same_text none none = true
same_text (some s) (some t) = s === t
same_text _ _ = false

abbrev pub same_scope : Option PauseScope → Option PauseScope → Bool
same_scope none none = true
same_scope (some soft) (some soft) = true
same_scope (some hard) (some hard) = true
same_scope _ _ = false

-- `overlayKey(a) === overlayKey(b)`
unfoldable pub same_overlay : RuntimeOverlay → RuntimeOverlay → Bool
same_overlay a b =
    same_bool a.paused b.paused
    && same_scope a.pause_scope b.pause_scope
    && same_text a.pause_reason b.pause_reason
    && same_bool a.kill_switch b.kill_switch
    && same_text a.kill_switch_reason b.kill_switch_reason
    && a.reload_nonce == b.reload_nonce
    && same_bool a.pending_restart b.pending_restart
    && same_text a.pending_reason b.pending_reason

-- the field `pendingApply` of the signal, the status and the view
unfoldable pub has_pending : ConfigState → ConfigState → Bool
unfolding same_overlay
has_pending requested applied =
    requested.pending_apply
    || requested.requires_restart
    || not (requested.version.id === applied.version.id)
    || not (same_overlay requested.overlay applied.overlay)

unfoldable pub build_signal : ManagedState → SignalState
unfolding has_pending
build_signal s = record {
  reload_nonce = s.requested.overlay.reload_nonce;
  paused = s.requested.overlay.paused;
  pause_scope = s.requested.overlay.pause_scope;
  pause_reason = s.requested.overlay.pause_reason;
  kill_switch = s.requested.overlay.kill_switch;
  kill_switch_reason = s.requested.overlay.kill_switch_reason;
  last_applied_version_id = some s.applied.version.id;
  last_valid_version_id = some s.last_valid_version.id;
  pending_apply = has_pending s.requested s.applied;
  pending_reason = s.active.pending_reason;
}

-- `RuntimeConfigStatus`, with the applied behaviour in place of its parts
pub record RuntimeConfigStatus : Type 0 where
  pub seed_source : SeedSource
  pub requested_mode : RuntimeMode
  pub requested_execution_mode : ExecutionMode
  pub applied_execution_mode : ExecutionMode
  pub applied_behavior : RuntimeBehavior
  pub requested_version_id : String
  pub active_version_id : String
  pub applied_version_id : String
  pub last_valid_version_id : String
  pub reload_nonce : ℕ
  pub last_applied_reload_nonce : ℕ
  pub paused : Bool
  pub pause_scope : Option PauseScope
  pub pause_reason : Option String
  pub kill_switch : Bool
  pub kill_switch_reason : Option String
  pub pending_apply : Bool
  pub pending_reason : Option String
  pub requires_restart : Bool
  pub degraded : Bool
  pub degraded_reason : Option String
  pub effective_version_hash : String
  pub requested_at : ℕ
  pub applied_at : Option ℕ

unfoldable pub build_status : ManagedState → RuntimeConfigStatus
unfolding has_pending
build_status s = record {
  seed_source = s.seed_source;
  requested_mode = s.requested.version.config.mode;
  requested_execution_mode = derive_execution_mode s.requested.version.config.mode;
  applied_execution_mode = derive_execution_mode s.applied.version.config.mode;
  applied_behavior = s.applied.version.config;
  requested_version_id = s.requested.version.id;
  active_version_id = s.active.active_version_id;
  applied_version_id = s.applied.version.id;
  last_valid_version_id = s.last_valid_version.id;
  reload_nonce = s.requested.overlay.reload_nonce;
  last_applied_reload_nonce = s.applied.overlay.reload_nonce;
  paused = s.applied.overlay.paused;
  pause_scope = s.applied.overlay.pause_scope;
  pause_reason = s.applied.overlay.pause_reason;
  kill_switch = s.applied.overlay.kill_switch;
  kill_switch_reason = s.applied.overlay.kill_switch_reason;
  pending_apply = has_pending s.requested s.applied;
  pending_reason = s.active.pending_reason;
  requires_restart = s.requested.requires_restart;
  degraded = s.degraded;
  degraded_reason = s.degraded_reason;
  effective_version_hash = s.applied.version.config_hash;
  requested_at = s.requested.requested_at;
  applied_at = s.applied.applied_at;
}

-- `rateCaps` and the list of `filters`, as the live control reads them
abbrev caps_of : RateCaps → FilterConfig → MicroLiveCaps
caps_of c f = record {
  require_arm = c.require_arm;
  max_notional_per_trade = c.max_notional_per_trade;
  max_trades_per_window = c.max_trades_per_window;
  window_ms = c.window_ms;
  cooldown_ms = c.cooldown_ms;
  max_in_flight = c.max_in_flight;
  failures_to_block = c.failures_to_block;
  failure_window_ms = c.failure_window_ms;
  max_daily_notional = c.max_daily_notional;
  allowlist_tokens = f.allowlist_tokens;
}

abbrev detail_of : Option String → Option Message
detail_of none = none
detail_of (some s) = some (say s)

-- `buildControlView`, the part of the view that the live control reads
unfoldable pub build_control_view : ManagedState → ControlView
build_control_view s =
    let behavior = s.applied.version.config in
    record {
      applied_execution_mode = derive_execution_mode behavior.mode;
      live_test_mode = behavior.execution_toggles.live_test_mode;
      rollout_posture = behavior.rollout_posture;
      paused = s.applied.overlay.paused;
      kill_switch = s.applied.overlay.kill_switch;
      rate_caps = caps_of behavior.rate_caps behavior.filters;
      degraded_reason = detail_of s.degraded_reason;
      reason_code = if s.degraded then some micro_live_config_invalid else none;
      reason_detail = detail_of s.degraded_reason;
      last_reason_at = some s.active.updated_at;
      last_operator_action = none;
      last_operator_action_at = some s.active.updated_at;
    }

-- `getKillSwitchState`
unfoldable pub applied_kill_switch : Manager → KillSwitchState
applied_kill_switch m = record {
  halted = m.state.applied.overlay.kill_switch;
  reason = m.state.applied.overlay.kill_switch_reason;
  triggered_at = some m.state.active.updated_at;
}
