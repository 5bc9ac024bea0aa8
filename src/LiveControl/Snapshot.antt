-- ===== src/LiveControl/Snapshot.antt =====
-- The posture, the refusals and the operator's snapshot of live-control.ts.
use bobby_execute.Base.{
  ℕ, Bool, true, false, not, ◌&&◌, ◌||◌, Option, none, some, length, if◌then◌else◌, ◌or_else◌,
}
use bobby_execute.KillSwitch.{is_kill_switch_halted}
use bobby_execute.DailyLoss.{get_daily_loss_state}
use bobby_execute.LiveControl.Types.{
  ControlState, ControlView, ExecutionMode, live, LiveControlPosture, live_unavailable,
  live_disarmed, live_armed, live_blocked, live_killed, RolloutPosture, paper_only,
  staged_live_candidate, paused_or_rolled_back, RolloutSnapshot, LiveControlReasonCode,
  RefusalStage, OperatorAction, MicroLiveCaps, Message, LiveExecutionAttempt,
}
use bobby_execute.LiveControl.Config.{
  Env, is_live_test_mode_enabled, read_execution_mode, read_rollout_posture, read_caps,
  caps_or_default,
}
use bobby_execute.LiveControl.State.{
  Host, change, set_reason, is_terminal_round_status, cleanup_counters,
}

abbrev pub is_live : ExecutionMode → Bool
is_live live = true
is_live _ = false

abbrev pub is_paper_only : RolloutPosture → Bool
is_paper_only paper_only = true
is_paper_only _ = false

abbrev pub is_paused : RolloutPosture → Bool
is_paused paused_or_rolled_back = true
is_paused _ = false

abbrev pub is_staged : RolloutPosture → Bool
is_staged staged_live_candidate = true
is_staged _ = false

-- `!state.armed || state.degraded || state.manualRearmRequired`
abbrev pub not_ready : ControlState → Bool
not_ready s = not s.armed || s.degraded || s.manual_rearm_required

unfoldable pub evaluate_posture : ExecutionMode → RolloutSnapshot → Host → LiveControlPosture
evaluate_posture mode rollout h =
    if not (is_live mode)
    then live_unavailable
    else if not rollout.valid
    then live_blocked
    else if is_paper_only rollout.posture || is_paused rollout.posture
    then live_blocked
    else if is_kill_switch_halted h.kill_switch
    then live_killed
    else if h.control.blocked || is_terminal_round_status h.control.round_status
    then live_blocked
    else if is_staged rollout.posture && not_ready h.control
    then live_blocked
    else if h.control.armed
    then live_armed
    else live_disarmed

pub record Refusal : Type 0 where
  pub code : LiveControlReasonCode
  pub stage : RefusalStage
  pub detail : Option Message
  pub at : ℕ
  pub operator_action_required : Bool
  pub posture : LiveControlPosture

-- `LiveControlDecision`: allowed with or without an attempt, or refused
pub data LiveControlDecision : Type 0 where
  allowed : Option LiveExecutionAttempt → LiveControlDecision
  refused : Refusal → LiveControlDecision

abbrev pub is_allowed : LiveControlDecision → Bool
is_allowed (allowed _) = true
is_allowed (refused _) = false

-- the state that `refuse` leaves
unfoldable pub refuse_host :
    Env → LiveControlReasonCode → RefusalStage → Message → Bool → Host → Host
refuse_host env code stage detail action h = set_reason code (some detail) env.now_ms (
    change
      (λ s. record s {
        last_guardrail_refusal = some (record {
          code = code;
          stage = stage;
          at = env.now_ms;
          detail = some detail;
          operator_action_required = action;
        });
      })
      h)

unfoldable pub refuse :
    Env
    → ExecutionMode
    → LiveControlReasonCode
    → RefusalStage
    → Message
    → Bool
    → Host
    → Host × LiveControlDecision
refuse env mode code stage detail action h =
    let h' = refuse_host env code stage detail action h in
    (
      h',
      refused (record {
        code = code;
        stage = stage;
        detail = some detail;
        at = env.now_ms;
        operator_action_required = action;
        posture = evaluate_posture mode (read_rollout_posture env mode) h';
      }),
    )

-- `MicroLiveControlSnapshot`. The fields that copy the state one for one are its `control`.
pub record MicroLiveControlSnapshot : Type 0 where
  pub mode : ExecutionMode
  pub live_test_mode : Bool
  pub control : ControlState
  pub posture : LiveControlPosture
  pub rollout : RolloutSnapshot
  pub live_enabled : Bool
  pub kill_switch_active : Bool
  pub blocked : Bool
  pub disarmed : Bool
  pub stopped : Bool
  pub reason_code : Option LiveControlReasonCode
  pub reason_detail : Option Message
  pub last_reason_at : Option ℕ
  pub last_operator_action : Option OperatorAction
  pub last_operator_action_at : Option ℕ
  pub caps : MicroLiveCaps
  pub trades_in_window : ℕ
  pub failures_in_window : ℕ
  pub daily_loss_usd : ℕ

-- `runtimeControlView?.field ?? state.field`
abbrev view_or : {A : Type 0} → Option ControlView → (ControlView → Option A) → Option A → Option A
view_or none f b = b
view_or (some v) f b = f v or_else b

unfoldable pub describe : Env → Host → MicroLiveControlSnapshot
describe env h =
    let mode = read_execution_mode env in
    let rollout = read_rollout_posture env mode in
    let s = h.control in
    let halted = is_kill_switch_halted h.kill_switch in
    record {
      mode = mode;
      live_test_mode = is_live_test_mode_enabled env;
      control = s;
      posture = evaluate_posture mode rollout h;
      rollout = rollout;
      live_enabled = is_live mode;
      kill_switch_active = halted;
      blocked =
          s.blocked
          || is_terminal_round_status s.round_status
          || halted
          || is_paused rollout.posture;
      disarmed = not s.armed;
      stopped = is_terminal_round_status s.round_status;
      reason_code = view_or env.view (λ v. v.reason_code) s.reason_code;
      reason_detail = view_or env.view (λ v. v.reason_detail) s.reason_detail;
      last_reason_at = view_or env.view (λ v. v.last_reason_at) s.last_reason_at;
      last_operator_action = view_or env.view (λ v. v.last_operator_action) s.last_operator_action;
      last_operator_action_at =
          view_or env.view (λ v. v.last_operator_action_at) s.last_operator_action_at;
      caps = caps_or_default (read_caps env);
      trades_in_window = length s.recent_trade_at_ms;
      failures_in_window = length s.recent_failure_at_ms;
      daily_loss_usd = (get_daily_loss_state env.now_ms h.daily_loss).loss_usd;
    }

-- `getMicroLiveControlSnapshot`, which cleans the counters up first
unfoldable pub get_micro_live_control_snapshot : Env → Host → Host × MicroLiveControlSnapshot
get_micro_live_control_snapshot env h =
    let h' = cleanup_counters env.now_ms (caps_or_default (read_caps env)) h in
    (h', describe env h')

pub record Outcome : Type 0 where
  pub success : Bool
  pub message : Message
  pub snapshot : MicroLiveControlSnapshot

unfoldable pub respond : Env → Bool → Message → Host → Host × Outcome
unfolding get_micro_live_control_snapshot
respond env success message h =
    let (h', snapshot) = get_micro_live_control_snapshot env h in
    (h', record { success = success; message = message; snapshot = snapshot })
