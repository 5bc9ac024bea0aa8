-- ===== src/LiveControl/Types.antt =====
-- The types of live-control.ts. Times are milliseconds since the epoch, where the source also keeps
-- their ISO texts; a day key is the number of the UTC day. Amounts are in billionths (Base/Text).
use bobby_execute.Base.{ℕ, String, Bool, Option, List, [], ◌∷◌, ◌/◌}

pub data LiveControlPosture : Type 0 where
  live_unavailable live_disarmed live_armed live_blocked live_killed : LiveControlPosture

pub data LiveTestRoundStatus : Type 0 where
  idle preflighted running stopped completed failed : LiveTestRoundStatus

pub data RolloutPosture : Type 0 where
  paper_only micro_live staged_live_candidate paused_or_rolled_back : RolloutPosture

pub data ExecutionMode : Type 0 where
  dry paper live : ExecutionMode

-- `foreign`: a code of the configuration view, which the source casts to the union
pub data LiveControlReasonCode : Type 0 where
  live_not_enabled micro_live_config_invalid micro_live_disarmed : LiveControlReasonCode
  micro_live_killed micro_live_blocked micro_live_notional_invalid : LiveControlReasonCode
  micro_live_notional_cap_exceeded micro_live_window_cap_exceeded : LiveControlReasonCode
  micro_live_daily_notional_cap_exceeded micro_live_cooldown_active : LiveControlReasonCode
  micro_live_inflight_cap_exceeded micro_live_allowlist_denied : LiveControlReasonCode
  micro_live_failure_threshold_reached : LiveControlReasonCode
  foreign : String → LiveControlReasonCode

pub data OperatorAction : Type 0 where
  arm disarm kill reset_kill mode pause resume kill_switch reload runtime_config : OperatorAction

pub data RefusalStage : Type 0 where
  preflight limits : RefusalStage

-- A template text: its literal parts and the values between them, unprinted.
pub data Part : Type 0 where
  lit : String → Part
  num units_of : ℕ → Part
  round : LiveTestRoundStatus → Part
  rollout : RolloutPosture → Part

abbrev pub Message : Type 0
Message = List Part

abbrev pub say : String → Message
say s = lit s ∷ []

pub record MicroLiveCaps : Type 0 where
  pub require_arm : Bool
  pub max_notional_per_trade : ℕ
  pub max_trades_per_window : ℕ
  pub window_ms : ℕ
  pub cooldown_ms : ℕ
  pub max_in_flight : ℕ
  pub failures_to_block : ℕ
  pub failure_window_ms : ℕ
  pub max_daily_notional : Option ℕ
  pub allowlist_tokens : List String

pub record RolloutSnapshot : Type 0 where
  pub posture : RolloutPosture
  pub configured : Bool
  pub valid : Bool
  pub reason_code : Option LiveControlReasonCode
  pub reason_detail : Option Message
  pub last_reason_at : Option ℕ

pub record GuardrailRefusal : Type 0 where
  pub code : LiveControlReasonCode
  pub stage : RefusalStage
  pub at : ℕ
  pub detail : Option Message
  pub operator_action_required : Bool

-- `MutableControlState`, which has the fields of `PersistedLiveControlState`
pub record ControlState : Type 0 where
  pub armed : Bool
  pub blocked : Bool
  pub degraded : Bool
  pub manual_rearm_required : Bool
  pub round_status : LiveTestRoundStatus
  pub round_started_at : Option ℕ
  pub round_stopped_at : Option ℕ
  pub round_completed_at : Option ℕ
  pub stop_reason : Option Message
  pub failure_reason : Option Message
  pub last_transition_at : Option ℕ
  pub last_transition_by : Option String
  pub reason_code : Option LiveControlReasonCode
  pub reason_detail : Option Message
  pub last_reason_at : Option ℕ
  pub last_operator_action : Option OperatorAction
  pub last_operator_action_at : Option ℕ
  pub last_guardrail_refusal : Option GuardrailRefusal
  pub in_flight : ℕ
  pub recent_trade_at_ms : List ℕ
  pub recent_failure_at_ms : List ℕ
  pub daily_notional : ℕ
  pub daily_key : ℕ
  pub last_execution_at_ms : Option ℕ

-- The part of a trade intent that this module reads.
pub record TradeIntent : Type 0 where
  pub trace_id : String
  pub token_out : String
  pub amount_in : String
  pub execution_mode : ExecutionMode

pub record LiveExecutionAttempt : Type 0 where
  -- `${traceId}:${nowMs}`
  pub attempt_id : Message
  pub started_at : ℕ
  pub notional : ℕ

-- The part of `RuntimeConfigControlView` that this module reads.
pub record ControlView : Type 0 where
  pub applied_execution_mode : ExecutionMode
  pub live_test_mode : Bool
  pub rollout_posture : RolloutPosture
  pub paused : Bool
  pub kill_switch : Bool
  pub rate_caps : MicroLiveCaps
  pub degraded_reason : Option Message
  pub reason_code : Option LiveControlReasonCode
  pub reason_detail : Option Message
  pub last_reason_at : Option ℕ
  pub last_operator_action : Option OperatorAction
  pub last_operator_action_at : Option ℕ

-- `toDayKey`
abbrev pub to_day_key : ℕ → ℕ
to_day_key now_ms = now_ms / 86400000
