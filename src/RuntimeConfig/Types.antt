-- ===== src/RuntimeConfig/Types.antt =====
-- The data of the runtime configuration, bot/src/config/runtime-config-schema.ts. A number with a
-- fraction is a number of billionths. The literal `schemaVersion` is left out.
use bobby_execute.Base.{ℕ, String, Bool, Option, List}
use bobby_execute.LiveControl.Types.{RolloutPosture}

pub data RuntimeMode : Type 0 where
  disabled observe paper live_limited live : RuntimeMode

pub data ReviewPolicyMode : Type 0 where
  no_review draft_only required : ReviewPolicyMode

pub data PauseScope : Type 0 where
  soft hard : PauseScope

pub record ExecutionToggles : Type 0 where
  pub trading_enabled : Bool
  pub live_test_mode : Bool
  pub dry_run : Bool

pub record FilterConfig : Type 0 where
  pub allowlist_tokens : List String
  pub denylist_tokens : List String

pub record AdapterToggles : Type 0 where
  pub execution_enabled : Bool
  pub publish_enabled : Bool
  pub paper_adapters_enabled : Bool

pub record RateCaps : Type 0 where
  pub require_arm : Bool
  pub max_notional_per_trade : ℕ
  pub max_trades_per_window : ℕ
  pub window_ms : ℕ
  pub cooldown_ms : ℕ
  pub max_in_flight : ℕ
  pub failures_to_block : ℕ
  pub failure_window_ms : ℕ
  pub max_daily_notional : Option ℕ

pub record Thresholds : Type 0 where
  pub max_slippage_percent : ℕ
  pub circuit_breaker_failure_threshold : ℕ
  pub circuit_breaker_recovery_ms : ℕ
  pub review_policy_mode : ReviewPolicyMode

-- a key of `featureFlags` with its value
pub record FeatureFlag : Type 0 where
  pub key : String
  pub value : Bool

-- `RuntimeBehaviorConfig`
pub record RuntimeBehavior : Type 0 where
  pub mode : RuntimeMode
  pub rollout_posture : RolloutPosture
  pub execution_toggles : ExecutionToggles
  pub polling_interval_ms : ℕ
  pub filters : FilterConfig
  pub adapter_toggles : AdapterToggles
  pub rate_caps : RateCaps
  pub thresholds : Thresholds
  pub feature_flags : List FeatureFlag
  pub notes : Option String

-- The parts of a patch, `none` where the patch does not name the field.
pub record ExecutionTogglesPatch : Type 0 where
  pub trading_enabled : Option Bool
  pub live_test_mode : Option Bool
  pub dry_run : Option Bool

pub record FilterConfigPatch : Type 0 where
  pub allowlist_tokens : Option (List String)
  pub denylist_tokens : Option (List String)

pub record AdapterTogglesPatch : Type 0 where
  pub execution_enabled : Option Bool
  pub publish_enabled : Option Bool
  pub paper_adapters_enabled : Option Bool

pub record RateCapsPatch : Type 0 where
  pub require_arm : Option Bool
  pub max_notional_per_trade : Option ℕ
  pub max_trades_per_window : Option ℕ
  pub window_ms : Option ℕ
  pub cooldown_ms : Option ℕ
  pub max_in_flight : Option ℕ
  pub failures_to_block : Option ℕ
  pub failure_window_ms : Option ℕ
  pub max_daily_notional : Option ℕ

pub record ThresholdsPatch : Type 0 where
  pub max_slippage_percent : Option ℕ
  pub circuit_breaker_failure_threshold : Option ℕ
  pub circuit_breaker_recovery_ms : Option ℕ
  pub review_policy_mode : Option ReviewPolicyMode

-- the key `notes` of a patch: absent, null, or a text
pub data NotesPatch : Type 0 where
  absent null : NotesPatch
  text : String → NotesPatch

-- `RuntimeBehaviorPatch`
pub record RuntimeBehaviorPatch : Type 0 where
  pub mode : Option RuntimeMode
  pub rollout_posture : Option RolloutPosture
  pub execution_toggles : Option ExecutionTogglesPatch
  pub polling_interval_ms : Option ℕ
  pub filters : Option FilterConfigPatch
  pub adapter_toggles : Option AdapterTogglesPatch
  pub rate_caps : Option RateCapsPatch
  pub thresholds : Option ThresholdsPatch
  pub feature_flags : Option (List FeatureFlag)
  pub notes : NotesPatch

-- `RuntimeOverlay`
pub record RuntimeOverlay : Type 0 where
  pub paused : Bool
  pub pause_scope : Option PauseScope
  pub pause_reason : Option String
  pub kill_switch : Bool
  pub kill_switch_reason : Option String
  pub reload_nonce : ℕ
  pub pending_restart : Bool
  pub pending_reason : Option String
