-- ===== src/RuntimeConfig/Behavior.antt =====
-- The schemas of the runtime configuration, the patch of a behaviour, and what a patch needs,
-- bot/src/config/runtime-config-schema.ts and the functions of
-- bot/src/runtime/runtime-config-manager.ts on a patch.
use bobby_execute.Base.Text.{is_empty}
use bobby_execute.Base.{
  String, Bool, true, false, not, ◌&&◌, ◌||◌, Option, none, some, List, ◌++◌, any, every, keep, leb,
  ◌===◌, if◌then◌else◌, ◌otherwise◌, ◌or_else◌,
}
use bobby_execute.LiveControl.Types.{ExecutionMode}
use bobby_execute.RuntimeConfig.Types.{
  RuntimeMode, ExecutionToggles, FilterConfig, AdapterToggles, RateCaps, Thresholds, FeatureFlag,
  RuntimeBehavior, ExecutionTogglesPatch, FilterConfigPatch, AdapterTogglesPatch, RateCapsPatch,
  ThresholdsPatch, NotesPatch, absent, null, text, RuntimeBehaviorPatch,
}

-- `deriveExecutionMode`
abbrev pub derive_execution_mode : RuntimeMode → ExecutionMode
derive_execution_mode RuntimeMode.paper = ExecutionMode.paper
derive_execution_mode RuntimeMode.live = ExecutionMode.live
derive_execution_mode RuntimeMode.live_limited = ExecutionMode.live
derive_execution_mode _ = ExecutionMode.dry

-- `isLiveModeFamily`
abbrev pub is_live_mode_family : RuntimeMode → Bool
is_live_mode_family RuntimeMode.live = true
is_live_mode_family RuntimeMode.live_limited = true
is_live_mode_family _ = false

-- an optional field of a schema: absent, or with a value that passes
abbrev passes {ℓ} : {A : Type ℓ} → (A → Bool) → Option A → Bool
passes p none = true
passes p (some a) = p a

abbrev named : List String → Bool
named = every (λ s. not (is_empty s))

caps_pass : RateCapsPatch → Bool
caps_pass c =
    passes (leb 1000) c.max_notional_per_trade
    && passes (leb 1) c.max_trades_per_window
    && passes (leb 1000) c.window_ms
    && passes (leb 1) c.max_in_flight
    && passes (leb 1) c.failures_to_block
    && passes (leb 1000) c.failure_window_ms
    && passes (leb 1000) c.max_daily_notional

thresholds_pass : ThresholdsPatch → Bool
thresholds_pass t =
    passes (λ n. leb n 100000000000) t.max_slippage_percent
    && passes (leb 1) t.circuit_breaker_failure_threshold
    && passes (leb 1000) t.circuit_breaker_recovery_ms

filters_pass : FilterConfigPatch → Bool
filters_pass f = passes named f.allowlist_tokens && passes named f.denylist_tokens

-- null passes the schema of a patch
abbrev notes_pass : NotesPatch → Bool
notes_pass absent = true
notes_pass null = true
notes_pass (text s) = not (is_empty s)

-- whether `RuntimeBehaviorPatchSchema.parse` returns, on values of the fields' types
unfoldable pub is_valid_patch : RuntimeBehaviorPatch → Bool
unfolding caps_pass thresholds_pass filters_pass
is_valid_patch p =
    passes (leb 1000) p.polling_interval_ms
    && passes filters_pass p.filters
    && passes caps_pass p.rate_caps
    && passes thresholds_pass p.thresholds
    && notes_pass p.notes

-- whether `RuntimeBehaviorSchema.parse` returns
unfoldable pub is_valid_behavior : RuntimeBehavior → Bool
is_valid_behavior b =
    leb 1000 b.polling_interval_ms
    && (named b.filters.allowlist_tokens && named b.filters.denylist_tokens)
    && (leb 1000 b.rate_caps.max_notional_per_trade
        && leb 1 b.rate_caps.max_trades_per_window
        && leb 1000 b.rate_caps.window_ms
        && leb 1 b.rate_caps.max_in_flight
        && leb 1 b.rate_caps.failures_to_block
        && leb 1000 b.rate_caps.failure_window_ms
        && passes (leb 1000) b.rate_caps.max_daily_notional)
    && (leb b.thresholds.max_slippage_percent 100000000000
        && leb 1 b.thresholds.circuit_breaker_failure_threshold
        && leb 1000 b.thresholds.circuit_breaker_recovery_ms)
    && passes (λ s. not (is_empty s)) b.notes

-- `{ ...seed.x, ...(patch.x ?? {}) }`
merge_toggles : ExecutionToggles → Option ExecutionTogglesPatch → ExecutionToggles
merge_toggles t none = t
merge_toggles t (some p) = record {
  trading_enabled = p.trading_enabled otherwise t.trading_enabled;
  live_test_mode = p.live_test_mode otherwise t.live_test_mode;
  dry_run = p.dry_run otherwise t.dry_run;
}

merge_filters : FilterConfig → Option FilterConfigPatch → FilterConfig
merge_filters f none = f
merge_filters f (some p) = record {
  allowlist_tokens = p.allowlist_tokens otherwise f.allowlist_tokens;
  denylist_tokens = p.denylist_tokens otherwise f.denylist_tokens;
}

merge_adapters : AdapterToggles → Option AdapterTogglesPatch → AdapterToggles
merge_adapters a none = a
merge_adapters a (some p) = record {
  execution_enabled = p.execution_enabled otherwise a.execution_enabled;
  publish_enabled = p.publish_enabled otherwise a.publish_enabled;
  paper_adapters_enabled = p.paper_adapters_enabled otherwise a.paper_adapters_enabled;
}

merge_caps : RateCaps → Option RateCapsPatch → RateCaps
merge_caps c none = c
merge_caps c (some p) = record {
  require_arm = p.require_arm otherwise c.require_arm;
  max_notional_per_trade = p.max_notional_per_trade otherwise c.max_notional_per_trade;
  max_trades_per_window = p.max_trades_per_window otherwise c.max_trades_per_window;
  window_ms = p.window_ms otherwise c.window_ms;
  cooldown_ms = p.cooldown_ms otherwise c.cooldown_ms;
  max_in_flight = p.max_in_flight otherwise c.max_in_flight;
  failures_to_block = p.failures_to_block otherwise c.failures_to_block;
  failure_window_ms = p.failure_window_ms otherwise c.failure_window_ms;
  max_daily_notional = p.max_daily_notional or_else c.max_daily_notional;
}

merge_thresholds : Thresholds → Option ThresholdsPatch → Thresholds
merge_thresholds t none = t
merge_thresholds t (some p) = record {
  max_slippage_percent = p.max_slippage_percent otherwise t.max_slippage_percent;
  circuit_breaker_failure_threshold =
      p.circuit_breaker_failure_threshold otherwise t.circuit_breaker_failure_threshold;
  circuit_breaker_recovery_ms =
      p.circuit_breaker_recovery_ms otherwise t.circuit_breaker_recovery_ms;
  review_policy_mode = p.review_policy_mode otherwise t.review_policy_mode;
}

-- the flags that the patch does not name, and those of the patch; the order of keys is not kept
merge_flags : List FeatureFlag → Option (List FeatureFlag) → List FeatureFlag
merge_flags old none = old
merge_flags old (some new) =
    keep (λ flag. not (any (λ changed. changed.key === flag.key) new)) old ++ new

-- the notes of the merged object; `none` where they are null
abbrev pub merge_notes : Option String → NotesPatch → Option (Option String)
merge_notes old absent = some old
merge_notes old null = none
merge_notes old (text s) = some (some s)

unfoldable pub merged : RuntimeBehavior → RuntimeBehaviorPatch → Option String → RuntimeBehavior
unfolding merge_toggles merge_filters merge_adapters merge_caps merge_thresholds merge_flags
merged seed patch notes = record {
  mode = patch.mode otherwise seed.mode;
  rollout_posture = patch.rollout_posture otherwise seed.rollout_posture;
  execution_toggles = merge_toggles seed.execution_toggles patch.execution_toggles;
  polling_interval_ms = patch.polling_interval_ms otherwise seed.polling_interval_ms;
  filters = merge_filters seed.filters patch.filters;
  adapter_toggles = merge_adapters seed.adapter_toggles patch.adapter_toggles;
  rate_caps = merge_caps seed.rate_caps patch.rate_caps;
  thresholds = merge_thresholds seed.thresholds patch.thresholds;
  feature_flags = merge_flags seed.feature_flags patch.feature_flags;
  notes = notes;
}

abbrev checked : RuntimeBehavior → Option RuntimeBehavior
checked b = if is_valid_behavior b then some b else none

-- `buildRuntimeBehaviorFromSeed`; `none` where the schema throws, as it does on null notes
unfoldable pub build_runtime_behavior_from_seed :
    RuntimeBehavior → RuntimeBehaviorPatch → Option RuntimeBehavior
unfolding merged is_valid_behavior
build_runtime_behavior_from_seed seed patch = elim (merge_notes seed.notes patch.notes) [
  | none ↦ none
  | some notes ↦ checked (merged seed patch notes)
]

abbrev given {ℓ} : {A : Type ℓ} → Option A → Bool
given none = false
given (some _) = true

-- `restartRequiredForPatch`
unfoldable pub restart_required_for_patch : RuntimeBehaviorPatch → Bool
restart_required_for_patch p =
    given p.mode
    || given p.polling_interval_ms
    || elim p.execution_toggles [
      | none ↦ false
      | some t ↦ given t.dry_run || given t.live_test_mode || given t.trading_enabled
    ]
    || elim p.thresholds [
      | none ↦ false
      | some t ↦ given t.circuit_breaker_failure_threshold || given t.circuit_breaker_recovery_ms
    ]
