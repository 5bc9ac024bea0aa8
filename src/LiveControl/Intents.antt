-- ===== src/LiveControl/Intents.antt =====
-- The admission of a live intent and the end of its execution, from live-control.ts.
use bobby_execute.Base.Text.{Float, amount, parse_float}
use bobby_execute.Base.{
  ℕ, suc, ◌+◌, ◌-◌, String, Bool, true, false, not, ◌&&◌, Option, none, some, List, [], ◌∷◌, ◌++◌,
  any, length, leb, ltb, if◌then◌else◌, ◌otherwise◌, ◌===◌,
}
use bobby_execute.KillSwitch.{is_kill_switch_halted}
use bobby_execute.LiveControl.Types.{
  ControlState, ExecutionMode, LiveTestRoundStatus, running, RolloutSnapshot, live_not_enabled,
  micro_live_config_invalid, micro_live_disarmed, micro_live_killed, micro_live_blocked,
  micro_live_notional_invalid, micro_live_notional_cap_exceeded, micro_live_window_cap_exceeded,
  micro_live_daily_notional_cap_exceeded, micro_live_cooldown_active,
  micro_live_inflight_cap_exceeded, micro_live_allowlist_denied,
  micro_live_failure_threshold_reached, preflight, limits, MicroLiveCaps, TradeIntent,
  LiveExecutionAttempt, lit, num, units_of, round, say,
}
use bobby_execute.LiveControl.Config.{
  Env, Try, returns, throws, is_live_test_mode_enabled, read_execution_mode, read_rollout_posture,
  read_caps, caps_or_default,
}
use bobby_execute.LiveControl.State.{
  Host, persist_live_control_state, change, set_reason, cleanup_counters,
}
use bobby_execute.LiveControl.Snapshot.{
  is_live, is_paper_only, is_paused, is_staged, not_ready, LiveControlDecision, allowed, refuse,
}

abbrev positive : Float → Option ℕ
positive (amount (suc n)) = some (suc n)
positive _ = none

unfoldable pub parse_intent_notional : TradeIntent → Option ℕ
parse_intent_notional intent = positive (parse_float intent.amount_in)

abbrev pub is_running : LiveTestRoundStatus → Bool
is_running running = true
is_running _ = false

abbrev pub is_nil : List String → Bool
is_nil [] = true
is_nil (_ ∷ _) = false

-- `caps.allowlistTokens.includes(token)`
abbrev pub includes : List String → String → Bool
includes tokens token = any (λ t. t === token) tokens

abbrev pub over_daily : Option ℕ → ℕ → Bool
over_daily none n = false
over_daily (some cap) n = ltb cap n

-- `nowMs - last < cooldown`, where the difference may be negative
abbrev pub cooling : ℕ → ℕ → Option ℕ → Bool
cooling cooldown now none = false
cooling cooldown now (some last) = ltb 0 cooldown && ltb now (last + cooldown)

-- a configuration fault blocks the control
abbrev block_degraded : Host → Host
block_degraded =
    change (λ s. record s { blocked = true; degraded = true; manual_rearm_required = true })

abbrev admitted : TradeIntent → Env → ℕ → Host → Host × LiveControlDecision
admitted intent env n h = (
  persist_live_control_state (change (λ s. record s { in_flight = s.in_flight + 1 }) h),
  allowed (
      some (record {
        attempt_id = lit intent.trace_id ∷ lit ":" ∷ num env.now_ms ∷ [];
        started_at = env.now_ms;
        notional = n;
      })),
)

-- the limits, from the trade window to the cooldown
unfoldable pub check_rates :
    TradeIntent → Env → ExecutionMode → MicroLiveCaps → ℕ → Host → Host × LiveControlDecision
check_rates intent env mode caps n h =
    let s = h.control in
    if leb caps.max_trades_per_window (length s.recent_trade_at_ms)
    then refuse env mode micro_live_window_cap_exceeded limits
        (lit "Trades in active window ("
          ∷ num (length s.recent_trade_at_ms)
          ∷ lit ") exceed cap "
          ∷ num caps.max_trades_per_window
          ∷ lit "."
          ∷ [])
        false h
    else if over_daily caps.max_daily_notional (s.daily_notional + n)
    then refuse env mode micro_live_daily_notional_cap_exceeded limits
        (lit "Daily notional "
          ∷ units_of (s.daily_notional + n)
          ∷ lit " exceeds cap "
          ∷ units_of (caps.max_daily_notional otherwise 0)
          ∷ lit "."
          ∷ [])
        false h
    else if leb caps.max_in_flight s.in_flight
    then refuse env mode micro_live_inflight_cap_exceeded limits
        (lit "In-flight executions "
          ∷ num s.in_flight
          ∷ lit " exceed cap "
          ∷ num caps.max_in_flight
          ∷ lit "."
          ∷ [])
        false h
    else if cooling caps.cooldown_ms env.now_ms s.last_execution_at_ms
    then refuse env mode micro_live_cooldown_active limits
        (lit "Cooldown active ("
          ∷ num (env.now_ms - (s.last_execution_at_ms otherwise 0))
          ∷ lit "ms < "
          ∷ num caps.cooldown_ms
          ∷ lit "ms)."
          ∷ [])
        false h
    else admitted intent env n h

-- the limits on the intent itself, and the live-test round
unfoldable pub check_intent :
    TradeIntent → Env → ExecutionMode → MicroLiveCaps → Option ℕ → Host → Host × LiveControlDecision
check_intent intent env mode caps none h =
    refuse env mode micro_live_notional_invalid limits
      (lit "Unable to parse amountIn '" ∷ lit intent.amount_in ∷ lit "' as positive notional." ∷ [])
      false h
check_intent intent env mode caps (some n) h =
    if not (is_nil caps.allowlist_tokens) && not (includes caps.allowlist_tokens intent.token_out)
    then refuse env mode micro_live_allowlist_denied limits
        (lit "tokenOut '" ∷ lit intent.token_out ∷ lit "' is not allowlisted for micro-live." ∷ [])
        false h
    else if ltb caps.max_notional_per_trade n
    then refuse env mode micro_live_notional_cap_exceeded limits
        (lit "Notional "
          ∷ units_of n
          ∷ lit " exceeds max per trade "
          ∷ units_of caps.max_notional_per_trade
          ∷ lit "."
          ∷ [])
        false h
    else if is_live_test_mode_enabled env && not (is_running h.control.round_status)
    then refuse env mode micro_live_blocked preflight
        (lit "Live intent rejected because live-test round is "
          ∷ round h.control.round_status
          ∷ lit "; running state is required."
          ∷ [])
        true h
    else check_rates intent env mode caps n h

-- the readiness of the control, once its counters are cleaned up
unfoldable pub check_ready :
    TradeIntent
    → Env
    → ExecutionMode
    → RolloutSnapshot
    → MicroLiveCaps
    → Host
    → Host × LiveControlDecision
check_ready intent env mode rollout caps h =
    if is_staged rollout.posture && not_ready h.control
    then refuse env mode micro_live_blocked preflight
        (say
          "Live intent rejected because staged_live_candidate posture is not ready for live operation.")
        true h
    else if is_kill_switch_halted h.kill_switch
    then refuse env mode micro_live_killed preflight
        (say "Live intent rejected because kill switch is active.") true
        (change (λ s. record s { armed = false; manual_rearm_required = true }) h)
    else if h.control.blocked
    then refuse env mode micro_live_blocked preflight
        (h.control.reason_detail
          otherwise say "Live intent rejected because micro-live state is blocked.")
        true h
    else if caps.require_arm && not h.control.armed
    then refuse env mode micro_live_disarmed preflight
        (say "Live intent rejected because micro-live is disarmed.") true h
    else check_intent intent env mode caps (parse_intent_notional intent) h

unfoldable pub check_config :
    TradeIntent
    → Env
    → ExecutionMode
    → RolloutSnapshot
    → Try MicroLiveCaps
    → Host
    → Host × LiveControlDecision
check_config intent env mode rollout (throws e) h =
    refuse env mode micro_live_config_invalid preflight
      (lit "Live intent rejected: micro-live config invalid (" ∷ e ++ lit ")." ∷ []) true
      (block_degraded h)
check_config intent env mode rollout (returns caps) h =
    check_ready intent env mode rollout caps (cleanup_counters env.now_ms caps h)

-- the guards on the deployment, by what the configuration says
unfoldable pub evaluate_in :
    TradeIntent
    → Env
    → ExecutionMode
    → RolloutSnapshot
    → Try MicroLiveCaps
    → Host
    → Host × LiveControlDecision
evaluate_in intent env mode rollout caps h =
    if not (is_live intent.execution_mode)
    then (h, allowed none)
    else if not (is_live mode)
    then refuse env mode live_not_enabled preflight
        (say "Live intent rejected because deployment is not in live mode.") false h
    else if not rollout.valid
    then refuse env mode (rollout.reason_code otherwise micro_live_config_invalid) preflight
        (rollout.reason_detail
          otherwise say "Live intent rejected because rollout posture configuration is invalid.")
        true (block_degraded h)
    else if is_paper_only rollout.posture
    then refuse env mode micro_live_blocked preflight
        (say "Live intent rejected because rollout posture is paper_only.") true h
    else if is_paused rollout.posture
    then refuse env mode micro_live_blocked preflight
        (say "Live intent rejected because rollout posture is paused_or_rolled_back.") true h
    else check_config intent env mode rollout caps h

unfoldable pub evaluate_micro_live_intent : TradeIntent → Env → Host → Host × LiveControlDecision
evaluate_micro_live_intent intent env h =
    let mode = read_execution_mode env in
    evaluate_in intent env mode (read_rollout_posture env mode) (read_caps env) h

abbrev succeeded : ℕ → ℕ → ControlState → ControlState
succeeded now n s = record s {
  recent_trade_at_ms = s.recent_trade_at_ms ++ now ∷ [];
  daily_notional = s.daily_notional + n;
  last_execution_at_ms = some now;
}

abbrev pub landed : ControlState → ControlState
landed s = record s { in_flight = s.in_flight - 1 }

abbrev pub failing : ℕ → ControlState → ControlState
failing now s = record s { recent_failure_at_ms = s.recent_failure_at_ms ++ now ∷ [] }

abbrev pub block_on_failures : MicroLiveCaps → ℕ → Option String → Host → Host
block_on_failures caps now code h =
    let failures = length h.control.recent_failure_at_ms in
    if leb caps.failures_to_block failures
    then set_reason micro_live_failure_threshold_reached
        (some (
          lit "Failure threshold reached ("
          ∷ num failures
          ∷ lit "/"
          ∷ num caps.failures_to_block
          ∷ lit "). Last failure="
          ∷ lit (code otherwise "unknown")
          ∷ lit "."
          ∷ []))
        now
        (change
          (λ s. record s {
            blocked = true;
            degraded = true;
            armed = false;
            manual_rearm_required = true;
          })
          h)
    else h

-- the report's `success` and `failureCode`
unfoldable pub finalize_with :
    MicroLiveCaps → LiveExecutionAttempt → Bool → Option String → ℕ → Host → Host
finalize_with caps attempt success code now h =
    let h' = change landed (cleanup_counters now caps h) in
    persist_live_control_state (
      if success
      then change (succeeded now attempt.notional) h'
      else block_on_failures caps now code (change (failing now) h'))

unfoldable pub finalize_micro_live_intent :
    LiveExecutionAttempt → Bool → Option String → Env → Host → Host
finalize_micro_live_intent attempt success code env h =
    finalize_with (caps_or_default (read_caps env)) attempt success code env.now_ms h
