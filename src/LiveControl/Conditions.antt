-- ===== src/LiveControl/Conditions.antt =====
-- What must hold of a live intent, of the configuration and of the control before the intent goes out.
use bobby_execute.Base.{ℕ, ◌+◌, ◌≤◌, ◌<◌, ◌≡◌, ◌≢◌, ◌⊎◌, true, false, some, [], length}
use bobby_execute.KillSwitch.{is_kill_switch_halted}
use bobby_execute.LiveControl.Types.{
  ControlState, ExecutionMode, live, running, RolloutSnapshot, paper_only, paused_or_rolled_back,
  staged_live_candidate, MicroLiveCaps, TradeIntent,
}
use bobby_execute.LiveControl.Config.{
  Env, Try, returns, is_live_test_mode_enabled, read_execution_mode, read_rollout_posture,
  read_caps,
}
use bobby_execute.LiveControl.State.{Host, cleaned}
use bobby_execute.LiveControl.Intents.{includes, parse_intent_notional}

-- The limits on the rate of trading, of a state whose counters are cleaned up.
pub record Paced (env : Env) (caps : MicroLiveCaps) (n : ℕ) (s : ControlState) : Type 0 where
  pub in_window : length s.recent_trade_at_ms < caps.max_trades_per_window
  pub in_day : (cap : ℕ) → caps.max_daily_notional ≡ some cap → s.daily_notional + n ≤ cap
  pub in_air : s.in_flight < caps.max_in_flight
  pub cooled :
      (last : ℕ)
      → s.last_execution_at_ms ≡ some last
      → 0 < caps.cooldown_ms
      → last + caps.cooldown_ms ≤ env.now_ms

-- The limits on the intent, and the round.
pub record Bounded (intent : TradeIntent) (env : Env) (caps : MicroLiveCaps) (n : ℕ)
    (s : ControlState) : Type 0 where
  pub parsed : parse_intent_notional intent ≡ some n
  pub listed :
      (caps.allowlist_tokens ≡ []) ⊎ (includes caps.allowlist_tokens intent.token_out ≡ true)
  pub capped : n ≤ caps.max_notional_per_trade
  pub in_round : is_live_test_mode_enabled env ≡ true → s.round_status ≡ running

-- The readiness of the control.
pub record Ready (rollout : RolloutSnapshot) (caps : MicroLiveCaps) (s : ControlState)
    : Type 0 where
  pub staged :
      rollout.posture ≡ staged_live_candidate
      → (s.armed ≡ true) × (s.degraded ≡ false) × (s.manual_rearm_required ≡ false)
  pub unblocked : s.blocked ≡ false
  pub armed : caps.require_arm ≡ true → s.armed ≡ true

-- The deployment's configuration.
pub record Deployed (mode : ExecutionMode) (rollout : RolloutSnapshot) (config : Try MicroLiveCaps)
    (caps : MicroLiveCaps) : Type 0 where
  pub is_live_mode : mode ≡ live
  pub valid : rollout.valid ≡ true
  pub not_paper : rollout.posture ≢ paper_only
  pub not_paused : rollout.posture ≢ paused_or_rolled_back
  pub configured : config ≡ returns caps

-- Everything that must hold of a live intent, of the configuration, and of the state whose counters
-- are cleaned up.
pub record AdmissibleIn (intent : TradeIntent) (env : Env) (mode : ExecutionMode)
    (rollout : RolloutSnapshot) (config : Try MicroLiveCaps) (h : Host) (caps : MicroLiveCaps)
    (n : ℕ) : Type 0 where
  pub deployed : Deployed mode rollout config caps
  pub ready : Ready rollout caps (cleaned env.now_ms caps h.control)
  pub unhalted : is_kill_switch_halted h.kill_switch ≡ false
  pub bounded : Bounded intent env caps n (cleaned env.now_ms caps h.control)
  pub paced : Paced env caps n (cleaned env.now_ms caps h.control)

abbrev pub Admissible : TradeIntent → Env → Host → MicroLiveCaps → ℕ → Type 0
Admissible intent env h caps n =
    AdmissibleIn intent env (read_execution_mode env)
      (read_rollout_posture env (read_execution_mode env)) (read_caps env) h caps n
