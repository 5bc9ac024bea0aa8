-- ===== src/LiveControl/Config.antt =====
-- How live-control.ts reads its configuration: from the runtime configuration's view where one is
-- provided, and otherwise from the environment variables. One call of an operation reads one clock.
use bobby_execute.Base.Text.{
  lower_is, trim, is_empty, split_commas, is_digits, parse_int, Float, nan, infinite, negative,
  amount, units, parse_float,
}
use bobby_execute.Base.{
  ℕ, String, Bool, true, false, not, ◌||◌, Option, none, some, List, [], ◌∷◌, map, keep, ltb,
  if◌then◌else◌, ◌otherwise◌, ◌or_else◌,
}
use bobby_execute.LiveControl.Types.{
  ExecutionMode, dry, paper, live, RolloutPosture, paper_only, micro_live, staged_live_candidate,
  paused_or_rolled_back, LiveControlReasonCode, micro_live_config_invalid, RolloutSnapshot,
  MicroLiveCaps, ControlView, Message, lit,
}

pub record Env : Type 0 where
  pub now_ms : ℕ
  pub vars : String → Option String
  -- `readRuntimeControlView()`: `none` without a provider, and where the provider throws
  pub view : Option ControlView

-- What may throw an error with a message.
pub data Try (A : Type 0) : Type 0 where
  returns : A → Try A
  throws : Message → Try A

infixl 5 ◌>>=◌
abbrev pub ◌>>=◌ : {A B : Type 0} → Try A → (A → Try B) → Try B
returns a >>= f = f a
throws e >>= f = throws e

-- `raw == null || raw === ""`
abbrev pub given : Option String → Option String
given none = none
given (some s) = if is_empty s then none else some s

-- `` `invalid ${kind} '${raw}'` ``
abbrev invalid : String → String → Message
invalid kind raw = lit kind ∷ lit raw ∷ lit "'" ∷ []

parse_bool_text : String → Try Bool
parse_bool_text raw =
    if lower_is raw "true"
    then returns true
    else if lower_is raw "false"
    then returns false
    else throws (invalid "invalid boolean '" raw)

unfoldable pub parse_bool : Option String → Bool → Try Bool
unfolding parse_bool_text
parse_bool raw fallback = elim (given raw) [ none ↦ returns fallback | some s ↦ parse_bool_text s ]

at_least : String → ℕ → Float → Try ℕ
at_least raw low nan = throws (invalid "invalid numeric '" raw)
at_least raw low infinite = throws (invalid "invalid numeric '" raw)
at_least raw low negative = throws (invalid "invalid numeric '" raw)
at_least raw low (amount n) =
    if ltb n low then throws (invalid "invalid numeric '" raw) else returns n

unfoldable pub parse_number : Option String → ℕ → ℕ → Try ℕ
unfolding at_least
parse_number raw fallback low = elim (given raw) [
  | none ↦ returns fallback
  | some s ↦ at_least s low (parse_float s)
]

parse_int_text : String → ℕ → Try ℕ
parse_int_text raw low =
    if not (is_digits raw)
    then throws (invalid "invalid integer '" raw)
    else if ltb (parse_int raw) low
    then throws (invalid "invalid integer '" raw)
    else returns (parse_int raw)

unfoldable pub parse_int_strict : Option String → ℕ → ℕ → Try ℕ
unfolding parse_int_text
parse_int_strict raw fallback low = elim (given raw) [
  | none ↦ returns fallback
  | some s ↦ parse_int_text s low
]

unfoldable pub parse_allowlist : Option String → List String
parse_allowlist raw = elim (given raw) [
  | none ↦ []
  | some s ↦ keep (λ token. not (is_empty token)) (map trim (split_commas s))
]

-- `String(value).toLowerCase() === word`, for a word that is not "undefined"
abbrev var_is : Option String → String → Bool
var_is none word = false
var_is (some s) word = lower_is s word

unfoldable pub is_live_test_mode_enabled : Env → Bool
is_live_test_mode_enabled env = elim env.view [
  | none ↦ var_is (env.vars "LIVE_TEST_MODE") "true"
  | some view ↦ view.live_test_mode
]

unfoldable pub read_execution_mode : Env → ExecutionMode
read_execution_mode env = elim env.view [
  | none ↦
      if var_is (env.vars "LIVE_TRADING") "true"
      then live
      else if var_is (env.vars "DRY_RUN") "false"
      then paper
      else dry
  | some view ↦ view.applied_execution_mode
]

abbrev is_config_invalid : Option LiveControlReasonCode → Bool
is_config_invalid (some micro_live_config_invalid) = true
is_config_invalid _ = false

rollout_of_view : ControlView → RolloutSnapshot
rollout_of_view view =
    let broken = is_config_invalid view.reason_code in
    record {
      posture =
          if view.paused || view.kill_switch then paused_or_rolled_back else view.rollout_posture;
      configured = true;
      valid = not broken;
      reason_code = if broken then some micro_live_config_invalid else none;
      reason_detail = if broken then view.degraded_reason or_else view.reason_detail else none;
      last_reason_at = view.last_reason_at;
    }

abbrev pub configured_posture : RolloutPosture → RolloutSnapshot
configured_posture p = record {
  posture = p;
  configured = true;
  valid = true;
  reason_code = none;
  reason_detail = none;
  last_reason_at = none;
}

abbrev invalid_posture : String → ℕ → RolloutSnapshot
invalid_posture raw now = record {
  posture = paused_or_rolled_back;
  configured = true;
  valid = false;
  reason_code = some micro_live_config_invalid;
  reason_detail = some (
      lit "Invalid rollout posture '"
      ∷ lit raw
      ∷ lit "'. Expected paper_only, micro_live, staged_live_candidate, or paused_or_rolled_back."
      ∷ []);
  last_reason_at = some now;
}

rollout_of_text : String → ℕ → RolloutSnapshot
rollout_of_text raw now =
    if lower_is raw "paper_only"
    then configured_posture paper_only
    else if lower_is raw "micro_live"
    then configured_posture micro_live
    else if lower_is raw "staged_live_candidate"
    then configured_posture staged_live_candidate
    else if lower_is raw "paused_or_rolled_back"
    then configured_posture paused_or_rolled_back
    else invalid_posture raw now

abbrev default_posture : ExecutionMode → RolloutPosture
default_posture live = micro_live
default_posture _ = paper_only

-- `process.env.ROLLOUT_POSTURE?.trim()`, `none` where that is undefined or empty
abbrev rollout_text : Option String → Option String
rollout_text none = none
rollout_text (some s) = given (some (trim s))

unfoldable pub read_rollout_posture : Env → ExecutionMode → RolloutSnapshot
unfolding rollout_of_view rollout_of_text
read_rollout_posture env mode = elim env.view [
  | some view ↦ rollout_of_view view
  | none ↦ elim (rollout_text (env.vars "ROLLOUT_POSTURE")) [
    | none ↦ record (configured_posture (default_posture mode)) { configured = false }
    | some raw ↦ rollout_of_text raw env.now_ms
  ]
]

abbrev pub default_caps : MicroLiveCaps
default_caps = record {
  require_arm = true;
  max_notional_per_trade = units 25;
  max_trades_per_window = 2;
  window_ms = 3600000;
  cooldown_ms = 60000;
  max_in_flight = 1;
  failures_to_block = 3;
  failure_window_ms = 900000;
  max_daily_notional = some (units 50);
  allowlist_tokens = [];
}

caps_of_vars : (String → Option String) → Try MicroLiveCaps
caps_of_vars vars = do
  arm ← parse_bool (vars "MICRO_LIVE_REQUIRE_ARM") default_caps.require_arm
  notional ← parse_number (vars "MICRO_LIVE_MAX_NOTIONAL") default_caps.max_notional_per_trade 1000
  trades ←
      parse_int_strict (vars "MICRO_LIVE_MAX_TRADES_PER_WINDOW") default_caps.max_trades_per_window
        1
  window ← parse_int_strict (vars "MICRO_LIVE_WINDOW_MS") default_caps.window_ms 1000
  cooldown ← parse_int_strict (vars "MICRO_LIVE_COOLDOWN_MS") default_caps.cooldown_ms 0
  flights ← parse_int_strict (vars "MICRO_LIVE_MAX_INFLIGHT") default_caps.max_in_flight 1
  failures ← parse_int_strict (vars "MICRO_LIVE_FAILURES_TO_BLOCK") default_caps.failures_to_block 1
  failing ←
      parse_int_strict (vars "MICRO_LIVE_FAILURE_WINDOW_MS") default_caps.failure_window_ms 1000
  daily ←
      parse_number (vars "MICRO_LIVE_MAX_DAILY_NOTIONAL")
        (default_caps.max_daily_notional otherwise 0) 1000
  returns (record {
    require_arm = arm;
    max_notional_per_trade = notional;
    max_trades_per_window = trades;
    window_ms = window;
    cooldown_ms = cooldown;
    max_in_flight = flights;
    failures_to_block = failures;
    failure_window_ms = failing;
    max_daily_notional = some daily;
    allowlist_tokens = parse_allowlist (vars "MICRO_LIVE_ALLOWLIST_TOKENS");
  })

unfoldable pub read_caps : Env → Try MicroLiveCaps
unfolding caps_of_vars
read_caps env = elim env.view [ some view ↦ returns view.rate_caps | none ↦ caps_of_vars env.vars ]

-- `capsConfig.valid ? capsConfig.caps : DEFAULT_CAPS`
abbrev pub caps_or_default : Try MicroLiveCaps → MicroLiveCaps
caps_or_default (returns caps) = caps
caps_or_default (throws e) = default_caps
