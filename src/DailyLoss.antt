-- ===== src/DailyLoss.antt =====
-- The daily loss limit, bot/src/governance/daily-loss-tracker.ts, with the limits that
-- `getLiveTestConfig` of bot/src/config/safety.ts reads. Losses are in billionths of a dollar, and a
-- date key is the number of the UTC day. The repository is a cell, as in KillSwitch. The reason of
-- the halt leaves out the two figures that end it. `now` is a time of the clock that a call is given,
-- and `system` one of the system's clock, which `persistDailyLossState` and the kill switch read
-- whatever clock the call is given.
pub mod Limits
pub mod Halts
pub mod Examples
use bobby_execute.Base.Text.{trim, is_empty, is_digits, parse_int, lower_is, units}
use Prim.Native.Char.{code}
use bobby_execute.Base.Int.{ℤ, pos, negsuc, pos_part}
use bobby_execute.Base.{
  ℕ, suc, ◌+◌, ◌/◌, String, Bool, true, false, not, ◌&&◌, ◌||◌, Option, none, some, List, [], ◌∷◌,
  leb, ltb, ◌==◌, if◌then◌else◌,
}
use bobby_execute.KillSwitch.{Switch, trigger_kill_switch}

pub data ConfigError : Type 0 where
  not_integer too_small : String → ConfigError

pub data Try (A : Type 0) : Type 0 where
  returns : A → Try A
  throws : ConfigError → Try A

infixl 5 ◌>>=◌
abbrev pub ◌>>=◌ : {A B : Type 0} → Try A → (A → Try B) → Try B
returns a >>= f = f a
throws e >>= f = throws e

pub record LiveTestConfig : Type 0 where
  pub enabled : Bool
  pub max_capital_usd : ℕ
  pub max_trades_per_day : ℕ
  pub max_daily_loss_usd : ℕ

-- `parsed < min` for an unsigned text
bounded : String → ℕ → ℕ → Try ℕ
bounded key low n = if ltb n low then throws (too_small key) else returns n

-- A text with a minus sign is below both minima, but for "-0", which is 0.
bounded_negative : String → ℕ → ℕ → Try ℕ
unfolding bounded
bounded_negative key low n = if n == 0 then bounded key low 0 else throws (too_small key)

-- `/^-?\d+$/` and `parseInt`, on the trimmed text
integer_text : String → ℕ → String → Try ℕ
unfolding bounded bounded_negative
integer_text key low String.[] = throws (not_integer key)
integer_text key low (String.◌∷◌ c s) =
    if code c == b'-' && is_digits s
    then bounded_negative key low (parse_int s)
    else if is_digits (String.◌∷◌ c s)
    then bounded key low (parse_int (String.◌∷◌ c s))
    else throws (not_integer key)

-- `raw == null || raw === ""`
abbrev given : Option String → Option String
given none = none
given (some s) = if is_empty s then none else some s

unfoldable pub read_live_test_integer_env : (String → Option String) → String → ℕ → ℕ → Try ℕ
unfolding integer_text
read_live_test_integer_env vars key fallback low = elim (given (vars key)) [
  | none ↦ returns fallback
  | some raw ↦ integer_text key low (trim raw)
]

abbrev var_is : Option String → String → Bool
var_is none word = false
var_is (some s) word = lower_is s word

unfoldable pub get_live_test_config : (String → Option String) → Try LiveTestConfig
unfolding read_live_test_integer_env
get_live_test_config vars = do
  capital ← read_live_test_integer_env vars "LIVE_TEST_MAX_CAPITAL_USD" 100 1
  trades ← read_live_test_integer_env vars "LIVE_TEST_MAX_TRADES_PER_DAY" 1 1
  loss ← read_live_test_integer_env vars "LIVE_TEST_MAX_DAILY_LOSS_USD" 50 0
  returns (record {
    enabled = var_is (vars "LIVE_TEST_MODE") "true";
    max_capital_usd = capital;
    max_trades_per_day = trades;
    max_daily_loss_usd = loss;
  })

pub record DailyLossState : Type 0 where
  -- the empty key of a fresh process is `none`
  pub date_key : Option ℕ
  pub trades_count : ℕ
  pub loss_usd : ℕ

pub record Tracker : Type 0 where
  pub state : DailyLossState
  pub repository : Option (Option DailyLossState)
  pub switch : Switch

abbrev pub to_date_key : ℕ → ℕ
to_date_key now_ms = now_ms / 86400000

abbrev pub is_key : Option ℕ → ℕ → Bool
is_key none key = false
is_key (some k) key = k == key

abbrev pub fresh_day : ℕ → DailyLossState
fresh_day key = record { date_key = some key; trades_count = 0; loss_usd = 0 }

unfoldable pub get_daily_loss_state : ℕ → DailyLossState → DailyLossState
get_daily_loss_state now s =
    let key = to_date_key now in if is_key s.date_key key then s else fresh_day key

abbrev store : DailyLossState → Option (Option DailyLossState) → Option (Option DailyLossState)
store s none = none
store s (some _) = some (some s)

unfoldable pub persist_daily_loss_state : ℕ → Tracker → Tracker
unfolding get_daily_loss_state
persist_daily_loss_state system t = record t {
  repository = store (get_daily_loss_state system t.state) t.repository;
}

-- the two comparisons of `checkLimit`
abbrev pub over_limit : LiveTestConfig → DailyLossState → Bool
over_limit config s =
    leb config.max_trades_per_day s.trades_count || leb (units config.max_daily_loss_usd) s.loss_usd

abbrev limit_of : Try LiveTestConfig → DailyLossState → Try Bool
limit_of (throws e) s = throws e
limit_of (returns config) s = returns (if config.enabled then over_limit config s else false)

-- `checkLimit`, behind `isDailyLimitReached` and the tracker's `isLimitReached`
unfoldable pub check_limit : (String → Option String) → ℕ → ℕ → Tracker → Tracker × Try Bool
unfolding persist_daily_loss_state
check_limit vars now system t =
    let key = to_date_key now in
    if is_key t.state.date_key key
    then (t, limit_of (get_live_test_config vars) t.state)
    else (persist_daily_loss_state system (record t { state = fresh_day key }), returns false)

abbrev counted : ℤ → DailyLossState → DailyLossState
counted loss s = record s {
  trades_count = s.trades_count + 1;
  loss_usd = s.loss_usd + pos_part loss;
}

abbrev loss_tripped : LiveTestConfig → DailyLossState → Bool
loss_tripped config s = config.enabled && leb (units config.max_daily_loss_usd) s.loss_usd

-- the end of `recordTrade`: an invalid configuration throws before the state is saved
abbrev settle_trade : Try LiveTestConfig → ℕ → Tracker → Tracker × Try (Unit {0})
settle_trade (throws e) system t = (t, throws e)
settle_trade (returns config) system t = (
  persist_daily_loss_state system (
      if loss_tripped config t.state
      then record t {
        switch = trigger_kill_switch (some "Daily loss limit reached") system t.switch;
      }
      else t),
  returns tt,
)

unfoldable pub record_trade :
    (String → Option String) → ℤ → ℕ → ℕ → Tracker → Tracker × Try (Unit {0})
unfolding persist_daily_loss_state get_daily_loss_state
record_trade vars loss now system t =
    settle_trade (get_live_test_config vars) system
      (record t { state = counted loss (get_daily_loss_state now t.state) })

abbrev load_from : Option (Option DailyLossState) → DailyLossState → DailyLossState
load_from none s = s
load_from (some none) s = s
load_from (some (some loaded)) s = loaded

-- the state that `loadDailyLossState()` leaves
unfoldable pub load_daily_loss_state : Tracker → Tracker
load_daily_loss_state t = record t { state = load_from t.repository t.state }

unfoldable pub hydrate_daily_loss_state : ℕ → DailyLossState → Tracker → Tracker
unfolding persist_daily_loss_state
hydrate_daily_loss_state system s t = persist_daily_loss_state system (record t { state = s })

abbrev pub empty_day : DailyLossState
empty_day = record { date_key = none; trades_count = 0; loss_usd = 0 }

unfoldable pub reset_daily_loss_state : ℕ → Tracker → Tracker
unfolding persist_daily_loss_state
reset_daily_loss_state system t = persist_daily_loss_state system (record t { state = empty_day })
