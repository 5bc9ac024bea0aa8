-- ===== src/DailyLoss/Examples.antt =====
-- A day of trades under the live-test limits.
use bobby_execute.Base.{
  ◌+◌, ◌≡◌, refl, String, true, false, ◌||◌, Option, none, some, List, [], ◌∷◌, length, leb, ltb→lt,
  if◌then◌else◌, ◌===◌,
}
use bobby_execute.Base.Int.{pos, negsuc}
use bobby_execute.Base.Text.{units}
use bobby_execute.KillSwitch.{not_halted, is_kill_switch_halted, get_kill_switch_state}
use bobby_execute.DailyLoss.{
  load_daily_loss_state, counted, returns, LiveTestConfig, get_live_test_config, Tracker, fresh_day,
  get_daily_loss_state, check_limit, record_trade,
}
use bobby_execute.DailyLoss.Limits.{
  Trade, record_all, total_loss, OnDay, done, trade, record_all-totals, record_all-check_limit,
}
use bobby_execute.DailyLoss.Halts.{record_all-halts, record_trade-load}

abbrev vars : String → Option String
vars name =
    if name === "LIVE_TEST_MODE"
    then some "true"
    else if name === "LIVE_TEST_MAX_TRADES_PER_DAY"
    then some "3"
    else none

abbrev config : LiveTestConfig
config = record {
  enabled = true;
  max_capital_usd = 100;
  max_trades_per_day = 3;
  max_daily_loss_usd = 50;
}

vars_config : get_live_test_config vars ≡ returns config
unfolding get_live_test_config bobby_execute.Base.Text.trim bobby_execute.Base.Text.is_digits
    bobby_execute.Base.Text.parse_int bobby_execute.Base.Text.lower_is
vars_config = refl

abbrev tracker : Tracker
tracker = record {
  state = fresh_day 0;
  repository = some none;
  switch = record { state = not_halted; repository = none; bridge = none };
}

not_halted_yet : is_kill_switch_halted tracker.switch ≡ false
unfolding is_kill_switch_halted get_kill_switch_state
not_halted_yet = refl

-- a loss of two dollars, and a gain
abbrev trades : List Trade
trades =
    record { loss = pos (units 2); now = 1000; system = 1000 }
    ∷ record { loss = negsuc 4; now = 2000; system = 2000 }
    ∷ []

today : OnDay 0 trades
today = trade refl (trade refl done)

record_all-totals_example :
    let s = (record_all vars trades tracker).state in
    (s.date_key ≡ some 0)
    × (s.trades_count ≡ 0 + length trades)
    × (s.loss_usd ≡ 0 + total_loss trades)
record_all-totals_example = record_all-totals vars 0 trades tracker today refl

record_all-check_limit_example : check_limit vars 3000 3000 (record_all vars trades tracker) ≡ (
  record_all vars trades tracker,
  returns (leb 3 (0 + length trades) || leb (units 50) (0 + total_loss trades)),
)
record_all-check_limit_example =
    record_all-check_limit vars 0 3000 3000 trades tracker config vars_config refl today refl refl

-- a loss of sixty dollars after them
abbrev bad_day : List Trade
bad_day = record { loss = pos (units 60); now = 500; system = 500 } ∷ trades

record_all-halts_example :
    is_kill_switch_halted (record_all vars bad_day tracker).switch
    ≡ leb (units 50) (0 + total_loss bad_day)
record_all-halts_example =
    record_all-halts vars config vars_config refl 0 bad_day tracker (trade refl today) refl refl
      not_halted_yet (ltb→lt 0 (units 50) refl)

-- a trade whose clock is a day behind the system's
record_trade-load_example :
    let t' = (record_trade vars (pos (units 2)) 5000 86400000 tracker).0 in
    ((load_daily_loss_state t').state ≡ fresh_day 1)
    × (t'.state ≡ counted (pos (units 2)) (get_daily_loss_state 5000 tracker.state))
record_trade-load_example =
    record_trade-load vars (pos (units 2)) 5000 86400000 tracker config none vars_config refl
