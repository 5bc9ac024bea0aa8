-- ===== src/DailyLoss/Limits.antt =====
-- The limits of bot/src/governance/daily-loss-tracker.ts over a day of trades.
use bobby_execute.Base.{
  ℕ, ◌+◌, ◌∙◌, ◌≡◌, refl, ap, String, true, ◌||◌, Option, some, List, [], ◌∷◌, length, leb, ◌==◌,
  arith,
}
use bobby_execute.Base.Int.{ℤ, pos_part}
use bobby_execute.Base.Text.{units}
use bobby_execute.DailyLoss.{
  Try, returns, throws, LiveTestConfig, get_live_test_config, DailyLossState, Tracker, to_date_key,
  get_daily_loss_state, persist_daily_loss_state, over_limit, check_limit, counted, settle_trade,
  record_trade,
}

-- a trade's loss, and the times that its call reads of its own clock and of the system's
pub record Trade : Type 0 where
  pub loss : ℤ
  pub now : ℕ
  pub system : ℕ

-- trades, in order
unfoldable pub record_all : (String → Option String) → List Trade → Tracker → Tracker
record_all vars [] t = t
record_all vars (x ∷ trades) t =
    record_all vars trades (record_trade vars x.loss x.now x.system t).0

abbrev pub total_loss : List Trade → ℕ
total_loss [] = 0
total_loss (x ∷ trades) = pos_part x.loss + total_loss trades

-- All trades are on this day, by their own clock.
pub data OnDay (key : ℕ) : List Trade → Type 0 where
  done : OnDay key []
  trade :
      {x : Trade} {trades : List Trade}
      → to_date_key x.now ≡ key
      → OnDay key trades
      → OnDay key (x ∷ trades)

pub key_same : (key : ℕ) → (key == key) ≡ true
key_same key = ground arith

pub same_day :
    (now key : ℕ) (s : DailyLossState)
    → to_date_key now ≡ key
    → s.date_key ≡ some key
    → get_daily_loss_state now s ≡ s
unfolding get_daily_loss_state
same_day now key s n k = ground (arith, key_same key)

settle_trade-state :
    (c : Try LiveTestConfig) (system : ℕ) (t : Tracker)
    → (settle_trade c system t).0.state ≡ t.state
unfolding persist_daily_loss_state
settle_trade-state (throws e) system t = refl
settle_trade-state (returns c) system t = ground arith

pub record_trade-state :
    (vars : String → Option String) (loss : ℤ) (now system : ℕ) (t : Tracker)
    → (record_trade vars loss now system t).0.state
      ≡ counted loss (get_daily_loss_state now t.state)
unfolding record_trade
record_trade-state vars loss now system t = settle_trade-state (get_live_test_config vars) system _

-- a trade on the tracker's day adds to the day
pub record_trade-counted :
    (vars : String → Option String) (key : ℕ) (x : Trade) (t : Tracker)
    → to_date_key x.now ≡ key
    → t.state.date_key ≡ some key
    → (record_trade vars x.loss x.now x.system t).0.state ≡ counted x.loss t.state
record_trade-counted vars key x t n k =
    record_trade-state vars x.loss x.now x.system t
    ∙ ap (counted x.loss) (same_day x.now key t.state n k)

-- Over the trades of one day by the clock that they are given, also where the configuration cannot be
-- read, the day's counter grows by their number and the day's loss by the sum of their positive losses.
pub record_all-totals :
    (vars : String → Option String) (key : ℕ) (trades : List Trade) (t : Tracker)
    → OnDay key trades
    → t.state.date_key ≡ some key
    → let s = (record_all vars trades t).state in
      (s.date_key ≡ some key)
      × (s.trades_count ≡ t.state.trades_count + length trades)
      × (s.loss_usd ≡ t.state.loss_usd + total_loss trades)
unfolding record_all
record_all-totals vars key [] t done k = (k, omega arith, omega arith)
record_all-totals vars key (x ∷ trades) t (trade n d) k =
    let e = record_trade-counted vars key x t n k in
    let (a, b, c) =
      record_all-totals vars key trades (record_trade vars x.loss x.now x.system t).0 d
        (ap (λ y. y.date_key) e ∙ k) in
    (a, omega (arith, b, ap (λ y. y.trades_count) e), omega (arith, c, ap (λ y. y.loss_usd) e))

-- the limit's test on a day's state, with a readable and enabled configuration
check_limit-today :
    (vars : String → Option String) (now system key : ℕ) (t : Tracker) (config : LiveTestConfig)
    → get_live_test_config vars ≡ returns config
    → config.enabled ≡ true
    → to_date_key now ≡ key
    → t.state.date_key ≡ some key
    → check_limit vars now system t ≡ (t, returns (over_limit config t.state))
unfolding check_limit
check_limit-today vars now system key t config c en n k = ground (arith, key_same key)

-- With a readable and enabled configuration, the daily limit is reached after the trades of one day
-- by the clock that they and the test are given, exactly when their number or the sum of their
-- positive losses, with those of the day before them, comes up to the configured maximum; the test
-- changes nothing.
pub record_all-check_limit :
    (vars : String → Option String) (key now system : ℕ) (trades : List Trade) (t : Tracker)
    (config : LiveTestConfig)
    → get_live_test_config vars ≡ returns config
    → config.enabled ≡ true
    → OnDay key trades
    → to_date_key now ≡ key
    → t.state.date_key ≡ some key
    → check_limit vars now system (record_all vars trades t) ≡ (
      record_all vars trades t,
      returns (
          leb config.max_trades_per_day (t.state.trades_count + length trades)
          || leb (units config.max_daily_loss_usd) (t.state.loss_usd + total_loss trades)),
    )
record_all-check_limit vars key now system trades t config c en d n k =
    let (a, b, l) = record_all-totals vars key trades t d k in
    check_limit-today vars now system key (record_all vars trades t) config c en n a
    ∙ rw (b, l) refl
