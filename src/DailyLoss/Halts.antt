-- ===== src/DailyLoss/Halts.antt =====
-- The halt at the daily loss limit, and what the repository keeps of a trade
-- (bot/src/governance/daily-loss-tracker.ts).
use bobby_execute.Base.{
  ℕ, ◌+◌, ◌<◌, ◌∙◌, ◌≡◌, sym, ap, String, Bool, true, false, Option, none, some, List, [], ◌∷◌, leb,
  ◌==◌, if◌then◌else◌, arith, Bool-cases, inl, inr,
}
use bobby_execute.Base.Int.{ℤ, pos_part}
use bobby_execute.Base.Text.{units}
use bobby_execute.KillSwitch.{Switch, is_kill_switch_halted, trigger_kill_switch}
use bobby_execute.DailyLoss.{
  load_daily_loss_state, returns, LiveTestConfig, get_live_test_config, DailyLossState, Tracker,
  to_date_key, fresh_day, get_daily_loss_state, persist_daily_loss_state, counted, record_trade,
}
use bobby_execute.DailyLoss.Limits.{
  Trade, record_all, total_loss, OnDay, done, trade, key_same, record_trade-state,
  record_trade-counted, same_day,
}

-- what a trade does to the switch
pub record_trade-switch :
    (vars : String → Option String) (loss : ℤ) (now system : ℕ) (t : Tracker)
    (config : LiveTestConfig)
    → get_live_test_config vars ≡ returns config
    → config.enabled ≡ true
    → let day = (get_daily_loss_state now t.state).loss_usd + pos_part loss in
      (record_trade vars loss now system t).0.switch ≡ (
        if leb (units config.max_daily_loss_usd) day
        then trigger_kill_switch (some "Daily loss limit reached") system t.switch
        else t.switch)
unfolding record_trade persist_daily_loss_state
record_trade-switch vars loss now system t config c en = ground arith

triggered :
    (reason : Option String) (now : ℕ) (k : Switch)
    → k.bridge ≡ none
    → is_kill_switch_halted (trigger_kill_switch reason now k) ≡ true
unfolding trigger_kill_switch is_kill_switch_halted
triggered reason now k b = ground arith

triggered_bridge :
    (reason : Option String) (now : ℕ) (k : Switch)
    → k.bridge ≡ none
    → (trigger_kill_switch reason now k).bridge ≡ none
unfolding trigger_kill_switch
triggered_bridge reason now k b = ground arith

-- a trade that may trip the switch keeps it halted, and without a bridge
tripped_halted :
    (b : Bool) (now : ℕ) (reason : Option String) (k : Switch)
    → k.bridge ≡ none
    → is_kill_switch_halted k ≡ true
    → is_kill_switch_halted (if b then trigger_kill_switch reason now k else k) ≡ true
tripped_halted true now reason k n h = triggered reason now k n
tripped_halted false now reason k n h = h

tripped_bridge :
    (b : Bool) (now : ℕ) (reason : Option String) (k : Switch)
    → k.bridge ≡ none
    → (if b then trigger_kill_switch reason now k else k).bridge ≡ none
tripped_bridge true now reason k n = triggered_bridge reason now k n
tripped_bridge false now reason k n = n

below : (m n : ℕ) → leb m n ≡ false → n < m
below m n h = ground arith

module _ (vars : String → Option String) (config : LiveTestConfig)
    (readable : get_live_test_config vars ≡ returns config) (enabled : config.enabled ≡ true) where
  record_all-halted :
      (trades : List Trade) (t : Tracker)
      → t.switch.bridge ≡ none
      → is_kill_switch_halted t.switch ≡ true
      → is_kill_switch_halted (record_all vars trades t).switch ≡ true
  unfolding record_all
  record_all-halted [] t n h = h
  record_all-halted (x ∷ trades) t n h =
      let e = record_trade-switch vars x.loss x.now x.system t config readable enabled in
      record_all-halted trades (record_trade vars x.loss x.now x.system t).0
        (ap (λ k. k.bridge) e ∙ tripped_bridge _ _ _ t.switch n)
        (ap is_kill_switch_halted e ∙ tripped_halted _ _ _ t.switch n h)

  -- the switch after a trade on the tracker's day
  counted-switch :
      (key : ℕ) (x : Trade) (t : Tracker)
      → to_date_key x.now ≡ key
      → t.state.date_key ≡ some key
      → (record_trade vars x.loss x.now x.system t).0.switch ≡ (
          if leb (units config.max_daily_loss_usd) (t.state.loss_usd + pos_part x.loss)
          then trigger_kill_switch (some "Daily loss limit reached") x.system t.switch
          else t.switch)
  counted-switch key x t n k =
      record_trade-switch vars x.loss x.now x.system t config readable enabled
      ∙ ap
          (λ s.
            if leb (units config.max_daily_loss_usd) (s.loss_usd + pos_part x.loss)
            then trigger_kill_switch (some "Daily loss limit reached") x.system t.switch
            else t.switch)
          (same_day x.now key t.state n k)

  -- With a readable and enabled configuration, and no bridge of the runtime configuration in front of
  -- the kill switch: after the trades of one day, from a switch that is not halted and a loss below the
  -- maximum, the switch is halted exactly where the day's loss, with the trades' positive losses, comes
  -- up to the maximum, whichever trade brings it there and whatever the later ones gain.
  pub record_all-halts :
      (key : ℕ) (trades : List Trade) (t : Tracker)
      → OnDay key trades
      → t.state.date_key ≡ some key
      → t.switch.bridge ≡ none
      → is_kill_switch_halted t.switch ≡ false
      → t.state.loss_usd < units config.max_daily_loss_usd
      → is_kill_switch_halted (record_all vars trades t).switch
        ≡ leb (units config.max_daily_loss_usd) (t.state.loss_usd + total_loss trades)
  unfolding record_all
  record_all-halts key [] t done k n h l = h ∙ ground arith
  record_all-halts key (x ∷ trades) t (trade d ds) k n h l =
      let next = (record_trade vars x.loss x.now x.system t).0 in
      let e = counted-switch key x t d k in
      let s = record_trade-counted vars key x t d k in
      elim (Bool-cases
        (leb (units config.max_daily_loss_usd) (t.state.loss_usd + pos_part x.loss))) [
          | inl b ↦
              record_all-halted trades next (ap (λ w. w.bridge) e ∙ tripped_bridge _ _ _ t.switch n)
                (ap is_kill_switch_halted e ∙ rw b (triggered _ x.system t.switch n))
              ∙ sym (ground arith)
          | inr b ↦
              record_all-halts key trades next ds (ap (λ y. y.date_key) s ∙ k)
                (ap (λ w. w.bridge) e ∙ tripped_bridge _ _ _ t.switch n)
                (ap is_kill_switch_halted e ∙ rw b h)
                (omega (arith, below _ _ b, ap (λ y. y.loss_usd) s))
              ∙ ap (leb (units config.max_daily_loss_usd)) (omega (arith, ap (λ y. y.loss_usd) s))
        ]

-- With a readable configuration and a repository, a reload right after a trade brings back the state
-- that the trade left, in which the trade and its loss are counted for the day of the trade's clock,
-- where that is the day of the system's clock; where it is not, the trade is lost: what comes back is
-- an empty day of the system's clock.
pub record_trade-load :
    (vars : String → Option String) (loss : ℤ) (now system : ℕ) (t : Tracker)
    (config : LiveTestConfig) (saved : Option DailyLossState)
    → get_live_test_config vars ≡ returns config
    → t.repository ≡ some saved
    → let t' = (record_trade vars loss now system t).0 in
      ((load_daily_loss_state t').state ≡ (
        if to_date_key now == to_date_key system
        then counted loss (get_daily_loss_state now t.state)
        else fresh_day (to_date_key system)))
      × (t'.state ≡ counted loss (get_daily_loss_state now t.state))
unfolding record_trade persist_daily_loss_state load_daily_loss_state get_daily_loss_state
record_trade-load vars loss now system t config saved c r =
    (ground (arith, key_same (to_date_key now)), record_trade-state vars loss now system t)
