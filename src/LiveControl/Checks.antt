-- ===== src/LiveControl/Checks.antt =====
-- The checks of `evaluateMicroLiveIntent` behind the deployment's, each against its conditions.
use bobby_execute.Base.{
  ℕ, ◌+◌, ◌≤◌, ◌<◌, ◌≡◌, refl, sym, ◌∷◌, true, false, Option, none, some, [], arith,
}
use bobby_execute.KillSwitch.{is_kill_switch_halted}
use bobby_execute.LiveControl.Types.{
  ExecutionMode, RolloutSnapshot, lit, num, MicroLiveCaps, TradeIntent, LiveExecutionAttempt,
}
use bobby_execute.LiveControl.Config.{Env}
use bobby_execute.LiveControl.State.{Host, persist_live_control_state, change}
use bobby_execute.LiveControl.Snapshot.{allowed, is_allowed, refuse}
use bobby_execute.LiveControl.Intents.{
  over_daily, cooling, parse_intent_notional, check_rates, check_intent, check_ready,
}
use bobby_execute.LiveControl.Conditions.{Paced, Bounded, Ready}

over_daily_none : (o : Option ℕ) (n cap : ℕ) → over_daily o n ≡ false → o ≡ some cap → n ≤ cap
over_daily_none o n cap h e = ground arith

cooling_none :
    (w now last : ℕ) (o : Option ℕ)
    → cooling w now o ≡ false
    → o ≡ some last
    → 0 < w
    → last + w ≤ now
cooling_none w now last o h e p = ground arith

check_rates-Paced :
    (intent : TradeIntent) (env : Env) (mode : ExecutionMode) (caps : MicroLiveCaps) (n : ℕ)
    (h : Host)
    → is_allowed (check_rates intent env mode caps n h).1 ≡ true
    → Paced env caps n h.control
unfolding check_rates refuse
check_rates-Paced intent env mode caps n h e = record {
  in_window = ground arith;
  in_day = λ cap c. over_daily_none _ _ cap (ground arith) c;
  in_air = ground arith;
  cooled = λ last c p. cooling_none _ _ last _ (ground arith) c p;
}

over_daily-false :
    (o : Option ℕ) (n : ℕ) → ((cap : ℕ) → o ≡ some cap → n ≤ cap) → over_daily o n ≡ false
over_daily-false none n f = refl
over_daily-false (some cap) n f = ground (arith, f cap refl)

cooling-false :
    (w now : ℕ) (o : Option ℕ)
    → ((last : ℕ) → o ≡ some last → 0 < w → last + w ≤ now)
    → cooling w now o ≡ false
cooling-false w now none f = refl
cooling-false w now (some last) f = ground (arith, f last refl)

-- what an admission returns and leaves
abbrev pub attempt_of : TradeIntent → Env → ℕ → LiveExecutionAttempt
attempt_of intent env n = record {
  attempt_id = lit intent.trace_id ∷ lit ":" ∷ num env.now_ms ∷ [];
  started_at = env.now_ms;
  notional = n;
}

abbrev pub launched : Host → Host
launched h = persist_live_control_state (change (λ s. record s { in_flight = s.in_flight + 1 }) h)

Paced-check_rates :
    (intent : TradeIntent) (env : Env) (mode : ExecutionMode) (caps : MicroLiveCaps) (n : ℕ)
    (h : Host)
    → Paced env caps n h.control
    → check_rates intent env mode caps n h ≡ (launched h, allowed (some (attempt_of intent env n)))
unfolding check_rates
Paced-check_rates intent env mode caps n h p = ground (
  arith,
  p.in_window,
  p.in_air,
  over_daily-false caps.max_daily_notional (h.control.daily_notional + n) p.in_day,
  cooling-false caps.cooldown_ms env.now_ms h.control.last_execution_at_ms p.cooled,
)

check_intent-Bounded :
    (intent : TradeIntent) (env : Env) (mode : ExecutionMode) (caps : MicroLiveCaps) (o : Option ℕ)
    (h : Host)
    → o ≡ parse_intent_notional intent
    → is_allowed (check_intent intent env mode caps o h).1 ≡ true
    → (n : ℕ) × Bounded intent env caps n h.control × Paced env caps n h.control
unfolding check_intent refuse
check_intent-Bounded intent env mode caps none h p e = ground arith
check_intent-Bounded intent env mode caps (some n) h p e = (
  n,
  record { parsed = sym p; listed = ground arith; capped = ground arith; in_round = ground arith },
  check_rates-Paced intent env mode caps n h (ground arith),
)

Bounded-check_intent :
    (intent : TradeIntent) (env : Env) (mode : ExecutionMode) (caps : MicroLiveCaps) (n : ℕ)
    (h : Host)
    → Bounded intent env caps n h.control
    → Paced env caps n h.control
    → check_intent intent env mode caps (some n) h
      ≡ (launched h, allowed (some (attempt_of intent env n)))
unfolding check_intent
Bounded-check_intent intent env mode caps n h b p =
    ground (arith, b.listed, b.capped, b.in_round, Paced-check_rates intent env mode caps n h p)

pub check_ready-Ready :
    (intent : TradeIntent) (env : Env) (mode : ExecutionMode) (rollout : RolloutSnapshot)
    (caps : MicroLiveCaps) (h : Host)
    → is_allowed (check_ready intent env mode rollout caps h).1 ≡ true
    → (n : ℕ) × Ready rollout caps h.control
      × (is_kill_switch_halted h.kill_switch ≡ false)
      × Bounded intent env caps n h.control
      × Paced env caps n h.control
unfolding check_ready refuse
check_ready-Ready intent env mode rollout caps h e =
    let (n, b, p) =
      check_intent-Bounded intent env mode caps (parse_intent_notional intent) h refl
        (ground arith) in
    (
      n,
      record { staged = ground arith; unblocked = ground arith; armed = ground arith },
      ground arith,
      b,
      p,
    )

pub Ready-check_ready :
    (intent : TradeIntent) (env : Env) (mode : ExecutionMode) (rollout : RolloutSnapshot)
    (caps : MicroLiveCaps) (n : ℕ) (h : Host)
    → Ready rollout caps h.control
    → is_kill_switch_halted h.kill_switch ≡ false
    → Bounded intent env caps n h.control
    → Paced env caps n h.control
    → check_ready intent env mode rollout caps h
      ≡ (launched h, allowed (some (attempt_of intent env n)))
unfolding check_ready
Ready-check_ready intent env mode rollout caps n h r k b p = ground (
  arith,
  r.staged,
  r.unblocked,
  r.armed,
  b.parsed,
  Bounded-check_intent intent env mode caps n h b p,
)
