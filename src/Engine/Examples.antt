-- ===== src/Engine/Examples.antt =====
-- Cycles of the engine, and its theorems at concrete handlers.
use bobby_execute.Base.{◌≡◌, refl, true, false, none, some, [], ◌∷◌, map}
use bobby_execute.KillSwitch.{not_halted, is_kill_switch_halted}
use bobby_execute.LiveControl.Types.{ExecutionMode}
use bobby_execute.Engine.Types.{
  Thrown, returned, threw, MarketSnapshot, WalletSnapshot, MarketStatus, signal_ok, at_stage,
  ingest, EngineState, World, EngineConfig, Handlers,
}
use bobby_execute.Engine.Cycle.{escalates, run_cycle}
use bobby_execute.Engine.Guarded.{Guarded}
use bobby_execute.Engine.Executions.{run_cycle-Guarded}
use bobby_execute.Engine.Halts.{run_cycle-halted}
use bobby_execute.Engine.Mandatory.{run_cycle-idle}

abbrev market : MarketSnapshot
market = record {
  timestamp = some 9000;
  pool_id = "pool";
  base_token = "SOL";
  quote_token = "USDC";
  price_usd = 150000000000;
  freshness_ms = 0;
  status = some MarketStatus.ok;
}

abbrev wallet : WalletSnapshot
wallet = record { timestamp = some 9500; has_balances = true }

-- every handler answers, and every check passes
abbrev handlers : Handlers
handlers = record {
  now = 10000;
  trace_id = "trace-1";
  ingest = returned (market, wallet);
  signal = λ _. returned (signal_ok (record { direction = "buy"; confidence = 800000000 }) none);
  risk = λ _ _ _. returned (record { allowed = true; reason = none });
  is_limit_reached = some (returned false);
  record_trade = λ _. none;
  chaos = λ _ _ _ _. returned (record { allowed = true; reason = none; report_hash = some "r" });
  execute = λ _. returned (record { success = true; actual_amount_out = some "0.99" });
  verify = λ _ _. returned (record { passed = true; reason = none });
}

abbrev config : EngineConfig
config = record {
  dry_run = false;
  execution_mode = ExecutionMode.paper;
  journal_writer = some (λ _. none);
  is_journal_mandatory = true;
}

abbrev unwritten : EngineConfig
unwritten = record config { journal_writer = none }

abbrev start_state : EngineState
start_state = record {
  stage = at_stage ingest;
  trace_id = "";
  timestamp = 10000;
  decision_envelope = none;
  market = none;
  wallet = none;
  signal = none;
  trade_intent = none;
  risk_allowed = none;
  chaos_allowed = none;
  chaos_report_hash = none;
  execution_report = none;
  rpc_verification = none;
  journal_entry = none;
  error = none;
  blocked = false;
  blocked_reason = none;
}

abbrev first_world : World
first_world = record {
  state = start_state;
  journal = [];
  executed = [];
  trades = [];
  kill_switch = record { state = not_halted; repository = some none; bridge = none };
}

full_journal :
    map (λ e. e.stage) (run_cycle config handlers first_world).0.journal
    ≡ "decision_outcome" ∷ "risk_decision" ∷ "chaos_decision" ∷ "execution_result"
      ∷ "verification_result" ∷ "canonical_trade_complete" ∷ []
unfolding run_cycle
full_journal = refl

one_execution :
    map (λ i. i.token_out) (run_cycle config handlers first_world).0.executed ≡ "USDC" ∷ []
unfolding run_cycle
one_execution = refl

-- an error of the risk handler that halts trading
abbrev failing_risk : Handlers
failing_risk = record handlers {
  risk = λ _ _ _.
      threw (record { message = "CircuitBreaker: No healthy Adapters"; is_chaos_gate = false });
}

failing_risk_halts : (run_cycle config failing_risk first_world).0.kill_switch.state.halted ≡ true
unfolding run_cycle
failing_risk_halts = refl

-- a late quote blocks the cycle
stale_blocks :
    (run_cycle config (record handlers { now = 80000 }) first_world).0.state.blocked_reason
    ≡ some "DATA_STALE:market"
unfolding run_cycle
stale_blocks = refl

run_cycle-Guarded_example : Guarded config handlers (run_cycle config handlers first_world).0
run_cycle-Guarded_example = run_cycle-Guarded config handlers first_world refl

run_cycle-idle_example : (run_cycle unwritten handlers first_world).0.executed ≡ []
run_cycle-idle_example = run_cycle-idle unwritten handlers refl refl first_world refl

abbrev unhealthy : Thrown
unhealthy = record { message = "CircuitBreaker: No healthy Adapters"; is_chaos_gate = false }

failing_risk_throws : (run_cycle config failing_risk first_world).1 ≡ threw unhealthy
unfolding run_cycle
failing_risk_throws = refl

unhealthy-escalates : escalates unhealthy ≡ true
unfolding escalates
unhealthy-escalates = refl

run_cycle-halted_example :
    is_kill_switch_halted (run_cycle config failing_risk first_world).0.kill_switch ≡ true
run_cycle-halted_example =
    run_cycle-halted config failing_risk first_world unhealthy refl failing_risk_throws
      unhealthy-escalates
