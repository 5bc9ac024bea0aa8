-- ===== src/Engine/Stages.antt =====
-- The handlers of the engine's stages, bot/src/core/engine.ts.
use bobby_execute.Base.{
  String, Bool, true, false, not, Option, none, some, [], ◌∷◌, ◌++◌, ◌otherwise◌,
}
use Prim.Native.String
use bobby_execute.Engine.Types.{
  Thrown, Try, returned, threw, MarketSnapshot, WalletSnapshot, Signal, TradeIntent, SignalResult,
  signal_ok, signal_blocked, ExecutionReport, signal, risk, execute, verify, journal, monitor,
  EngineStage, at_stage, chaos, StageOutcome, JournalEntry, EngineState, RecordedTrade, World,
  EngineConfig, Handlers,
}
use bobby_execute.Engine.Coordinator.{Call, and_then}
use bobby_execute.Engine.Ingest.{validate_ingest}

abbrev pub set_state : (EngineState → EngineState) → World → World
set_state f w = record w { state = f w.state }

-- a value that `run` has set, or the error where it has not
abbrev pub need {ℓ} : {A : Type ℓ} → String → Option A → Try A
need message (some a) = returned a
need message none = threw (record { message = message; is_chaos_gate = false })

-- the outcome of a stage that blocks the decision
abbrev pub block : Option String → World → Call World StageOutcome
block reason w = (
  set_state (λ s. record s { blocked = true; blocked_reason = reason }) w,
  returned (record { blocked = true; blocked_reason = reason }),
)

abbrev pub pass : World → Call World StageOutcome
pass w = (w, returned (record { blocked = false; blocked_reason = none }))

abbrev pub advance : EngineStage → World → World
advance stage = set_state (λ s. record s { stage = stage })

pub data Done : Type 0 where
  done : Done

abbrev pub entry_of : Handlers → World → String → Bool → Option String → JournalEntry
entry_of h w stage blocked reason = record {
  trace_id = w.state.trace_id;
  timestamp = h.now;
  stage = stage;
  blocked = blocked;
  reason = reason;
}

abbrev pub append_on : Option Thrown → JournalEntry → World → Call World Done
append_on (some e) entry w = (w, threw e)
append_on none entry w = (
  record w {
    journal = w.journal ++ entry ∷ [];
    state = record w.state { journal_entry = some entry };
  },
  returned done,
)

abbrev pub journal_on :
    Option (String → Option Thrown) → Bool → JournalEntry → World → Call World Done
journal_on (some writer) mandatory entry w = append_on (writer entry.stage) entry w
journal_on none true entry w = (
  w,
  threw (record {
    message = String.◌++◌ "MANDATORY_JOURNAL_WRITER_MISSING:" entry.stage;
    is_chaos_gate = false;
  }),
)
journal_on none false entry w = (w, returned done)

module _ (c : EngineConfig) (h : Handlers) where
  -- `appendCriticalJournal`
  unfoldable pub append_critical_journal : String → Bool → Option String → World → Call World Done
  append_critical_journal stage blocked reason w =
      journal_on c.journal_writer c.is_journal_mandatory (entry_of h w stage blocked reason) w

  abbrev pub check_ingest : Option String → World → Call World StageOutcome
  check_ingest (some reason) w = block (some reason) w
  check_ingest none w = pass w

  unfoldable pub ingest_stage : World → Call World StageOutcome
  unfolding validate_ingest
  ingest_stage w0 =
      let w1 = set_state (λ s. record s { trace_id = h.trace_id; timestamp = h.now }) w0 in
      and_then (w1, h.ingest)
        λ (market, wallet) w. check_ingest (validate_ingest market wallet h.now) (
          set_state
            (λ s. record s { market = some market; wallet = some wallet; stage = at_stage signal })
            w)

  -- the intent of the signal, or the engine's own
  abbrev pub intent_of : Option TradeIntent → World → TradeIntent
  intent_of (some i) w = record i { trace_id = w.state.trace_id; timestamp = w.state.timestamp }
  intent_of none w = record {
    trace_id = w.state.trace_id;
    timestamp = w.state.timestamp;
    idempotency_key = String.◌++◌ w.state.trace_id "-intent";
    token_in = "SOL";
    token_out = "USDC";
    amount_in = "1";
    min_amount_out = "0.95";
    slippage_percent = 1000000000;
    dry_run = c.dry_run;
    execution_mode = c.execution_mode;
  }

  abbrev pub take_signal : SignalResult → World → Call World StageOutcome
  take_signal (signal_blocked reason) w = block (some (reason otherwise "SIGNAL_BLOCKED")) w
  take_signal (signal_ok s i) w =
      and_then
        (append_critical_journal "decision_outcome" false none (
          set_state
            (λ t. record t {
              signal = some s;
              stage = at_stage risk;
              trade_intent = some (intent_of i w);
            })
            w))
        λ _ w'. pass w'

  unfoldable pub signal_stage : World → Call World StageOutcome
  unfolding append_critical_journal
  signal_stage w =
      and_then (w, need "ENGINE_COORDINATOR_MISSING_INGEST_STATE" w.state.market)
        λ market w.
          and_then (w, need "ENGINE_COORDINATOR_MISSING_INGEST_STATE" w.state.wallet)
            λ _ w. and_then (w, h.signal market) take_signal

  abbrev pub take_chaos : Bool → Option String → World → Call World StageOutcome
  take_chaos false reason w = block (some (reason otherwise "Chaos gate denied execution")) w
  take_chaos true reason w = pass (advance (at_stage execute) w)

  unfoldable pub chaos_gate :
      TradeIntent → MarketSnapshot → WalletSnapshot → Signal → World → Call World StageOutcome
  unfolding append_critical_journal
  chaos_gate i market wallet s w0 =
      and_then (advance chaos w0, h.chaos i market wallet s)
        λ d w.
          and_then
            (append_critical_journal "chaos_decision" (not d.allowed) d.reason (
              set_state
                (λ t. record t {
                  chaos_allowed = some d.allowed;
                  chaos_report_hash = d.report_hash;
                })
                w))
            λ _ w'. take_chaos d.allowed d.reason w'

  -- the daily loss tracker, where there is one, once the risk handler has allowed the intent
  abbrev pub take_limit :
      Option (Try Bool) → (World → Call World StageOutcome) → World → Call World StageOutcome
  take_limit (some (returned true)) next w = block (some "Daily loss limit reached") w
  take_limit (some (threw e)) next w = (w, threw e)
  take_limit _ next w = next w

  abbrev pub take_risk :
      Bool → Option String → (World → Call World StageOutcome) → World → Call World StageOutcome
  take_risk false reason next w = block reason w
  take_risk true reason next w = take_limit h.is_limit_reached next w

  unfoldable pub risk_stage : World → Call World StageOutcome
  unfolding append_critical_journal chaos_gate
  risk_stage w =
      let missing : String = "ENGINE_COORDINATOR_MISSING_SIGNAL_STATE" in
      and_then (w, need missing w.state.trade_intent)
        λ i w.
          and_then (w, need missing w.state.market)
            λ market w.
              and_then (w, need missing w.state.wallet)
                λ wallet w.
                  and_then (w, need missing w.state.signal)
                    λ s w.
                      and_then (w, h.risk i market wallet)
                        λ d w.
                          and_then
                            (append_critical_journal "risk_decision" (not d.allowed) d.reason
                              (set_state (λ t. record t { risk_allowed = some d.allowed }) w))
                            λ _ w'. take_risk d.allowed d.reason (chaos_gate i market wallet s) w'

  -- the execution handler is called with the intent
  unfoldable pub execute_stage : World → Call World StageOutcome
  unfolding append_critical_journal
  execute_stage w =
      and_then (w, need "ENGINE_COORDINATOR_MISSING_INTENT" w.state.trade_intent)
        λ i w.
          and_then
            (record (advance (at_stage execute) w) { executed = w.executed ++ i ∷ [] }, h.execute i)
            λ report w.
              and_then
                (append_critical_journal "execution_result" false none
                  (set_state (λ t. record t { execution_report = some report }) w))
                λ _ w'. pass (advance (at_stage verify) w')

  -- what `recordTrade` throws ends the stage
  abbrev pub after_record : Option Thrown → World → Call World StageOutcome
  after_record none w = pass (advance (at_stage journal) w)
  after_record (some e) w = (w, threw e)

  -- with a tracker and outside a dry run the trade is recorded
  abbrev pub record_loss :
      Option (Try Bool) → Bool → RecordedTrade → World → Call World StageOutcome
  record_loss none dry_run trade w = after_record none w
  record_loss (some _) true trade w = after_record none w
  record_loss (some _) false trade w =
      after_record (h.record_trade trade) (record w { trades = w.trades ++ trade ∷ [] })

  abbrev pub take_verification :
      Bool → Option String → TradeIntent → ExecutionReport → World → Call World StageOutcome
  take_verification false reason i report w =
      block (some (reason otherwise "RPC verification failed")) w
  take_verification true reason i report w =
      record_loss h.is_limit_reached c.dry_run
        (record { intent = i; report = report; market = w.state.market }) w

  unfoldable pub verify_stage : World → Call World StageOutcome
  unfolding append_critical_journal
  verify_stage w =
      let missing : String = "ENGINE_COORDINATOR_MISSING_EXECUTION_STATE" in
      and_then (w, need missing w.state.trade_intent)
        λ i w.
          and_then (w, need missing w.state.execution_report)
            λ report w.
              and_then (w, h.verify i report)
                λ v w.
                  and_then
                    (append_critical_journal "verification_result" (not v.passed) v.reason
                      (set_state (λ t. record t { rpc_verification = some v }) w))
                    λ _ w'. take_verification v.passed v.reason i report w'

  unfoldable pub journal_stage : World → Call World StageOutcome
  journal_stage w =
      let missing : String = "ENGINE_COORDINATOR_MISSING_JOURNAL_STATE" in
      and_then (w, need missing w.state.trade_intent)
        λ _ w.
          and_then (w, need missing w.state.execution_report)
            λ _ w.
              and_then (w, need missing w.state.rpc_verification)
                λ _ w.
                  and_then (w, need missing w.state.market)
                    λ _ w.
                      and_then (w, need missing w.state.wallet)
                        λ _ w.
                          and_then (w, need missing w.state.signal)
                            λ _ w. pass (advance (at_stage journal) w)

  -- `state.stage = "monitor"`
  abbrev pub monitor_stage : World → Call World StageOutcome
  monitor_stage w = pass (advance (at_stage monitor) w)
