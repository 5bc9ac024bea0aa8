-- ===== src/Engine/Types.antt =====
-- The data of the trading engine, bot/src/core/engine.ts, and of the decision authority,
-- bot/src/core/contracts/decision-envelope.ts. An amount or a price is a number of billionths, and
-- an optional field of the source is an option. The copies that are kept for an audit are left out:
-- the payloads, sources, freshness, evidence, reason classes and hashes of a decision, fields of a report
-- or snapshot that the engine does not read, and a journal
-- entry's input and output.
use bobby_execute.Base.{ℕ, String, Bool, Option, List}
use bobby_execute.KillSwitch.{Switch}
use bobby_execute.LiveControl.Types.{ExecutionMode}

-- what an awaited call gives; an error has its message, and whether it is a `ChaosGateError`
pub record Thrown : Type 0 where
  pub message : String
  pub is_chaos_gate : Bool

pub data Try {ℓ} (A : Type ℓ) : Type ℓ where
  returned : A → Try A
  threw : Thrown → Try A

pub data MarketStatus : Type 0 where
  ok stale degraded : MarketStatus

-- `MarketSnapshot`; a timestamp that is no date is `none`
pub record MarketSnapshot : Type 0 where
  pub timestamp : Option ℕ
  pub pool_id : String
  pub base_token : String
  pub quote_token : String
  pub price_usd : ℕ
  pub freshness_ms : ℕ
  pub status : Option MarketStatus

-- `WalletSnapshot`, with whether its balances are an array
pub record WalletSnapshot : Type 0 where
  pub timestamp : Option ℕ
  pub has_balances : Bool

pub record Signal : Type 0 where
  pub direction : String
  pub confidence : ℕ

pub record TradeIntent : Type 0 where
  pub trace_id : String
  pub timestamp : ℕ
  pub idempotency_key : String
  pub token_in : String
  pub token_out : String
  pub amount_in : String
  pub min_amount_out : String
  pub slippage_percent : ℕ
  pub dry_run : Bool
  pub execution_mode : ExecutionMode

pub data SignalResult : Type 0 where
  signal_ok : Signal → Option TradeIntent → SignalResult
  signal_blocked : Option String → SignalResult

pub record RiskDecision : Type 0 where
  pub allowed : Bool
  pub reason : Option String

pub record ChaosDecision : Type 0 where
  pub allowed : Bool
  pub reason : Option String
  pub report_hash : Option String

pub record ExecutionReport : Type 0 where
  pub success : Bool
  pub actual_amount_out : Option String

pub record RpcVerificationReport : Type 0 where
  pub passed : Bool
  pub reason : Option String

-- the stages of a decision; the engine's own `chaos` stage stands between risk and execute
pub data DecisionStage : Type 0 where
  ingest signal reasoning risk execute verify journal monitor : DecisionStage

pub data EngineStage : Type 0 where
  at_stage : DecisionStage → EngineStage
  chaos : EngineStage

pub record StageOutcome : Type 0 where
  pub blocked : Bool
  pub blocked_reason : Option String

pub record DecisionEnvelope : Type 0 where
  pub stage : DecisionStage
  pub blocked : Bool
  pub blocked_reason : Option String

pub record JournalEntry : Type 0 where
  pub trace_id : String
  pub timestamp : ℕ
  pub stage : String
  pub blocked : Bool
  pub reason : Option String

-- `EngineState`. The variables of `run` have the values of its fields, and are read there.
pub record EngineState : Type 0 where
  pub stage : EngineStage
  pub trace_id : String
  pub timestamp : ℕ
  pub decision_envelope : Option DecisionEnvelope
  pub market : Option MarketSnapshot
  pub wallet : Option WalletSnapshot
  pub signal : Option Signal
  pub trade_intent : Option TradeIntent
  pub risk_allowed : Option Bool
  pub chaos_allowed : Option Bool
  pub chaos_report_hash : Option String
  pub execution_report : Option ExecutionReport
  pub rpc_verification : Option RpcVerificationReport
  pub journal_entry : Option JournalEntry
  pub error : Option String
  pub blocked : Bool
  pub blocked_reason : Option String

-- a trade that the daily loss tracker is told of, with what its loss is estimated from
pub record RecordedTrade : Type 0 where
  pub intent : TradeIntent
  pub report : ExecutionReport
  pub market : Option MarketSnapshot

-- What a cycle changes: its state, the journal, the intents that it has handed to the execution
-- handler, the trades that it has recorded, and the kill switch.
pub record World : Type 0 where
  pub state : EngineState
  pub journal : List JournalEntry
  pub executed : List TradeIntent
  pub trades : List RecordedTrade
  pub kill_switch : Switch

-- `EngineConfig`. A writer gives the error of an entry that it cannot append. The action log and the
-- event bus are left out.
pub record EngineConfig : Type 0 where
  pub dry_run : Bool
  pub execution_mode : ExecutionMode
  pub journal_writer : Option (String → Option Thrown)
  pub is_journal_mandatory : Bool

-- The handlers of a cycle, with the clock, the trace id, and the daily loss tracker: what its
-- `isLimitReached` answers, where there is a tracker, and what its `recordTrade` throws, if anything.
pub record Handlers : Type 0 where
  pub now : ℕ
  pub trace_id : String
  pub ingest : Try (MarketSnapshot × WalletSnapshot)
  pub signal : MarketSnapshot → Try SignalResult
  pub risk : TradeIntent → MarketSnapshot → WalletSnapshot → Try RiskDecision
  pub is_limit_reached : Option (Try Bool)
  pub record_trade : RecordedTrade → Option Thrown
  pub chaos : TradeIntent → MarketSnapshot → WalletSnapshot → Signal → Try ChaosDecision
  pub execute : TradeIntent → Try ExecutionReport
  pub verify : TradeIntent → ExecutionReport → Try RpcVerificationReport
