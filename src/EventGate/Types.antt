-- ===== src/EventGate/Types.antt =====
-- The data of the event gate, bot/src/runtime/worker-event-gate (contracts.ts and the types of
-- engine.ts). A key is the record of the parts of its text, which the text determines: a normalised
-- part has no colon. A bucket's label is its start and its width. A score is a number of billionths.
use bobby_execute.Base.{ℕ, String, Bool, Option, none, List, []}
use bobby_execute.WorkerState.Types.{EventFamily, Severity, ShadowCurrentState}

-- `LowCapWalletQualityStateSchema` and `ShadowWalletQualityStateSchema`
pub data WalletQualityState : Type 0 where
  clean mixed toxic unknown_quality : WalletQualityState

-- `LowCapLiquidityStateSchema` and `ShadowLiquidityStateSchema`
pub data LiquidityState : Type 0 where
  healthy fragile trap_risk unknown_liquidity : LiquidityState

-- What is only hashed or carried along is a text; `none` in place of "unknown".
pub record LowCapFeature : Type 0 where
  pub token_name : String
  pub ticker : String
  pub contract_address : String
  pub venue : String
  pub launch_age_seconds : ℕ
  pub market_cap : Option ℕ
  pub volume : Option ℕ
  pub bonding_state : String
  pub wallet_quality_state : WalletQualityState
  pub structure_state : String
  pub liquidity_state : LiquidityState
  pub meta_cluster : Option String
  pub attention_type : Option String
  pub trusted_signal_count : ℕ
  pub convergence_score : ℕ
  pub integrity_score : ℕ
  pub freshness_score : ℕ
  pub noise_score : ℕ
  pub batch_group_hint : Option String

pub record ShadowSnapshot : Type 0 where
  pub token_name : String
  pub ticker : String
  pub contract_address : String
  pub current_state : ShadowCurrentState
  pub baseline_state : String
  pub transition_type : String
  pub structure_shift : String
  pub flow_shift : String
  pub attention_shift : String
  pub wallet_quality_state : WalletQualityState
  pub distribution_state : String
  pub liquidity_state : LiquidityState
  pub transition_confidence : ℕ
  pub severity_score : ℕ
  pub convergence_score : ℕ
  pub integrity_score : ℕ
  pub freshness_score : ℕ
  pub batch_group_hint : Option String
  pub thesis_conflict : Bool
  pub risk_spike : Bool

-- `featureSnapshot`; the constructor is the envelope's field `family`
pub data Snapshot : Type 0 where
  lowcap_snapshot : LowCapFeature → Snapshot
  shadow_snapshot : ShadowSnapshot → Snapshot

-- `WorkerEventEnvelope`
pub record Event : Type 0 where
  pub event_id : String
  pub trace_id : String
  pub event_type : String
  pub event_version : String
  pub producer : String
  pub entity_type : String
  pub entity_id : String
  pub entity_key : String
  pub observed_at : ℕ
  pub window_start : ℕ
  pub window_end : ℕ
  pub severity : Severity
  pub confidence : ℕ
  pub knowledge_mode : String
  pub evidence_refs : List String
  pub source_scope : String
  pub promotion_candidate : Bool
  pub suppression_candidate : Bool
  pub feature : Snapshot

-- the label of `stableTimeBucketLabel`
pub record TimeBucket : Type 0 where
  pub start_ms : ℕ
  pub minutes : ℕ

pub data CooldownClass : Type 0 where
  prime strong borderline stale_class : CooldownClass
  critical_class normal review stable_class : CooldownClass

pub record DedupeKey : Type 0 where
  pub family : EventFamily
  pub entity_id : String
  pub event_type : String
  pub bucket : TimeBucket
  pub entity_key : String

pub record CooldownKey : Type 0 where
  pub family : EventFamily
  pub entity_id : String
  pub class : CooldownClass
  pub entity_key : String

pub record BatchKey : Type 0 where
  pub family : EventFamily
  pub entity_id : String
  pub bucket : TimeBucket
  pub group : String

-- the key of a stage's result or of a suppression
pub data StageKey : Type 0 where
  event_key : String → StageKey
  dedupe_key : DedupeKey → StageKey
  cooldown_key : CooldownKey → StageKey
  batch_key : BatchKey → StageKey

-- `WorkerEventGateStateRecord`
pub record DedupeRecord : Type 0 where
  pub key : DedupeKey
  pub event_id : String
  pub family : EventFamily
  pub event_type : String
  pub observed_at : ℕ
  pub expires_at : ℕ
  pub severity : Severity
  pub confidence : ℕ
  pub evidence_signature : String
  pub basis_hash : String

pub record CooldownRecord : Type 0 where
  pub key : CooldownKey
  pub event_id : String
  pub family : EventFamily
  pub event_type : String
  pub observed_at : ℕ
  pub expires_at : ℕ
  pub severity : Severity
  pub confidence : ℕ
  pub evidence_signature : String
  pub basis_hash : String
  pub cooldown_class : CooldownClass

pub data BatchStatus : Type 0 where
  pending released : BatchStatus

pub record BatchRecord : Type 0 where
  pub key : BatchKey
  pub family : EventFamily
  pub event_ids : List String
  pub event_types : List String
  pub first_observed_at : ℕ
  pub last_observed_at : ℕ
  pub release_at : ℕ
  pub window_ms : ℕ
  pub count : ℕ
  pub status : BatchStatus

-- `WorkerEventGateState`
pub record GateState : Type 0 where
  pub schema_version : String
  pub dedupe_records : List DedupeRecord
  pub cooldown_records : List CooldownRecord
  pub batch_records : List BatchRecord
  pub last_evaluated_at : Option ℕ

-- `WORKER_EVENT_GATE_STATE_SCHEMA_VERSION`
abbrev pub state_schema_version : String
state_schema_version = "worker.event.gate.state.v1"

-- `createWorkerEventGateState`
abbrev pub create_worker_event_gate_state : GateState
create_worker_event_gate_state = record {
  schema_version = state_schema_version;
  dedupe_records = [];
  cooldown_records = [];
  batch_records = [];
  last_evaluated_at = none;
}
