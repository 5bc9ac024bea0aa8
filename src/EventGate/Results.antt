-- ===== src/EventGate/Results.antt =====
-- The results of the event gate's stages and of an evaluation, bot/src/runtime/worker-event-gate. The
-- snapshots, details and basis hashes of the stages' results, which are copies for an audit, are left
-- out, and so are the constants of a record (`advisoryOnly`, `modelName`).
use bobby_execute.Base.{ℕ, String, Bool, Option, List}
use bobby_execute.WorkerState.Types.{
  Severity, GateStageName, SuppressionKind, RouteClass, WriteEffect,
}
use bobby_execute.EventGate.Types.{Event, Snapshot, TimeBucket, StageKey, GateState}

pub data Disposition : Type 0 where
  pass fail suppressed deferred batched promoted no_model_result skipped : Disposition

pub data GateReasonClass : Type 0 where
  validity_pass validity_block integrity_pass integrity_block : GateReasonClass
  convergence_pass convergence_block dedupe_pass dedupe_suppressed : GateReasonClass
  cooldown_pass cooldown_suppressed batch_pass batch_deferred batch_grouped : GateReasonClass
  model_no_promotion model_eligible_small model_eligible_deep : GateReasonClass
  routing_no_model routing_small routing_deep write_no_write : GateReasonClass
  write_watchlist_update write_case_update write_review_queue_insert : GateReasonClass
  write_derived_refresh_trigger : GateReasonClass

-- `WorkerSuppressionRecord`
pub record SuppressionRecord : Type 0 where
  pub stage : GateStageName
  pub kind : SuppressionKind
  pub reason_class : GateReasonClass
  pub evidence_signature : String
  pub key : Option StageKey
  pub expires_at : Option ℕ
  pub release_at : Option ℕ

-- `WorkerGateStageResultBase`, with the disposition of the eight result types
pub record StageResult : Type 0 where
  pub stage : GateStageName
  pub disposition : Disposition
  pub reason_class : GateReasonClass
  pub evaluated_at : ℕ
  pub blocked : Bool
  pub terminal : Bool
  pub is_suppressed : Bool
  pub is_promoted : Bool
  pub route_class : Option RouteClass
  pub write_effect : Option WriteEffect
  pub key : Option StageKey
  pub window_ms : Option ℕ
  pub expires_at : Option ℕ
  pub release_at : Option ℕ
  pub suppression : Option SuppressionRecord
  pub skipped_because : Option GateStageName

-- `WorkerEventNormalization`
pub record EventNormalization : Type 0 where
  pub basis_hash : String
  pub evidence_signature : String
  pub normalized_evidence_refs : List String
  pub normalized_entity_id : String
  pub normalized_entity_key : String
  pub time_bucket : TimeBucket

pub record RoutingDecision : Type 0 where
  pub route_class : RouteClass
  pub reason_class : GateReasonClass
  pub evaluated_at : ℕ

-- `WorkerModelResultPlaceholder`, without the constants `modelName` and `called`
pub record ModelResult : Type 0 where
  pub route_class : RouteClass
  pub reason_class : GateReasonClass
  pub evaluated_at : ℕ
  pub called : Bool

pub data WriteTarget : Type 0 where
  watchlist case_target review_queue_target derived_refresh no_target : WriteTarget

pub record WriteEffectDecision : Type 0 where
  pub effect : WriteEffect
  pub reason_class : GateReasonClass
  pub evaluated_at : ℕ
  pub target : WriteTarget

-- what `basisHash` is taken over: the event without its id, its trace and its producer
pub record EventBasis : Type 0 where
  pub event_type : String
  pub entity_type : String
  pub entity_id : String
  pub entity_key : String
  pub observed_at : ℕ
  pub window_start : ℕ
  pub window_end : ℕ
  pub severity : Severity
  pub confidence : ℕ
  pub knowledge_mode : String
  pub source_scope : String
  pub promotion_candidate : Bool
  pub suppression_candidate : Bool
  pub evidence_refs : List String
  pub feature : Snapshot

-- what `evidenceSignature` is taken over
pub record EvidenceBasis : Type 0 where
  pub event_type : String
  pub entity_id : String
  pub entity_key : String
  pub evidence_refs : List String
  pub feature : Snapshot

-- what the evaluation's hash takes of a stage's result
pub record StageDigest : Type 0 where
  pub stage : GateStageName
  pub disposition : Disposition
  pub reason_class : GateReasonClass
  pub blocked : Bool
  pub terminal : Bool
  pub key : Option StageKey
  pub route_class : Option RouteClass
  pub write_effect : Option WriteEffect
  pub skipped_because : Option GateStageName

pub record EvaluationBasis : Type 0 where
  pub trace_id : String
  pub event_id : String
  pub blocked : Bool
  pub blocking_stage : Option GateStageName
  pub terminal_stage : GateStageName
  pub route_class : RouteClass
  pub write_effect : WriteEffect
  pub normalization : EventNormalization
  pub state_after : GateState
  pub stage_results : List StageDigest

pub record ReplayBasis : Type 0 where
  pub trace_id : String
  pub event_id : String
  pub basis_hash : String
  pub terminal_stage : GateStageName
  pub route_class : RouteClass
  pub write_effect : WriteEffect

-- The objects that the gate hashes, by what they hold. Hashing is a parameter.
pub data GateHashed : Type 0 where
  basis_of : EventBasis → GateHashed
  evidence_of : EvidenceBasis → GateHashed
  evaluation_of : EvaluationBasis → GateHashed
  replay_of : ReplayBasis → GateHashed

-- `WorkerEventGateEvaluationResult`
pub record GateResult : Type 0 where
  pub trace_id : String
  pub event : Event
  pub normalization : EventNormalization
  pub state_before : GateState
  pub state_after : GateState
  pub stages : List StageResult
  pub blocked : Bool
  pub blocking_stage : Option GateStageName
  pub terminal_stage : GateStageName
  pub suppression : Option SuppressionRecord
  pub routing : RoutingDecision
  pub model_result : ModelResult
  pub write_effect : WriteEffectDecision
  pub evaluation_hash : String
  pub replay_key : String
