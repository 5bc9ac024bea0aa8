-- ===== src/WorkerState/Types.antt =====
-- The data of worker-state-machines.ts, and the part of an event gate's evaluation that it reads
-- (bot/src/runtime/worker-event-gate). Texts that are only carried along stay texts.
use bobby_execute.Base.{ℕ, String, Bool, true, false, Option, some, List}

pub data WorkerStateMachineKind : Type 0 where
  lowcap_hunter shadow_intelligence : WorkerStateMachineKind

pub data OutcomeKind : Type 0 where
  transition_applied transition_blocked no_transition invalid_transition : OutcomeKind

pub data ReasonClass : Type 0 where
  state_advanced state_blocked_suppressed state_no_change state_invalid_edge : ReasonClass
  state_rejected state_review_queue state_alert : ReasonClass

pub data LowCapHunterStateStatus : Type 0 where
  observed screened candidate promoted modeled watchlisted rejected review_queue :
      LowCapHunterStateStatus

pub data ShadowIntelligenceStateStatus : Type 0 where
  watching stable notable_change transition_detected modeled updated_case review_queue alert :
      ShadowIntelligenceStateStatus

-- `WorkerState`; the constructor is the field `workerKind`
pub data WorkerState : Type 0 where
  lowcap : LowCapHunterStateStatus → WorkerState
  shadow : ShadowIntelligenceStateStatus → WorkerState

pub data EventFamily : Type 0 where
  lowcap_family shadow_family : EventFamily

pub data Severity : Type 0 where
  low medium high critical : Severity

pub data GateStageName : Type 0 where
  validity integrity convergence_relevance dedupe_stage cooldown_stage : GateStageName
  batch_debounce model_promotion post_model_routing : GateStageName

pub data SuppressionKind : Type 0 where
  invalid dedupe cooldown integrity_kind low_relevance stale denied defer : SuppressionKind

pub data RouteClass : Type 0 where
  no_model eligible_small_adjudication eligible_deep_adjudication : RouteClass

pub data WriteEffect : Type 0 where
  watchlist_update case_update review_queue_insert derived_refresh_trigger no_write : WriteEffect

pub data ShadowCurrentState : Type 0 where
  watching stable notable_change transition_detected transition_confirmed invalidated :
      ShadowCurrentState

-- the confidence, between 0 and 1, in billionths
pub record ShadowFeature : Type 0 where
  pub current_state : ShadowCurrentState
  pub transition_confidence : ℕ
  pub risk_spike : Bool
  pub thesis_conflict : Bool

pub record Normalization : Type 0 where
  pub normalized_entity_id : String
  pub normalized_entity_key : String
  pub time_bucket : String
  pub normalized_evidence_refs : List String
  pub basis_hash : String
  pub evidence_signature : String

pub record Evaluation : Type 0 where
  pub event_id : String
  pub trace_id : String
  pub family : EventFamily
  pub event_type : String
  pub observed_at : String
  pub severity : Severity
  -- `none`: a low-cap snapshot, whose shadow fields read as undefined
  pub feature : Option ShadowFeature
  pub evidence_refs : List String
  pub normalization : Normalization
  pub evaluation_hash : String
  pub replay_key : String
  pub blocked : Bool
  pub blocking_stage : Option GateStageName
  pub suppression : Option SuppressionKind
  pub route_class : RouteClass
  pub route_reason_class : String
  pub model_called : Bool
  pub model_reason_class : String
  pub write_effect : WriteEffect
  pub write_effect_reason_class : String

pub record TransitionBasis : Type 0 where
  pub event_id : String
  pub trace_id : String
  pub family : EventFamily
  pub event_type : String
  pub observed_at : String
  pub normalization : Normalization
  pub gate_evaluation_hash : String
  pub gate_replay_key : String
  pub gate_blocked : Bool
  pub blocking_stage : Option GateStageName
  pub suppression_kind : Option SuppressionKind
  pub route_class : RouteClass
  pub route_reason_class : String
  pub model_called : Bool
  pub model_reason_class : String
  pub write_effect : WriteEffect
  pub write_effect_reason_class : String
  pub evidence_refs : List String

unfoldable pub build_transition_basis : Evaluation → TransitionBasis
build_transition_basis e = record {
  event_id = e.event_id;
  trace_id = e.trace_id;
  family = e.family;
  event_type = e.event_type;
  observed_at = e.observed_at;
  normalization = e.normalization;
  gate_evaluation_hash = e.evaluation_hash;
  gate_replay_key = e.replay_key;
  gate_blocked = e.blocked;
  blocking_stage = e.blocking_stage;
  suppression_kind = e.suppression;
  route_class = e.route_class;
  route_reason_class = e.route_reason_class;
  model_called = e.model_called;
  model_reason_class = e.model_reason_class;
  write_effect = e.write_effect;
  write_effect_reason_class = e.write_effect_reason_class;
  evidence_refs = e.evidence_refs;
}

pub record TransitionResult : Type 0 where
  pub worker_kind : WorkerStateMachineKind
  pub kind : OutcomeKind
  pub reason_class : ReasonClass
  pub state_before : WorkerState
  pub state_after : WorkerState
  pub basis : TransitionBasis
  pub basis_hash : String
  pub transition_hash : String
  pub replay_key : String

-- The objects that this module hashes, by what they hold: the inputs of `hashDecision` and
-- `hashResult`, SHA-256 over a canonical text, which is a parameter here.
pub data Hashed : Type 0 where
  basis_of : WorkerStateMachineKind → WorkerState → TransitionBasis → Hashed
  transition_of :
      WorkerStateMachineKind
      → WorkerState
      → WorkerState
      → OutcomeKind
      → ReasonClass
      → String
      → String
      → String
      → Hashed
  replay_of :
      WorkerStateMachineKind
      → WorkerState
      → WorkerState
      → OutcomeKind
      → ReasonClass
      → String
      → String
      → Hashed
  entry_input_of entry_output_of : TransitionResult → Hashed
  event_of : String → String → String → String → String → Bool → ReasonClass → Hashed

abbrev pub Hash : Type 0
Hash = Hashed → String

unfoldable pub build_transition_result :
    Hash
    → WorkerStateMachineKind
    → OutcomeKind
    → ReasonClass
    → WorkerState
    → WorkerState
    → TransitionBasis
    → TransitionResult
build_transition_result hash worker kind reason before after basis =
    let basis_hash = hash (basis_of worker before basis) in
    record {
      worker_kind = worker;
      kind = kind;
      reason_class = reason;
      state_before = before;
      state_after = after;
      basis = basis;
      basis_hash = basis_hash;
      transition_hash = hash (
          transition_of worker before after kind reason basis_hash basis.gate_evaluation_hash
            basis.gate_replay_key);
      replay_key =
          hash (replay_of worker before after kind reason basis_hash basis.gate_replay_key);
    }

-- what an evaluation decides, before it is hashed: `createAppliedResult` and its three siblings
pub data Verdict (S : Type 0) : Type 0 where
  applied : S → ReasonClass → Verdict S
  blocks keeps refuses : Verdict S

abbrev pub result_of :
    {S : Type 0}
    → Hash
    → WorkerStateMachineKind
    → (S → WorkerState)
    → S
    → TransitionBasis
    → Verdict S
    → TransitionResult
result_of hash worker state s basis (applied t reason) =
    build_transition_result hash worker transition_applied reason (state s) (state t) basis
result_of hash worker state s basis blocks =
    build_transition_result hash worker transition_blocked state_blocked_suppressed (state s)
      (state s) basis
result_of hash worker state s basis keeps =
    build_transition_result hash worker no_transition state_no_change (state s) (state s) basis
result_of hash worker state s basis refuses =
    build_transition_result hash worker invalid_transition state_invalid_edge (state s) (state s)
      basis

-- The state that a verdict leaves.
abbrev pub after : {S : Type 0} → S → Verdict S → S
after s (applied t reason) = t
after s _ = s

-- `suppression.kind` is "dedupe", "cooldown" or "defer"
abbrev pub is_suppressed : Option SuppressionKind → Bool
is_suppressed (some dedupe) = true
is_suppressed (some cooldown) = true
is_suppressed (some defer) = true
is_suppressed _ = false

-- `blockingStage` is "validity", "integrity" or "convergence_relevance"
abbrev pub is_early_stage : Option GateStageName → Bool
is_early_stage (some validity) = true
is_early_stage (some integrity) = true
is_early_stage (some convergence_relevance) = true
is_early_stage _ = false

-- `routeClass !== "no_model"`
abbrev pub is_routed : RouteClass → Bool
is_routed no_model = false
is_routed _ = true

-- `effect !== "no_write"`
abbrev pub is_write : WriteEffect → Bool
is_write no_write = false
is_write _ = true
