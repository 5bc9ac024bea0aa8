-- ===== src/WorkerState/Journal.antt =====
-- The transition journal: an entry for each result, and the parsing that reads a result back.
use bobby_execute.Base.{
  String, Bool, true, false, ◌&&◌, Option, none, some, List, [], ◌∷◌, if◌then◌else◌, ◌===◌,
}
use bobby_execute.WorkerState.Types.{
  WorkerStateMachineKind, lowcap_hunter, shadow_intelligence, OutcomeKind, transition_applied,
  transition_blocked, no_transition, invalid_transition, ReasonClass, state_advanced,
  state_blocked_suppressed, state_no_change, state_invalid_edge, state_rejected, state_review_queue,
  state_alert, LowCapHunterStateStatus, ShadowIntelligenceStateStatus, WorkerState, lowcap, shadow,
  TransitionBasis, TransitionResult, Hash, entry_input_of, entry_output_of, event_of,
}

abbrev pub journal_schema_version : String
journal_schema_version = "worker.state.transition.v1"

abbrev pub kind_name : WorkerStateMachineKind → String
kind_name lowcap_hunter = "lowcap_hunter"
kind_name shadow_intelligence = "shadow_intelligence"

abbrev pub outcome_name : OutcomeKind → String
outcome_name transition_applied = "transition_applied"
outcome_name transition_blocked = "transition_blocked"
outcome_name no_transition = "no_transition"
outcome_name invalid_transition = "invalid_transition"

abbrev pub reason_name : ReasonClass → String
reason_name state_advanced = "STATE_ADVANCED"
reason_name state_blocked_suppressed = "STATE_BLOCKED_SUPPRESSED"
reason_name state_no_change = "STATE_NO_CHANGE"
reason_name state_invalid_edge = "STATE_INVALID_EDGE"
reason_name state_rejected = "STATE_REJECTED"
reason_name state_review_queue = "STATE_REVIEW_QUEUE"
reason_name state_alert = "STATE_ALERT"

abbrev pub low_cap_name : LowCapHunterStateStatus → String
low_cap_name LowCapHunterStateStatus.observed = "observed"
low_cap_name LowCapHunterStateStatus.screened = "screened"
low_cap_name LowCapHunterStateStatus.candidate = "candidate"
low_cap_name LowCapHunterStateStatus.promoted = "promoted"
low_cap_name LowCapHunterStateStatus.modeled = "modeled"
low_cap_name LowCapHunterStateStatus.watchlisted = "watchlisted"
low_cap_name LowCapHunterStateStatus.rejected = "rejected"
low_cap_name LowCapHunterStateStatus.review_queue = "review_queue"

abbrev pub shadow_name : ShadowIntelligenceStateStatus → String
shadow_name ShadowIntelligenceStateStatus.watching = "watching"
shadow_name ShadowIntelligenceStateStatus.stable = "stable"
shadow_name ShadowIntelligenceStateStatus.notable_change = "notable_change"
shadow_name ShadowIntelligenceStateStatus.transition_detected = "transition_detected"
shadow_name ShadowIntelligenceStateStatus.modeled = "modeled"
shadow_name ShadowIntelligenceStateStatus.updated_case = "updated_case"
shadow_name ShadowIntelligenceStateStatus.review_queue = "review_queue"
shadow_name ShadowIntelligenceStateStatus.alert = "alert"

-- A state as it stands in a journal: its two texts, and whether other keys stand beside them.
pub record RawState : Type 0 where
  pub worker_kind : String
  pub status : String
  pub has_other_keys : Bool

-- A journal entry's output, where it is an object. A missing key is the empty text, which no schema
-- accepts.
pub record RawRecord : Type 0 where
  pub record_type : String
  pub schema_version : String
  pub worker_kind : String
  pub kind : String
  pub reason_class : String
  pub state_before : RawState
  pub state_after : RawState
  pub basis : TransitionBasis
  pub basis_hash : String
  pub transition_hash : String
  pub replay_key : String

pub record JournalEntry : Type 0 where
  pub trace_id : String
  pub timestamp : String
  pub stage : String
  pub decision_hash : String
  pub result_hash : String
  -- `none`: an output that is no object
  pub output : Option RawRecord
  pub blocked : Bool
  pub reason : String
  pub event_hash : String

abbrev pub raw_state : WorkerState → RawState
raw_state (lowcap s) = record {
  worker_kind = "lowcap_hunter";
  status = low_cap_name s;
  has_other_keys = false;
}
raw_state (shadow s) = record {
  worker_kind = "shadow_intelligence";
  status = shadow_name s;
  has_other_keys = false;
}

-- `buildTransitionJournalRecord`
unfoldable pub build_transition_journal_record : TransitionResult → RawRecord
build_transition_journal_record r = record {
  record_type = "transition";
  schema_version = journal_schema_version;
  worker_kind = kind_name r.worker_kind;
  kind = outcome_name r.kind;
  reason_class = reason_name r.reason_class;
  state_before = raw_state r.state_before;
  state_after = raw_state r.state_after;
  basis = r.basis;
  basis_hash = r.basis_hash;
  transition_hash = r.transition_hash;
  replay_key = r.replay_key;
}

abbrev pub transition_journal_stage : WorkerStateMachineKind → String
transition_journal_stage lowcap_hunter = "worker.transition.lowcap_hunter"
transition_journal_stage shadow_intelligence = "worker.transition.shadow_intelligence"

abbrev is_blocking : OutcomeKind → Bool
is_blocking transition_blocked = true
is_blocking invalid_transition = true
is_blocking _ = false

-- `buildTransitionJournalEntry`; the entry's `input` repeats fields of the output
unfoldable pub build_transition_journal_entry : Hash → TransitionResult → JournalEntry
unfolding build_transition_journal_record
build_transition_journal_entry hash r =
    let stage = transition_journal_stage r.worker_kind in
    let decision = hash (entry_input_of r) in
    let outcome = hash (entry_output_of r) in
    let blocked = is_blocking r.kind in
    record {
      trace_id = r.basis.trace_id;
      timestamp = r.basis.observed_at;
      stage = stage;
      decision_hash = decision;
      result_hash = outcome;
      output = some (build_transition_journal_record r);
      blocked = blocked;
      reason = reason_name r.reason_class;
      event_hash = hash (
          event_of r.basis.trace_id r.basis.observed_at stage decision outcome blocked
            r.reason_class);
    }

-- The schemas: the value of a text, if it is one of the enumeration.
abbrev find : {A : Type 0} → (A → String) → List A → String → Option A
find name [] s = none
find name (a ∷ more) s = let rest = find name more s in if name a === s then some a else rest

abbrev pub parse_kind : String → Option WorkerStateMachineKind
parse_kind = find kind_name (lowcap_hunter ∷ shadow_intelligence ∷ [])

abbrev pub parse_outcome : String → Option OutcomeKind
parse_outcome =
    find outcome_name
      (transition_applied ∷ transition_blocked ∷ no_transition ∷ invalid_transition ∷ [])

abbrev pub parse_reason : String → Option ReasonClass
parse_reason = find reason_name (
    state_advanced ∷ state_blocked_suppressed ∷ state_no_change ∷ state_invalid_edge
    ∷ state_rejected ∷ state_review_queue ∷ state_alert ∷ [])

-- `LOW_CAP_HUNTER_STATE_ORDER`
abbrev pub low_cap_hunter_state_order : List LowCapHunterStateStatus
low_cap_hunter_state_order =
    LowCapHunterStateStatus.observed ∷ LowCapHunterStateStatus.screened
    ∷ LowCapHunterStateStatus.candidate ∷ LowCapHunterStateStatus.promoted
    ∷ LowCapHunterStateStatus.modeled ∷ LowCapHunterStateStatus.watchlisted
    ∷ LowCapHunterStateStatus.rejected ∷ LowCapHunterStateStatus.review_queue ∷ []

-- `SHADOW_INTELLIGENCE_STATE_ORDER`
abbrev pub shadow_intelligence_state_order : List ShadowIntelligenceStateStatus
shadow_intelligence_state_order =
    ShadowIntelligenceStateStatus.watching ∷ ShadowIntelligenceStateStatus.stable
    ∷ ShadowIntelligenceStateStatus.notable_change
    ∷ ShadowIntelligenceStateStatus.transition_detected ∷ ShadowIntelligenceStateStatus.modeled
    ∷ ShadowIntelligenceStateStatus.updated_case ∷ ShadowIntelligenceStateStatus.review_queue
    ∷ ShadowIntelligenceStateStatus.alert ∷ []

abbrev wrap : {A : Type 0} → (A → WorkerState) → Option A → Option WorkerState
wrap f none = none
wrap f (some a) = some (f a)

-- the strict schemas of the two states: `parseLowCapHunterState`, `parseShadowIntelligenceState`
unfoldable pub parse_state : WorkerStateMachineKind → RawState → Option WorkerState
parse_state k raw =
    if raw.has_other_keys
    then none
    else if raw.worker_kind === kind_name k
    then elim k [
      | lowcap_hunter ↦ wrap lowcap (find low_cap_name low_cap_hunter_state_order raw.status)
      | shadow_intelligence ↦
          wrap shadow (find shadow_name shadow_intelligence_state_order raw.status)
    ]
    else none

pub data ParseError : Type 0 where
  bad_worker_kind bad_kind bad_reason_class : String → ParseError
  bad_state_before bad_state_after : ParseError

-- `parseTransitionRecord`: null, an error, or a record
pub data Parsed : Type 0 where
  skipped : Parsed
  failed : ParseError → Parsed
  parsed : TransitionResult → Parsed

-- the checks in their order, each with its error
unfoldable pub orelse : {A : Type 0} → Option A → ParseError → (A → Parsed) → Parsed
orelse none e f = failed e
orelse (some a) e f = f a

unfoldable pub parse_transition_record : Option RawRecord → Parsed
unfolding orelse parse_state
parse_transition_record none = skipped
parse_transition_record (some raw) =
    if raw.record_type === "transition" && raw.schema_version === journal_schema_version
    then orelse (parse_kind raw.worker_kind) (bad_worker_kind raw.worker_kind) (λ k.
      orelse (parse_outcome raw.kind) (bad_kind raw.kind) (λ o.
        orelse (parse_reason raw.reason_class) (bad_reason_class raw.reason_class) (λ c.
          orelse (parse_state k raw.state_before) bad_state_before (λ before.
            orelse (parse_state k raw.state_after) bad_state_after (λ after. parsed (record {
              worker_kind = k;
              kind = o;
              reason_class = c;
              state_before = before;
              state_after = after;
              basis = raw.basis;
              basis_hash = raw.basis_hash;
              transition_hash = raw.transition_hash;
              replay_key = raw.replay_key;
            }))))))
    else skipped
