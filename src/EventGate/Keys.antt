-- ===== src/EventGate/Keys.antt =====
-- The windows, the classes, the normalisation and the keys of the event gate,
-- bot/src/runtime/worker-event-gate/contracts.ts. A score of 0.9 is 900000000 billionths.
use bobby_execute.Base.{
  ℕ, ◌*◌, ◌/◌, String, Bool, true, false, ◌&&◌, ◌||◌, List, [], ◌∷◌, any, leb, ◌==◌, ◌===◌,
  if◌then◌else◌,
}
use bobby_execute.Base.Identifier.{normalize_identifier_part}
use bobby_execute.WorkerState.Types.{
  EventFamily, lowcap_family, shadow_family, Severity, critical, high, ShadowCurrentState,
}
use bobby_execute.EventGate.Types.{
  LowCapFeature, ShadowSnapshot, lowcap_snapshot, shadow_snapshot, Event, TimeBucket, CooldownClass,
  prime, strong, borderline, stale_class, critical_class, normal, review, stable_class, DedupeKey,
  CooldownKey, BatchKey,
}
use bobby_execute.EventGate.Results.{
  EventBasis, GateHashed, basis_of, evidence_of, EventNormalization,
}

abbrev pub family_of : Event → EventFamily
family_of e = elim e.feature [
  | lowcap_snapshot _ ↦ lowcap_family
  | shadow_snapshot _ ↦ shadow_family
]

abbrev pub is_lowcap : Event → Bool
is_lowcap e = elim e.feature [ lowcap_snapshot _ ↦ true | shadow_snapshot _ ↦ false ]

abbrev pub minutes_ms : ℕ → ℕ
minutes_ms n = n * 60000

abbrev pub dedupe_window_ms : Event → ℕ
dedupe_window_ms e = if is_lowcap e then minutes_ms 15 else minutes_ms 30

abbrev pub batch_window_ms : Event → ℕ
batch_window_ms e = if is_lowcap e then minutes_ms 5 else minutes_ms 10

abbrev lowcap_cooldown : CooldownClass → ℕ
lowcap_cooldown prime = minutes_ms 15
lowcap_cooldown strong = minutes_ms 30
lowcap_cooldown borderline = minutes_ms 45
lowcap_cooldown _ = minutes_ms 120

abbrev shadow_cooldown : CooldownClass → ℕ
shadow_cooldown critical_class = minutes_ms 15
shadow_cooldown normal = minutes_ms 60
shadow_cooldown review = minutes_ms 120
shadow_cooldown _ = minutes_ms 180

abbrev pub cooldown_window_ms : Event → CooldownClass → ℕ
cooldown_window_ms e c = if is_lowcap e then lowcap_cooldown c else shadow_cooldown c

abbrev pub is_critical : Severity → Bool
is_critical critical = true
is_critical _ = false

abbrev is_high : Severity → Bool
is_high high = true
is_high _ = false

abbrev is_notable : ShadowCurrentState → Bool
is_notable ShadowCurrentState.notable_change = true
is_notable _ = false

abbrev pub lowcap_promotion_class : Event → LowCapFeature → CooldownClass
lowcap_promotion_class e f =
    if is_critical e.severity
      || leb 900000000 e.confidence
        && leb 800000000 f.convergence_score
        && leb 800000000 f.integrity_score
    then prime
    else if leb 750000000 e.confidence || leb 700000000 f.convergence_score
    then strong
    else if leb 500000000 e.confidence || leb 400000000 f.convergence_score
    then borderline
    else stale_class

abbrev pub shadow_transition_class : Event → ShadowSnapshot → CooldownClass
shadow_transition_class e f =
    if is_critical e.severity
      || f.risk_spike
      || leb 850000000 f.severity_score
      || leb 850000000 f.transition_confidence
    then critical_class
    else if leb 700000000 f.transition_confidence || is_high e.severity
    then normal
    else if leb 500000000 f.transition_confidence || is_notable f.current_state
    then review
    else stable_class

unfoldable pub cooldown_class : Event → CooldownClass
cooldown_class e = elim e.feature [
  | lowcap_snapshot f ↦ lowcap_promotion_class e f
  | shadow_snapshot f ↦ shadow_transition_class e f
]

-- `stableTimeBucketLabel`, on a time after the epoch and a width that is not zero
abbrev pub stable_time_bucket_label : ℕ → ℕ → TimeBucket
stable_time_bucket_label observed window = record {
  start_ms = observed / window * window;
  minutes = window / 60000;
}

-- `[...new Set(values)]`
unfoldable pub distinct_from : List String → List String → List String
distinct_from seen [] = []
distinct_from seen (s ∷ ss) =
    let fresh = s ∷ distinct_from (s ∷ seen) ss in
    let again = distinct_from seen ss in if any (λ t. t === s) seen then again else fresh

-- What the gate calls of the platform: the digest of a canonical text, and `sort` by `localeCompare`.
pub record Platform : Type 0 where
  pub hash : GateHashed → String
  pub sort : List String → List String

unfoldable pub sort_strings : Platform → List String → List String
unfolding distinct_from
sort_strings p values = p.sort (distinct_from [] values)

-- what `basisHash` is taken over
unfoldable pub event_basis : Platform → Event → EventBasis
event_basis p e = record {
  event_type = e.event_type;
  entity_type = e.entity_type;
  entity_id = normalize_identifier_part e.entity_id;
  entity_key = normalize_identifier_part e.entity_key;
  observed_at = e.observed_at;
  window_start = e.window_start;
  window_end = e.window_end;
  severity = e.severity;
  confidence = e.confidence;
  knowledge_mode = e.knowledge_mode;
  source_scope = e.source_scope;
  promotion_candidate = e.promotion_candidate;
  suppression_candidate = e.suppression_candidate;
  evidence_refs = sort_strings p e.evidence_refs;
  feature = e.feature;
}

-- `buildWorkerEventNormalization`, with the window of the family
unfoldable pub build_worker_event_normalization : Platform → Event → EventNormalization
unfolding event_basis
build_worker_event_normalization p e =
    let b = event_basis p e in
    record {
      basis_hash = p.hash (basis_of b);
      evidence_signature = p.hash (
          evidence_of (record {
            event_type = b.event_type;
            entity_id = b.entity_id;
            entity_key = b.entity_key;
            evidence_refs = b.evidence_refs;
            feature = b.feature;
          }));
      normalized_evidence_refs = b.evidence_refs;
      normalized_entity_id = b.entity_id;
      normalized_entity_key = b.entity_key;
      time_bucket = stable_time_bucket_label e.observed_at (dedupe_window_ms e);
    }

abbrev pub same_family : EventFamily → EventFamily → Bool
same_family lowcap_family lowcap_family = true
same_family shadow_family shadow_family = true
same_family _ _ = false

abbrev class_index : CooldownClass → ℕ
class_index prime = 0
class_index strong = 1
class_index borderline = 2
class_index stale_class = 3
class_index critical_class = 4
class_index normal = 5
class_index review = 6
class_index stable_class = 7

abbrev same_bucket : TimeBucket → TimeBucket → Bool
same_bucket a b = a.start_ms == b.start_ms && a.minutes == b.minutes

-- `===` on the keys
unfoldable pub same_dedupe_key : DedupeKey → DedupeKey → Bool
same_dedupe_key a b =
    same_family a.family b.family
    && (a.entity_id === b.entity_id)
    && (a.event_type === b.event_type)
    && same_bucket a.bucket b.bucket
    && (a.entity_key === b.entity_key)

unfoldable pub same_cooldown_key : CooldownKey → CooldownKey → Bool
same_cooldown_key a b =
    same_family a.family b.family
    && (a.entity_id === b.entity_id)
    && class_index a.class == class_index b.class
    && (a.entity_key === b.entity_key)

unfoldable pub same_batch_key : BatchKey → BatchKey → Bool
same_batch_key a b =
    same_bucket a.bucket b.bucket
    && same_family a.family b.family
    && (a.entity_id === b.entity_id)
    && (a.group === b.group)

unfoldable pub build_dedupe_key : Event → EventNormalization → DedupeKey
build_dedupe_key e n = record {
  family = family_of e;
  entity_id = normalize_identifier_part e.entity_id;
  event_type = e.event_type;
  bucket = n.time_bucket;
  entity_key = n.normalized_entity_key;
}

unfoldable pub build_cooldown_key : Event → EventNormalization → CooldownKey
unfolding cooldown_class
build_cooldown_key e n = record {
  family = family_of e;
  entity_id = normalize_identifier_part e.entity_id;
  class = cooldown_class e;
  entity_key = n.normalized_entity_key;
}
