-- ===== src/EventGate/Workers.antt =====
-- The gate's evaluation as the input of the worker state machines, which read a part of it
-- (bot/src/runtime/worker-state-machines.ts). How a time and a bucket are written is a parameter.
use bobby_execute.Base.{
  ℕ, ◌≡◌, refl, ap, ◌∙◌, String, Bool, true, false, ◌||◌, Option, none, some, List, [], ◌∷◌, ◌++◌,
  arith,
}
use bobby_execute.WorkerState.Types.{
  state_alert, ShadowIntelligenceStateStatus, alert, GateStageName, validity, integrity,
  convergence_relevance, dedupe_stage, cooldown_stage, batch_debounce, model_promotion,
  post_model_routing, SuppressionKind, no_write, ShadowFeature, Evaluation, applied, is_suppressed,
}
use bobby_execute.WorkerState.Shadow.{judge, is_terminal, shadow_alert_signal}
use bobby_execute.WorkerState.ShadowGraph.{shadow_judge-alert}
use bobby_execute.EventGate.Types.{
  ShadowSnapshot, Snapshot, lowcap_snapshot, shadow_snapshot, Event, TimeBucket, GateState,
}
use bobby_execute.EventGate.Results.{
  GateReasonClass, validity_pass, integrity_pass, model_no_promotion, model_eligible_small,
  model_eligible_deep, write_watchlist_update, write_case_update, write_review_queue_insert,
  write_derived_refresh_trigger, SuppressionRecord, StageResult, EventNormalization, GateResult,
}
use bobby_execute.EventGate.Keys.{Platform, family_of, build_worker_event_normalization}
use bobby_execute.EventGate.Checks.{
  is_valid, family_specific_integrity_check, convergence_assessment, select_write_effect,
}
use bobby_execute.EventGate.StageResults.{create_pass_result}
use bobby_execute.EventGate.Stages.{
  evaluate_validity, evaluate_integrity, evaluate_convergence_relevance,
}
use bobby_execute.EventGate.Gate.{
  stage_order, ensure_valid_state, Progress, start, enter, play, conclude,
  evaluate_worker_event_gate,
}
use bobby_execute.EventGate.Verdict.{play-blocked}

pub record Writer : Type 0 where
  pub time : ℕ → String
  pub label : TimeBucket → String

-- the reasons that a routing decision and a write can have
abbrev reason_text : GateReasonClass → String
reason_text model_no_promotion = "MODEL_NO_PROMOTION"
reason_text model_eligible_small = "MODEL_ELIGIBLE_SMALL"
reason_text model_eligible_deep = "MODEL_ELIGIBLE_DEEP"
reason_text write_watchlist_update = "WRITE_WATCHLIST_UPDATE"
reason_text write_case_update = "WRITE_CASE_UPDATE"
reason_text write_review_queue_insert = "WRITE_REVIEW_QUEUE_INSERT"
reason_text write_derived_refresh_trigger = "WRITE_DERIVED_REFRESH_TRIGGER"
reason_text _ = "WRITE_NO_WRITE"

abbrev feature_of : Snapshot → Option ShadowFeature
feature_of (lowcap_snapshot f) = none
feature_of (shadow_snapshot f) = some (record {
  current_state = f.current_state;
  transition_confidence = f.transition_confidence;
  risk_spike = f.risk_spike;
  thesis_conflict = f.thesis_conflict;
})

abbrev kind_of : Option SuppressionRecord → Option SuppressionKind
kind_of none = none
kind_of (some r) = some r.kind

-- what a state machine reads of the gate's result
unfoldable pub to_evaluation : Writer → GateResult → Evaluation
to_evaluation w r = record {
  event_id = r.event.event_id;
  trace_id = r.trace_id;
  family = family_of r.event;
  event_type = r.event.event_type;
  observed_at = w.time r.event.observed_at;
  severity = r.event.severity;
  feature = feature_of r.event.feature;
  evidence_refs = r.event.evidence_refs;
  normalization = record {
    normalized_entity_id = r.normalization.normalized_entity_id;
    normalized_entity_key = r.normalization.normalized_entity_key;
    time_bucket = w.label r.normalization.time_bucket;
    normalized_evidence_refs = r.normalization.normalized_evidence_refs;
    basis_hash = r.normalization.basis_hash;
    evidence_signature = r.normalization.evidence_signature;
  };
  evaluation_hash = r.evaluation_hash;
  replay_key = r.replay_key;
  blocked = r.blocked;
  blocking_stage = r.blocking_stage;
  suppression = kind_of r.suppression;
  route_class = r.routing.route_class;
  route_reason_class = reason_text r.routing.reason_class;
  model_called = r.model_result.called;
  model_reason_class = reason_text r.model_result.reason_class;
  write_effect = r.write_effect.effect;
  write_effect_reason_class = reason_text r.write_effect.reason_class;
}

abbrev pub spiked : Event → ShadowSnapshot → Event
spiked e f = record e { feature = shadow_snapshot (record f { risk_spike = true }) }

spiked-assessment :
    (e : Event) (f : ShadowSnapshot)
    → (convergence_assessment (spiked e f)).relevant ≡ false
      × is_suppressed (some (convergence_assessment (spiked e f)).kind) ≡ false
unfolding convergence_assessment
spiked-assessment e f = (ground arith, ground arith)

module _ (p : Platform) (e : Event) (n : EventNormalization) where
  abbrev idle : GateState → List StageResult → Progress
  idle s rs = record (start s) { stage_results = rs }

  abbrev later : List GateStageName
  later = dedupe_stage ∷ cooldown_stage ∷ batch_debounce ∷ model_promotion ∷ post_model_routing ∷ []

  enter-validity :
      (s : GateState)
      → is_valid e ≡ true
      → enter p e n validity (start s)
        ≡ idle s (create_pass_result validity validity_pass e.observed_at ∷ [])
  unfolding enter evaluate_validity
  enter-validity s v = rw v refl

  enter-integrity :
      (s : GateState) (rs : List StageResult)
      → family_specific_integrity_check e ≡ true
      → enter p e n integrity (idle s rs)
        ≡ idle s (rs ++ create_pass_result integrity integrity_pass e.observed_at ∷ [])
  unfolding enter evaluate_integrity
  enter-integrity s rs i = rw i refl

  enter-irrelevant :
      (q : Progress)
      → (convergence_assessment e).relevant ≡ false
      → let q' = enter p e n convergence_relevance q in
        q'.blocking_stage ≡ some convergence_relevance
        × q'.blocked ≡ true
        × kind_of q'.suppression ≡ some (convergence_assessment e).kind
  unfolding enter evaluate_convergence_relevance
  enter-irrelevant q c = (rw c refl, rw c refl, rw c refl)

  -- the loop over an event that is blocked for its content
  play-irrelevant :
      (s : GateState)
      → is_valid e ≡ true
      → family_specific_integrity_check e ≡ true
      → (convergence_assessment e).relevant ≡ false
      → let q = play p e n stage_order (start s) in
        q.blocking_stage ≡ some convergence_relevance
        × q.blocked ≡ true
        × kind_of q.suppression ≡ some (convergence_assessment e).kind
  unfolding play
  play-irrelevant s v i c =
      let first = create_pass_result validity validity_pass e.observed_at ∷ [] in
      let both = first ++ create_pass_result integrity integrity_pass e.observed_at ∷ [] in
      let last = enter p e n convergence_relevance (idle s both) in
      let so_far = enter-irrelevant (idle s both) c in
      let rest = play-blocked p e n later last so_far.1 in
      let same : play p e n stage_order (start s) ≡ play p e n later last =
        ap (λ q. play p e n (integrity ∷ convergence_relevance ∷ later) q) (enter-validity s v)
        ∙ ap (λ q. play p e n (convergence_relevance ∷ later) q) (enter-integrity s first i) in
      (
        ap (λ q. q.blocking_stage) same ∙ rest.0 ∙ so_far.0,
        ap (λ q. q.blocked) same ∙ rest.1,
        ap (λ q. kind_of q.suppression) same ∙ ap kind_of rest.2 ∙ so_far.2,
      )

or_true : (a b : Bool) → (a || true || b) ≡ true
or_true a b = ground arith

-- A risk spike that the gate finds valid and of integrity is blocked for its content, whatever the gate's state,
-- so that it gets no model and no write; and the shadow intelligence's machine, given the blocked
-- evaluation, raises the alert from every state that is not final.
pub evaluate-alert :
    (p : Platform) (w : Writer) (e : Event) (f : ShadowSnapshot) (state : Option GateState)
    (s : ShadowIntelligenceStateStatus)
    → is_valid (spiked e f) ≡ true
    → family_specific_integrity_check (spiked e f) ≡ true
    → is_terminal s ≡ false
    → let r = evaluate_worker_event_gate p (spiked e f) state in
      r.blocking_stage ≡ some convergence_relevance
      × r.write_effect.effect ≡ no_write
      × judge s (to_evaluation w r) ≡ applied alert state_alert
unfolding evaluate_worker_event_gate conclude to_evaluation shadow_alert_signal select_write_effect
evaluate-alert p w e f state s v i t =
    let e' = spiked e f in
    let n = build_worker_event_normalization p e' in
    let a = spiked-assessment e f in
    let q = play-irrelevant p e' n (ensure_valid_state state) v i a.0 in
    let r = evaluate_worker_event_gate p e' state in
    (
      q.0,
      rw q.1 refl,
      shadow_judge-alert s (to_evaluation w r) refl (ap is_suppressed q.2 ∙ a.1) t (or_true _ _),
    )
