-- ===== src/WorkerState/Examples.antt =====
-- Runs of the two machines, and their theorems at concrete evaluations. The hash of a result is a
-- constant text here.
use bobby_execute.Base.{
  ◌≡◌, ◌+◌, ◌≤◌, refl, true, false, Option, none, some, List, [], ◌∷◌, map, any, keep,
}
use bobby_execute.WorkerState.Types.{
  lowcap_hunter, LowCapHunterStateStatus, ShadowIntelligenceStateStatus, lowcap, Evaluation,
  Normalization, ShadowFeature, ShadowCurrentState, EventFamily, lowcap_family, shadow_family,
  TransitionResult, Hash, build_transition_result, state_advanced, state_alert, low,
  eligible_small_adjudication, eligible_deep_adjudication, watchlist_update, no_write, RouteClass,
  WriteEffect,
}
use bobby_execute.WorkerState.Journal.{
  parsed, parse_transition_record, build_transition_journal_record, build_transition_journal_entry,
}
use bobby_execute.WorkerState.Reconstruct.{
  replayed, reconstruct_worker_state_transition_replay, is_blocked, is_invalid, is_unchanged,
  same_kind,
}
use bobby_execute.WorkerState.LowCap
use bobby_execute.WorkerState.Shadow
use bobby_execute.WorkerState.LowCapGraph
use bobby_execute.WorkerState.ShadowGraph
use bobby_execute.WorkerState.LowCapGraph.{
  low_cap_judge-⟶, low_cap_changes-le, low_cap_run-terminal,
}
use bobby_execute.WorkerState.ShadowGraph.{shadow_judge-⟶, shadow_changes-le, shadow_run-terminal}
use bobby_execute.WorkerState.Replay.{
  record-parse, reconstruct-entries, empty, cons, first_before, last_after,
}
use bobby_execute.WorkerState.RunReplay.{low_cap_run-replay}

abbrev hash : Hash
hash _ = "h"

abbrev normalization : Normalization
normalization = record {
  normalized_entity_id = "e";
  normalized_entity_key = "k";
  time_bucket = "b";
  normalized_evidence_refs = [];
  basis_hash = "n";
  evidence_signature = "s";
}

abbrev evaluation : EventFamily → Option ShadowFeature → RouteClass → WriteEffect → Evaluation
evaluation family feature route effect = record {
  event_id = "1";
  trace_id = "t";
  family = family;
  event_type = "snapshot";
  observed_at = "2026-01-01T00:00:00.000Z";
  severity = low;
  feature = feature;
  evidence_refs = [];
  normalization = normalization;
  evaluation_hash = "g";
  replay_key = "r";
  blocked = false;
  blocking_stage = none;
  suppression = none;
  route_class = route;
  route_reason_class = "";
  model_called = false;
  model_reason_class = "";
  write_effect = effect;
  write_effect_reason_class = "";
}

abbrev deep : Evaluation
deep = evaluation lowcap_family none eligible_deep_adjudication no_write

abbrev watch : Evaluation
watch = evaluation lowcap_family none eligible_deep_adjudication watchlist_update

abbrev hunt : List Evaluation
hunt = deep ∷ deep ∷ deep ∷ watch ∷ []

hunt_ends : LowCap.run LowCapHunterStateStatus.observed hunt ≡ LowCapHunterStateStatus.watchlisted
unfolding LowCap.run LowCap.judge LowCap.advance LowCap.LowCap-discrete LowCap.low_cap_next_state
    LowCap.next_by
hunt_ends = refl

low_cap_judge-⟶_example :
    LowCapGraph.◌⟶◌ LowCapHunterStateStatus.screened LowCapHunterStateStatus.promoted
    × (state_advanced ≡ state_advanced)
unfolding LowCap.judge LowCap.advance LowCap.low_cap_next_state LowCap.next_by
    LowCap.LowCap-discrete
low_cap_judge-⟶_example =
    low_cap_judge-⟶ LowCapHunterStateStatus.screened LowCapHunterStateStatus.promoted deep
      state_advanced refl

low_cap_changes-le_example :
    LowCapGraph.rank LowCapHunterStateStatus.observed
      + LowCapGraph.change_count LowCapHunterStateStatus.observed hunt
    ≤ 5
low_cap_changes-le_example = low_cap_changes-le LowCapHunterStateStatus.observed hunt

low_cap_run-terminal_example :
    LowCap.run LowCapHunterStateStatus.rejected hunt ≡ LowCapHunterStateStatus.rejected
low_cap_run-terminal_example = low_cap_run-terminal LowCapHunterStateStatus.rejected hunt refl

abbrev calm : ShadowFeature
calm = record {
  current_state = ShadowCurrentState.watching;
  transition_confidence = 100000000;
  risk_spike = false;
  thesis_conflict = false;
}

abbrev spike : Evaluation
spike =
    evaluation shadow_family (some (record calm { risk_spike = true })) eligible_small_adjudication
      no_write

abbrev quiet : Evaluation
quiet = evaluation shadow_family (some calm) eligible_small_adjudication no_write

shadow_judge-⟶_example :
    ShadowGraph.◌⟶◌ ShadowIntelligenceStateStatus.stable ShadowIntelligenceStateStatus.alert
    × (state_alert ≡ state_alert)
unfolding Shadow.judge Shadow.shadow_alert_signal
shadow_judge-⟶_example =
    shadow_judge-⟶ ShadowIntelligenceStateStatus.stable ShadowIntelligenceStateStatus.alert spike
      state_alert refl

abbrev screened_result : TransitionResult
screened_result = LowCap.transition_low_cap_hunter_state hash LowCapHunterStateStatus.observed deep

abbrev alert_result : TransitionResult
alert_result =
    Shadow.transition_shadow_intelligence_state hash ShadowIntelligenceStateStatus.stable spike

record-parse_example :
    parse_transition_record (some (build_transition_journal_record alert_result))
    ≡ parsed alert_result
unfolding Shadow.transition_shadow_intelligence_state Shadow.judge Shadow.shadow_alert_signal
    build_transition_result
record-parse_example = record-parse alert_result refl refl

reconstruct-entries_example :
    let found =
      keep (λ r. same_kind r.worker_kind lowcap_hunter) (alert_result ∷ screened_result ∷ []) in
    reconstruct_worker_state_transition_replay
      (map (build_transition_journal_entry hash) (alert_result ∷ screened_result ∷ []))
      lowcap_hunter
    ≡ replayed (record {
      state_before = first_before none found;
      state_after = last_after none found;
      blocked = any (λ r. is_blocked r.kind) found;
      invalid = any (λ r. is_invalid r.kind) found;
      no_transition = any (λ r. is_unchanged r.kind) found;
      history = found;
    })
unfolding Shadow.transition_shadow_intelligence_state Shadow.judge Shadow.shadow_alert_signal
    build_transition_result LowCap.transition_low_cap_hunter_state LowCap.judge LowCap.advance
    LowCap.LowCap-discrete LowCap.low_cap_next_state LowCap.next_by
reconstruct-entries_example =
    reconstruct-entries hash lowcap_hunter (alert_result ∷ screened_result ∷ []) (
      cons {r = alert_result} (record { before = refl; after = refl })
        (cons {r = screened_result} (record { before = refl; after = refl }) empty))

low_cap_run-replay_example :
    let found = LowCap.results hash LowCapHunterStateStatus.observed hunt in
    reconstruct_worker_state_transition_replay
      (map (build_transition_journal_entry hash) found)
      lowcap_hunter
    ≡ replayed (record {
      state_before = some (lowcap LowCapHunterStateStatus.observed);
      state_after = some (lowcap (LowCap.run LowCapHunterStateStatus.observed hunt));
      blocked = any (λ r. is_blocked r.kind) found;
      invalid = any (λ r. is_invalid r.kind) found;
      no_transition = any (λ r. is_unchanged r.kind) found;
      history = found;
    })
low_cap_run-replay_example =
    low_cap_run-replay hash LowCapHunterStateStatus.observed deep (deep ∷ deep ∷ watch ∷ [])
