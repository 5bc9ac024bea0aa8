-- ===== src/EventGate/Examples.antt =====
-- Events of both families at the gate.
use bobby_execute.Base.{◌≡◌, refl, true, false, not, ◌||◌, none, some, [], ◌∷◌, any, every, map}
use bobby_execute.WorkerState.Types.{
  state_alert, ShadowIntelligenceStateStatus, alert, medium, critical, convergence_relevance,
  dedupe_stage, cooldown_stage, batch_debounce, eligible_small_adjudication, watchlist_update,
  no_write, ShadowCurrentState, applied,
}
use bobby_execute.Base.Identifier.{starts_with, normalize_identifier_part}
use bobby_execute.WorkerState.Shadow
use bobby_execute.EventGate.Types.{
  clean, mixed, healthy, fragile, LowCapFeature, ShadowSnapshot, lowcap_snapshot, shadow_snapshot,
  Event,
}
use bobby_execute.EventGate.Results.{pass, batched, skipped, GateResult}
use bobby_execute.EventGate.Keys.{
  Platform, sort_strings, event_basis, build_worker_event_normalization,
}
use bobby_execute.EventGate.Checks.{is_valid, family_specific_integrity_check}
use bobby_execute.EventGate.Routing.{is_pending, holds}
use bobby_execute.EventGate.Gate.{stage_order, ensure_valid_state, evaluate_worker_event_gate, run}
use bobby_execute.EventGate.Verdict.{evaluate-find}
use bobby_execute.EventGate.Order.{is_typed, in_order}
use bobby_execute.EventGate.Shape.{evaluate-stages}
use bobby_execute.EventGate.Redelivery.{evaluate-redelivered}
use bobby_execute.EventGate.Batches.{run-pending}
use bobby_execute.EventGate.Workers.{Writer, to_evaluation, spiked, evaluate-alert}

abbrev platform : Platform
platform = record { hash = λ _. "digest"; sort = λ texts. texts }

abbrev token : LowCapFeature
token = record {
  token_name = "Token";
  ticker = "TKN";
  contract_address = "So11";
  venue = "pump.fun";
  launch_age_seconds = 60;
  market_cap = none;
  volume = some 5000;
  bonding_state = "bonding";
  wallet_quality_state = clean;
  structure_state = "early";
  liquidity_state = healthy;
  meta_cluster = none;
  attention_type = none;
  trusted_signal_count = 2;
  convergence_score = 700000000;
  integrity_score = 600000000;
  freshness_score = 500000000;
  noise_score = 0;
  batch_group_hint = none;
}

-- a promising token, ten minutes after the epoch
abbrev chance : Event
chance = record {
  event_id = "e1";
  trace_id = "t1";
  event_type = "lowcap.discovery";
  event_version = "1";
  producer = "scanner";
  entity_type = "token";
  entity_id = "So11:Mint";
  entity_key = "So11";
  observed_at = 600000;
  window_start = 0;
  window_end = 900000;
  severity = medium;
  confidence = 850000000;
  knowledge_mode = "observed";
  evidence_refs = "tx:1" ∷ "tx:1" ∷ "tx:2" ∷ [];
  source_scope = "external";
  promotion_candidate = true;
  suppression_candidate = false;
  feature = lowcap_snapshot token;
}

abbrev again : Event
again = record chance {
  event_id = "e2";
  producer = "mirror";
  entity_id = " SO11--mint ";
  evidence_refs = "tx:1" ∷ "tx:2" ∷ [];
}

-- a weaker event on another token, which the gate defers
abbrev weak : Event
weak = record chance {
  event_id = "e3";
  entity_id = "other";
  entity_key = "other";
  confidence = 500000000;
}

-- the same, a minute later
abbrev weak_later : Event
weak_later = record weak {
  event_id = "e4";
  event_type = "lowcap.update";
  observed_at = 660000;
  confidence = 800000000;
  severity = critical;
}

abbrev case : ShadowSnapshot
case = record {
  token_name = "Token";
  ticker = "TKN";
  contract_address = "So11";
  current_state = ShadowCurrentState.watching;
  baseline_state = "stable";
  transition_type = "risk_spike";
  structure_shift = "none";
  flow_shift = "none";
  attention_shift = "none";
  wallet_quality_state = mixed;
  distribution_state = "healthy";
  liquidity_state = fragile;
  transition_confidence = 600000000;
  severity_score = 900000000;
  convergence_score = 500000000;
  integrity_score = 500000000;
  freshness_score = 400000000;
  batch_group_hint = none;
  thesis_conflict = false;
  risk_spike = false;
}

abbrev watched : Event
watched = record chance {
  event_id = "e5";
  event_type = "shadow.risk";
  feature = shadow_snapshot case;
}

abbrev first : GateResult
first = evaluate_worker_event_gate platform chance none

first_passes : first.blocked ≡ false
unfolding evaluate_worker_event_gate run starts_with normalize_identifier_part
first_passes = refl

first_route : first.routing.route_class ≡ eligible_small_adjudication
unfolding evaluate_worker_event_gate run starts_with normalize_identifier_part
first_route = refl

first_write : first.write_effect.effect ≡ watchlist_update
unfolding evaluate_worker_event_gate run starts_with normalize_identifier_part
first_write = refl

abbrev second : GateResult
second = evaluate_worker_event_gate platform again (some first.state_after)

second_repeats : second.blocking_stage ≡ some dedupe_stage
unfolding evaluate_worker_event_gate run starts_with normalize_identifier_part
second_repeats = refl

weak_deferred : (evaluate_worker_event_gate platform weak none).blocking_stage ≡ some batch_debounce
unfolding evaluate_worker_event_gate run starts_with normalize_identifier_part
weak_deferred = refl

later_batched :
    map
      (λ r. r.disposition)
      (evaluate_worker_event_gate platform weak_later (run platform (weak ∷ []) none)).stages
    ≡ pass ∷ pass ∷ pass ∷ pass ∷ pass ∷ batched ∷ skipped ∷ skipped ∷ []
unfolding evaluate_worker_event_gate run starts_with normalize_identifier_part
later_batched = refl

-- the same class of the same token again, with other content: the cooldown
cools_down :
    (evaluate_worker_event_gate platform
      (record chance { event_type = "lowcap.update"; observed_at = 601000 })
      (some first.state_after)).blocking_stage
    ≡ some cooldown_stage
unfolding evaluate_worker_event_gate run starts_with normalize_identifier_part
cools_down = refl

evaluate-find_example :
    first.blocked ≡ false
    × first.blocking_stage ≡ none
    × first.routing.route_class ≡ eligible_small_adjudication
    × first.write_effect.effect ≡ watchlist_update
unfolding evaluate_worker_event_gate run starts_with normalize_identifier_part
evaluate-find_example = evaluate-find platform chance none

evaluate-stages_example :
    map (λ x. x.stage) second.stages ≡ stage_order
    × every is_typed second.stages ≡ true
    × in_order second.stages ≡ true
    × any (λ x. x.blocked) second.stages ≡ second.blocked
evaluate-stages_example = evaluate-stages platform again (some first.state_after)

evaluate-redelivered_example :
    (evaluate_worker_event_gate platform again
      (run platform (weak ∷ watched ∷ []) (some first.state_after))).blocked
    ≡ true
unfolding event_basis normalize_identifier_part sort_strings
evaluate-redelivered_example =
    evaluate-redelivered platform chance again (weak ∷ watched ∷ []) none refl

run-pending_example :
    let state = run platform (chance ∷ weak ∷ []) none in
    let batches = (ensure_valid_state state).batch_records in
    every (λ r. is_pending r.status) batches ≡ true
    × (not (any (holds weak_later (build_worker_event_normalization platform weak_later)) batches)
        || (evaluate_worker_event_gate platform weak_later state).blocked)
      ≡ true
run-pending_example = run-pending platform (chance ∷ weak ∷ []) weak_later

abbrev writer : Writer
writer = record { time = λ _. "time"; label = λ _. "label" }

evaluate-alert_example :
    let r = evaluate_worker_event_gate platform (spiked watched case) (some first.state_after) in
    r.blocking_stage ≡ some convergence_relevance
    × r.write_effect.effect ≡ no_write
    × Shadow.judge ShadowIntelligenceStateStatus.watching (to_evaluation writer r)
      ≡ applied alert state_alert
unfolding is_valid family_specific_integrity_check starts_with
evaluate-alert_example =
    evaluate-alert platform writer watched case (some first.state_after)
      ShadowIntelligenceStateStatus.watching refl refl refl
