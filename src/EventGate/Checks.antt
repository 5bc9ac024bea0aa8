-- ===== src/EventGate/Checks.antt =====
-- What the event gate reads of an event, and the results that its stages build,
-- bot/src/runtime/worker-event-gate/engine.ts.
use bobby_execute.Base.{ℕ, max, Bool, true, false, not, ◌&&◌, ◌||◌, leb, ltb, if◌then◌else◌}
use bobby_execute.Base.Identifier.{starts_with}
use bobby_execute.WorkerState.Types.{
  SuppressionKind, low_relevance, stale, denied, RouteClass, no_model, eligible_small_adjudication,
  eligible_deep_adjudication, WriteEffect, watchlist_update, case_update, review_queue_insert,
  derived_refresh_trigger, no_write,
}
use bobby_execute.EventGate.Types.{
  WalletQualityState, toxic, LiquidityState, trap_risk, LowCapFeature, ShadowSnapshot,
  lowcap_snapshot, shadow_snapshot, Event,
}
use bobby_execute.EventGate.Results.{
  GateReasonClass, model_no_promotion, model_eligible_small, model_eligible_deep, write_no_write,
  write_watchlist_update, write_case_update, write_review_queue_insert,
  write_derived_refresh_trigger, RoutingDecision, ModelResult, WriteTarget, watchlist, case_target,
  review_queue_target, derived_refresh, no_target, WriteEffectDecision,
}
use bobby_execute.EventGate.Keys.{is_lowcap, is_critical}

-- `isWithinWindow`
abbrev pub is_within_window : ℕ → ℕ → ℕ → Bool
is_within_window observed start end = leb start observed && leb observed end

-- the conditions of `evaluateValidity`; the family of an envelope is always a known one
unfoldable pub is_valid : Event → Bool
is_valid e =
    starts_with e.event_type (if is_lowcap e then "lowcap." else "shadow.")
    && leb e.window_start e.window_end
    && is_within_window e.observed_at e.window_start e.window_end

abbrev is_toxic : WalletQualityState → Bool
is_toxic toxic = true
is_toxic _ = false

abbrev is_trap : LiquidityState → Bool
is_trap trap_risk = true
is_trap _ = false

abbrev integrity_ok : WalletQualityState → LiquidityState → ℕ → ℕ → Bool
integrity_ok wallet liquidity integrity freshness =
    (leb 400000000 integrity && leb 150000000 freshness)
    && not (is_toxic wallet || is_trap liquidity)

unfoldable pub family_specific_integrity_check : Event → Bool
family_specific_integrity_check e = elim e.feature [
  | lowcap_snapshot f ↦
      integrity_ok f.wallet_quality_state f.liquidity_state f.integrity_score f.freshness_score
  | shadow_snapshot f ↦
      integrity_ok f.wallet_quality_state f.liquidity_state f.integrity_score f.freshness_score
]

-- `relevant` and `kind` of `convergenceAssessment`
pub record Assessment : Type 0 where
  pub relevant : Bool
  pub kind : SuppressionKind

abbrev relevant_assessment : Assessment
relevant_assessment = record { relevant = true; kind = low_relevance }

abbrev blocked_as : ℕ → Bool → Assessment
blocked_as freshness deny = record {
  relevant = false;
  kind = if ltb freshness 250000000 then stale else if deny then denied else low_relevance;
}

abbrev lowcap_score : Event → LowCapFeature → ℕ
lowcap_score e f =
    max (max (max (max e.confidence f.convergence_score) f.integrity_score) f.freshness_score)
      (if ltb 0 f.trusted_signal_count then 550000000 else 0)

abbrev shadow_score : Event → ShadowSnapshot → ℕ
shadow_score e f =
    max (max (max (max e.confidence f.convergence_score) f.transition_confidence) f.severity_score)
      f.freshness_score

abbrev lowcap_assessment : Event → LowCapFeature → Assessment
lowcap_assessment e f =
    if leb (if e.promotion_candidate then 350000000 else 450000000) (lowcap_score e f)
      && not e.suppression_candidate
    then relevant_assessment
    else blocked_as f.freshness_score e.suppression_candidate

abbrev shadow_assessment : Event → ShadowSnapshot → Assessment
shadow_assessment e f =
    if leb (if e.promotion_candidate then 320000000 else 420000000) (shadow_score e f)
      && not e.suppression_candidate
      && not f.thesis_conflict
      && not f.risk_spike
    then relevant_assessment
    else blocked_as f.freshness_score (f.risk_spike || f.thesis_conflict)

unfoldable pub convergence_assessment : Event → Assessment
convergence_assessment e = elim e.feature [
  | lowcap_snapshot f ↦ lowcap_assessment e f
  | shadow_snapshot f ↦ shadow_assessment e f
]

abbrev lowcap_route : Event → LowCapFeature → RouteClass
lowcap_route e f =
    if is_critical e.severity
      || leb 900000000 e.confidence
      || leb 800000000 f.convergence_score
      || leb 850000000 f.integrity_score && leb 700000000 f.freshness_score
    then eligible_deep_adjudication
    else if e.promotion_candidate
        || leb 650000000 e.confidence
        || leb 600000000 f.convergence_score
        || leb 2 f.trusted_signal_count
    then eligible_small_adjudication
    else no_model

abbrev shadow_route : Event → ShadowSnapshot → RouteClass
shadow_route e f =
    if is_critical e.severity
      || f.risk_spike
      || leb 800000000 f.transition_confidence
      || leb 850000000 f.severity_score
    then eligible_deep_adjudication
    else if e.promotion_candidate
        || leb 600000000 e.confidence
        || leb 550000000 f.transition_confidence
        || leb 500000000 f.convergence_score
    then eligible_small_adjudication
    else no_model

unfoldable pub select_route_class : Event → RouteClass
select_route_class e = elim e.feature [
  | lowcap_snapshot f ↦ lowcap_route e f
  | shadow_snapshot f ↦ shadow_route e f
]

unfoldable pub select_write_effect : Event → RouteClass → WriteEffect
select_write_effect e no_model = no_write
select_write_effect e eligible_small_adjudication =
    if is_lowcap e then watchlist_update else derived_refresh_trigger
select_write_effect e eligible_deep_adjudication =
    if is_lowcap e then review_queue_insert else case_update

abbrev pub write_effect_reason_class : WriteEffect → GateReasonClass
write_effect_reason_class watchlist_update = write_watchlist_update
write_effect_reason_class case_update = write_case_update
write_effect_reason_class review_queue_insert = write_review_queue_insert
write_effect_reason_class derived_refresh_trigger = write_derived_refresh_trigger
write_effect_reason_class no_write = write_no_write

abbrev pub route_reason_class : RouteClass → GateReasonClass
route_reason_class no_model = model_no_promotion
route_reason_class eligible_small_adjudication = model_eligible_small
route_reason_class eligible_deep_adjudication = model_eligible_deep

abbrev pub build_routing_decision : Event → RouteClass → RoutingDecision
build_routing_decision e route = record {
  route_class = route;
  reason_class = route_reason_class route;
  evaluated_at = e.observed_at;
}

abbrev pub build_model_result_placeholder : Event → RoutingDecision → ModelResult
build_model_result_placeholder e routing = record {
  route_class = routing.route_class;
  reason_class = routing.reason_class;
  evaluated_at = e.observed_at;
  called = false;
}

abbrev target_of : WriteEffect → WriteTarget
target_of watchlist_update = watchlist
target_of case_update = case_target
target_of review_queue_insert = review_queue_target
target_of derived_refresh_trigger = derived_refresh
target_of no_write = no_target

abbrev pub build_write_effect_decision : Event → WriteEffect → WriteEffectDecision
build_write_effect_decision e effect = record {
  effect = effect;
  reason_class = write_effect_reason_class effect;
  evaluated_at = e.observed_at;
  target = target_of effect;
}
