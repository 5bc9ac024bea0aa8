-- ===== src/EventGate/Routing.antt =====
-- The last three stages of the event gate: the batches, the promotion to a model and the routing,
-- bot/src/runtime/worker-event-gate/engine.ts.
use bobby_execute.Base.{
  ℕ, suc, ◌+◌, String, Bool, true, false, ◌&&◌, ◌||◌, Option, none, some, List, [], ◌∷◌, ◌++◌, leb,
  ltb, if◌then◌else◌, ◌otherwise◌,
}
use bobby_execute.Base.Identifier.{normalize_identifier_part}
use bobby_execute.WorkerState.Types.{
  batch_debounce, post_model_routing, defer, RouteClass, no_model, is_routed,
}
use bobby_execute.EventGate.Types.{
  lowcap_snapshot, shadow_snapshot, Event, BatchKey, batch_key, BatchStatus, pending, released,
  BatchRecord, GateState,
}
use bobby_execute.EventGate.Results.{
  deferred, batched, GateReasonClass, batch_pass, batch_deferred, batch_grouped, SuppressionRecord,
  StageResult, EventNormalization,
}
use bobby_execute.EventGate.Keys.{
  Platform, sort_strings, is_lowcap, family_of, batch_window_ms, stable_time_bucket_label,
  same_batch_key,
}
use bobby_execute.EventGate.Checks.{
  select_route_class, select_write_effect, write_effect_reason_class, route_reason_class,
}
use bobby_execute.EventGate.StageResults.{
  create_suppression_record, create_pass_result, create_held_result, create_promoted_result,
  create_no_model_result,
}
use bobby_execute.EventGate.Stages.{Outcome, find}

abbrev pub batch_group_hint : Event → Option String
batch_group_hint e = elim e.feature [
  | lowcap_snapshot f ↦ f.batch_group_hint
  | shadow_snapshot f ↦ f.batch_group_hint
]

unfoldable pub build_batch_key : Event → EventNormalization → BatchKey
build_batch_key e n = record {
  family = family_of e;
  entity_id = normalize_identifier_part e.entity_id;
  bucket = stable_time_bucket_label e.observed_at (batch_window_ms e);
  group = normalize_identifier_part (batch_group_hint e otherwise n.normalized_entity_key);
}

abbrev is_some : Option String → Bool
is_some none = false
is_some (some _) = true

abbrev pub is_batchable : Event → Bool
is_batchable e =
    e.suppression_candidate
    || ltb e.confidence (if is_lowcap e then 800000000 else 750000000)
    || is_some (batch_group_hint e)

abbrev pub is_pending : BatchStatus → Bool
is_pending pending = true
is_pending released = false

unfoldable pub holds : Event → EventNormalization → BatchRecord → Bool
unfolding same_batch_key build_batch_key
holds e n r = same_batch_key r.key (build_batch_key e n) && is_pending r.status

-- `xs[i] = f(xs[i])` at the first index that the test finds
unfoldable pub update_first :
    (BatchRecord → Bool) → (BatchRecord → BatchRecord) → List BatchRecord → List BatchRecord
update_first p f [] = []
update_first p f (r ∷ rs) = let rest = update_first p f rs in if p r then f r ∷ rs else r ∷ rest

abbrev held : EventNormalization → BatchKey → GateReasonClass → ℕ → SuppressionRecord
held n key reason release =
    record (create_suppression_record batch_debounce defer reason n (batch_key key)) {
      release_at = some release;
    }

abbrev pub batch_passed : Event → EventNormalization → StageResult
batch_passed e n = record (create_pass_result batch_debounce batch_pass e.observed_at) {
  key = some (batch_key (build_batch_key e n));
  window_ms = some (batch_window_ms e);
}

abbrev pub first_of_batch : Event → EventNormalization → BatchRecord
first_of_batch e n = record {
  key = build_batch_key e n;
  family = family_of e;
  event_ids = e.event_id ∷ [];
  event_types = e.event_type ∷ [];
  first_observed_at = e.observed_at;
  last_observed_at = e.observed_at;
  release_at = e.observed_at + batch_window_ms e;
  window_ms = batch_window_ms e;
  count = 1;
  status = pending;
}

abbrev pub batch_opened : Event → EventNormalization → GateState → Outcome
batch_opened e n s = record {
  result =
      create_held_result deferred e.observed_at
        (held n (build_batch_key e n) batch_deferred (e.observed_at + batch_window_ms e))
        (batch_window_ms e);
  next_state = record s {
    batch_records = s.batch_records ++ first_of_batch e n ∷ [];
    last_evaluated_at = some e.observed_at;
  };
}

module _ (p : Platform) where
  unfoldable pub join_batch : Event → BatchRecord → BatchRecord
  unfolding sort_strings
  join_batch e r = record r {
    event_ids = sort_strings p (r.event_ids ++ e.event_id ∷ []);
    event_types = sort_strings p (r.event_types ++ e.event_type ∷ []);
    last_observed_at = e.observed_at;
    count = suc r.count;
    status = if leb r.release_at e.observed_at then released else pending;
  }

  abbrev pub batch_joined : Event → EventNormalization → GateState → BatchRecord → Outcome
  batch_joined e n s r = record {
    result =
        if ltb e.observed_at r.release_at
        then create_held_result batched e.observed_at
            (held n (build_batch_key e n) batch_grouped r.release_at) (batch_window_ms e)
        else record (batch_passed e n) { release_at = some r.release_at };
    next_state = record s {
      batch_records = update_first (holds e n) (join_batch e) s.batch_records;
      last_evaluated_at = some e.observed_at;
    };
  }

  -- by the pending record
  abbrev pub batch_outcome : Event → EventNormalization → GateState → Option BatchRecord → Outcome
  batch_outcome e n s (some r) = batch_joined e n s r
  batch_outcome e n s none =
      if is_batchable e
      then batch_opened e n s
      else record { result = batch_passed e n; next_state = s }

  unfoldable pub evaluate_batch_debounce : Event → EventNormalization → GateState → Outcome
  unfolding find holds build_batch_key update_first join_batch
  evaluate_batch_debounce e n s = batch_outcome e n s (find (holds e n) s.batch_records)

abbrev pub promotion_of : Event → RouteClass → StageResult
promotion_of e no_model = create_no_model_result (route_reason_class no_model) e.observed_at
promotion_of e route = create_promoted_result (route_reason_class route) e.observed_at route

unfoldable pub evaluate_model_promotion : Event → StageResult
unfolding select_route_class
evaluate_model_promotion e = promotion_of e (select_route_class e)

-- the stage's result; what it builds beside it, the evaluation builds again from the same route
unfoldable pub evaluate_post_model_routing : Event → RouteClass → StageResult
unfolding select_write_effect
evaluate_post_model_routing e route =
    let effect = select_write_effect e route in
    record (create_pass_result post_model_routing (write_effect_reason_class effect)
      e.observed_at) {
        is_promoted = is_routed route;
        route_class = some route;
        write_effect = some effect;
      }
