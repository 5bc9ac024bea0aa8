-- ===== src/EventGate/Gate.antt =====
-- The evaluation of an event by the gate, bot/src/runtime/worker-event-gate/engine.ts: the loop over
-- the stages, and the evaluation of a sequence of events, each with the state that the one before it
-- left.
use bobby_execute.Base.{
  Bool, true, false, Option, none, some, List, [], ◌∷◌, ◌++◌, map, if◌then◌else◌, ◌===◌,
  ◌otherwise◌,
}
use bobby_execute.WorkerState.Types.{
  GateStageName, validity, integrity, convergence_relevance, dedupe_stage, cooldown_stage,
  batch_debounce, model_promotion, post_model_routing, RouteClass, no_model,
}
use bobby_execute.EventGate.Types.{
  Event, GateState, state_schema_version, create_worker_event_gate_state,
}
use bobby_execute.EventGate.Results.{
  SuppressionRecord, StageResult, EventNormalization, StageDigest, evaluation_of, replay_of,
  GateResult,
}
use bobby_execute.EventGate.Keys.{Platform, build_worker_event_normalization}
use bobby_execute.EventGate.Checks.{
  select_write_effect, build_routing_decision, build_model_result_placeholder,
  build_write_effect_decision,
}
use bobby_execute.EventGate.StageResults.{create_skipped_result}
use bobby_execute.EventGate.Stages.{
  Outcome, evaluate_validity, evaluate_integrity, evaluate_convergence_relevance, evaluate_dedupe,
  evaluate_cooldown,
}
use bobby_execute.EventGate.Routing.{
  evaluate_batch_debounce, evaluate_model_promotion, evaluate_post_model_routing,
}

-- `WORKER_GATE_STAGE_ORDER`
abbrev pub stage_order : List GateStageName
stage_order =
    validity ∷ integrity ∷ convergence_relevance ∷ dedupe_stage ∷ cooldown_stage ∷ batch_debounce
    ∷ model_promotion ∷ post_model_routing ∷ []

-- `ensureValidState`
abbrev pub ensure_valid_state : Option GateState → GateState
ensure_valid_state none = create_worker_event_gate_state
ensure_valid_state (some s) =
    if s.schema_version === state_schema_version then s else create_worker_event_gate_state

-- the variables of the loop
pub record Progress : Type 0 where
  pub state_after : GateState
  pub stage_results : List StageResult
  pub blocked : Bool
  pub blocking_stage : Option GateStageName
  pub suppression : Option SuppressionRecord
  pub route_class : RouteClass

abbrev pub start : GateState → Progress
start s = record {
  state_after = s;
  stage_results = [];
  blocked = false;
  blocking_stage = none;
  suppression = none;
  route_class = no_model;
}

-- a stage's result is pushed, and blocks the event where it is blocked
abbrev pub take_result : GateStageName → StageResult → Progress → Progress
take_result stage result q =
    let pushed = record q { stage_results = q.stage_results ++ result ∷ [] } in
    if result.blocked
    then record pushed {
      blocked = true;
      blocking_stage = some stage;
      suppression = result.suppression;
    }
    else pushed

abbrev pub take_outcome : GateStageName → Outcome → Progress → Progress
take_outcome stage o q = take_result stage o.result (record q { state_after = o.next_state })

abbrev pub skip : Event → GateStageName → Progress → Progress
skip e stage q = record q {
  stage_results =
      q.stage_results
      ++ create_skipped_result stage (q.blocking_stage otherwise validity) e.observed_at ∷ [];
}

abbrev pub touched : Event → GateState → GateState
touched e s = record s { last_evaluated_at = some e.observed_at }

module _ (p : Platform) (e : Event) (n : EventNormalization) where
  -- the `switch` of the loop
  unfoldable pub enter : GateStageName → Progress → Progress
  unfolding evaluate_validity evaluate_integrity evaluate_convergence_relevance evaluate_dedupe
      evaluate_cooldown evaluate_batch_debounce evaluate_model_promotion evaluate_post_model_routing
  enter validity q = take_result validity (evaluate_validity e n) q
  enter integrity q = take_result integrity (evaluate_integrity e n) q
  enter convergence_relevance q =
      take_result convergence_relevance (evaluate_convergence_relevance e n) q
  enter dedupe_stage q = take_outcome dedupe_stage (evaluate_dedupe e n q.state_after) q
  enter cooldown_stage q = take_outcome cooldown_stage (evaluate_cooldown e n q.state_after) q
  enter batch_debounce q =
      take_outcome batch_debounce (evaluate_batch_debounce p e n q.state_after) q
  enter model_promotion q =
      let result = evaluate_model_promotion e in
      record q {
        stage_results = q.stage_results ++ result ∷ [];
        route_class = result.route_class otherwise no_model;
      }
  enter post_model_routing q = record q {
    stage_results = q.stage_results ++ evaluate_post_model_routing e q.route_class ∷ [];
    state_after = touched e q.state_after;
  }

  unfoldable pub step : GateStageName → Progress → Progress
  unfolding enter
  step stage q = if q.blocked then skip e stage q else enter stage q

  unfoldable pub play : List GateStageName → Progress → Progress
  unfolding step
  play [] q = q
  play (stage ∷ stages) q = play stages (step stage q)

abbrev digest : StageResult → StageDigest
digest r = record {
  stage = r.stage;
  disposition = r.disposition;
  reason_class = r.reason_class;
  blocked = r.blocked;
  terminal = r.terminal;
  key = r.key;
  route_class = r.route_class;
  write_effect = r.write_effect;
  skipped_because = r.skipped_because;
}

-- what follows the loop
unfoldable pub conclude : Platform → Event → EventNormalization → GateState → Progress → GateResult
unfolding select_write_effect
conclude p e n before q =
    let route = if q.blocked then no_model else q.route_class in
    let routing = build_routing_decision e route in
    let effect = select_write_effect e route in
    let after = if q.blocked then touched e q.state_after else q.state_after in
    let terminal = if q.blocked then q.blocking_stage otherwise validity else post_model_routing in
    record {
      trace_id = e.trace_id;
      event = e;
      normalization = n;
      state_before = before;
      state_after = after;
      stages = q.stage_results;
      blocked = q.blocked;
      blocking_stage = q.blocking_stage;
      terminal_stage = terminal;
      suppression = q.suppression;
      routing = routing;
      model_result = build_model_result_placeholder e routing;
      write_effect = build_write_effect_decision e effect;
      evaluation_hash = p.hash (
          evaluation_of (record {
            trace_id = e.trace_id;
            event_id = e.event_id;
            blocked = q.blocked;
            blocking_stage = q.blocking_stage;
            terminal_stage = terminal;
            route_class = route;
            write_effect = effect;
            normalization = n;
            state_after = after;
            stage_results = map digest q.stage_results;
          }));
      replay_key = p.hash (
          replay_of (record {
            trace_id = e.trace_id;
            event_id = e.event_id;
            basis_hash = n.basis_hash;
            terminal_stage = terminal;
            route_class = route;
            write_effect = effect;
          }));
    }

unfoldable pub evaluate_worker_event_gate : Platform → Event → Option GateState → GateResult
unfolding build_worker_event_normalization play conclude
evaluate_worker_event_gate p e state =
    let n = build_worker_event_normalization p e in
    let before = ensure_valid_state state in
    conclude p e n before (play p e n stage_order (start before))

-- the state after a sequence of events
unfoldable pub run : Platform → List Event → Option GateState → Option GateState
unfolding evaluate_worker_event_gate
run p [] s = s
run p (e ∷ es) s = run p es (some (evaluate_worker_event_gate p e s).state_after)
