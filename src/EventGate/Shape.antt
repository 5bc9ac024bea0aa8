-- ===== src/EventGate/Shape.antt =====
-- The results of the gate's stages, one for each stage: their types and their order.
use bobby_execute.Base.{
  ◌≡◌, refl, sym, ap, ◌∙◌, true, false, ◌||◌, Option, none, some, List, [], ◌∷◌, ◌++◌, map, any,
  every, ltb, ◌otherwise◌, Bool-cases, inl, inr, arith,
}
use mathlib.Core.Path.{subst}
use mathlib.Core.List.{append-nil, append_assoc}
use bobby_execute.WorkerState.Types.{
  GateStageName, validity, integrity, convergence_relevance, dedupe_stage, cooldown_stage,
  batch_debounce, model_promotion, post_model_routing, RouteClass, no_model,
  eligible_small_adjudication, eligible_deep_adjudication,
}
use bobby_execute.EventGate.Types.{Event, DedupeRecord, CooldownRecord, BatchRecord, GateState}
use bobby_execute.EventGate.Results.{StageResult, EventNormalization}
use bobby_execute.EventGate.Keys.{Platform, build_worker_event_normalization}
use bobby_execute.EventGate.Checks.{
  is_valid, family_specific_integrity_check, convergence_assessment, select_route_class,
}
use bobby_execute.EventGate.StageResults.{create_skipped_result}
use bobby_execute.EventGate.Stages.{
  Outcome, dedupe_outcome, cooldown_outcome, find, blocks_dedupe, blocks_cooldown,
  evaluate_validity, evaluate_integrity, evaluate_convergence_relevance, evaluate_dedupe,
  evaluate_cooldown,
}
use bobby_execute.EventGate.Routing.{
  batch_outcome, holds, is_batchable, evaluate_batch_debounce, evaluate_model_promotion,
  promotion_of, evaluate_post_model_routing,
}
use bobby_execute.EventGate.Gate.{
  Progress, take_result, take_outcome, start, skip, enter, step, play, conclude, stage_order,
  ensure_valid_state, evaluate_worker_event_gate,
}
use bobby_execute.EventGate.Verdict.{if-true, if-false}
use bobby_execute.EventGate.Order.{
  is_typed, is_skipped, in_order, map_stage-append, any-append, every-append, in_order-run,
  in_order-skip,
}

-- the results, after these stages
record Shaped (done : List GateStageName) (q : Progress) : Type 0 where
  pub stages : map (λ r. r.stage) q.stage_results ≡ done
  pub typed : every is_typed q.stage_results ≡ true
  pub ordered : in_order q.stage_results ≡ true
  pub blocks : any (λ r. r.blocked) q.stage_results ≡ q.blocked

record Own (stage : GateStageName) (r : StageResult) : Type 0 where
  pub own_stage : r.stage ≡ stage
  pub own_typed : is_typed r ≡ true
  pub own_run : is_skipped r ≡ false

abbrev plain :
    {stage : GateStageName} {r : StageResult}
    → r.stage ≡ stage
    → is_typed r ≡ true
    → is_skipped r ≡ false
    → Own stage r
plain a b c = record { own_stage = a; own_typed = b; own_run = c }

module _ (p : Platform) (e : Event) (n : EventNormalization) where
  validity-Own : Own validity (evaluate_validity e n)
  unfolding evaluate_validity
  validity-Own = elim (Bool-cases (is_valid e)) [
    | inl h ↦ plain (rw h refl) (rw h refl) (rw h refl)
    | inr h ↦ plain (rw h refl) (rw h refl) (rw h refl)
  ]

  integrity-Own : Own integrity (evaluate_integrity e n)
  unfolding evaluate_integrity
  integrity-Own = elim (Bool-cases (family_specific_integrity_check e)) [
    | inl h ↦ plain (rw h refl) (rw h refl) (rw h refl)
    | inr h ↦ plain (rw h refl) (rw h refl) (rw h refl)
  ]

  convergence-Own : Own convergence_relevance (evaluate_convergence_relevance e n)
  unfolding evaluate_convergence_relevance
  convergence-Own = elim (Bool-cases (convergence_assessment e).relevant) [
    | inl h ↦ plain (rw h refl) (rw h refl) (rw h refl)
    | inr h ↦ plain (rw h refl) (rw h refl) (rw h refl)
  ]

  dedupe_outcome-Own :
      (s : GateState) (found : Option DedupeRecord)
      → Own dedupe_stage (dedupe_outcome e n s found).result
  dedupe_outcome-Own s none = plain refl refl refl
  dedupe_outcome-Own s (some r) = plain refl refl refl

  cooldown_outcome-Own :
      (s : GateState) (found : Option CooldownRecord)
      → Own cooldown_stage (cooldown_outcome e n s found).result
  cooldown_outcome-Own s none = plain refl refl refl
  cooldown_outcome-Own s (some r) = plain refl refl refl

  batch_outcome-Own :
      (s : GateState) (found : Option BatchRecord)
      → Own batch_debounce (batch_outcome p e n s found).result
  batch_outcome-Own s none = elim (Bool-cases (is_batchable e)) [
    | inl b ↦ plain (rw b refl) (rw b refl) (rw b refl)
    | inr b ↦ plain (rw b refl) (rw b refl) (rw b refl)
  ]
  batch_outcome-Own s (some r) = elim (Bool-cases (ltb e.observed_at r.release_at)) [
    | inl b ↦ plain (rw b refl) (rw b refl) (rw b refl)
    | inr b ↦ plain (rw b refl) (rw b refl) (rw b refl)
  ]

  promotion_of-Own : (route : RouteClass) → Own model_promotion (promotion_of e route)
  promotion_of-Own no_model = plain refl refl refl
  promotion_of-Own eligible_small_adjudication = plain refl refl refl
  promotion_of-Own eligible_deep_adjudication = plain refl refl refl

  promotion-Own : Own model_promotion (evaluate_model_promotion e)
  unfolding evaluate_model_promotion
  promotion-Own = promotion_of-Own (select_route_class e)

  promotion_of-blocked : (route : RouteClass) → (promotion_of e route).blocked ≡ false
  promotion_of-blocked no_model = refl
  promotion_of-blocked eligible_small_adjudication = refl
  promotion_of-blocked eligible_deep_adjudication = refl

  promotion-blocked : (evaluate_model_promotion e).blocked ≡ false
  unfolding evaluate_model_promotion
  promotion-blocked = promotion_of-blocked (select_route_class e)

  -- what a stage that is entered does to the loop's variables
  record Entered (stage : GateStageName) (q q' : Progress) : Type 0 where
    pub pushed : StageResult
    pub own : Own stage pushed
    pub results : q'.stage_results ≡ q.stage_results ++ pushed ∷ []
    pub block : q'.blocked ≡ pushed.blocked

  take_result-Entered :
      (stage : GateStageName) (r : StageResult) (q : Progress)
      → q.blocked ≡ false
      → Own stage r
      → Entered stage q (take_result stage r q)
  take_result-Entered stage r q idle own = elim (Bool-cases r.blocked) [
    | inl b ↦ record { pushed = r; own = own; results = rw b refl; block = rw b refl }
    | inr b ↦ record { pushed = r; own = own; results = rw b refl; block = rw b idle }
  ]

  take_outcome-Entered :
      (stage : GateStageName) (o : Outcome) (q : Progress)
      → q.blocked ≡ false
      → Own stage o.result
      → Entered stage q (take_outcome stage o q)
  take_outcome-Entered stage o q idle own =
      let t =
        take_result-Entered stage o.result (record q { state_after = o.next_state }) idle own in
      record { pushed = t.pushed; own = t.own; results = t.results; block = t.block }

  enter-Entered :
      (stage : GateStageName) (q : Progress)
      → q.blocked ≡ false
      → Entered stage q (enter p e n stage q)
  unfolding enter evaluate_dedupe evaluate_cooldown evaluate_batch_debounce
      evaluate_post_model_routing
  enter-Entered validity q idle = take_result-Entered _ _ q idle validity-Own
  enter-Entered integrity q idle = take_result-Entered _ _ q idle integrity-Own
  enter-Entered convergence_relevance q idle = take_result-Entered _ _ q idle convergence-Own
  enter-Entered dedupe_stage q idle =
      let found = find (blocks_dedupe e n) q.state_after.dedupe_records in
      take_outcome-Entered _ (dedupe_outcome e n q.state_after found) q idle
        (dedupe_outcome-Own q.state_after found)
  enter-Entered cooldown_stage q idle =
      let found = find (blocks_cooldown e n) q.state_after.cooldown_records in
      take_outcome-Entered _ (cooldown_outcome e n q.state_after found) q idle
        (cooldown_outcome-Own q.state_after found)
  enter-Entered batch_debounce q idle =
      let found = find (holds e n) q.state_after.batch_records in
      take_outcome-Entered _ (batch_outcome p e n q.state_after found) q idle
        (batch_outcome-Own q.state_after found)
  enter-Entered model_promotion q idle = record {
    pushed = evaluate_model_promotion e;
    own = promotion-Own;
    results = refl;
    block = idle ∙ sym promotion-blocked;
  }
  enter-Entered post_model_routing q idle = record {
    pushed = evaluate_post_model_routing e q.route_class;
    own = plain refl refl refl;
    results = refl;
    block = idle;
  }

  enter-Shaped :
      (done : List GateStageName) (stage : GateStageName) (q : Progress)
      → q.blocked ≡ false
      → Shaped done q
      → Shaped (done ++ stage ∷ []) (enter p e n stage q)
  enter-Shaped done stage q idle t =
      let x = enter-Entered stage q idle in
      record {
        stages =
            rw (x.results, map_stage-append q.stage_results x.pushed, t.stages, x.own.own_stage)
              refl;
        typed =
            rw (x.results, every-append is_typed q.stage_results x.pushed)
              (ground (arith, t.typed, x.own.own_typed));
        ordered =
            rw x.results
              (in_order-run q.stage_results x.pushed t.ordered (t.blocks ∙ idle) x.own.own_run);
        blocks =
            ap (any (λ r. r.blocked)) x.results
            ∙ any-append (λ r. r.blocked) q.stage_results x.pushed
            ∙ ap (λ b. b || x.pushed.blocked) (t.blocks ∙ idle)
            ∙ sym x.block;
      }

  skip-Shaped :
      (done : List GateStageName) (stage : GateStageName) (q : Progress)
      → q.blocked ≡ true
      → Shaped done q
      → Shaped (done ++ stage ∷ []) (skip e stage q)
  skip-Shaped done stage q b t =
      let rs = q.stage_results in
      let r = create_skipped_result stage (q.blocking_stage otherwise validity) e.observed_at in
      record {
        stages = rw (map_stage-append rs r, t.stages) refl;
        typed = rw (every-append is_typed rs r, t.typed) refl;
        ordered = in_order-skip rs r t.ordered (t.blocks ∙ b) refl;
        blocks = rw (any-append (λ r. r.blocked) rs r, t.blocks, b) refl;
      }

  step-Shaped :
      (done : List GateStageName) (stage : GateStageName) (q : Progress)
      → Shaped done q
      → Shaped (done ++ stage ∷ []) (step p e n stage q)
  unfolding step
  step-Shaped done stage q t = elim (Bool-cases q.blocked) [
    | inl b ↦
        subst (Shaped (done ++ stage ∷ [])) (sym (if-true _ _ b)) (skip-Shaped done stage q b t)
    | inr b ↦
        subst (Shaped (done ++ stage ∷ [])) (sym (if-false _ _ b)) (enter-Shaped done stage q b t)
  ]

  play-Shaped :
      (done stages : List GateStageName) (q : Progress)
      → Shaped done q
      → Shaped (done ++ stages) (play p e n stages q)
  unfolding play
  play-Shaped done [] q t = subst (λ d. Shaped d q) (sym (append-nil done)) t
  play-Shaped done (stage ∷ stages) q t =
      subst (λ d. Shaped d (play p e n stages (step p e n stage q)))
        (append_assoc done (stage ∷ []) stages)
        (play-Shaped (done ++ stage ∷ []) stages (step p e n stage q) (step-Shaped done stage q t))

-- An evaluation ends with one result for each of the eight stages, in their order, and each has what
-- the type of its disposition declares. At most one of them is blocked, no result before it is skipped
-- and every result behind it is, and there is a blocked one exactly where the evaluation is blocked.
pub evaluate-stages :
    (p : Platform) (e : Event) (state : Option GateState)
    → let r = evaluate_worker_event_gate p e state in
      map (λ x. x.stage) r.stages ≡ stage_order
      × every is_typed r.stages ≡ true
      × in_order r.stages ≡ true
      × any (λ x. x.blocked) r.stages ≡ r.blocked
unfolding evaluate_worker_event_gate conclude
evaluate-stages p e state =
    let n = build_worker_event_normalization p e in
    let t =
      play-Shaped p e n [] stage_order (start (ensure_valid_state state))
        (record { stages = refl; typed = refl; ordered = refl; blocks = refl }) in
    (t.stages, t.typed, t.ordered, t.blocks)
