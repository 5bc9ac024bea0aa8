-- ===== src/EventGate/Verdict.antt =====
-- What the loop over the gate's stages decides, from the stages' conditions on the state that the
-- event meets.
use bobby_execute.Base.{
  ◌≡◌, refl, ap, ◌∙◌, Bool, true, false, not, Option, none, some, List, [], ◌∷◌, ◌++◌, any, ltb,
  if◌then◌else◌, ◌otherwise◌, Bool-cases, inl, inr, ◌⊎◌,
}
use bobby_execute.WorkerState.Types.{
  GateStageName, validity, integrity, convergence_relevance, dedupe_stage, cooldown_stage,
  batch_debounce, model_promotion, post_model_routing, RouteClass, no_model, no_write,
  eligible_small_adjudication, eligible_deep_adjudication,
}
use bobby_execute.EventGate.Types.{Event, BatchRecord, GateState}
use bobby_execute.EventGate.Results.{
  StageResult, validity_pass, integrity_pass, convergence_pass, EventNormalization,
}
use bobby_execute.EventGate.Keys.{Platform, build_worker_event_normalization}
use bobby_execute.EventGate.Checks.{
  is_valid, family_specific_integrity_check, convergence_assessment, select_route_class,
  select_write_effect,
}
use bobby_execute.EventGate.StageResults.{create_pass_result}
use bobby_execute.EventGate.Stages.{
  find, blocks_dedupe, blocks_cooldown, evaluate_validity, evaluate_integrity,
  evaluate_convergence_relevance, evaluate_dedupe, evaluate_cooldown, dedupe_passed,
  cooldown_passed,
}
use bobby_execute.EventGate.Routing.{
  batch_passed, batch_joined, promotion_of, holds, is_batchable, evaluate_batch_debounce,
  evaluate_model_promotion,
}
use bobby_execute.EventGate.Writes.{expected_write, blocked_write}
use bobby_execute.EventGate.Gate.{
  Progress, take_outcome, skip, enter, step, play, conclude, stage_order, ensure_valid_state,
  evaluate_worker_event_gate,
}

-- `find` by cases, with what `some` answers
pub find-cases {ℓ} :
    {A : Type ℓ} (p : A → Bool) (xs : List A)
    → (find p xs ≡ none × any p xs ≡ false) ⊎ ((x : A) × find p xs ≡ some x × any p xs ≡ true)
unfolding find
find-cases p [] = inl (refl, refl)
find-cases p (x ∷ xs) = elim (Bool-cases (p x)) [
  | inl e ↦ inr (x, rw e refl, rw e refl)
  | inr e ↦ rw e (find-cases p xs)
]

-- the route that the evaluation takes from the loop
abbrev route_in : Progress → RouteClass
route_in q = if q.blocked then no_model else q.route_class

pub if-true : {A : Type 0} {b : Bool} (x y : A) → b ≡ true → (if b then x else y) ≡ x
if-true x y h = rw h refl

pub if-false : {A : Type 0} {b : Bool} (x y : A) → b ≡ false → (if b then x else y) ≡ y
if-false x y h = rw h refl

promotion_of-route :
    (e : Event) (route : RouteClass) → (promotion_of e route).route_class otherwise no_model ≡ route
promotion_of-route e no_model = refl
promotion_of-route e eligible_small_adjudication = refl
promotion_of-route e eligible_deep_adjudication = refl

promotion-route :
    (e : Event) → (evaluate_model_promotion e).route_class otherwise no_model ≡ select_route_class e
unfolding evaluate_model_promotion
promotion-route e = promotion_of-route e (select_route_class e)

-- a batch holds the event back until its release, and opens for a batchable event where there is none
abbrev pub is_held : Event → Option BatchRecord → Bool
is_held e none = is_batchable e
is_held e (some r) = ltb e.observed_at r.release_at

module _ (p : Platform) (e : Event) (n : EventNormalization) where
  -- whether a stage blocks the event in this state
  abbrev pub fails : GateState → GateStageName → Bool
  fails s validity = not (is_valid e)
  fails s integrity = not (family_specific_integrity_check e)
  fails s convergence_relevance = not (convergence_assessment e).relevant
  fails s dedupe_stage = any (blocks_dedupe e n) s.dedupe_records
  fails s cooldown_stage = any (blocks_cooldown e n) s.cooldown_records
  fails s batch_debounce = is_held e (find (holds e n) s.batch_records)
  fails s _ = false

  -- the loop's variables while nothing has blocked the event
  abbrev ready : GateState → List StageResult → Progress
  ready s rs = record {
    state_after = s;
    stage_results = rs;
    blocked = false;
    blocking_stage = none;
    suppression = none;
    route_class = no_model;
  }

  -- the loop over these stages, with the route that it chooses where none of them fails
  pub record Settled (chosen : RouteClass) (s : GateState) (stages : List GateStageName)
      (q : Progress) : Type 0 where
    pub blocking : q.blocking_stage ≡ find (fails s) stages
    pub blocked : q.blocked ≡ any (fails s) stages
    pub route : route_in q ≡ (if any (fails s) stages then no_model else chosen)

  -- A stage, entered before anything has blocked the event, with the stages behind it.
  data Advance (stage : GateStageName) (stages : List GateStageName) (s : GateState)
      (rs : List StageResult) : Type 0 where
    stops :
        fails s stage ≡ true
        → (enter p e n stage (ready s rs)).blocked ≡ true
        → (enter p e n stage (ready s rs)).blocking_stage ≡ some stage
        → Advance stage stages s rs
    passes :
        fails s stage ≡ false
        → (s' : GateState) (rs' : List StageResult) → enter p e n stage (ready s rs) ≡ ready s' rs'
        → find (fails s') stages ≡ find (fails s) stages
        → any (fails s') stages ≡ any (fails s) stages
        → Advance stage stages s rs

  step-blocked :
      (stage : GateStageName) (q : Progress)
      → q.blocked ≡ true
      → (step p e n stage q).blocking_stage ≡ q.blocking_stage
        × (step p e n stage q).blocked ≡ true
        × (step p e n stage q).suppression ≡ q.suppression
  unfolding step enter
  step-blocked stage q h =
      let skips = if-true (skip e stage q) (enter p e n stage q) h in
      (
        ap (λ r. r.blocking_stage) skips,
        ap (λ r. r.blocked) skips ∙ h,
        ap (λ r. r.suppression) skips,
      )

  pub play-blocked :
      (stages : List GateStageName) (q : Progress)
      → q.blocked ≡ true
      → (play p e n stages q).blocking_stage ≡ q.blocking_stage
        × (play p e n stages q).blocked ≡ true
        × (play p e n stages q).suppression ≡ q.suppression
  unfolding play
  play-blocked [] q h = (refl, h, refl)
  play-blocked (stage ∷ stages) q h =
      let now = step-blocked stage q h in
      let rest = play-blocked stages (step p e n stage q) now.1 in
      (rest.0 ∙ now.0, rest.1, rest.2 ∙ now.2)

  settle-advance :
      {chosen : RouteClass} (stage : GateStageName) (stages : List GateStageName) (s : GateState)
      (rs : List StageResult)
      → Advance stage stages s rs
      → ((s' : GateState) (rs' : List StageResult)
          → Settled chosen s' stages (play p e n stages (ready s' rs')))
      → Settled chosen s (stage ∷ stages) (play p e n (stage ∷ stages) (ready s rs))
  unfolding play find
  settle-advance stage stages s rs (stops f b k) rest =
      let after = play-blocked stages (enter p e n stage (ready s rs)) b in
      record { blocking = rw f (after.0 ∙ k); blocked = rw f after.1; route = rw (f, after.1) refl }
  settle-advance {chosen = chosen} stage stages s rs (passes f s' rs' q g h) rest =
      let after = rest s' rs' in
      record {
        blocking = rw f (ap (λ r. (play p e n stages r).blocking_stage) q ∙ after.blocking ∙ g);
        blocked = rw f (ap (λ r. (play p e n stages r).blocked) q ∙ after.blocked ∙ h);
        route = rw f (
            ap (λ r. route_in (play p e n stages r)) q
            ∙ after.route
            ∙ ap (λ b. if b then no_model else chosen) h);
      }

  pub evaluate_dedupe-none :
      (s : GateState)
      → find (blocks_dedupe e n) s.dedupe_records ≡ none
      → evaluate_dedupe e n s ≡ dedupe_passed e n s
  unfolding evaluate_dedupe
  evaluate_dedupe-none s f = rw (f, evaluate_dedupe) refl

  evaluate_cooldown-none :
      (s : GateState)
      → find (blocks_cooldown e n) s.cooldown_records ≡ none
      → evaluate_cooldown e n s ≡ cooldown_passed e n s
  unfolding evaluate_cooldown
  evaluate_cooldown-none s f = rw (f, evaluate_cooldown) refl

  Advance-dedupe :
      (s : GateState) (rs : List StageResult)
      → Advance dedupe_stage
          (cooldown_stage ∷ batch_debounce ∷ model_promotion ∷ post_model_routing ∷ [])
          s
          rs
  unfolding enter evaluate_dedupe find
  Advance-dedupe s rs = elim (find-cases (blocks_dedupe e n) s.dedupe_records) [
    | inl (f, a) ↦
        let o = dedupe_passed e n s in
        passes a o.next_state (rs ++ o.result ∷ [])
          (ap (λ o. take_outcome dedupe_stage o (ready s rs)) (evaluate_dedupe-none s f)) refl refl
    | inr (r, f, a) ↦ stops a (rw f refl) (rw f refl)
  ]

  Advance-cooldown :
      (s : GateState) (rs : List StageResult)
      → Advance cooldown_stage (batch_debounce ∷ model_promotion ∷ post_model_routing ∷ []) s rs
  unfolding enter evaluate_cooldown find
  Advance-cooldown s rs = elim (find-cases (blocks_cooldown e n) s.cooldown_records) [
    | inl (f, a) ↦
        let o = cooldown_passed e n s in
        passes a o.next_state (rs ++ o.result ∷ [])
          (ap (λ o. take_outcome cooldown_stage o (ready s rs)) (evaluate_cooldown-none s f)) refl
          refl
    | inr (r, f, a) ↦ stops a (rw f refl) (rw f refl)
  ]

  Advance-validity :
      (stages : List GateStageName) (s : GateState) (rs : List StageResult)
      → Advance validity stages s rs
  unfolding enter evaluate_validity
  Advance-validity stages s rs = elim (Bool-cases (is_valid e)) [
    | inl a ↦
        passes (rw a refl) s (rs ++ create_pass_result validity validity_pass e.observed_at ∷ [])
          (rw a refl) refl refl
    | inr a ↦ stops (rw a refl) (rw a refl) (rw a refl)
  ]

  Advance-integrity :
      (stages : List GateStageName) (s : GateState) (rs : List StageResult)
      → Advance integrity stages s rs
  unfolding enter evaluate_integrity
  Advance-integrity stages s rs = elim (Bool-cases (family_specific_integrity_check e)) [
    | inl a ↦
        passes (rw a refl) s (rs ++ create_pass_result integrity integrity_pass e.observed_at ∷ [])
          (rw a refl) refl refl
    | inr a ↦ stops (rw a refl) (rw a refl) (rw a refl)
  ]

  Advance-convergence :
      (stages : List GateStageName) (s : GateState) (rs : List StageResult)
      → Advance convergence_relevance stages s rs
  unfolding enter evaluate_convergence_relevance
  Advance-convergence stages s rs = elim (Bool-cases (convergence_assessment e).relevant) [
    | inl a ↦
        passes (rw a refl) s
          (rs ++ create_pass_result convergence_relevance convergence_pass e.observed_at ∷ [])
          (rw a refl) refl refl
    | inr a ↦ stops (rw a refl) (rw a refl) (rw a refl)
  ]

  Advance-batch :
      (s : GateState) (rs : List StageResult)
      → Advance batch_debounce (model_promotion ∷ post_model_routing ∷ []) s rs
  unfolding enter evaluate_batch_debounce find
  Advance-batch s rs = elim (find-cases (holds e n) s.batch_records) [
    | inl (f, a) ↦ elim (Bool-cases (is_batchable e)) [
      | inl b ↦ stops (rw (f, b) refl) (rw (f, b) refl) (rw (f, b) refl)
      | inr b ↦ passes (rw (f, b) refl) s (rs ++ batch_passed e n ∷ []) (rw (f, b) refl) refl refl
    ]
    | inr (r, f, a) ↦ elim (Bool-cases (ltb e.observed_at r.release_at)) [
      | inl b ↦ stops (rw (f, b) refl) (rw (f, b) refl) (rw (f, b) refl)
      | inr b ↦
          let o = batch_joined p e n s r in
          passes (rw (f, b) refl) o.next_state
            (rs ++ record (batch_passed e n) { release_at = some r.release_at } ∷ [])
            (rw (f, b) refl) refl refl
    ]
  ]

  settle_routing :
      (s : GateState) (rs : List StageResult)
      → Settled
          (select_route_class e)
          s
          (model_promotion ∷ post_model_routing ∷ [])
          (play p e n (model_promotion ∷ post_model_routing ∷ []) (ready s rs))
  unfolding play find
  settle_routing s rs = record { blocking = refl; blocked = refl; route = promotion-route e }

  -- The stages that read the event alone.
  pub settle_early :
      (s : GateState)
      → Settled no_model s
          (validity ∷ integrity ∷ convergence_relevance ∷ [])
          (play p e n (validity ∷ integrity ∷ convergence_relevance ∷ []) (ready s []))
  unfolding play find
  settle_early s = settle-advance _ _ s [] (Advance-validity _ s []) (λ s rs.
      settle-advance _ _ s rs (Advance-integrity _ s rs) (λ s rs.
        settle-advance _ _ s rs (Advance-convergence _ s rs)
          (λ s rs. record { blocking = refl; blocked = refl; route = refl })))

  -- The loop, from the state that the event meets.
  pub settle :
      (s : GateState)
      → Settled (select_route_class e) s stage_order (play p e n stage_order (ready s []))
  settle s = settle-advance _ _ s [] (Advance-validity _ s []) (λ s rs.
      settle-advance _ _ s rs (Advance-integrity _ s rs) (λ s rs.
        settle-advance _ _ s rs (Advance-convergence _ s rs) (λ s rs.
          settle-advance _ _ s rs (Advance-dedupe s rs) (λ s rs.
            settle-advance _ _ s rs (Advance-cooldown s rs)
              (λ s rs. settle-advance _ _ s rs (Advance-batch s rs) settle_routing)))))

-- The gate blocks an event exactly where one of the stages fails on the state that the event meets,
-- and at the first of them in the order of the stages, whatever the stages before it recorded. A
-- blocked event gets no model and no write. Any other gets the route that is selected from the event,
-- and the write that belongs to it: for an event of the low-cap family the watchlist for a small
-- adjudication and the review queue for a deep one, for another a refresh and a case, and none
-- without a model.
pub evaluate-find :
    (p : Platform) (e : Event) (state : Option GateState)
    → let r = evaluate_worker_event_gate p e state in
      let stage_fails =
        fails p e (build_worker_event_normalization p e) (ensure_valid_state state) in
      let fails_one = any stage_fails stage_order in
      r.blocked ≡ fails_one
      × r.blocking_stage ≡ find stage_fails stage_order
      × r.routing.route_class ≡ (if fails_one then no_model else select_route_class e)
      × r.write_effect.effect
        ≡ (if fails_one then no_write else expected_write e (select_route_class e))
unfolding evaluate_worker_event_gate conclude
evaluate-find p e state =
    let t = settle p e (build_worker_event_normalization p e) (ensure_valid_state state) in
    (
      t.blocked,
      t.blocking,
      t.route,
      ap (select_write_effect e) t.route ∙ blocked_write e _ (select_route_class e),
    )
