-- ===== src/EventGate/Invariant.antt =====
-- What the stages keep of the gate's state, an evaluation keeps.
use bobby_execute.Base.{Option, List, [], ◌∷◌, sym, Bool-cases, inl, inr}
use mathlib.Core.Path.{subst}
use bobby_execute.WorkerState.Types.{
  GateStageName, validity, integrity, convergence_relevance, dedupe_stage, cooldown_stage,
  batch_debounce, model_promotion, post_model_routing,
}
use bobby_execute.EventGate.Types.{Event, GateState, DedupeRecord, CooldownRecord}
use bobby_execute.EventGate.Results.{StageResult, EventNormalization}
use bobby_execute.EventGate.Keys.{Platform, build_worker_event_normalization}
use bobby_execute.EventGate.Stages.{
  find, dedupe_outcome, evaluate_dedupe, cooldown_outcome, evaluate_cooldown,
}
use bobby_execute.EventGate.Routing.{holds, batch_outcome, evaluate_batch_debounce}
use bobby_execute.EventGate.Gate.{
  stage_order, ensure_valid_state, Progress, start, take_result, touched, enter, step, play,
  conclude, evaluate_worker_event_gate,
}
use bobby_execute.EventGate.Verdict.{if-true, if-false}

-- a property of states that the steps of this event's evaluation keep
pub record Kept (I : GateState → Type 0) (p : Platform) (e : Event) (n : EventNormalization)
    : Type 0 where
  pub by_dedupe :
      (s : GateState) (found : Option DedupeRecord)
      → I s
      → I (dedupe_outcome e n s found).next_state
  pub by_cooldown :
      (s : GateState) (found : Option CooldownRecord)
      → I s
      → I (cooldown_outcome e n s found).next_state
  pub by_batch :
      (s : GateState)
      → I s
      → I (batch_outcome p e n s (find (holds e n) s.batch_records)).next_state
  pub by_touch : (s : GateState) → I s → I (touched e s)

module _ {I : GateState → Type 0} {p : Platform} {e : Event} {n : EventNormalization}
    (kept : Kept I p e n) where
  take_result-kept :
      (stage : GateStageName) (r : StageResult) (q : Progress)
      → I q.state_after
      → I (take_result stage r q).state_after
  take_result-kept stage r q i = elim (Bool-cases r.blocked) [ inl b ↦ rw b i | inr b ↦ rw b i ]

  enter-kept :
      (stage : GateStageName) (q : Progress) → I q.state_after → I (enter p e n stage q).state_after
  unfolding enter evaluate_dedupe evaluate_cooldown evaluate_batch_debounce
  enter-kept validity q i = take_result-kept _ _ q i
  enter-kept integrity q i = take_result-kept _ _ q i
  enter-kept convergence_relevance q i = take_result-kept _ _ q i
  enter-kept dedupe_stage q i = take_result-kept _ _ _ (kept.by_dedupe q.state_after _ i)
  enter-kept cooldown_stage q i = take_result-kept _ _ _ (kept.by_cooldown q.state_after _ i)
  enter-kept batch_debounce q i = take_result-kept _ _ _ (kept.by_batch q.state_after i)
  enter-kept model_promotion q i = i
  enter-kept post_model_routing q i = kept.by_touch q.state_after i

  step-kept :
      (stage : GateStageName) (q : Progress) → I q.state_after → I (step p e n stage q).state_after
  unfolding step
  step-kept stage q i = elim (Bool-cases q.blocked) [
    | inl b ↦ subst (λ (r : Progress). I r.state_after) (sym (if-true _ _ b)) i
    | inr b ↦
        subst (λ (r : Progress). I r.state_after) (sym (if-false _ _ b)) (enter-kept stage q i)
  ]

  pub play-kept :
      (stages : List GateStageName) (q : Progress)
      → I q.state_after
      → I (play p e n stages q).state_after
  unfolding play
  play-kept [] q i = i
  play-kept (stage ∷ stages) q i = play-kept stages (step p e n stage q) (step-kept stage q i)

  pub conclude-kept :
      (before : GateState) (q : Progress)
      → I q.state_after
      → I (conclude p e n before q).state_after
  unfolding conclude
  conclude-kept before q i = elim (Bool-cases q.blocked) [
    | inl b ↦ subst I (sym (if-true _ _ b)) (kept.by_touch q.state_after i)
    | inr b ↦ subst I (sym (if-false _ _ b)) i
  ]

-- An evaluation keeps it, from the state that the evaluation starts with.
pub evaluate-kept :
    {I : GateState → Type 0} {p : Platform} {e : Event}
    → Kept I p e (build_worker_event_normalization p e)
    → (state : Option GateState) → I (ensure_valid_state state)
    → I (evaluate_worker_event_gate p e state).state_after
unfolding evaluate_worker_event_gate
evaluate-kept {p = p} {e = e} kept state i =
    let before = ensure_valid_state state in
    let last = play p e (build_worker_event_normalization p e) stage_order (start before) in
    conclude-kept kept before last (play-kept kept stage_order (start before) i)
