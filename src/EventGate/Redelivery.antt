-- ===== src/EventGate/Redelivery.antt =====
-- An event that comes again: the gate's records of what it has seen.
use bobby_execute.Base.{
  ◌≡◌, refl, sym, ap, ◌∙◌, true, false, Option, some, List, [], ◌∷◌, any, ◌===◌, if◌then◌else◌,
  Bool-cases, inl, inr, arith,
}
use mathlib.Core.Path.{subst}
use bobby_execute.WorkerState.Types.{
  GateStageName, validity, integrity, convergence_relevance, dedupe_stage, cooldown_stage,
  batch_debounce, model_promotion, post_model_routing,
}
use bobby_execute.EventGate.Types.{Event, GateState, state_schema_version}
use bobby_execute.EventGate.Results.{StageResult, EventNormalization}
use bobby_execute.EventGate.Keys.{Platform, event_basis, build_worker_event_normalization}
use bobby_execute.EventGate.Stages.{
  dedupe_record, evaluate_validity, evaluate_integrity, evaluate_convergence_relevance,
  blocks_dedupe, evaluate_dedupe,
}
use bobby_execute.EventGate.Gate.{
  stage_order, ensure_valid_state, Progress, start, take_result, skip, enter, step, play, conclude,
  evaluate_worker_event_gate, run,
}
use bobby_execute.EventGate.Invariant.{play-kept, conclude-kept}
use bobby_execute.EventGate.Verdict.{
  find-cases, if-true, if-false, fails, settle_early, evaluate-find,
}
use bobby_execute.EventGate.Seen.{Seen, any_record-append, Seen-Kept, ensure-version, run-Seen}
use bobby_execute.EventGate.Content.{
  event_from, early, fails_early, fails_early-basis, same_content, blocks_dedupe-basis, own_record,
}

module _ (p : Platform) (e : Event) (n : EventNormalization) where
  dedupe-found :
      (s : GateState)
      → any (blocks_dedupe e n) (evaluate_dedupe e n s).next_state.dedupe_records ≡ true
  unfolding evaluate_dedupe
  dedupe-found s = elim (find-cases (blocks_dedupe e n) s.dedupe_records) [
    | inl (f, a) ↦ rw f (
        any_record-append (blocks_dedupe e n) s.dedupe_records (dedupe_record e n)
        ∙ rw (a, own_record e n) refl)
    | inr (r, f, a) ↦ rw f a
  ]

  dedupe-version :
      (s : GateState) → (evaluate_dedupe e n s).next_state.schema_version ≡ s.schema_version
  unfolding evaluate_dedupe
  dedupe-version s = elim (find-cases (blocks_dedupe e n) s.dedupe_records) [
    | inl (f, a) ↦ rw f refl
    | inr (r, f, a) ↦ rw f refl
  ]

  take_result-state :
      (stage : GateStageName) (r : StageResult) (q : Progress)
      → (take_result stage r q).state_after ≡ q.state_after
  take_result-state stage r q = elim (Bool-cases r.blocked) [
    | inl b ↦ rw b refl
    | inr b ↦ rw b refl
  ]

  skipping-state :
      (stage : GateStageName) (q q' : Progress)
      → q'.state_after ≡ q.state_after
      → (if q.blocked then skip e stage q else q').state_after ≡ q.state_after
  skipping-state stage q q' h = elim (Bool-cases q.blocked) [
    | inl b ↦ ap (λ r. r.state_after) (if-true (skip e stage q) q' b)
    | inr b ↦ ap (λ r. r.state_after) (if-false (skip e stage q) q' b) ∙ h
  ]

  validity-state : (q : Progress) → (step p e n validity q).state_after ≡ q.state_after
  unfolding step enter
  validity-state q =
      skipping-state validity q _ (take_result-state validity (evaluate_validity e n) q)

  integrity-state : (q : Progress) → (step p e n integrity q).state_after ≡ q.state_after
  unfolding step enter
  integrity-state q =
      skipping-state integrity q _ (take_result-state integrity (evaluate_integrity e n) q)

  convergence-state :
      (q : Progress) → (step p e n convergence_relevance q).state_after ≡ q.state_after
  unfolding step enter
  convergence-state q =
      skipping-state convergence_relevance q _
        (take_result-state convergence_relevance (evaluate_convergence_relevance e n) q)

  early-state : (q : Progress) → (play p e n early q).state_after ≡ q.state_after
  unfolding play
  early-state q =
      let a = step p e n validity q in
      let b = step p e n integrity a in convergence-state b ∙ integrity-state a ∙ validity-state q

  -- After an evaluation of the event that no early stage blocks, its record is there.
  dedupe-Seen :
      (q : Progress)
      → q.blocked ≡ false
      → (q.state_after.schema_version === state_schema_version) ≡ true
      → Seen (blocks_dedupe e n) (step p e n dedupe_stage q).state_after
  unfolding step enter
  dedupe-Seen q idle v =
      let o = evaluate_dedupe e n q.state_after in
      let before : Progress = record q { state_after = o.next_state } in
      subst (λ (r : Progress). Seen (blocks_dedupe e n) r.state_after) (sym (if-false _ _ idle))
        (subst (Seen (blocks_dedupe e n)) (sym (take_result-state dedupe_stage o.result before))
          (record {
            version = rw (dedupe-version q.state_after) v;
            found = dedupe-found q.state_after;
          }))

  fails-fails_early : (s : GateState) → any (fails p e n s) early ≡ fails_early e
  fails-fails_early s = refl

  evaluated-Seen :
      (state : Option GateState)
      → fails_early e ≡ false
      → Seen
          (blocks_dedupe e n)
          (conclude p e n
            (ensure_valid_state state)
            (play p e n stage_order (start (ensure_valid_state state)))).state_after
  unfolding play
  evaluated-Seen state h =
      let s = ensure_valid_state state in
      let q = play p e n early (start s) in
      let kept = Seen-Kept (blocks_dedupe e n) p e n in
      let v =
        ap (λ (t : GateState). t.schema_version === state_schema_version) (early-state (start s))
        ∙ ensure-version state in
      let later = cooldown_stage ∷ batch_debounce ∷ model_promotion ∷ post_model_routing ∷ [] in
      conclude-kept kept s (play p e n stage_order (start s)) (
        play-kept kept later (step p e n dedupe_stage q)
          (dedupe-Seen q ((settle_early p e n s).blocked ∙ fails-fails_early s ∙ h) v))

fails-early :
    (p : Platform) (e : Event) (n : EventNormalization) (s : GateState)
    → fails_early e ≡ true
    → any (fails p e n s) stage_order ≡ true
fails-early p e n s h = ground (arith, h)

fails-seen :
    (p : Platform) (e : Event) (n : EventNormalization) (s : GateState)
    → any (blocks_dedupe e n) s.dedupe_records ≡ true
    → any (fails p e n s) stage_order ≡ true
fails-seen p e n s h = ground (arith, h)

-- An event whose content, its entity's names normalised and its evidence sorted, is that of an event that the
-- gate has evaluated is blocked, whatever its id, trace and producer, whatever events the gate evaluates in between,
-- and whatever state the first evaluation starts with.
pub evaluate-redelivered :
    (p : Platform) (e e' : Event) (es : List Event) (state : Option GateState)
    → event_basis p e ≡ event_basis p e'
    → let later = run p es (some (evaluate_worker_event_gate p e state).state_after) in
      (evaluate_worker_event_gate p e' later).blocked ≡ true
unfolding evaluate_worker_event_gate
evaluate-redelivered p e e' es state h =
    let n = build_worker_event_normalization p e in
    let n' = build_worker_event_normalization p e' in
    let later = run p es (some (evaluate_worker_event_gate p e state).state_after) in
    let same_early = ap (λ b. fails_early (event_from b)) h in
    let same_test =
      blocks_dedupe-basis p e ∙ ap (same_content p) h ∙ sym (blocks_dedupe-basis p e') in
    (evaluate-find p e' later).0 ∙ elim (Bool-cases (fails_early e)) [
      | inl b ↦
          fails-early p e' n' (ensure_valid_state later)
            (fails_early-basis p e' ∙ sym same_early ∙ sym (fails_early-basis p e) ∙ b)
      | inr b ↦ fails-seen p e' n' (ensure_valid_state later) (
          ap (λ test. any test (ensure_valid_state later).dedupe_records) (sym same_test)
          ∙ (run-Seen (blocks_dedupe e n) p es _ (evaluated-Seen p e n state b)).found)
    ]
