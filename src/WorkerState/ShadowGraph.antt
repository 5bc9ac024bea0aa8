-- ===== src/WorkerState/ShadowGraph.antt =====
-- The edges of the shadow intelligence's machine, and how far evaluations can take it.
use bobby_execute.Base.{
  ℕ, ◌+◌, ◌≤◌, ◌<◌, ◌≡◌, ◌≢◌, ◌⊎◌, inl, inr, refl, Bool, true, false, if◌then◌else◌, List, [], ◌∷◌,
  arith,
}
use bobby_execute.WorkerState.Types.{
  ShadowIntelligenceStateStatus, updated_case, alert, ReasonClass, state_advanced,
  state_review_queue, state_alert, WriteEffect, case_update, review_queue_insert,
  derived_refresh_trigger, Evaluation, shadow_family, is_suppressed, Verdict, applied, blocks,
  keeps, refuses, after,
}
use bobby_execute.WorkerState.Shadow.{
  from_modeled, from_updated, switch_on, shadow_alert_signal, shadow_next_state, advance, judge,
  is_terminal, run,
}

abbrev Status : Type 0
Status = ShadowIntelligenceStateStatus

infix 40 ◌⟶◌
pub data ◌⟶◌ : Status → Status → Type 0 where
  settles : ShadowIntelligenceStateStatus.watching ⟶ ShadowIntelligenceStateStatus.stable
  notes : ShadowIntelligenceStateStatus.stable ⟶ ShadowIntelligenceStateStatus.notable_change
  detects :
      ShadowIntelligenceStateStatus.notable_change
      ⟶ ShadowIntelligenceStateStatus.transition_detected
  models : ShadowIntelligenceStateStatus.transition_detected ⟶ ShadowIntelligenceStateStatus.modeled
  updates : ShadowIntelligenceStateStatus.modeled ⟶ updated_case
  alerts : {s : Status} → is_terminal s ≡ false → s ⟶ alert
  queues : {s : Status} → is_terminal s ≡ false → s ⟶ ShadowIntelligenceStateStatus.review_queue

abbrev reason_for : Status → ReasonClass
reason_for ShadowIntelligenceStateStatus.review_queue = state_review_queue
reason_for alert = state_alert
reason_for _ = state_advanced

from_modeled-⟶ :
    (w : WriteEffect)
    → (from_modeled w ≡ ShadowIntelligenceStateStatus.modeled)
      ⊎ (ShadowIntelligenceStateStatus.modeled ⟶ from_modeled w)
unfolding from_modeled
from_modeled-⟶ case_update = inr updates
from_modeled-⟶ derived_refresh_trigger = inr (queues refl)
from_modeled-⟶ _ = inl refl

from_updated-⟶ :
    (w : WriteEffect) → (from_updated w ≡ updated_case) ⊎ (updated_case ⟶ from_updated w)
unfolding from_updated
from_updated-⟶ review_queue_insert = inr (queues refl)
from_updated-⟶ derived_refresh_trigger = inr (queues refl)
from_updated-⟶ _ = inl refl

branch-⟶ :
    (s t : Status) (b : Bool) → s ⟶ t → ((if b then t else s) ≡ s) ⊎ (s ⟶ (if b then t else s))
branch-⟶ s t true g = inr g
branch-⟶ s t false g = inl refl

switch_on-⟶ : (s : Status) (e : Evaluation) → (switch_on s e ≡ s) ⊎ (s ⟶ switch_on s e)
unfolding switch_on
switch_on-⟶ ShadowIntelligenceStateStatus.watching e = inr settles
switch_on-⟶ ShadowIntelligenceStateStatus.stable e = branch-⟶ _ _ _ notes
switch_on-⟶ ShadowIntelligenceStateStatus.notable_change e = branch-⟶ _ _ _ detects
switch_on-⟶ ShadowIntelligenceStateStatus.transition_detected e = branch-⟶ _ _ _ models
switch_on-⟶ ShadowIntelligenceStateStatus.modeled e = from_modeled-⟶ e.write_effect
switch_on-⟶ updated_case e = from_updated-⟶ e.write_effect
switch_on-⟶ s e = inl refl

advance-applied :
    (s t u : Status) (r : ReasonClass)
    → advance s t ≡ applied u r
    → (t ≢ s) × (u ≡ t) × (r ≡ reason_for t)
unfolding advance
advance-applied s t u r h = ground arith

judge_cases :
    (s t : Status) (e : Evaluation) (r : ReasonClass)
    → judge s e ≡ applied t r
    → (is_terminal s ≡ false)
      × (((t ≡ alert) × (r ≡ state_alert))
          ⊎ ((t ≡ ShadowIntelligenceStateStatus.review_queue) × (r ≡ state_review_queue))
          ⊎ (advance s (switch_on s e) ≡ applied t r))
unfolding judge shadow_next_state
judge_cases s t e r h = (ground arith, ground arith)

-- An evaluation that changes the state moves it along an edge, under the reason of its target.
pub shadow_judge-⟶ :
    (s t : Status) (e : Evaluation) (r : ReasonClass)
    → judge s e ≡ applied t r
    → (s ⟶ t) × (r ≡ reason_for t)
shadow_judge-⟶ s t e r h = elim (judge_cases s t e r h).1 [
  | inl (p, q) ↦ (rw p (alerts (judge_cases s t e r h).0), rw (p, q))
  | inr (inl (p, q)) ↦ (rw p (queues (judge_cases s t e r h).0), rw (p, q))
  | inr (inr a) ↦
      let (differs, p, q) = advance-applied s (switch_on s e) t r a in
      (elim (switch_on-⟶ s e) [ inl same ↦ absurd (differs same) | inr edge ↦ rw p edge ], rw p q)
]

-- the branch of `judge` that raises the alert
pub shadow_judge-alert :
    (s : Status) (e : Evaluation)
    → e.family ≡ shadow_family
    → is_suppressed e.suppression ≡ false
    → is_terminal s ≡ false
    → shadow_alert_signal e ≡ true
    → judge s e ≡ applied alert state_alert
unfolding judge
shadow_judge-alert s e f n t a = ground arith

-- How far along a state is.
abbrev pub rank : Status → ℕ
rank ShadowIntelligenceStateStatus.watching = 0
rank ShadowIntelligenceStateStatus.stable = 1
rank ShadowIntelligenceStateStatus.notable_change = 2
rank ShadowIntelligenceStateStatus.transition_detected = 3
rank ShadowIntelligenceStateStatus.modeled = 4
rank updated_case = 5
rank _ = 6

⟶-rank : {s t : Status} → s ⟶ t → rank s < rank t
⟶-rank settles = omega arith
⟶-rank notes = omega arith
⟶-rank detects = omega arith
⟶-rank models = omega arith
⟶-rank updates = omega arith
⟶-rank (alerts {s = s} h) = ground arith
⟶-rank (queues {s = s} h) = ground arith

abbrev changes : Verdict Status → ℕ
changes (applied t r) = 1
changes _ = 0

-- How many evaluations of a sequence change the state.
pub change_count : Status → List Evaluation → ℕ
change_count s [] = 0
change_count s (e ∷ es) = changes (judge s e) + change_count (after s (judge s e)) es

judge-rank :
    (s : Status) (e : Evaluation) (v : Verdict Status)
    → judge s e ≡ v
    → rank s + changes v ≤ rank (after s v)
judge-rank s e (applied t r) h = omega (arith, ⟶-rank (shadow_judge-⟶ s t e r h).0)
judge-rank s e blocks h = omega arith
judge-rank s e keeps h = omega arith
judge-rank s e refuses h = omega arith

run-rank : (s : Status) (es : List Evaluation) → rank s + change_count s es ≤ rank (run s es)
unfolding run change_count
run-rank s [] = omega arith
run-rank s (e ∷ es) =
    omega (arith, judge-rank s e (judge s e) refl, run-rank (after s (judge s e)) es)

rank-le : (s : Status) → rank s ≤ 6
rank-le ShadowIntelligenceStateStatus.watching = omega arith
rank-le _ = omega arith

judge-terminal : (s : Status) (e : Evaluation) → is_terminal s ≡ true → after s (judge s e) ≡ s
unfolding judge
judge-terminal s e h = ground arith

-- No sequence of evaluations moves a case that is under alert or in the review queue.
pub shadow_run-terminal : (s : Status) (es : List Evaluation) → is_terminal s ≡ true → run s es ≡ s
unfolding run
shadow_run-terminal s [] h = refl
shadow_run-terminal s (e ∷ es) h = rw (judge-terminal s e h) (shadow_run-terminal s es h)

-- Any sequence of evaluations changes the shadow machine at most six times less the rank of the
-- state that it starts in.
pub shadow_changes-le : (s : Status) (es : List Evaluation) → rank s + change_count s es ≤ 6
shadow_changes-le s es = omega (arith, run-rank s es, rank-le (run s es))
