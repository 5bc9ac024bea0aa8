-- ===== src/WorkerState/LowCapGraph.antt =====
-- The edges of the low-cap hunter's machine, and how far a sequence of evaluations can take it.
use bobby_execute.Base.{
  ℕ, ◌+◌, ◌≤◌, ◌<◌, ◌≡◌, ◌≢◌, ◌⊎◌, inl, inr, refl, true, false, List, [], ◌∷◌, arith,
}
use bobby_execute.WorkerState.Types.{
  LowCapHunterStateStatus, observed, screened, candidate, promoted, watchlisted, rejected,
  ReasonClass, state_advanced, state_rejected, state_review_queue, RouteClass, no_model,
  eligible_small_adjudication, eligible_deep_adjudication, WriteEffect, watchlist_update,
  review_queue_insert, Evaluation, Verdict, applied, blocks, keeps, refuses, after,
}
use bobby_execute.WorkerState.LowCap.{next_by, low_cap_next_state, advance, judge, is_terminal, run}

infix 40 ◌⟶◌
pub data ◌⟶◌ : LowCapHunterStateStatus → LowCapHunterStateStatus → Type 0 where
  screens : observed ⟶ screened
  shortlists : screened ⟶ candidate
  leaps : screened ⟶ promoted
  promotes : candidate ⟶ promoted
  models : promoted ⟶ LowCapHunterStateStatus.modeled
  watches : LowCapHunterStateStatus.modeled ⟶ watchlisted
  queues : LowCapHunterStateStatus.modeled ⟶ LowCapHunterStateStatus.review_queue
  rejects : {s : LowCapHunterStateStatus} → is_terminal s ≡ false → s ⟶ rejected

abbrev reason_for : LowCapHunterStateStatus → ReasonClass
reason_for LowCapHunterStateStatus.review_queue = state_review_queue
reason_for rejected = state_rejected
reason_for _ = state_advanced

ruleset edges = (screens, shortlists, leaps, promotes, models, watches, queues)

next_by-⟶ :
    (s : LowCapHunterStateStatus) (r : RouteClass) (w : WriteEffect)
    → (next_by s r w ≡ s) ⊎ (s ⟶ next_by s r w)
unfolding next_by
next_by-⟶ observed r w = inr screens
next_by-⟶ screened no_model w = inl refl
next_by-⟶ screened eligible_small_adjudication w = inr shortlists
next_by-⟶ screened eligible_deep_adjudication w = inr leaps
next_by-⟶ candidate no_model w = inl refl
next_by-⟶ candidate eligible_small_adjudication w = inl refl
next_by-⟶ candidate eligible_deep_adjudication w = inr promotes
next_by-⟶ promoted no_model w = inl refl
next_by-⟶ promoted _ w = inr models
next_by-⟶ LowCapHunterStateStatus.modeled r watchlist_update = inr watches
next_by-⟶ LowCapHunterStateStatus.modeled r review_queue_insert = inr queues
next_by-⟶ LowCapHunterStateStatus.modeled r _ = inl refl
next_by-⟶ s r w = inl refl

advance-applied :
    (s t u : LowCapHunterStateStatus) (r : ReasonClass)
    → advance s t ≡ applied u r
    → (t ≢ s) × (u ≡ t) × (r ≡ reason_for t)
unfolding advance
advance-applied s t u r h = ground arith

judge_cases :
    (s t : LowCapHunterStateStatus) (e : Evaluation) (r : ReasonClass)
    → judge s e ≡ applied t r
    → (is_terminal s ≡ false)
      × (((t ≡ rejected) × (r ≡ state_rejected))
          ⊎ (advance s (low_cap_next_state s e) ≡ applied t r))
unfolding judge
judge_cases s t e r h = (ground arith, ground arith)

-- An evaluation that changes the state moves it along an edge, under the reason of its target.
pub low_cap_judge-⟶ :
    (s t : LowCapHunterStateStatus) (e : Evaluation) (r : ReasonClass)
    → judge s e ≡ applied t r
    → (s ⟶ t) × (r ≡ reason_for t)
unfolding low_cap_next_state
low_cap_judge-⟶ s t e r h = elim (judge_cases s t e r h).1 [
  | inl (p, q) ↦ (rw p (rejects (judge_cases s t e r h).0), rw (p, q))
  | inr a ↦
      let (differs, p, q) = advance-applied s (next_by s e.route_class e.write_effect) t r a in
      (
        elim (next_by-⟶ s e.route_class e.write_effect) [
          | inl same ↦ absurd (differs same)
          | inr edge ↦ rw p edge
        ],
        rw p q,
      )
]

-- How far along a state is.
abbrev pub rank : LowCapHunterStateStatus → ℕ
rank observed = 0
rank screened = 1
rank candidate = 2
rank promoted = 3
rank LowCapHunterStateStatus.modeled = 4
rank _ = 5

⟶-rank : {s t : LowCapHunterStateStatus} → s ⟶ t → rank s < rank t
⟶-rank screens = omega arith
⟶-rank shortlists = omega arith
⟶-rank leaps = omega arith
⟶-rank promotes = omega arith
⟶-rank models = omega arith
⟶-rank watches = omega arith
⟶-rank queues = omega arith
⟶-rank (rejects {s = s} h) = ground arith

abbrev changes : Verdict LowCapHunterStateStatus → ℕ
changes (applied t r) = 1
changes _ = 0

-- How many evaluations of a sequence change the state.
pub change_count : LowCapHunterStateStatus → List Evaluation → ℕ
change_count s [] = 0
change_count s (e ∷ es) = changes (judge s e) + change_count (after s (judge s e)) es

judge-rank :
    (s : LowCapHunterStateStatus) (e : Evaluation) (v : Verdict LowCapHunterStateStatus)
    → judge s e ≡ v
    → rank s + changes v ≤ rank (after s v)
judge-rank s e (applied t r) h = omega (arith, ⟶-rank (low_cap_judge-⟶ s t e r h).0)
judge-rank s e blocks h = omega arith
judge-rank s e keeps h = omega arith
judge-rank s e refuses h = omega arith

run-rank :
    (s : LowCapHunterStateStatus) (es : List Evaluation)
    → rank s + change_count s es ≤ rank (run s es)
unfolding run change_count
run-rank s [] = omega arith
run-rank s (e ∷ es) =
    omega (arith, judge-rank s e (judge s e) refl, run-rank (after s (judge s e)) es)

rank-le : (s : LowCapHunterStateStatus) → rank s ≤ 5
rank-le observed = omega arith
rank-le _ = omega arith

judge-terminal :
    (s : LowCapHunterStateStatus) (e : Evaluation) → is_terminal s ≡ true → after s (judge s e) ≡ s
unfolding judge
judge-terminal s e h = ground arith

-- No sequence of evaluations moves a candidate that is watchlisted, rejected or in the review queue.
pub low_cap_run-terminal :
    (s : LowCapHunterStateStatus) (es : List Evaluation) → is_terminal s ≡ true → run s es ≡ s
unfolding run
low_cap_run-terminal s [] h = refl
low_cap_run-terminal s (e ∷ es) h = rw (judge-terminal s e h) (low_cap_run-terminal s es h)

-- Any sequence of evaluations changes the low-cap machine at most five times less the rank of the
-- state that it starts in.
pub low_cap_changes-le :
    (s : LowCapHunterStateStatus) (es : List Evaluation) → rank s + change_count s es ≤ 5
low_cap_changes-le s es = omega (arith, run-rank s es, rank-le (run s es))
