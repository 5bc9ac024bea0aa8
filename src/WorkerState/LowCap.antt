-- ===== src/WorkerState/LowCap.antt =====
-- The low-cap hunter's machine.
use bobby_execute.Base.{Bool, true, false, not, ◌||◌, List, [], ◌∷◌, if◌then◌else◌}
use bobby_execute.WorkerState.Types.{
  lowcap_hunter, LowCapHunterStateStatus, observed, screened, candidate, promoted, modeled,
  watchlisted, rejected, lowcap, EventFamily, lowcap_family, RouteClass, no_model,
  eligible_small_adjudication, eligible_deep_adjudication, WriteEffect, watchlist_update,
  review_queue_insert, ReasonClass, state_advanced, state_rejected, state_review_queue, Evaluation,
  TransitionResult, Hash, build_transition_basis, Verdict, applied, blocks, keeps, refuses,
  result_of, after, is_suppressed, is_early_stage, is_routed, is_write,
}

unfoldable pub low_cap_has_forward_signal : Evaluation → Bool
low_cap_has_forward_signal e = is_routed e.route_class || is_write e.write_effect

unfoldable pub next_by :
    LowCapHunterStateStatus → RouteClass → WriteEffect → LowCapHunterStateStatus
next_by observed r w = screened
next_by screened eligible_small_adjudication w = candidate
next_by screened eligible_deep_adjudication w = promoted
next_by screened no_model w = screened
next_by candidate eligible_deep_adjudication w = promoted
next_by candidate _ w = candidate
next_by promoted no_model w = promoted
next_by promoted _ w = modeled
next_by LowCapHunterStateStatus.modeled r watchlist_update = watchlisted
next_by LowCapHunterStateStatus.modeled r review_queue_insert = LowCapHunterStateStatus.review_queue
next_by LowCapHunterStateStatus.modeled r _ = LowCapHunterStateStatus.modeled
next_by s r w = s

unfoldable pub low_cap_next_state : LowCapHunterStateStatus → Evaluation → LowCapHunterStateStatus
low_cap_next_state s e = next_by s e.route_class e.write_effect

unfoldable pub LowCap-discrete : Discrete LowCapHunterStateStatus
LowCap-discrete = hlevel

abbrev pub is_terminal : LowCapHunterStateStatus → Bool
is_terminal watchlisted = true
is_terminal rejected = true
is_terminal LowCapHunterStateStatus.review_queue = true
is_terminal _ = false

abbrev is_lowcap_family : EventFamily → Bool
is_lowcap_family lowcap_family = true
is_lowcap_family _ = false

-- the reason of an applied step
abbrev reason_to : LowCapHunterStateStatus → ReasonClass
reason_to LowCapHunterStateStatus.review_queue = state_review_queue
reason_to rejected = state_rejected
reason_to _ = state_advanced

-- the end of the transition: the next state, if it differs
unfoldable pub advance :
    LowCapHunterStateStatus → LowCapHunterStateStatus → Verdict LowCapHunterStateStatus
advance s t = elim (LowCap-discrete t s) [ yes _ ↦ keeps | no _ ↦ applied t (reason_to t) ]

unfoldable pub judge : LowCapHunterStateStatus → Evaluation → Verdict LowCapHunterStateStatus
judge s e =
    if not (is_lowcap_family e.family)
    then refuses
    else if is_suppressed e.suppression
    then blocks
    else if is_terminal s
    then if low_cap_has_forward_signal e then refuses else keeps
    else if e.blocked
    then if is_early_stage e.blocking_stage
      then applied rejected state_rejected
      else if low_cap_has_forward_signal e
      then refuses
      else keeps
    else advance s (low_cap_next_state s e)

-- `transitionLowCapHunterState`
unfoldable pub transition_low_cap_hunter_state :
    Hash → LowCapHunterStateStatus → Evaluation → TransitionResult
transition_low_cap_hunter_state hash s e =
    result_of hash lowcap_hunter lowcap s (build_transition_basis e) (judge s e)

-- The machine over a sequence of evaluations: the state it ends in, and its results in order.
unfoldable pub run : LowCapHunterStateStatus → List Evaluation → LowCapHunterStateStatus
run s [] = s
run s (e ∷ es) = run (after s (judge s e)) es

unfoldable pub results : Hash → LowCapHunterStateStatus → List Evaluation → List TransitionResult
results hash s [] = []
results hash s (e ∷ es) =
    transition_low_cap_hunter_state hash s e ∷ results hash (after s (judge s e)) es
