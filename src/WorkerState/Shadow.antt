-- ===== src/WorkerState/Shadow.antt =====
-- The shadow intelligence's machine.
use bobby_execute.Base.{
  Bool, true, false, not, ◌||◌, Option, none, some, List, [], ◌∷◌, leb, if◌then◌else◌,
}
use bobby_execute.WorkerState.Types.{
  shadow_intelligence, ShadowIntelligenceStateStatus, updated_case, alert, shadow, EventFamily,
  shadow_family, Severity, critical, ShadowFeature, ShadowCurrentState, WriteEffect, case_update,
  review_queue_insert, derived_refresh_trigger, ReasonClass, state_advanced, state_review_queue,
  state_alert, Evaluation, TransitionResult, Hash, build_transition_basis, Verdict, applied, blocks,
  keeps, refuses, result_of, after, is_suppressed, is_early_stage, is_routed, is_write,
}

abbrev is_critical : Severity → Bool
is_critical critical = true
is_critical _ = false

-- a flag of the feature snapshot; an undefined one is falsy
abbrev flag : (ShadowFeature → Bool) → Option ShadowFeature → Bool
flag f none = false
flag f (some x) = f x

unfoldable pub shadow_alert_signal : Evaluation → Bool
shadow_alert_signal e =
    is_critical e.severity
    || flag (λ f. f.risk_spike) e.feature
    || flag (λ f. f.thesis_conflict) e.feature

unfoldable pub shadow_has_forward_signal : Evaluation → Bool
shadow_has_forward_signal e =
    is_routed e.route_class || is_write e.write_effect || shadow_alert_signal e

abbrev is_notable : ShadowCurrentState → Bool
is_notable ShadowCurrentState.notable_change = true
is_notable _ = false

abbrev is_detected : ShadowCurrentState → Bool
is_detected ShadowCurrentState.transition_detected = true
is_detected _ = false

-- the step from `stable`, from a confidence of one half
abbrev is_noted : Evaluation → Bool
is_noted e =
    flag (λ f. is_notable f.current_state) e.feature
    || flag (λ f. leb 500000000 f.transition_confidence) e.feature
    || is_routed e.route_class

-- the step from `notable_change`, from a confidence of seven tenths
abbrev is_confirmed : Evaluation → Bool
is_confirmed e =
    flag (λ f. is_detected f.current_state) e.feature
    || flag (λ f. leb 700000000 f.transition_confidence) e.feature
    || is_routed e.route_class

unfoldable pub from_modeled : WriteEffect → ShadowIntelligenceStateStatus
from_modeled case_update = updated_case
from_modeled derived_refresh_trigger = ShadowIntelligenceStateStatus.review_queue
from_modeled _ = ShadowIntelligenceStateStatus.modeled

unfoldable pub from_updated : WriteEffect → ShadowIntelligenceStateStatus
from_updated review_queue_insert = ShadowIntelligenceStateStatus.review_queue
from_updated derived_refresh_trigger = ShadowIntelligenceStateStatus.review_queue
from_updated _ = updated_case

-- the `switch` of `shadowNextState`
unfoldable pub switch_on :
    ShadowIntelligenceStateStatus → Evaluation → ShadowIntelligenceStateStatus
switch_on ShadowIntelligenceStateStatus.watching e = ShadowIntelligenceStateStatus.stable
switch_on ShadowIntelligenceStateStatus.stable e =
    if is_noted e
    then ShadowIntelligenceStateStatus.notable_change
    else ShadowIntelligenceStateStatus.stable
switch_on ShadowIntelligenceStateStatus.notable_change e =
    if is_confirmed e
    then ShadowIntelligenceStateStatus.transition_detected
    else ShadowIntelligenceStateStatus.notable_change
switch_on ShadowIntelligenceStateStatus.transition_detected e =
    if is_routed e.route_class
    then ShadowIntelligenceStateStatus.modeled
    else ShadowIntelligenceStateStatus.transition_detected
switch_on ShadowIntelligenceStateStatus.modeled e = from_modeled e.write_effect
switch_on updated_case e = from_updated e.write_effect
switch_on s e = s

unfoldable pub shadow_next_state :
    ShadowIntelligenceStateStatus → Evaluation → ShadowIntelligenceStateStatus
shadow_next_state s e = if shadow_alert_signal e then alert else switch_on s e

unfoldable pub Shadow-discrete : Discrete ShadowIntelligenceStateStatus
Shadow-discrete = hlevel

abbrev pub is_terminal : ShadowIntelligenceStateStatus → Bool
is_terminal ShadowIntelligenceStateStatus.review_queue = true
is_terminal alert = true
is_terminal _ = false

abbrev is_shadow_family : EventFamily → Bool
is_shadow_family shadow_family = true
is_shadow_family _ = false

abbrev reason_to : ShadowIntelligenceStateStatus → ReasonClass
reason_to ShadowIntelligenceStateStatus.review_queue = state_review_queue
reason_to alert = state_alert
reason_to _ = state_advanced

unfoldable pub advance :
    ShadowIntelligenceStateStatus
    → ShadowIntelligenceStateStatus
    → Verdict ShadowIntelligenceStateStatus
advance s t = elim (Shadow-discrete t s) [ yes _ ↦ keeps | no _ ↦ applied t (reason_to t) ]

unfoldable pub judge :
    ShadowIntelligenceStateStatus → Evaluation → Verdict ShadowIntelligenceStateStatus
judge s e =
    if not (is_shadow_family e.family)
    then refuses
    else if is_suppressed e.suppression
    then blocks
    else if is_terminal s
    then if shadow_has_forward_signal e then refuses else keeps
    else if shadow_alert_signal e
    then applied alert state_alert
    else if e.blocked
    then if is_early_stage e.blocking_stage
      then applied ShadowIntelligenceStateStatus.review_queue state_review_queue
      else if shadow_has_forward_signal e
      then refuses
      else keeps
    else advance s (shadow_next_state s e)

-- `transitionShadowIntelligenceState`
unfoldable pub transition_shadow_intelligence_state :
    Hash → ShadowIntelligenceStateStatus → Evaluation → TransitionResult
transition_shadow_intelligence_state hash s e =
    result_of hash shadow_intelligence shadow s (build_transition_basis e) (judge s e)

unfoldable pub run : ShadowIntelligenceStateStatus → List Evaluation → ShadowIntelligenceStateStatus
run s [] = s
run s (e ∷ es) = run (after s (judge s e)) es

unfoldable pub results :
    Hash → ShadowIntelligenceStateStatus → List Evaluation → List TransitionResult
results hash s [] = []
results hash s (e ∷ es) =
    transition_shadow_intelligence_state hash s e ∷ results hash (after s (judge s e)) es
