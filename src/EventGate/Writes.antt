-- ===== src/EventGate/Writes.antt =====
-- What the gate lets be written, by the route of an event.
use bobby_execute.Base.{◌≡◌, refl, Bool, true, false, if◌then◌else◌}
use bobby_execute.WorkerState.Types.{
  RouteClass, no_model, eligible_small_adjudication, eligible_deep_adjudication, WriteEffect,
  watchlist_update, case_update, review_queue_insert, derived_refresh_trigger, no_write,
}
use bobby_execute.EventGate.Types.{Event}
use bobby_execute.EventGate.Keys.{is_lowcap}
use bobby_execute.EventGate.Checks.{select_write_effect}

-- what an event's route leads to be written, none where there is no model
abbrev pub expected_write : Event → RouteClass → WriteEffect
expected_write e no_model = no_write
expected_write e eligible_small_adjudication =
    if is_lowcap e then watchlist_update else derived_refresh_trigger
expected_write e eligible_deep_adjudication =
    if is_lowcap e then review_queue_insert else case_update

select_write_effect-expected :
    (e : Event) (route : RouteClass) → select_write_effect e route ≡ expected_write e route
unfolding select_write_effect
select_write_effect-expected e no_model = refl
select_write_effect-expected e eligible_small_adjudication = refl
select_write_effect-expected e eligible_deep_adjudication = refl

pub blocked_write :
    (e : Event) (b : Bool) (route : RouteClass)
    → select_write_effect e (if b then no_model else route)
      ≡ (if b then no_write else expected_write e route)
blocked_write e true route = select_write_effect-expected e no_model
blocked_write e false route = select_write_effect-expected e route
