-- ===== src/LiveControl/Calls.antt =====
-- A call of any operation of the control, with the configuration and the clock that it meets.
use bobby_execute.Base.{String, Bool, Option, List, [], ◌∷◌}
use bobby_execute.LiveControl.Types.{TradeIntent, LiveExecutionAttempt}
use bobby_execute.LiveControl.Config.{Env}
use bobby_execute.LiveControl.State.{Host, load_live_control_state}
use bobby_execute.LiveControl.Snapshot.{get_micro_live_control_snapshot}
use bobby_execute.LiveControl.Operator.{
  arm_micro_live, disarm_micro_live, kill_micro_live, reset_killed_micro_live,
}
use bobby_execute.LiveControl.Rounds.{
  preflight_live_test_round, start_live_test_round, stop_live_test_round, complete_live_test_round,
  reset_live_test_round,
}
use bobby_execute.LiveControl.Intents.{evaluate_micro_live_intent, finalize_micro_live_intent}

pub data Call : Type 0 where
  arms disarms kills resets_kill preflights starts resets : String → Call
  stops completes : String → String → Call
  evaluates : TradeIntent → Call
  finalizes : LiveExecutionAttempt → Bool → Option String → Call
  snapshots loads : Call

-- the state that a call leaves
unfoldable pub perform : Env → Call → Host → Host
perform env (arms actor) h = (arm_micro_live actor env h).0
perform env (disarms actor) h = (disarm_micro_live actor env h).0
perform env (kills reason) h = (kill_micro_live reason env h).0
perform env (resets_kill actor) h = (reset_killed_micro_live actor env h).0
perform env (preflights actor) h = (preflight_live_test_round actor env h).0
perform env (starts actor) h = (start_live_test_round actor env h).0
perform env (stops reason actor) h = (stop_live_test_round reason actor env h).0
perform env (completes reason actor) h = (complete_live_test_round reason actor env h).0
perform env (resets actor) h = (reset_live_test_round actor env h).0
perform env (evaluates intent) h = (evaluate_micro_live_intent intent env h).0
perform env (finalizes attempt success code) h =
    finalize_micro_live_intent attempt success code env h
perform env snapshots h = (get_micro_live_control_snapshot env h).0
perform env loads h = load_live_control_state h

unfoldable pub perform_all : List (Env × Call) → Host → Host
perform_all [] h = h
perform_all ((env, c) ∷ cs) h = perform_all cs (perform env c h)
