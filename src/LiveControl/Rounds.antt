-- ===== src/LiveControl/Rounds.antt =====
-- The live-test round of live-control.ts: preflight, start, stop, complete and reset.
use bobby_execute.Base.{String, true, false, not, none, some, [], ◌∷◌, if◌then◌else◌}
use bobby_execute.LiveControl.Types.{
  LiveTestRoundStatus, idle, preflighted, running, stopped, completed, failed, micro_live_killed,
  kill, Message, lit, round, say,
}
use bobby_execute.LiveControl.Config.{Env, is_live_test_mode_enabled}
use bobby_execute.LiveControl.State.{
  Host, persist_live_control_state, change, set_reason, mark_round_transition,
}
use bobby_execute.LiveControl.Snapshot.{Outcome, respond}
use bobby_execute.LiveControl.Operator.{refuse_round_transition}

abbrev note : String → LiveTestRoundStatus → String → Message
note before s after = lit before ∷ round s ∷ lit after ∷ []

-- by the round's status, in a live-test mode
unfoldable pub preflight_in : LiveTestRoundStatus → String → Env → Host → Host × Outcome
preflight_in running actor env h =
    refuse_round_transition preflighted actor
      (say "Preflight denied while live-test round is already running.") env h
preflight_in preflighted actor env h =
    respond env true (say "Live-test round already preflighted.") h
preflight_in _ actor env h = respond env true (say "Live-test round preflighted.") (
    mark_round_transition preflighted actor env.now_ms (some (say "Live-test round preflighted."))
      h)

unfoldable pub preflight_live_test_round : String → Env → Host → Host × Outcome
preflight_live_test_round actor env h =
    if not (is_live_test_mode_enabled env)
    then respond env true (say "Live-test mode is disabled; preflight is a no-op.") h
    else preflight_in h.control.round_status actor env h

abbrev run_round : String → Env → Host → Host × Outcome
run_round actor env h =
    respond env true (say "Live-test round started.")
      (mark_round_transition running actor env.now_ms (some (say "Live-test round started.")) h)

-- An idle round is preflighted first, and then started.
unfoldable pub start_in : LiveTestRoundStatus → String → Env → Host → Host × Outcome
start_in idle actor env h = run_round actor env (
    mark_round_transition preflighted actor env.now_ms
      (some (say "Live-test round auto-preflighted for startup.")) h)
start_in running actor env h = respond env true (say "Live-test round already running.") h
start_in preflighted actor env h = run_round actor env h
start_in s actor env h =
    refuse_round_transition running actor
      (note "Start denied while live-test round is " s ". Reset is required first.") env h

unfoldable pub start_live_test_round : String → Env → Host → Host × Outcome
start_live_test_round actor env h =
    if not (is_live_test_mode_enabled env)
    then respond env true (say "Live-test mode is disabled; start is a no-op.") h
    else start_in h.control.round_status actor env h

abbrev stop_round : String → String → Env → Host → Host × Outcome
stop_round reason actor env h = respond env true (say "Live-test round stopped.") (
    set_reason micro_live_killed (some (say reason)) env.now_ms (
      change
        (λ s. record s {
          armed = false;
          last_operator_action = some kill;
          last_operator_action_at = some env.now_ms;
        })
        (mark_round_transition stopped actor env.now_ms (some (say reason)) h)))

unfoldable pub stop_in : LiveTestRoundStatus → String → String → Env → Host → Host × Outcome
stop_in stopped reason actor env h = respond env true (say "Live-test round already stopped.") h
stop_in completed reason actor env h =
    refuse_round_transition stopped actor
      (note "Stop denied while live-test round is " completed ". Reset is required first.") env h
stop_in failed reason actor env h =
    refuse_round_transition stopped actor
      (note "Stop denied while live-test round is " failed ". Reset is required first.") env h
stop_in _ reason actor env h = stop_round reason actor env h

unfoldable pub stop_live_test_round : String → String → Env → Host → Host × Outcome
stop_live_test_round reason actor env h =
    if not (is_live_test_mode_enabled env)
    then respond env true (say "Live-test mode is disabled; stop is a no-op.") h
    else stop_in h.control.round_status reason actor env h

unfoldable pub complete_in : LiveTestRoundStatus → String → String → Env → Host → Host × Outcome
complete_in completed reason actor env h =
    respond env true (say "Live-test round already completed.") h
complete_in failed reason actor env h =
    refuse_round_transition completed actor
      (say "Completion denied while live-test round is failed. Reset is required first.") env h
complete_in _ reason actor env h =
    respond env true (say "Live-test round completed.")
      (mark_round_transition completed actor env.now_ms (some (say reason)) h)

unfoldable pub complete_live_test_round : String → String → Env → Host → Host × Outcome
complete_live_test_round reason actor env h =
    if not (is_live_test_mode_enabled env)
    then respond env true (say "Live-test mode is disabled; completion is a no-op.") h
    else complete_in h.control.round_status reason actor env h

unfoldable pub reset_in : LiveTestRoundStatus → String → Env → Host → Host × Outcome
reset_in running actor env h =
    refuse_round_transition preflighted actor (say "Reset denied while live-test round is running.")
      env h
reset_in preflighted actor env h = respond env true (say "Live-test round already safe to start.") h
reset_in idle actor env h = respond env true (say "Live-test round already safe to start.") h
reset_in _ actor env h = respond env true (say "Live-test round reset to preflighted.") (
    persist_live_control_state (
      change (λ s. record s { reason_code = none; reason_detail = none; last_reason_at = none })
        (mark_round_transition preflighted actor env.now_ms
          (some (lit "Live-test round reset by " ∷ lit actor ∷ lit "." ∷ [])) h)))

unfoldable pub reset_live_test_round : String → Env → Host → Host × Outcome
reset_live_test_round actor env h =
    if not (is_live_test_mode_enabled env)
    then respond env true (say "Live-test mode is disabled; reset is a no-op.") h
    else reset_in h.control.round_status actor env h
