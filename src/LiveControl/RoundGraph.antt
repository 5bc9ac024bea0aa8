-- ===== src/LiveControl/RoundGraph.antt =====
-- The live-test round as a state machine: the edges that the operations follow.
use bobby_execute.Base.{
  ℕ, String, ◌≡◌, refl, Bool, true, false, not, ◌&&◌, Option, none, some, if◌then◌else◌, arith,
}
use bobby_execute.LiveControl.Types.{
  LiveTestRoundStatus, preflighted, ExecutionMode, LiveControlReasonCode, RefusalStage,
  MicroLiveCaps, RolloutSnapshot, TradeIntent, LiveExecutionAttempt, Message,
}
use bobby_execute.LiveControl.Config.{
  Env, Try, returns, throws, is_live_test_mode_enabled, read_caps, caps_or_default,
}
use bobby_execute.LiveControl.State.{
  Host, load_live_control_state, store, cleanup_counters, is_terminal_round_status,
}
use bobby_execute.LiveControl.Snapshot.{refuse_host, refuse, get_micro_live_control_snapshot}
use bobby_execute.LiveControl.Operator.{
  arm_with_caps, arm_under, arm_micro_live, disarm_micro_live, kill_micro_live,
  reset_killed_micro_live, is_idle, reset_round,
}
use bobby_execute.LiveControl.Rounds.{
  preflight_live_test_round, start_live_test_round, stop_live_test_round, complete_live_test_round,
  reset_live_test_round,
}
use bobby_execute.LiveControl.Intents.{
  check_rates, check_intent, check_ready, check_config, evaluate_in, evaluate_micro_live_intent,
  finalize_with, finalize_micro_live_intent,
}
use bobby_execute.LiveControl.Calls.{
  Call, arms, disarms, kills, resets_kill, preflights, starts, resets, stops, completes, evaluates,
  finalizes, snapshots, loads, perform,
}
use bobby_execute.LiveControl.RoundSteps.{
  stay, ready, halt, break, ◌⟶◌, status, cleanup-status, Goes, respond-Goes, mark-Goes, if-Goes,
  terminal_not_idle, unfinished_not-idle, finished_not_running, refuse_round-Goes, preflight-Goes,
  start-Goes, stop-Goes, complete-Goes, reset-Goes,
}

arm_with_caps-Goes :
    (actor : String) (env : Env) (caps : Try MicroLiveCaps) (h : Host)
    → Goes (status h) (arm_with_caps actor env caps h).0
unfolding arm_with_caps status
arm_with_caps-Goes actor env (throws e) h = search (respond-Goes, stay)
arm_with_caps-Goes actor env (returns caps) h = search (if-Goes, respond-Goes, stay)

arm_under-Goes :
    (actor : String) (env : Env) (r : RolloutSnapshot) (h : Host)
    → Goes (status h) (arm_under actor env r h).0
unfolding arm_under status
arm_under-Goes actor env r h = search (if-Goes, respond-Goes, stay, arm_with_caps-Goes)

arm-Goes : (actor : String) (env : Env) (h : Host) → Goes (status h) (arm_micro_live actor env h).0
unfolding arm_micro_live status
arm-Goes actor env h =
    let n = terminal_not_idle (is_live_test_mode_enabled env) (status h) in
    search (if-Goes, respond-Goes, mark-Goes, stay, break, n, arm_under-Goes) depth 8

if_host-Goes :
    (s : LiveTestRoundStatus) (b : Bool) (x y : Host)
    → (b ≡ true → Goes s x)
    → (b ≡ false → Goes s y)
    → Goes s (if b then x else y)
if_host-Goes s true x y p q = p refl
if_host-Goes s false x y p q = q refl

reset_round-Goes :
    (actor : String) (env : Env) (h : Host) (s : LiveTestRoundStatus)
    → s ≡ status h
    → (is_live_test_mode_enabled env && not (is_terminal_round_status s) && not (is_idle s)) ≡ false
    → Goes s (reset_round actor env h)
reset_round-Goes actor env h s p e =
    if_host-Goes _ _ _ h
      (λ t. mark-Goes _ preflighted actor _ _ h (ready (finished_not_running _ s t e)))
      (λ _. rw (← p) stay)

reset_kill-Goes :
    (actor : String) (env : Env) (h : Host)
    → Goes (status h) (reset_killed_micro_live actor env h).0
unfolding reset_killed_micro_live status
reset_kill-Goes actor env h =
    let n = unfinished_not-idle (is_live_test_mode_enabled env) (status h) in
    search (if-Goes, respond-Goes, refuse_round-Goes, n, reset_round-Goes) depth 8

disarm-Goes :
    (actor : String) (env : Env) (h : Host) → Goes (status h) (disarm_micro_live actor env h).0
unfolding disarm_micro_live status
disarm-Goes actor env h = search (respond-Goes, stay)

kill-Goes :
    (reason : String) (env : Env) (h : Host) → Goes (status h) (kill_micro_live reason env h).0
unfolding kill_micro_live status
kill-Goes reason env h = search (respond-Goes, mark-Goes, halt)

cleanup-Goes :
    (s : LiveTestRoundStatus) (now : ℕ) (caps : MicroLiveCaps) (h : Host)
    → Goes s h
    → Goes s (cleanup_counters now caps h)
cleanup-Goes s now caps h g = rw (cleanup-status now caps h) g

refuse-Goes :
    (s : LiveTestRoundStatus) (env : Env) (mode : ExecutionMode) (code : LiveControlReasonCode)
    (stage : RefusalStage) (detail : Message) (action : Bool) (h : Host)
    → Goes s h
    → Goes s (refuse env mode code stage detail action h).0
unfolding refuse refuse_host status
refuse-Goes s env mode code stage detail action h g = g

ruleset refusal_moves = (if-Goes, refuse-Goes, cleanup-Goes)

check_intent-Goes :
    (s : LiveTestRoundStatus) (intent : TradeIntent) (env : Env) (mode : ExecutionMode)
    (caps : MicroLiveCaps) (o : Option ℕ) (h : Host)
    → Goes s h
    → Goes s (check_intent intent env mode caps o h).0
unfolding check_intent check_rates status
check_intent-Goes s intent env mode caps none h g = search refusal_moves
check_intent-Goes s intent env mode caps (some n) h g = search refusal_moves depth 12

check_config-Goes :
    (s : LiveTestRoundStatus) (intent : TradeIntent) (env : Env) (mode : ExecutionMode)
    (rollout : RolloutSnapshot) (caps : Try MicroLiveCaps) (h : Host)
    → Goes s h
    → Goes s (check_config intent env mode rollout caps h).0
unfolding check_config check_ready status
check_config-Goes s intent env mode rollout (throws e) h g = search refusal_moves
check_config-Goes s intent env mode rollout (returns caps) h g =
    search (refusal_moves, check_intent-Goes) depth 12

evaluate-Goes :
    (intent : TradeIntent) (env : Env) (h : Host)
    → Goes (status h) (evaluate_micro_live_intent intent env h).0
unfolding evaluate_micro_live_intent evaluate_in status
evaluate-Goes intent env h = search (refusal_moves, check_config-Goes, stay) depth 12

finalize-Goes :
    (a : LiveExecutionAttempt) (success : Bool) (code : Option String) (env : Env) (h : Host)
    → Goes (status h) (finalize_micro_live_intent a success code env h)
unfolding finalize_micro_live_intent finalize_with status
finalize-Goes a true code env h = cleanup-Goes _ env.now_ms _ h stay
finalize-Goes a false code env h =
    let k = cleanup-Goes (status h) env.now_ms (caps_or_default (read_caps env)) h stay in
    if_host-Goes _ _ _ _ (λ _. k) (λ _. k)

-- Every call, accepted or refused, moves the live-test round along an edge of the diagram, where the
-- repository (if there is one) holds the state that a reload brings back: no call leads to a running
-- round but from an idle or a preflighted one, none preflights a running round, none completes a
-- failed one, and an idle round never fails.
pub perform-⟶ :
    (env : Env) (c : Call) (h : Host)
    → h.repository ≡ store h.control h.repository
    → h.control.round_status ⟶ (perform env c h).control.round_status
unfolding perform preflight_live_test_round start_live_test_round stop_live_test_round
    complete_live_test_round reset_live_test_round get_micro_live_control_snapshot
    load_live_control_state status
perform-⟶ env (arms actor) h d = arm-Goes actor env h
perform-⟶ env (disarms actor) h d = disarm-Goes actor env h
perform-⟶ env (kills reason) h d = kill-Goes reason env h
perform-⟶ env (resets_kill actor) h d = reset_kill-Goes actor env h
perform-⟶ env (preflights actor) h d =
    search (if-Goes, respond-Goes, stay, preflight-Goes (status h) actor env h refl)
perform-⟶ env (starts actor) h d =
    search (if-Goes, respond-Goes, stay, start-Goes (status h) actor env h refl)
perform-⟶ env (stops reason actor) h d =
    search (if-Goes, respond-Goes, stay, stop-Goes (status h) reason actor env h refl)
perform-⟶ env (completes reason actor) h d =
    search (if-Goes, respond-Goes, stay, complete-Goes (status h) reason actor env h refl)
perform-⟶ env (resets actor) h d =
    search (if-Goes, respond-Goes, stay, reset-Goes (status h) actor env h refl)
perform-⟶ env (evaluates intent) h d = evaluate-Goes intent env h
perform-⟶ env (finalizes a success code) h d = finalize-Goes a success code env h
perform-⟶ env snapshots h d = cleanup-Goes _ env.now_ms _ h stay
perform-⟶ env loads h d = ground (arith, stay {s = h.control.round_status})
