-- ===== src/LiveControl/Killed.antt =====
-- The kill switch over the operations of live-control.ts, and the admission of intents behind it.
use bobby_execute.Base.{
  ℕ, String, ◌≡◌, Bool, true, false, Option, none, some, List, [], ◌∷◌, if◌then◌else◌, inl, inr,
  arith, Bool-cases,
}
use bobby_execute.KillSwitch.{Switch, is_kill_switch_halted, trigger_kill_switch}
use bobby_execute.LiveControl.Types.{
  LiveTestRoundStatus, running, stopped, completed, ExecutionMode, live, LiveControlReasonCode,
  RefusalStage, LiveExecutionAttempt, MicroLiveCaps, RolloutSnapshot, TradeIntent, Message,
}
use bobby_execute.LiveControl.Config.{Env, Try, returns, throws}
use bobby_execute.LiveControl.State.{
  Host, load_live_control_state, cleanup_counters, mark_round_transition,
}
use bobby_execute.LiveControl.Snapshot.{
  is_allowed, refuse_host, refuse, respond, get_micro_live_control_snapshot,
}
use bobby_execute.LiveControl.Operator.{
  arm_with_caps, arm_under, arm_micro_live, disarm_micro_live, kill_micro_live,
  reset_killed_micro_live, refuse_round_transition,
}
use bobby_execute.LiveControl.Rounds.{
  preflight_in, start_in, stop_in, complete_in, reset_in, preflight_live_test_round,
  start_live_test_round, stop_live_test_round, complete_live_test_round, reset_live_test_round,
}
use bobby_execute.LiveControl.Intents.{
  check_rates, check_intent, check_ready, check_config, evaluate_in, evaluate_micro_live_intent,
  finalize_with, finalize_micro_live_intent,
}
use bobby_execute.LiveControl.Calls.{
  Call, arms, disarms, kills, resets_kill, preflights, starts, resets, stops, completes, evaluates,
  finalizes, snapshots, loads, perform, perform_all,
}
use bobby_execute.LiveControl.Admission.{evaluate-Admissible}

-- The switch is halted, and no configuration view stands in front of it.
pub record Killed (w : Switch) : Type 0 where
  pub unbridged : w.bridge ≡ none
  pub halted : is_kill_switch_halted w ≡ true

pub trigger-Killed :
    (reason : Option String) (now : ℕ) (w : Switch)
    → w.bridge ≡ none
    → Killed (trigger_kill_switch reason now w)
unfolding trigger_kill_switch is_kill_switch_halted
trigger-Killed reason now w e = ground arith

abbrev Safe : Host → Type 0
Safe h = Killed h.kill_switch

cleanup-Safe :
    (now : ℕ) (caps : MicroLiveCaps) (h : Host) → Safe h → Safe (cleanup_counters now caps h)
unfolding cleanup_counters
cleanup-Safe now caps h k = ground arith

respond-Safe : (env : Env) (b : Bool) (m : Message) (h : Host) → Safe h → Safe (respond env b m h).0
unfolding respond
respond-Safe env b m h k = cleanup-Safe env.now_ms _ h k

if-Safe {ℓ} :
    {A : Type ℓ} (b : Bool) (x y : Host × A) → Safe x.0 → Safe y.0 → Safe (if b then x else y).0
if-Safe true x y p q = p
if-Safe false x y p q = q

if_host-Safe : (b : Bool) (x y : Host) → Safe x → Safe y → Safe (if b then x else y)
if_host-Safe true x y p q = p
if_host-Safe false x y p q = q

mark-Safe :
    (s : LiveTestRoundStatus) (actor : String) (now : ℕ) (detail : Option Message) (h : Host)
    → Safe h
    → Safe (mark_round_transition s actor now detail h)
unfolding mark_round_transition
mark-Safe s actor now detail h k = k

ruleset kept = (if-Safe, if_host-Safe, respond-Safe, mark-Safe, trigger-Killed)

refuse-Safe :
    (env : Env) (mode : ExecutionMode) (code : LiveControlReasonCode) (stage : RefusalStage)
    (detail : Message) (action : Bool) (h : Host)
    → Safe h
    → Safe (refuse env mode code stage detail action h).0
unfolding refuse refuse_host
refuse-Safe env mode code stage detail action h k = k

arm_with_caps-Safe :
    (actor : String) (env : Env) (caps : Try MicroLiveCaps) (h : Host)
    → Safe h
    → Safe (arm_with_caps actor env caps h).0
unfolding arm_with_caps
arm_with_caps-Safe actor env (throws e) h k = search kept
arm_with_caps-Safe actor env (returns caps) h k = search kept

refuse_round-Safe :
    (next : LiveTestRoundStatus) (actor : String) (detail : Message) (env : Env) (h : Host)
    → Safe h
    → Safe (refuse_round_transition next actor detail env h).0
unfolding refuse_round_transition
refuse_round-Safe next actor detail env h k = search kept

ruleset round_kept = (kept, refuse_round-Safe, arm_with_caps-Safe)

preflight-Safe :
    (s : LiveTestRoundStatus) (actor : String) (env : Env) (h : Host)
    → Safe h
    → Safe (preflight_in s actor env h).0
unfolding preflight_in
preflight-Safe running actor env h k = search round_kept
preflight-Safe _ actor env h k = search round_kept

start-Safe :
    (s : LiveTestRoundStatus) (actor : String) (env : Env) (h : Host)
    → Safe h
    → Safe (start_in s actor env h).0
unfolding start_in
start-Safe running actor env h k = search round_kept
start-Safe _ actor env h k = search round_kept

stop-Safe :
    (s : LiveTestRoundStatus) (reason actor : String) (env : Env) (h : Host)
    → Safe h
    → Safe (stop_in s reason actor env h).0
unfolding stop_in
stop-Safe stopped reason actor env h k = search round_kept
stop-Safe _ reason actor env h k = search round_kept

complete-Safe :
    (s : LiveTestRoundStatus) (reason actor : String) (env : Env) (h : Host)
    → Safe h
    → Safe (complete_in s reason actor env h).0
unfolding complete_in
complete-Safe completed reason actor env h k = search round_kept
complete-Safe _ reason actor env h k = search round_kept

reset-Safe :
    (s : LiveTestRoundStatus) (actor : String) (env : Env) (h : Host)
    → Safe h
    → Safe (reset_in s actor env h).0
unfolding reset_in
reset-Safe running actor env h k = search round_kept
reset-Safe _ actor env h k = search round_kept

ruleset refusal_kept = (if-Safe, refuse-Safe, cleanup-Safe)

check_intent-Safe :
    (intent : TradeIntent) (env : Env) (mode : ExecutionMode) (caps : MicroLiveCaps) (o : Option ℕ)
    (h : Host)
    → Safe h
    → Safe (check_intent intent env mode caps o h).0
unfolding check_intent check_rates
check_intent-Safe intent env mode caps none h k = search refusal_kept
check_intent-Safe intent env mode caps (some n) h k = search refusal_kept depth 10

check_config-Safe :
    (intent : TradeIntent) (env : Env) (mode : ExecutionMode) (rollout : RolloutSnapshot)
    (caps : Try MicroLiveCaps) (h : Host)
    → Safe h
    → Safe (check_config intent env mode rollout caps h).0
unfolding check_config check_ready
check_config-Safe intent env mode rollout (throws e) h k = search refusal_kept
check_config-Safe intent env mode rollout (returns caps) h k =
    search (refusal_kept, check_intent-Safe) depth 10

finalize-Safe :
    (caps : MicroLiveCaps) (a : LiveExecutionAttempt) (success : Bool) (code : Option String)
    (now : ℕ) (h : Host)
    → Safe h
    → Safe (finalize_with caps a success code now h)
unfolding finalize_with
finalize-Safe caps a true code now h k = cleanup-Safe now caps h k
finalize-Safe caps a false code now h k =
    let k' = cleanup-Safe now caps h k in if_host-Safe _ _ _ k' k'

kill-Safe :
    (reason : String) (env : Env) (h : Host)
    → h.kill_switch.bridge ≡ none
    → Safe (kill_micro_live reason env h).0
unfolding kill_micro_live mark_round_transition
kill-Safe reason env h b = search (respond-Safe, trigger-Killed, b)

perform-Safe : (env : Env) (c : Call) (h : Host) → Safe h → Safe (perform env c h)
unfolding perform arm_micro_live disarm_micro_live reset_killed_micro_live preflight_live_test_round
    start_live_test_round stop_live_test_round complete_live_test_round reset_live_test_round
    evaluate_micro_live_intent evaluate_in finalize_micro_live_intent
    get_micro_live_control_snapshot load_live_control_state arm_under
perform-Safe env (arms actor) h k = search round_kept depth 8
perform-Safe env (disarms actor) h k = search kept
perform-Safe env (kills reason) h k = kill-Safe reason env h k.unbridged
perform-Safe env (resets_kill actor) h k = search round_kept depth 8
perform-Safe env (preflights actor) h k = search (round_kept, preflight-Safe)
perform-Safe env (starts actor) h k = search (round_kept, start-Safe)
perform-Safe env (stops reason actor) h k = search (round_kept, stop-Safe)
perform-Safe env (completes reason actor) h k = search (round_kept, complete-Safe)
perform-Safe env (resets actor) h k = search (round_kept, reset-Safe)
perform-Safe env (evaluates intent) h k = search (refusal_kept, check_config-Safe) depth 8
perform-Safe env (finalizes a success code) h k = finalize-Safe _ a success code env.now_ms h k
perform-Safe env snapshots h k = cleanup-Safe env.now_ms _ h k
perform-Safe env loads h k = k

perform_all-Safe : (cs : List (Env × Call)) (h : Host) → Safe h → Safe (perform_all cs h)
unfolding perform_all
perform_all-Safe [] h k = k
perform_all-Safe ((env, c) ∷ cs) h k = perform_all-Safe cs _ (perform-Safe env c h k)

halted-refused :
    (intent : TradeIntent) (env : Env) (h : Host)
    → Safe h
    → intent.execution_mode ≡ live
    → is_allowed (evaluate_micro_live_intent intent env h).1 ≡ false
halted-refused intent env h k l =
    elim (Bool-cases (is_allowed (evaluate_micro_live_intent intent env h).1)) [
      | inl e ↦ absurd (contradiction e)
      | inr e ↦ e
    ]
  where
    contradiction : ¬ (is_allowed (evaluate_micro_live_intent intent env h).1 ≡ true)
    contradiction e =
        let (caps, n, a) = evaluate-Admissible intent env h l e in
        ground (arith, a.unhalted, k.halted)

-- In a process whose kill switch has no bridge, after the operator's kill no live intent is admitted,
-- whatever calls of the control follow, re-arming, resetting and a new round included, under any
-- configuration and clock: the kill switch itself has to be reset first.
pub kill-evaluate :
    (reason : String) (env : Env) (h : Host) (cs : List (Env × Call)) (intent : TradeIntent)
    (later : Env)
    → h.kill_switch.bridge ≡ none
    → intent.execution_mode ≡ live
    → is_allowed
        (evaluate_micro_live_intent intent later
          (perform_all cs (kill_micro_live reason env h).0)).1
      ≡ false
kill-evaluate reason env h cs intent later b l =
    halted-refused intent later _ (perform_all-Safe cs _ (kill-Safe reason env h b)) l
