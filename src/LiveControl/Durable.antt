-- ===== src/LiveControl/Durable.antt =====
-- What the repository of live-control.ts holds after an operation.
use bobby_execute.Base.{
  ℕ, String, ◌≡◌, refl, Bool, true, false, Option, none, some, List, [], ◌∷◌, Bool-cases, inl, inr,
  keep-eq_of_length, if◌then◌else◌, arith,
}
use bobby_execute.LiveControl.Types.{
  ControlState, LiveTestRoundStatus, MicroLiveCaps, ExecutionMode, LiveControlReasonCode,
  RefusalStage, Message, RolloutSnapshot, running, stopped, completed, TradeIntent,
}
use bobby_execute.LiveControl.Config.{Env, Try, returns, throws}
use bobby_execute.LiveControl.State.{
  Host, store, load_live_control_state, cleaned, counters_changed, cleanup_counters,
  mark_round_transition, within,
}
use bobby_execute.LiveControl.Snapshot.{
  refuse_host, refuse, respond, get_micro_live_control_snapshot,
}
use bobby_execute.LiveControl.Operator.{
  arm_with_caps, arm_under, arm_micro_live, disarm_micro_live, kill_micro_live,
  reset_killed_micro_live, refuse_round_transition,
}
use bobby_execute.LiveControl.Rounds.{
  preflight_in, start_in, stop_in, complete_in, reset_in, preflight_live_test_round,
  start_live_test_round, stop_live_test_round, complete_live_test_round, reset_live_test_round,
}
use bobby_execute.LiveControl.Intents.{
  check_rates, check_intent, check_ready, check_config, evaluate_in, evaluate_micro_live_intent,
  finalize_with, finalize_micro_live_intent,
}
use bobby_execute.LiveControl.Calls.{
  Call, arms, disarms, kills, resets_kill, preflights, starts, resets, stops, completes, evaluates,
  finalizes, snapshots, loads, perform, perform_all,
}

-- The repository, where there is one, holds the state in memory.
abbrev pub Durable : Host → Type 0
Durable h = h.repository ≡ store h.control h.repository

store-store :
    (s : ControlState) (r : Option (Option ControlState)) → store s r ≡ store s (store s r)
store-store s none = refl
store-store s (some _) = refl

pub cleaned_unchanged :
    (now : ℕ) (caps : MicroLiveCaps) (s : ControlState)
    → counters_changed now caps s ≡ false
    → cleaned now caps s ≡ s
unfolding counters_changed cleaned
cleaned_unchanged now caps s h = ground (
  arith,
  keep-eq_of_length (within now caps.window_ms) s.recent_trade_at_ms,
  keep-eq_of_length (within now caps.failure_window_ms) s.recent_failure_at_ms,
)

cleanup_counters-Durable :
    (now : ℕ) (caps : MicroLiveCaps) (h : Host) → Durable h → Durable (cleanup_counters now caps h)
unfolding cleanup_counters
cleanup_counters-Durable now caps h d = elim (Bool-cases (counters_changed now caps h.control)) [
  | inl e ↦ rw e (store-store _ h.repository)
  | inr e ↦ rw e (rw (cleaned_unchanged now caps h.control e) d)
]

snapshot-Durable :
    (env : Env) (h : Host) → Durable h → Durable (get_micro_live_control_snapshot env h).0
unfolding get_micro_live_control_snapshot
snapshot-Durable env h d = cleanup_counters-Durable env.now_ms _ h d

respond-Durable :
    (env : Env) (b : Bool) (m : Message) (h : Host) → Durable h → Durable (respond env b m h).0
unfolding respond
respond-Durable env b m h d = cleanup_counters-Durable env.now_ms _ h d

if-Durable {ℓ} :
    {A : Type ℓ} (b : Bool) (x y : Host × A)
    → Durable x.0
    → Durable y.0
    → Durable (if b then x else y).0
if-Durable true x y p q = p
if-Durable false x y p q = q

mark-Durable :
    (s : LiveTestRoundStatus) (actor : String) (now : ℕ) (detail : Option Message) (h : Host)
    → Durable (mark_round_transition s actor now detail h)
unfolding mark_round_transition
mark-Durable s actor now detail h = store-store _ h.repository

ruleset stored = (if-Durable, respond-Durable, store-store, mark-Durable)

arm_with_caps-Durable :
    (actor : String) (env : Env) (caps : Try MicroLiveCaps) (h : Host)
    → Durable h
    → Durable (arm_with_caps actor env caps h).0
unfolding arm_with_caps
arm_with_caps-Durable actor env (throws e) h d = search stored
arm_with_caps-Durable actor env (returns caps) h d = search stored

arm-Durable :
    (actor : String) (env : Env) (h : Host) → Durable h → Durable (arm_micro_live actor env h).0
unfolding arm_micro_live arm_under
arm-Durable actor env h d = search (stored, arm_with_caps-Durable) depth 8

disarm-Durable :
    (actor : String) (env : Env) (h : Host) → Durable h → Durable (disarm_micro_live actor env h).0
unfolding disarm_micro_live
disarm-Durable actor env h d = search stored

kill-Durable :
    (reason : String) (env : Env) (h : Host) → Durable h → Durable (kill_micro_live reason env h).0
unfolding kill_micro_live
kill-Durable reason env h d = search stored

refuse_round-Durable :
    (next : LiveTestRoundStatus) (actor : String) (detail : Message) (env : Env) (h : Host)
    → Durable (refuse_round_transition next actor detail env h).0
unfolding refuse_round_transition
refuse_round-Durable next actor detail env h = search stored

ruleset round_stored = (stored, refuse_round-Durable)

reset_kill-Durable :
    (actor : String) (env : Env) (h : Host)
    → Durable h
    → Durable (reset_killed_micro_live actor env h).0
unfolding reset_killed_micro_live
reset_kill-Durable actor env h d = search round_stored

preflight-Durable :
    (s : LiveTestRoundStatus) (actor : String) (env : Env) (h : Host)
    → Durable h
    → Durable (preflight_in s actor env h).0
unfolding preflight_in
preflight-Durable running actor env h d = search round_stored
preflight-Durable _ actor env h d = search round_stored

start-Durable :
    (s : LiveTestRoundStatus) (actor : String) (env : Env) (h : Host)
    → Durable h
    → Durable (start_in s actor env h).0
unfolding start_in
start-Durable running actor env h d = search round_stored
start-Durable _ actor env h d = search round_stored

stop-Durable :
    (s : LiveTestRoundStatus) (reason actor : String) (env : Env) (h : Host)
    → Durable h
    → Durable (stop_in s reason actor env h).0
unfolding stop_in
stop-Durable stopped reason actor env h d = search round_stored
stop-Durable _ reason actor env h d = search round_stored

complete-Durable :
    (s : LiveTestRoundStatus) (reason actor : String) (env : Env) (h : Host)
    → Durable h
    → Durable (complete_in s reason actor env h).0
unfolding complete_in
complete-Durable completed reason actor env h d = search round_stored
complete-Durable _ reason actor env h d = search round_stored

reset-Durable :
    (s : LiveTestRoundStatus) (actor : String) (env : Env) (h : Host)
    → Durable h
    → Durable (reset_in s actor env h).0
unfolding reset_in
reset-Durable running actor env h d = search round_stored
reset-Durable _ actor env h d = search round_stored

refuse-Durable :
    (env : Env) (mode : ExecutionMode) (code : LiveControlReasonCode) (stage : RefusalStage)
    (detail : Message) (action : Bool) (h : Host)
    → Durable (refuse env mode code stage detail action h).0
unfolding refuse refuse_host
refuse-Durable env mode code stage detail action h = store-store _ h.repository

ruleset refusal_stored = (if-Durable, store-store, refuse-Durable)

check_rates-Durable :
    (intent : TradeIntent) (env : Env) (mode : ExecutionMode) (caps : MicroLiveCaps) (n : ℕ)
    (h : Host)
    → Durable (check_rates intent env mode caps n h).0
unfolding check_rates
check_rates-Durable intent env mode caps n h = search refusal_stored depth 8

check_intent-Durable :
    (intent : TradeIntent) (env : Env) (mode : ExecutionMode) (caps : MicroLiveCaps) (o : Option ℕ)
    (h : Host)
    → Durable (check_intent intent env mode caps o h).0
unfolding check_intent
check_intent-Durable intent env mode caps none h = search refusal_stored
check_intent-Durable intent env mode caps (some n) h =
    search (refusal_stored, check_rates-Durable) depth 8

check_config-Durable :
    (intent : TradeIntent) (env : Env) (mode : ExecutionMode) (rollout : RolloutSnapshot)
    (caps : Try MicroLiveCaps) (h : Host)
    → Durable (check_config intent env mode rollout caps h).0
unfolding check_config check_ready
check_config-Durable intent env mode rollout (throws e) h = search refusal_stored
check_config-Durable intent env mode rollout (returns caps) h =
    search (refusal_stored, check_intent-Durable) depth 8

evaluate-Durable :
    (intent : TradeIntent) (env : Env) (h : Host)
    → Durable h
    → Durable (evaluate_micro_live_intent intent env h).0
unfolding evaluate_micro_live_intent evaluate_in
evaluate-Durable intent env h d = search (refusal_stored, check_config-Durable) depth 8

load-Durable : (h : Host) → Durable h → Durable (load_live_control_state h)
unfolding load_live_control_state
load-Durable h d = ground arith

pub perform-Durable : (env : Env) (c : Call) (h : Host) → Durable h → Durable (perform env c h)
unfolding perform preflight_live_test_round start_live_test_round stop_live_test_round
    complete_live_test_round reset_live_test_round finalize_micro_live_intent finalize_with
perform-Durable env (arms actor) h d = arm-Durable actor env h d
perform-Durable env (disarms actor) h d = disarm-Durable actor env h d
perform-Durable env (kills reason) h d = kill-Durable reason env h d
perform-Durable env (resets_kill actor) h d = reset_kill-Durable actor env h d
perform-Durable env (preflights actor) h d = search (round_stored, preflight-Durable)
perform-Durable env (starts actor) h d = search (round_stored, start-Durable)
perform-Durable env (stops reason actor) h d = search (round_stored, stop-Durable)
perform-Durable env (completes reason actor) h d = search (round_stored, complete-Durable)
perform-Durable env (resets actor) h d = search (round_stored, reset-Durable)
perform-Durable env (evaluates intent) h d = evaluate-Durable intent env h d
perform-Durable env (finalizes attempt success code) h d = store-store _ _
perform-Durable env snapshots h d = snapshot-Durable env h d
perform-Durable env loads h d = load-Durable h d

-- From a state that the repository holds, or with no repository, any sequence of calls of the
-- control's operations, each under a configuration and a clock of its own, accepted or refused,
-- leaves a state that the repository holds again.
pub perform_all-Durable :
    (cs : List (Env × Call)) (h : Host) → Durable h → Durable (perform_all cs h)
unfolding perform_all
perform_all-Durable [] h d = d
perform_all-Durable ((env, c) ∷ cs) h d = perform_all-Durable cs _ (perform-Durable env c h d)
