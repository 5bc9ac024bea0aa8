-- ===== src/LiveControl/Flights.antt =====
-- The number of executions under way, over the calls of live-control.ts.
use bobby_execute.Base.{
  ◌≤◌, ◌-◌, refl, ℕ, String, ◌≡◌, Bool, true, false, Option, none, some, List, [], ◌∷◌,
  if◌then◌else◌, arith,
}
use bobby_execute.LiveControl.Types.{
  idle, ControlState, LiveTestRoundStatus, running, stopped, completed, ExecutionMode,
  LiveControlReasonCode, RefusalStage, LiveExecutionAttempt, MicroLiveCaps, RolloutSnapshot,
  TradeIntent, Message,
}
use bobby_execute.LiveControl.Config.{read_caps, Env, Try, returns, throws}
use bobby_execute.LiveControl.State.{
  cleaned, transition, store, change, Host, load_live_control_state, cleanup_counters,
  mark_round_transition,
}
use bobby_execute.LiveControl.Snapshot.{
  refuse_host, refuse, respond, get_micro_live_control_snapshot,
}
use bobby_execute.LiveControl.Operator.{
  arm_with_caps, arm_under, arm_micro_live, disarm_micro_live, kill_micro_live,
  reset_killed_micro_live, refuse_round_transition,
}
use bobby_execute.LiveControl.Rounds.{
  preflight_in, start_in, stop_in, complete_in, reset_in, preflight_live_test_round,
  start_live_test_round, stop_live_test_round, complete_live_test_round, reset_live_test_round,
}
use bobby_execute.LiveControl.Intents.{
  landed, failing, block_on_failures, check_rates, check_intent, check_ready, check_config,
  evaluate_in, evaluate_micro_live_intent, finalize_with, finalize_micro_live_intent,
}
use bobby_execute.LiveControl.Calls.{
  Call, arms, disarms, kills, resets_kill, preflights, starts, resets, stops, completes, evaluates,
  finalizes, snapshots, loads, perform, perform_all,
}
use bobby_execute.LiveControl.Durable.{Durable, perform-Durable}

module _ (m : ℕ) where
  abbrev Fits : Host → Type 0
  Fits h = h.control.in_flight ≤ m

  cleanup-Fits :
      (now : ℕ) (caps : MicroLiveCaps) (h : Host) → Fits h → Fits (cleanup_counters now caps h)
  unfolding cleanup_counters cleaned
  cleanup-Fits now caps h k = ground arith

  respond-Fits :
      (env : Env) (b : Bool) (m : Message) (h : Host) → Fits h → Fits (respond env b m h).0
  unfolding respond
  respond-Fits env b m h k = cleanup-Fits env.now_ms _ h k

  if-Fits {ℓ} :
      {A : Type ℓ} (b : Bool) (x y : Host × A) → Fits x.0 → Fits y.0 → Fits (if b then x else y).0
  if-Fits true x y p q = p
  if-Fits false x y p q = q

  if_host-Fits : (b : Bool) (x y : Host) → Fits x → Fits y → Fits (if b then x else y)
  if_host-Fits true x y p q = p
  if_host-Fits false x y p q = q

  transition-in_flight :
      (s : LiveTestRoundStatus) (now : ℕ) (detail : Option Message) (c : ControlState)
      → (transition s now detail c).in_flight ≡ c.in_flight
  unfolding transition
  transition-in_flight idle now detail c = refl
  transition-in_flight _ now detail c = refl

  mark-Fits :
      (s : LiveTestRoundStatus) (actor : String) (now : ℕ) (detail : Option Message) (h : Host)
      → Fits h
      → Fits (mark_round_transition s actor now detail h)
  unfolding mark_round_transition
  mark-Fits s actor now detail h k = omega (
    arith,
    k,
    transition-in_flight s now detail (record h.control {
      round_status = s;
      last_transition_at = some now;
      last_transition_by = some actor;
    }),
  )

  ruleset kept = (if-Fits, if_host-Fits, respond-Fits, mark-Fits)

  landed-Fits :
      (caps : MicroLiveCaps) (code : Option String) (now : ℕ) (h : Host)
      → Fits h
      → Fits (block_on_failures caps now code (change (failing now) (change landed h)))
  landed-Fits caps code now h k =
      let k' : h.control.in_flight - 1 ≤ m = omega (arith, k) in if_host-Fits _ _ _ k' k'

  refuse-Fits :
      (env : Env) (mode : ExecutionMode) (code : LiveControlReasonCode) (stage : RefusalStage)
      (detail : Message) (action : Bool) (h : Host)
      → Fits h
      → Fits (refuse env mode code stage detail action h).0
  unfolding refuse refuse_host
  refuse-Fits env mode code stage detail action h k = k

  arm_with_caps-Fits :
      (actor : String) (env : Env) (caps : Try MicroLiveCaps) (h : Host)
      → Fits h
      → Fits (arm_with_caps actor env caps h).0
  unfolding arm_with_caps
  arm_with_caps-Fits actor env (throws e) h k = search kept
  arm_with_caps-Fits actor env (returns caps) h k = search kept

  refuse_round-Fits :
      (next : LiveTestRoundStatus) (actor : String) (detail : Message) (env : Env) (h : Host)
      → Fits h
      → Fits (refuse_round_transition next actor detail env h).0
  unfolding refuse_round_transition
  refuse_round-Fits next actor detail env h k = search kept

  ruleset round_kept = (kept, refuse_round-Fits, arm_with_caps-Fits)

  preflight-Fits :
      (s : LiveTestRoundStatus) (actor : String) (env : Env) (h : Host)
      → Fits h
      → Fits (preflight_in s actor env h).0
  unfolding preflight_in
  preflight-Fits running actor env h k = search round_kept
  preflight-Fits _ actor env h k = search round_kept

  start-Fits :
      (s : LiveTestRoundStatus) (actor : String) (env : Env) (h : Host)
      → Fits h
      → Fits (start_in s actor env h).0
  unfolding start_in
  start-Fits running actor env h k = search round_kept
  start-Fits _ actor env h k = search round_kept

  stop-Fits :
      (s : LiveTestRoundStatus) (reason actor : String) (env : Env) (h : Host)
      → Fits h
      → Fits (stop_in s reason actor env h).0
  unfolding stop_in
  stop-Fits stopped reason actor env h k = search round_kept
  stop-Fits _ reason actor env h k = search round_kept

  complete-Fits :
      (s : LiveTestRoundStatus) (reason actor : String) (env : Env) (h : Host)
      → Fits h
      → Fits (complete_in s reason actor env h).0
  unfolding complete_in
  complete-Fits completed reason actor env h k = search round_kept
  complete-Fits _ reason actor env h k = search round_kept

  reset-Fits :
      (s : LiveTestRoundStatus) (actor : String) (env : Env) (h : Host)
      → Fits h
      → Fits (reset_in s actor env h).0
  unfolding reset_in
  reset-Fits running actor env h k = search round_kept
  reset-Fits _ actor env h k = search round_kept

  ruleset refusal_kept = (if-Fits, refuse-Fits, cleanup-Fits)

  check_rates-Fits :
      (intent : TradeIntent) (env : Env) (mode : ExecutionMode) (caps : MicroLiveCaps) (n : ℕ)
      (h : Host)
      → caps.max_in_flight ≤ m
      → Fits h
      → Fits (check_rates intent env mode caps n h).0
  unfolding check_rates refuse refuse_host
  check_rates-Fits intent env mode caps n h le k = ground arith

  check_intent-Fits :
      (intent : TradeIntent) (env : Env) (mode : ExecutionMode) (caps : MicroLiveCaps)
      (o : Option ℕ) (h : Host)
      → caps.max_in_flight ≤ m
      → Fits h
      → Fits (check_intent intent env mode caps o h).0
  unfolding check_intent
  check_intent-Fits intent env mode caps none h le k = search refusal_kept
  check_intent-Fits intent env mode caps (some n) h le k =
      search (refusal_kept, check_rates-Fits) depth 10

  -- the limit that a configuration sets, if it can be read
  abbrev Limited : Try MicroLiveCaps → Type 0
  Limited (throws e) = Unit
  Limited (returns caps) = caps.max_in_flight ≤ m

  check_config-Fits :
      (intent : TradeIntent) (env : Env) (mode : ExecutionMode) (rollout : RolloutSnapshot)
      (caps : Try MicroLiveCaps) (h : Host)
      → Limited caps
      → Fits h
      → Fits (check_config intent env mode rollout caps h).0
  unfolding check_config check_ready
  check_config-Fits intent env mode rollout (throws e) h le k = search refusal_kept
  check_config-Fits intent env mode rollout (returns caps) h le k =
      search (refusal_kept, check_intent-Fits) depth 10

  finalize-Fits :
      (caps : MicroLiveCaps) (a : LiveExecutionAttempt) (success : Bool) (code : Option String)
      (now : ℕ) (h : Host)
      → Fits h
      → Fits (finalize_with caps a success code now h)
  unfolding finalize_with
  finalize-Fits caps a true code now h k = omega (arith, cleanup-Fits now caps h k)
  finalize-Fits caps a false code now h k =
      landed-Fits caps code now (cleanup_counters now caps h) (cleanup-Fits now caps h k)

  kill-Fits :
      (reason : String) (env : Env) (h : Host) → Fits h → Fits (kill_micro_live reason env h).0
  unfolding kill_micro_live
  kill-Fits reason env h k = search kept

  perform-Fits :
      (env : Env) (c : Call) (h : Host)
      → Durable h
      → Limited (read_caps env)
      → Fits h
      → Fits (perform env c h)
  unfolding perform arm_micro_live disarm_micro_live reset_killed_micro_live
      preflight_live_test_round start_live_test_round stop_live_test_round complete_live_test_round
      reset_live_test_round evaluate_micro_live_intent evaluate_in finalize_micro_live_intent
      get_micro_live_control_snapshot load_live_control_state arm_under
  perform-Fits env (arms actor) h d le k = search round_kept depth 8
  perform-Fits env (disarms actor) h d le k = search kept
  perform-Fits env (kills reason) h d le k = kill-Fits reason env h k
  perform-Fits env (resets_kill actor) h d le k = search round_kept depth 8
  perform-Fits env (preflights actor) h d le k = search (round_kept, preflight-Fits)
  perform-Fits env (starts actor) h d le k = search (round_kept, start-Fits)
  perform-Fits env (stops reason actor) h d le k = search (round_kept, stop-Fits)
  perform-Fits env (completes reason actor) h d le k = search (round_kept, complete-Fits)
  perform-Fits env (resets actor) h d le k = search (round_kept, reset-Fits)
  perform-Fits env (evaluates intent) h d le k = search (refusal_kept, check_config-Fits) depth 8
  perform-Fits env (finalizes a success code) h d le k =
      finalize-Fits _ a success code env.now_ms h k
  perform-Fits env snapshots h d le k = cleanup-Fits env.now_ms _ h k
  perform-Fits env loads h d le k = ground arith

-- The configuration that each call meets, if it can be read, allows at most `m` executions at a time.
pub data AtMost (m : ℕ) : List (Env × Call) → Type 0 where
  done : AtMost m []
  call :
      {env : Env} {c : Call} {cs : List (Env × Call)}
      → Limited m (read_caps env)
      → AtMost m cs
      → AtMost m ((env, c) ∷ cs)

-- From a state that the repository holds (or with no repository) and with at most `m` executions under
-- way, any sequence of calls under configurations that allow at most `m` leaves at most `m` executions
-- under way, reloads of the saved state included.
pub perform_all-in_flight :
    (m : ℕ) (cs : List (Env × Call)) (h : Host)
    → h.repository ≡ store h.control h.repository
    → AtMost m cs
    → h.control.in_flight ≤ m
    → (perform_all cs h).control.in_flight ≤ m
unfolding perform_all
perform_all-in_flight m [] h d done k = k
perform_all-in_flight m ((env, c) ∷ cs) h d (call le a) k =
    perform_all-in_flight m cs _ (perform-Durable env c h d) a (perform-Fits m env c h d le k)
