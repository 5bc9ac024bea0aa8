-- ===== src/LiveControl/Examples.antt =====
-- Runs of the control, and its theorems at concrete states.
use bobby_execute.Base.{
  ◌≤◌, ℕ, String, ◌≡◌, refl, true, false, Option, none, some, List, [], ◌∷◌, if◌then◌else◌, ◌===◌,
  arith, ◌↔◌, inl, ap,
}
use bobby_execute.Base.Text.{lower, lower_is, parse_float}
use bobby_execute.KillSwitch.{Switch, not_halted, is_kill_switch_halted}
use bobby_execute.DailyLoss.{fresh_day}
use bobby_execute.LiveControl.Types.{
  ControlState, idle, running, completed, live, live_blocked, micro_live, MicroLiveCaps,
  TradeIntent, LiveExecutionAttempt, arm,
}
use bobby_execute.LiveControl.Config.{
  Env, returns, default_caps, configured_posture, read_execution_mode, read_rollout_posture,
  read_caps, is_live_test_mode_enabled, parse_bool, parse_number, parse_int_strict, parse_allowlist,
}
use bobby_execute.LiveControl.State.{
  Host, initial_state, cleaned, counters_changed, cleanup_counters, mark_round_transition,
  transition,
}
use bobby_execute.LiveControl.Snapshot.{
  allowed, is_allowed, evaluate_posture, respond, get_micro_live_control_snapshot,
}
use bobby_execute.LiveControl.Operator.{arm_micro_live, kill_micro_live, arm_under, arm_with_caps}
use bobby_execute.LiveControl.Intents.{
  parse_intent_notional, evaluate_micro_live_intent, finalize_micro_live_intent,
}
use bobby_execute.LiveControl.Rounds.{start_live_test_round, start_in}
use bobby_execute.LiveControl.Calls.{
  finalizes, Call, resets_kill, arms, starts, evaluates, perform, perform_all,
}
use bobby_execute.LiveControl.Durable.{Durable, perform_all-Durable}
use bobby_execute.LiveControl.Admission.{evaluate-Admissible, Admissible-evaluate}
use bobby_execute.LiveControl.Checks.{launched, attempt_of}
use bobby_execute.LiveControl.Conditions.{Admissible}
use bobby_execute.LiveControl.Flights.{done, call, perform_all-in_flight}
use bobby_execute.LiveControl.Killed.{kill-evaluate}
use bobby_execute.LiveControl.RoundGraph.{perform-⟶}
use bobby_execute.LiveControl.RoundSteps.{◌⟶◌}
use bobby_execute.LiveControl.Posture.{Armable, arm_iff, posture-Admissible, finalize-evaluate}

-- a live deployment
abbrev pub vars : String → Option String
vars name = if name === "LIVE_TRADING" then some "true" else none

abbrev env_at : ℕ → Env
env_at now = record { now_ms = now; vars = vars; view = none }

-- the same, in live-test mode
abbrev test_vars : String → Option String
test_vars name = if name === "LIVE_TEST_MODE" then some "TRUE" else vars name

abbrev test_env_at : ℕ → Env
test_env_at now = record { now_ms = now; vars = test_vars; view = none }

abbrev quiet : Switch
quiet = record { state = not_halted; repository = some none; bridge = none }

abbrev host_of : ControlState → Host
host_of s = record {
  control = s;
  repository = some (some s);
  kill_switch = quiet;
  daily_loss = fresh_day 0;
}

-- a process that starts, with its state saved
abbrev pub started_host : Host
started_host = host_of (initial_state 0)

abbrev armed_state : ControlState
armed_state = record (initial_state 0) {
  armed = true;
  last_operator_action = some arm;
  last_operator_action_at = some 1000;
}

abbrev pub intent : TradeIntent
intent = record { trace_id = "t1"; token_out = "BONK"; amount_in = "12.5"; execution_mode = live }

abbrev half_twenty_five : ℕ
half_twenty_five = 12500000000

env_caps : (now : ℕ) → read_caps (env_at now) ≡ returns default_caps
unfolding read_caps parse_bool parse_number parse_int_strict parse_allowlist
env_caps now = refl

arm_host : (arm_micro_live "operator" (env_at 1000) started_host).0 ≡ host_of armed_state
unfolding arm_micro_live read_execution_mode lower_is is_live_test_mode_enabled arm_under
    read_rollout_posture arm_with_caps read_caps parse_bool parse_number parse_int_strict
    is_kill_switch_halted respond cleanup_counters counters_changed cleaned
arm_host = refl

arm_success : (arm_micro_live "operator" (env_at 1000) started_host).1.success ≡ true
unfolding arm_micro_live read_execution_mode lower_is is_live_test_mode_enabled arm_under
    read_rollout_posture arm_with_caps read_caps parse_bool parse_number parse_int_strict
    is_kill_switch_halted respond
arm_success = refl

intent_notional : parse_intent_notional intent ≡ some half_twenty_five
unfolding parse_intent_notional parse_float
intent_notional = refl

env_live : (now : ℕ) → read_execution_mode (env_at now) ≡ live
unfolding read_execution_mode lower_is lower
env_live now = refl

env_rollout :
    (now : ℕ)
    → read_rollout_posture (env_at now) live
      ≡ record (configured_posture micro_live) { configured = false }
unfolding read_rollout_posture
env_rollout now = refl

env_no_test : (now : ℕ) → is_live_test_mode_enabled (env_at now) ≡ false
unfolding is_live_test_mode_enabled
env_no_test now = refl

not_halted_quiet : is_kill_switch_halted quiet ≡ false
unfolding is_kill_switch_halted
not_halted_quiet = refl

-- a host with this state admits the intent
admits :
    (s : ControlState)
    → cleaned 2000 default_caps s ≡ record armed_state { round_status = s.round_status }
    → Admissible intent (env_at 2000) (host_of s) default_caps half_twenty_five
admits s e = record {
  deployed = record {
    is_live_mode = env_live 2000;
    valid = grind (arith, env_live 2000, env_rollout 2000);
    not_paper = λ p. grind (arith, env_live 2000, env_rollout 2000);
    not_paused = λ p. grind (arith, env_live 2000, env_rollout 2000);
    configured = env_caps 2000;
  };
  ready = record {
    staged = λ p. grind (arith, env_live 2000, env_rollout 2000);
    unblocked = ap (λ c. c.blocked) e;
    armed = λ p. ap (λ c. c.armed) e;
  };
  unhalted = not_halted_quiet;
  bounded = record {
    parsed = intent_notional;
    listed = inl refl;
    capped = omega arith;
    in_round = λ p. grind (arith, env_no_test 2000);
  };
  paced = record {
    in_window = ground arith;
    in_day = λ cap p. ground arith;
    in_air = ground arith;
    cooled = λ last p q. ground arith;
  };
}

armed_admits : Admissible intent (env_at 2000) (host_of armed_state) default_caps half_twenty_five
unfolding cleaned
armed_admits = admits armed_state refl

intent_allowed :
    is_allowed (evaluate_micro_live_intent intent (env_at 2000) (host_of armed_state)).1 ≡ true
intent_allowed =
    ap (λ r. is_allowed r.1)
      (Admissible-evaluate intent (env_at 2000) (host_of armed_state) default_caps half_twenty_five
        refl armed_admits)

evaluate-Admissible_example :
    (caps : MicroLiveCaps) × (n : ℕ) × Admissible intent (env_at 2000) (host_of armed_state) caps n
evaluate-Admissible_example =
    evaluate-Admissible intent (env_at 2000) (host_of armed_state) refl intent_allowed

Admissible-evaluate_example :
    evaluate_micro_live_intent intent (env_at 2000) (host_of armed_state) ≡ (
      launched (cleanup_counters 2000 default_caps (host_of armed_state)),
      allowed (some (attempt_of intent (env_at 2000) half_twenty_five)),
    )
Admissible-evaluate_example =
    Admissible-evaluate intent (env_at 2000) (host_of armed_state) default_caps half_twenty_five
      refl armed_admits

kill-evaluate_example :
    is_allowed
      (evaluate_micro_live_intent intent (env_at 9000) (
        perform_all
          ((env_at 3000, resets_kill "operator") ∷ (env_at 4000, arms "operator") ∷ [])
          (kill_micro_live "drill" (env_at 2000) (host_of armed_state)).0)).1
    ≡ false
kill-evaluate_example =
    kill-evaluate "drill" (env_at 2000) (host_of armed_state)
      ((env_at 3000, resets_kill "operator") ∷ (env_at 4000, arms "operator") ∷ []) intent
      (env_at 9000) refl refl

abbrev session : List (Env × Call)
session =
    (test_env_at 1000, starts "runtime")
    ∷ (test_env_at 2000, arms "operator")
    ∷ (test_env_at 3000, evaluates intent)
    ∷ []

round_starts :
    (perform (test_env_at 1000) (starts "runtime") started_host).control.round_status ≡ running
unfolding perform start_live_test_round start_in is_live_test_mode_enabled lower_is lower respond
    get_micro_live_control_snapshot cleanup_counters counters_changed mark_round_transition
    transition cleaned
round_starts = refl

perform_all-Durable_example : Durable (perform_all session started_host)
perform_all-Durable_example = perform_all-Durable session started_host refl

perform-⟶_example :
    idle ⟶ (perform (test_env_at 1000) (starts "runtime") started_host).control.round_status
perform-⟶_example = perform-⟶ (test_env_at 1000) (starts "runtime") started_host refl

abbrev failing_state : ControlState
failing_state = record armed_state { in_flight = 1; recent_failure_at_ms = 1500 ∷ 1800 ∷ [] }

abbrev attempt : LiveExecutionAttempt
attempt = attempt_of intent (env_at 2000) half_twenty_five

finalize-evaluate_example :
    let h' =
      finalize_micro_live_intent attempt false
        (some "timeout")
        (env_at 2500)
        (host_of failing_state) in
    (h'.control.blocked ≡ true)
    × (h'.control.armed ≡ false)
    × (is_allowed (evaluate_micro_live_intent intent (env_at 3000) h').1 ≡ false)
unfolding cleaned
finalize-evaluate_example =
    finalize-evaluate default_caps attempt (some "timeout") (env_at 2500) (host_of failing_state)
      intent (env_at 3000) (env_caps 2500) (omega arith) refl

arm_iff_example :
    ((arm_micro_live "operator" (env_at 1000) started_host).1.success ≡ true)
    ↔ Armable (env_at 1000) started_host
arm_iff_example = arm_iff "operator" (env_at 1000) started_host

abbrev completed_state : ControlState
completed_state = record armed_state { round_status = completed }

completed_admits :
    Admissible intent (env_at 2000) (host_of completed_state) default_caps half_twenty_five
unfolding cleaned
completed_admits = admits completed_state refl

posture-Admissible_example :
    let mode = read_execution_mode (env_at 2000) in
    evaluate_posture mode (read_rollout_posture (env_at 2000) mode) (host_of completed_state)
    ≡ live_blocked
posture-Admissible_example =
    posture-Admissible intent (env_at 2000) (host_of completed_state) default_caps half_twenty_five
      completed_admits

-- two intents in a row, and the end of one
abbrev live_session : List (Env × Call)
live_session =
    (env_at 1000, arms "operator")
    ∷ (env_at 2000, evaluates intent)
    ∷ (env_at 3000, evaluates intent)
    ∷ (env_at 4000, finalizes attempt true none)
    ∷ []

perform_all-in_flight_example : (perform_all live_session started_host).control.in_flight ≤ 1
unfolding read_caps parse_bool parse_number parse_int_strict
perform_all-in_flight_example =
    perform_all-in_flight 1 live_session started_host refl
      (call (omega arith) (call (omega arith) (call (omega arith) (call (omega arith) done))))
      (omega arith)
