-- ===== src/RuntimeConfig/Examples.antt =====
-- Runs of the runtime configuration's manager, and its theorems at concrete managers.
use bobby_execute.Base.{◌≡◌, refl, ltb→lt, true, false, none, some, List, [], ◌∷◌}
use bobby_execute.LiveControl.Config
use bobby_execute.LiveControl.Intents.{evaluate_micro_live_intent}
use bobby_execute.LiveControl.Snapshot.{is_allowed}
use bobby_execute.LiveControl.Examples.{intent, vars, started_host}
use bobby_execute.RuntimeConfig.Types.{
  RuntimeMode, soft, RuntimeBehavior, null, RuntimeBehaviorPatch,
}
use bobby_execute.RuntimeConfig.Behavior.{
  is_valid_patch, build_runtime_behavior_from_seed, restart_required_for_patch,
}
use bobby_execute.RuntimeConfig.Records.{Manager, cycle_ends}
use bobby_execute.RuntimeConfig.Views.{build_status, build_control_view}
use bobby_execute.RuntimeConfig.Overlay.{set_pause, resume_runtime, apply_kill_switch_snapshot}
use bobby_execute.RuntimeConfig.Patch.{apply_behavior_patch, mode_patch}
use bobby_execute.RuntimeConfig.Boundary.{begin_cycle, end_cycle}
use bobby_execute.RuntimeConfig.Restore.{load_version, state_of, initialize}
use bobby_execute.RuntimeConfig.Calls.{
  sets_mode, pauses, resumes, reloads, switches, Sender, command, Sent, commands, answers, begins,
  ends, refreshes, acknowledges, sends, Performed, perform_all,
}
use bobby_execute.RuntimeConfig.Fixture.{behavior, no_faults, env, empty, manager, operator, cut}
use bobby_execute.RuntimeConfig.Steady.{Steady, commands-Steady}
use bobby_execute.RuntimeConfig.Halt.{starts_killed, trigger-refuses}
use bobby_execute.RuntimeConfig.Coherent.{Coherent}
use bobby_execute.RuntimeConfig.Coherent.Runs.{perform_all-Coherent}
use bobby_execute.RuntimeConfig.Escape.{pause-applies_restart}
use bobby_execute.RuntimeConfig.Lapse.{trigger-lapses}
use bobby_execute.RuntimeConfig.Locked.{are_refused, clear_notes-locks, Lost, trigger-Lost}

initialize-empty : initialize behavior "boot" env none empty ≡ some manager
unfolding initialize
initialize-empty = refl

abbrev operator_sends : List Sent
operator_sends =
    record { command = pauses soft; sender = operator }
    ∷ record { command = sets_mode RuntimeMode.live; sender = operator }
    ∷ record { command = switches cut; sender = operator }
    ∷ []

-- a trigger in a cycle waits for its end
waits_in_cycle :
    (command (switches cut) operator (begin_cycle manager)).state.applied.overlay.kill_switch
    ≡ false
unfolding command apply_kill_switch_snapshot begin_cycle state_of
waits_in_cycle = refl

applied_at_end :
    (end_cycle env
      (command (switches cut) operator (begin_cycle manager))).state.applied.overlay.kill_switch
    ≡ true
unfolding command apply_kill_switch_snapshot begin_cycle end_cycle
applied_at_end = refl

-- a reset by the operator, and then resuming, opens the runtime again
resume_refused :
    (resume_runtime "operator" none env (command (switches cut) operator manager)).1.accepted
    ≡ false
unfolding command apply_kill_switch_snapshot resume_runtime
resume_refused = refl

commands-Steady_example :
    Steady (begin_cycle manager) (commands operator_sends (begin_cycle manager))
unfolding begin_cycle
commands-Steady_example =
    commands-Steady operator_sends (begin_cycle manager) (refl, (refl, (refl, tt)))
      (ltb→lt 0 1 refl)

abbrev later_calls : List Performed
later_calls =
    record { call = begins; sender = operator }
    ∷ record { call = sends resumes; sender = operator }
    ∷ record { call = sends (sets_mode RuntimeMode.live); sender = operator }
    ∷ record { call = ends; sender = operator }
    ∷ record { call = acknowledges; sender = operator }
    ∷ record { call = refreshes; sender = operator }
    ∷ []

abbrev killed : Manager
killed = perform_all later_calls (command (switches cut) operator manager)

abbrev killed_env : Config.Env
killed_env = record { now_ms = 9000; vars = vars; view = some (build_control_view killed.state) }

trigger-refuses_example :
    is_allowed (evaluate_micro_live_intent intent killed_env started_host).1 ≡ false
    × starts_killed (initialize behavior "boot" env none killed.repository) ≡ true
trigger-refuses_example =
    trigger-refuses cut operator manager later_calls intent killed_env started_host behavior "boot"
      env none refl refl refl refl refl refl refl refl

abbrev clear_notes : RuntimeBehaviorPatch
clear_notes = record {
  mode = none;
  rollout_posture = none;
  execution_toggles = none;
  polling_interval_ms = none;
  filters = none;
  adapter_toggles = none;
  rate_caps = none;
  thresholds = none;
  feature_flags = none;
  notes = null;
}

clear_notes_valid : is_valid_patch clear_notes ≡ true
unfolding is_valid_patch
clear_notes_valid = refl

clear_notes-locks_example :
    let out = apply_behavior_patch clear_notes "operator" none env false manager in
    (out.1.accepted ≡ false)
    × (commands operator_sends out.0).state ≡ manager.state
    × (commands operator_sends out.0).repository ≡ manager.repository
    × are_refused (answers operator_sends out.0) ≡ true
clear_notes-locks_example =
    clear_notes-locks clear_notes operator false manager operator_sends clear_notes_valid refl refl
      refl

-- a repository whose row of the active record cannot be written
abbrev broken : Sender
broken = record {
  actor = "operator";
  reason = none;
  env = record env { faults = record no_faults { update_active = some "connection lost" } };
}

trigger-Lost_example :
    Lost manager operator_sends
      (apply_kill_switch_snapshot cut broken.actor broken.reason broken.env manager)
trigger-Lost_example =
    trigger-Lost cut broken manager "connection lost" operator_sends refl refl refl refl

abbrev quiet_calls : List Performed
quiet_calls =
    record { call = begins; sender = operator }
    ∷ record { call = sends (sets_mode RuntimeMode.observe); sender = operator }
    ∷ record { call = sends (switches cut); sender = operator }
    ∷ record { call = sends reloads; sender = operator }
    ∷ record { call = ends; sender = operator }
    ∷ []

manager-Coherent : Coherent manager
unfolding state_of load_version
manager-Coherent = record { version = refl; overlay = refl; restart = refl; idle = refl }

perform_all-Coherent_example : Coherent (perform_all quiet_calls manager)
perform_all-Coherent_example = perform_all-Coherent quiet_calls manager manager-Coherent refl

abbrev observing : RuntimeBehavior
observing = record behavior { mode = RuntimeMode.observe }

observe_valid : is_valid_patch (mode_patch RuntimeMode.observe) ≡ true
unfolding is_valid_patch
observe_valid = refl

observe_built :
    build_runtime_behavior_from_seed manager.state.requested.version.config
      (mode_patch RuntimeMode.observe)
    ≡ some observing
unfolding build_runtime_behavior_from_seed state_of
observe_built = refl

observe_restarts : restart_required_for_patch (mode_patch RuntimeMode.observe) ≡ true
unfolding restart_required_for_patch
observe_restarts = refl

pause-applies_restart_example :
    let m1 =
      (apply_behavior_patch (mode_patch RuntimeMode.observe) "operator" none env false manager).0 in
    let m2 = (set_pause soft "operator" none env m1).0 in
    m1.state.applied ≡ manager.state.applied
    × m2.state.applied.version.config ≡ observing
    × (build_status m2.state).requires_restart ≡ false
    × m2.state.active.requires_restart ≡ true
pause-applies_restart_example =
    pause-applies_restart (mode_patch RuntimeMode.observe) operator false observing manager soft
      refl refl refl refl observe_valid refl observe_built observe_restarts

-- an operator whose command waits for the repository while the cycle ends
abbrev overtaken : Sender
overtaken = record {
  actor = "operator";
  reason = none;
  env = record env { faults = record no_faults { meanwhile = cycle_ends 5500 none false ∷ [] } };
}

abbrev next_cycles : List Performed
next_cycles =
    record { call = begins; sender = operator } ∷ record { call = ends; sender = operator } ∷ []

abbrev in_cycle : Manager
in_cycle = record manager { cycle_depth = 1 }

trigger-lapses_example :
    let out = apply_kill_switch_snapshot cut "operator" none overtaken.env in_cycle in
    out.1.accepted ≡ true
    × out.0.state.requested.overlay.kill_switch ≡ true
    × (perform_all next_cycles out.0).pending_applied ≡ none
    × (perform_all next_cycles out.0).state.applied ≡ manager.state.applied
trigger-lapses_example =
    trigger-lapses cut overtaken in_cycle 5500 false next_cycles refl refl refl refl refl refl refl
      refl
