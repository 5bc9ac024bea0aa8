-- ===== src/LiveControl/Operator.antt =====
-- The operator's arm, disarm, kill and reset of live-control.ts.
use bobby_execute.Base.{
  String, Bool, true, false, not, ◌&&◌, none, some, [], ◌∷◌, ◌++◌, if◌then◌else◌, ◌otherwise◌,
}
use bobby_execute.KillSwitch.{is_kill_switch_halted, trigger_kill_switch}
use bobby_execute.LiveControl.Types.{
  LiveTestRoundStatus, idle, preflighted, stopped, failed, RolloutPosture, RolloutSnapshot,
  micro_live_blocked, micro_live_config_invalid, micro_live_disarmed, OperatorAction, arm, disarm,
  kill, reset_kill, MicroLiveCaps, Message, lit, round, rollout, say,
}
use bobby_execute.LiveControl.Config.{
  Env, Try, returns, throws, is_live_test_mode_enabled, read_execution_mode, read_rollout_posture,
  read_caps,
}
use bobby_execute.LiveControl.State.{
  Host, persist_live_control_state, change, set_reason, is_terminal_round_status,
  mark_round_transition,
}
use bobby_execute.LiveControl.Snapshot.{is_live, is_paper_only, is_paused, Outcome, respond}

abbrev arm_denied_round : LiveTestRoundStatus → Message
arm_denied_round s =
    lit "Arm denied: live-test round is " ∷ round s ∷ lit ". Reset is required first." ∷ []

abbrev arm_denied_rollout : RolloutPosture → Message
arm_denied_rollout p =
    lit "Arm denied: rollout posture '" ∷ rollout p ∷ lit "' does not permit live operation." ∷ []

-- a refused arm blocks the control until an operator re-arms it
abbrev block_for_rearm : Host → Host
block_for_rearm = change (λ s. record s { blocked = true; manual_rearm_required = true })

abbrev by_operator : OperatorAction → Env → Host → Host
by_operator action env = change (λ s. record s {
  last_operator_action = some action;
  last_operator_action_at = some env.now_ms;
})

abbrev armed_host : Env → Host → Host
armed_host env h = persist_live_control_state (
    by_operator arm env (
      change
        (λ s. record s {
          armed = true;
          blocked = false;
          degraded = false;
          manual_rearm_required = false;
          reason_code = none;
          reason_detail = none;
        })
        h))

-- `rollout.valid` and a posture that permits live operation
abbrev pub permits_live : RolloutSnapshot → Bool
permits_live r = r.valid && not (is_paper_only r.posture) && not (is_paused r.posture)

-- the checks of `armMicroLive` behind the rollout posture
unfoldable pub arm_with_caps : String → Env → Try MicroLiveCaps → Host → Host × Outcome
arm_with_caps actor env (throws e) h =
    respond env false (lit "Arm denied: micro-live configuration invalid (" ∷ e ++ lit ")." ∷ [])
      (set_reason micro_live_config_invalid (some e) env.now_ms (block_for_rearm h))
arm_with_caps actor env (returns caps) h =
    if is_kill_switch_halted h.kill_switch
    then respond env false (say "Arm denied: kill switch is active.") h
    else respond env true (lit "Micro-live armed by " ∷ lit actor ∷ lit "." ∷ []) (armed_host env h)

-- the checks of `armMicroLive` behind the round's status
unfoldable pub arm_under : String → Env → RolloutSnapshot → Host → Host × Outcome
arm_under actor env r h =
    if not (permits_live r)
    then respond env false (arm_denied_rollout r.posture) (
        set_reason (r.reason_code otherwise micro_live_blocked)
          (some (r.reason_detail otherwise arm_denied_rollout r.posture)) env.now_ms
          (block_for_rearm h))
    else arm_with_caps actor env (read_caps env) h

unfoldable pub arm_micro_live : String → Env → Host → Host × Outcome
arm_micro_live actor env h =
    let status = h.control.round_status in
    if not (is_live (read_execution_mode env))
    then respond env false (say "Arm denied: deployment is not in live mode.") h
    else if is_live_test_mode_enabled env && is_terminal_round_status status
    then respond env false (arm_denied_round status)
        (mark_round_transition failed actor env.now_ms (some (arm_denied_round status)) h)
    else arm_under actor env (read_rollout_posture env (read_execution_mode env)) h

unfoldable pub disarm_micro_live : String → Env → Host → Host × Outcome
disarm_micro_live actor env h =
    respond env true (lit "Micro-live disarmed by " ∷ lit actor ∷ lit "." ∷ []) (
      set_reason micro_live_disarmed (some (lit "Disarmed by " ∷ lit actor ∷ [])) env.now_ms
        (by_operator disarm env (change (λ s. record s { armed = false }) h)))

unfoldable pub kill_micro_live : String → Env → Host → Host × Outcome
kill_micro_live reason env h =
    let stopped_host =
      mark_round_transition stopped "operator_kill_switch" env.now_ms (some (say reason)) h in
    let killed = by_operator kill env (change (λ s. record s { degraded = true }) stopped_host) in
    respond env true (say "Micro-live kill switch activated.") (
      persist_live_control_state (record killed {
        kill_switch = trigger_kill_switch (some reason) env.now_ms killed.kill_switch;
      }))

-- `refuseRoundTransition`: the round fails
unfoldable pub refuse_round_transition :
    LiveTestRoundStatus → String → Message → Env → Host → Host × Outcome
refuse_round_transition next actor detail env h =
    respond env false
      (lit "Live-test round transition to '" ∷ round next ∷ lit "' denied: " ∷ detail)
      (mark_round_transition failed actor env.now_ms (some detail) h)

abbrev pub is_idle : LiveTestRoundStatus → Bool
is_idle idle = true
is_idle _ = false

abbrev reset_detail : String → Message
reset_detail actor =
    lit "Kill state reset by " ∷ lit actor ∷ lit "; live-test round returned to preflighted." ∷ []

abbrev pub reset_round : String → Env → Host → Host
reset_round actor env h =
    if is_live_test_mode_enabled env
    then mark_round_transition preflighted actor env.now_ms (some (reset_detail actor)) h
    else h

unfoldable pub reset_killed_micro_live : String → Env → Host → Host × Outcome
reset_killed_micro_live actor env h =
    let status = h.control.round_status in
    if is_live_test_mode_enabled env
      && not (is_terminal_round_status status)
      && not (is_idle status)
    then refuse_round_transition preflighted actor
        (lit "Reset denied while live-test round status is "
          ∷ round status
          ∷ lit ". Stop or fail the round before resetting."
          ∷ [])
        env h
    else respond env true
        (say "Kill state cleared for micro-live control; runtime remains disarmed.")
        (set_reason micro_live_disarmed
          (some (lit "Kill state reset by " ∷ lit actor ∷ lit "; manual re-arm required." ∷ []))
          env.now_ms
          (reset_round actor env (
            by_operator reset_kill env (
              change
                (λ s. record s { armed = false; degraded = false; manual_rearm_required = false })
                h))))
