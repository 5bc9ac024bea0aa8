-- ===== src/LiveControl/Posture.antt =====
-- The posture that the operator is shown, against what is admitted; arming; and the failure limit.
use bobby_execute.Base.{
  ℕ, ◌+◌, ◌≤◌, String, ◌≡◌, refl, Bool, true, false, ◌&&◌, Option, [], ◌∷◌, length, length-append,
  if◌then◌else◌, ◌↔◌, Bool-cases, inl, inr, arith,
}
use bobby_execute.KillSwitch.{is_kill_switch_halted}
use bobby_execute.LiveControl.Types.{
  live, live_blocked, live_armed, live_disarmed, MicroLiveCaps, TradeIntent, LiveExecutionAttempt,
  Message,
}
use bobby_execute.LiveControl.Config.{
  Env, Try, returns, throws, is_live_test_mode_enabled, read_execution_mode, read_rollout_posture,
  read_caps,
}
use bobby_execute.LiveControl.State.{Host, cleaned, cleanup_counters, is_terminal_round_status}
use bobby_execute.LiveControl.Snapshot.{is_allowed, evaluate_posture, respond}
use bobby_execute.LiveControl.Operator.{arm_with_caps, arm_under, arm_micro_live, permits_live}
use bobby_execute.LiveControl.Intents.{
  evaluate_micro_live_intent, finalize_with, finalize_micro_live_intent,
}
use bobby_execute.LiveControl.Admission.{evaluate-Admissible}
use bobby_execute.LiveControl.Conditions.{Admissible}

-- While a live intent is admissible the posture reads armed or disarmed, as the control is, unless
-- the live-test round has ended: then it reads blocked, although the intent is admitted.
pub posture-Admissible :
    (intent : TradeIntent) (env : Env) (h : Host) (caps : MicroLiveCaps) (n : ℕ)
    → Admissible intent env h caps n
    → let mode = read_execution_mode env in
      evaluate_posture mode (read_rollout_posture env mode) h ≡ (
        if is_terminal_round_status h.control.round_status
        then live_blocked
        else if h.control.armed
        then live_armed
        else live_disarmed)
unfolding evaluate_posture cleaned
posture-Admissible intent env h caps n a = ground (
  arith, a.deployed.is_live_mode, a.deployed.valid, a.deployed.not_paper, a.deployed.not_paused,
  a.unhalted, a.ready.unblocked, a.ready.staged,
)

-- What arming checks.
pub record Armable (env : Env) (h : Host) : Type 0 where
  pub in_live_mode : read_execution_mode env ≡ live
  pub round_open :
      (is_live_test_mode_enabled env && is_terminal_round_status h.control.round_status) ≡ false
  pub permitted : permits_live (read_rollout_posture env (read_execution_mode env)) ≡ true
  pub caps : MicroLiveCaps
  pub configured : read_caps env ≡ returns caps
  pub unhalted : is_kill_switch_halted h.kill_switch ≡ false

respond_flags :
    (env : Env) (b : Bool) (m : Message) (h : Host)
    → ((respond env b m h).1.success ≡ b)
      × ((respond env b m h).0.control.armed ≡ h.control.armed)
      × ((respond env b m h).0.control.blocked ≡ h.control.blocked)
      × ((respond env b m h).0.control.round_status ≡ h.control.round_status)
unfolding respond cleanup_counters cleaned
respond_flags env b m h = ground arith

arm_with_caps_flags :
    (actor : String) (env : Env) (config : Try MicroLiveCaps) (h : Host)
    → (arm_with_caps actor env config h).1.success ≡ true
    → (caps : MicroLiveCaps) × (config ≡ returns caps)
      × (is_kill_switch_halted h.kill_switch ≡ false)
      × ((arm_with_caps actor env config h).0.control.armed ≡ true)
      × ((arm_with_caps actor env config h).0.control.blocked ≡ false)
      × ((arm_with_caps actor env config h).0.control.round_status ≡ h.control.round_status)
unfolding arm_with_caps
arm_with_caps_flags actor env (throws e) h s = absurd (grind (arith, respond_flags))
arm_with_caps_flags actor env (returns caps) h s = (
  caps,
  refl,
  grind (arith, respond_flags),
  grind (arith, respond_flags),
  grind (arith, respond_flags),
  grind (arith, respond_flags),
)

arm_flags :
    (actor : String) (env : Env) (h : Host)
    → (arm_micro_live actor env h).1.success ≡ true
    → (read_execution_mode env ≡ live)
      × ((is_live_test_mode_enabled env && is_terminal_round_status h.control.round_status) ≡ false)
      × (permits_live (read_rollout_posture env (read_execution_mode env)) ≡ true)
      × (arm_micro_live actor env h ≡ arm_with_caps actor env (read_caps env) h)
unfolding arm_micro_live arm_under
arm_flags actor env h s = (
  grind (arith, respond_flags),
  grind (arith, respond_flags),
  grind (arith, respond_flags),
  grind (arith, respond_flags),
)

success-Armable :
    (actor : String) (env : Env) (h : Host)
    → (arm_micro_live actor env h).1.success ≡ true
    → Armable env h
success-Armable actor env h s =
    let (m, r, p, e) = arm_flags actor env h s in
    let (caps, c, k, a, b, t) = arm_with_caps_flags actor env (read_caps env) h (rw (← e) s) in
    record {
      in_live_mode = m;
      round_open = r;
      permitted = p;
      caps = caps;
      configured = c;
      unhalted = k;
    }

Armable-success :
    (actor : String) (env : Env) (h : Host)
    → Armable env h
    → (arm_micro_live actor env h).1.success ≡ true
unfolding arm_micro_live arm_under arm_with_caps respond
Armable-success actor env h a =
    ground (arith, a.in_live_mode, a.round_open, a.permitted, a.configured, a.unhalted)

-- Arming succeeds exactly when the deployment is live, the live-test round (in live-test mode) has
-- not ended, the rollout posture is valid and permits live operation, the caps can be read, and the
-- kill switch is off.
pub arm_iff :
    (actor : String) (env : Env) (h : Host)
    → ((arm_micro_live actor env h).1.success ≡ true) ↔ Armable env h
arm_iff actor env h = (success-Armable actor env h, Armable-success actor env h)

-- A successful arm leaves the control armed, not blocked, and the live-test round as it was.
pub arm_armed :
    (actor : String) (env : Env) (h : Host)
    → (arm_micro_live actor env h).1.success ≡ true
    → let s = (arm_micro_live actor env h).0.control in
      (s.armed ≡ true) × (s.blocked ≡ false) × (s.round_status ≡ h.control.round_status)
arm_armed actor env h s =
    let (m, r, p, e) = arm_flags actor env h s in
    let (caps, c, k, a, b, t) = arm_with_caps_flags actor env (read_caps env) h (rw (← e) s) in
    (rw e a, rw e b, rw e t)

failed_flags :
    (caps : MicroLiveCaps) (a : LiveExecutionAttempt) (code : Option String) (now : ℕ) (h : Host)
    → caps.failures_to_block ≤ length (cleaned now caps h.control).recent_failure_at_ms + 1
    → let s = (finalize_with caps a false code now h).control in
      (s.blocked ≡ true) × (s.armed ≡ false) × (s.manual_rearm_required ≡ true)
unfolding finalize_with cleanup_counters
failed_flags caps a code now h le =
    ground (arith, length-append (cleaned now caps h.control).recent_failure_at_ms (now ∷ []))

blocked-refused :
    (intent : TradeIntent) (env : Env) (h : Host)
    → h.control.blocked ≡ true
    → intent.execution_mode ≡ live
    → is_allowed (evaluate_micro_live_intent intent env h).1 ≡ false
unfolding cleaned
blocked-refused intent env h k l =
    elim (Bool-cases (is_allowed (evaluate_micro_live_intent intent env h).1)) [
      | inl e ↦
          let (caps, n, a) = evaluate-Admissible intent env h l e in
          absurd (ground (arith, a.ready.unblocked))
      | inr e ↦ e
    ]

-- A failed execution that brings the failures of the window (this one included) up to the limit
-- blocks and disarms the control, and no live intent is admitted from the state that it leaves.
pub finalize-evaluate :
    (caps : MicroLiveCaps) (a : LiveExecutionAttempt) (code : Option String) (env : Env) (h : Host)
    (intent : TradeIntent) (later : Env)
    → read_caps env ≡ returns caps
    → caps.failures_to_block ≤ length (cleaned env.now_ms caps h.control).recent_failure_at_ms + 1
    → intent.execution_mode ≡ live
    → let h' = finalize_micro_live_intent a false code env h in
      (h'.control.blocked ≡ true)
      × (h'.control.armed ≡ false)
      × (is_allowed (evaluate_micro_live_intent intent later h').1 ≡ false)
unfolding finalize_micro_live_intent
finalize-evaluate caps a code env h intent later c le l =
    let (b, d, m) = failed_flags caps a code env.now_ms h le in
    rw c (b, d, blocked-refused intent later _ b l)
