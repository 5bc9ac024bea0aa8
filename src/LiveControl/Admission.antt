-- ===== src/LiveControl/Admission.antt =====
-- Which live intents `evaluateMicroLiveIntent` admits, and what an admission changes.
use bobby_execute.Base.{ℕ, ◌≡◌, refl, true, some, arith}
use bobby_execute.LiveControl.Types.{
  ExecutionMode, live, RolloutSnapshot, MicroLiveCaps, TradeIntent,
}
use bobby_execute.LiveControl.Config.{
  Env, Try, returns, throws, read_execution_mode, read_rollout_posture,
}
use bobby_execute.LiveControl.State.{Host, cleaned, cleanup_counters}
use bobby_execute.LiveControl.Snapshot.{allowed, is_allowed, refuse}
use bobby_execute.LiveControl.Intents.{
  check_ready, check_config, evaluate_in, evaluate_micro_live_intent,
}
use bobby_execute.LiveControl.Conditions.{Deployed, AdmissibleIn, Admissible}
use bobby_execute.LiveControl.Checks.{attempt_of, launched, check_ready-Ready, Ready-check_ready}

cleanup_counters-control :
    (now : ℕ) (caps : MicroLiveCaps) (h : Host)
    → (cleanup_counters now caps h).control ≡ cleaned now caps h.control
unfolding cleanup_counters
cleanup_counters-control now caps h = ground arith

cleanup_counters-kill_switch :
    (now : ℕ) (caps : MicroLiveCaps) (h : Host)
    → (cleanup_counters now caps h).kill_switch ≡ h.kill_switch
unfolding cleanup_counters
cleanup_counters-kill_switch now caps h = ground arith

evaluate_in-Deployed :
    (intent : TradeIntent) (env : Env) (mode : ExecutionMode) (rollout : RolloutSnapshot)
    (config : Try MicroLiveCaps) (h : Host)
    → intent.execution_mode ≡ live
    → is_allowed (evaluate_in intent env mode rollout config h).1 ≡ true
    → (caps : MicroLiveCaps) × Deployed mode rollout config caps
      × (is_allowed
            (check_ready intent env mode rollout caps (cleanup_counters env.now_ms caps h)).1
          ≡ true)
unfolding evaluate_in check_config refuse
evaluate_in-Deployed intent env mode rollout (throws m) h l e = absurd (ground arith)
evaluate_in-Deployed intent env mode rollout (returns caps) h l e = (
  caps,
  record {
    is_live_mode = ground arith;
    valid = ground arith;
    not_paper = ground arith;
    not_paused = ground arith;
    configured = refl;
  },
  ground arith,
)

evaluate_in-Admissible :
    (intent : TradeIntent) (env : Env) (mode : ExecutionMode) (rollout : RolloutSnapshot)
    (config : Try MicroLiveCaps) (h : Host)
    → intent.execution_mode ≡ live
    → is_allowed (evaluate_in intent env mode rollout config h).1 ≡ true
    → (caps : MicroLiveCaps) × (n : ℕ) × AdmissibleIn intent env mode rollout config h caps n
evaluate_in-Admissible intent env mode rollout config h l e =
    let (caps, d, e') = evaluate_in-Deployed intent env mode rollout config h l e in
    let (n, r, k, b, p) = check_ready-Ready intent env mode rollout caps _ e' in
    let c = cleanup_counters-control env.now_ms caps h in
    (
      caps,
      n,
      record {
        deployed = d;
        ready = rw c at r;
        unhalted = rw (← cleanup_counters-kill_switch env.now_ms caps h) k;
        bounded = rw c at b;
        paced = rw c at p;
      },
    )

-- A live intent that is admitted was admissible: the deployment is live under a valid posture that
-- permits it, the configuration is readable, the kill switch is off, the control is not blocked and
-- is armed where that is required, a staged posture is ready, the amount is a positive number within
-- the cap of a trade, the token is listed where there is a list, the live-test round is running in
-- live-test mode, and the trade window, the daily amount, the executions under way and the cooldown
-- leave room.
pub evaluate-Admissible :
    (intent : TradeIntent) (env : Env) (h : Host)
    → intent.execution_mode ≡ live
    → is_allowed (evaluate_micro_live_intent intent env h).1 ≡ true
    → (caps : MicroLiveCaps) × (n : ℕ) × Admissible intent env h caps n
unfolding evaluate_micro_live_intent
evaluate-Admissible intent env h l e = evaluate_in-Admissible intent env _ _ _ h l e

-- An admissible live intent is admitted with its amount, and all that the admission changes of the
-- cleaned-up state is the number of executions under way, which grows by one, and the repository.
pub Admissible-evaluate :
    (intent : TradeIntent) (env : Env) (h : Host) (caps : MicroLiveCaps) (n : ℕ)
    → intent.execution_mode ≡ live
    → Admissible intent env h caps n
    → evaluate_micro_live_intent intent env h
      ≡ (launched (cleanup_counters env.now_ms caps h), allowed (some (attempt_of intent env n)))
unfolding evaluate_micro_live_intent evaluate_in check_config
Admissible-evaluate intent env h caps n l a =
    let c = cleanup_counters-control env.now_ms caps h in
    ground (
      arith,
      a.deployed.is_live_mode,
      a.deployed.valid,
      a.deployed.not_paper,
      a.deployed.not_paused,
      a.deployed.configured,
      Ready-check_ready intent env (read_execution_mode env)
          (read_rollout_posture env (read_execution_mode env)) caps n
          (cleanup_counters env.now_ms caps h) (rw c a.ready)
          (rw (cleanup_counters-kill_switch env.now_ms caps h) a.unhalted) (rw c a.bounded)
          (rw c a.paced),
    )
