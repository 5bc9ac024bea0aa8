-- ===== src/RuntimeConfig/Halt.antt =====
-- The kill switch of the runtime configuration in front of the micro-live control.
use bobby_execute.Base.{
  ◌≡◌, refl, ap, ◌∙◌, String, Bool, true, false, Option, none, some, List, every, Bool-cases, inl,
  inr, arith, ltb,
}
use bobby_execute.KillSwitch.{KillSwitchState}
use bobby_execute.LiveControl.Types.{
  ExecutionMode, live, paused_or_rolled_back, ControlView, TradeIntent,
}
use bobby_execute.LiveControl.Config
use bobby_execute.LiveControl.Config.{read_rollout_posture, read_execution_mode}
use bobby_execute.LiveControl.State.{Host}
use bobby_execute.LiveControl.Intents.{evaluate_micro_live_intent}
use bobby_execute.LiveControl.Snapshot.{is_allowed}
use bobby_execute.LiveControl.Admission.{evaluate-Admissible}
use bobby_execute.RuntimeConfig.Types.{RuntimeBehavior, RuntimeOverlay}
use bobby_execute.RuntimeConfig.Records.{
  ActiveRecord, kill_switch, SignalState, VersionRecord, Repository, Manager, Env,
}
use bobby_execute.RuntimeConfig.Views.{build_control_view}
use bobby_execute.RuntimeConfig.Overlay.{request_overlay, apply_kill_switch_snapshot}
use bobby_execute.RuntimeConfig.Restore.{state_of, initialized, initialize_with, initialize}
use bobby_execute.RuntimeConfig.Calls.{switches, Sender, command, Performed, perform_all}
use bobby_execute.RuntimeConfig.Keeps.{
  after_call-passes, after_call-keeps, apply_kill_switch_snapshot-open,
}
use bobby_execute.RuntimeConfig.Killed.{Killed, Killed-Ignores, five, waiting_killed, stored_killed}
use bobby_execute.RuntimeConfig.Killed.Boundary.{finish_request-Killed, pass-Killed}
use bobby_execute.RuntimeConfig.Killed.Runs.{is_no_reset, perform_all-Killed}

-- outside a cycle, where the repository takes the active record
request_overlay-triggered :
    (actor : String) (reason : Option String) (queued : String) (env : Env) (o : RuntimeOverlay)
    (m : Manager)
    → o.kill_switch ≡ true
    → ltb 0 m.cycle_depth ≡ false
    → waiting_killed m.pending_applied ≡ true
    → env.faults.update_active ≡ none
    → Killed
        (request_overlay kill_switch actor reason queued env o
          (λ a. record a { kill_switch = o.kill_switch; kill_switch_reason = o.kill_switch_reason })
          m).0
unfolding request_overlay
request_overlay-triggered actor reason queued env o m h c w f =
    let passed = pass-Killed env.faults.meanwhile env _ (five h (rw c h) h w h) in
    after_call-passes Killed env.faults.update_active _ _ f (
      after_call-keeps Killed env.faults.append_change_log _ _ passed
        (finish_request-Killed _ _ env _ h (Killed-Ignores.log _ _ refl passed)))

trigger-Killed :
    (next : KillSwitchState) (s : Sender) (m : Manager)
    → next.halted ≡ true
    → m.queue ≡ none
    → m.cycle_depth ≡ 0
    → m.pending_applied ≡ none
    → s.env.faults.update_active ≡ none
    → Killed (command (switches next) s m)
unfolding command apply_kill_switch_snapshot
trigger-Killed next s m h q d w f =
    apply_kill_switch_snapshot-open Killed Killed-Ignores next s.actor s.reason s.env m q
      (λ env why o e same.
        request_overlay-triggered s.actor why _ env o m (e ∙ h) (rw d refl) (ap waiting_killed w)
          (ap (λ x. x.update_active) same ∙ f))

-- a view with the kill switch on
posture-killed :
    (env : Config.Env) (mode : ExecutionMode) (view : ControlView)
    → env.view ≡ some view
    → view.kill_switch ≡ true
    → (read_rollout_posture env mode).posture ≡ paused_or_rolled_back
unfolding read_rollout_posture
posture-killed env mode view v k = ground arith

killed_view-refused :
    (intent : TradeIntent) (env : Config.Env) (h : Host) (view : ControlView)
    → intent.execution_mode ≡ live
    → env.view ≡ some view
    → view.kill_switch ≡ true
    → is_allowed (evaluate_micro_live_intent intent env h).1 ≡ false
killed_view-refused intent env h view l v k =
    elim (Bool-cases (is_allowed (evaluate_micro_live_intent intent env h).1)) [
      | inl a ↦
          let (caps, n, good) = evaluate-Admissible intent env h l a in
          absurd (good.deployed.not_paused (posture-killed env (read_execution_mode env) view v k))
      | inr a ↦ a
    ]

-- the applied kill switch of a process that starts
abbrev pub starts_killed : Option Manager → Bool
starts_killed none = true
starts_killed (some m) = m.state.applied.overlay.kill_switch

initialized-starts_killed :
    (env : Env) (store : Option SignalState) (r : Repository) (a : ActiveRecord)
    (v : Option VersionRecord)
    → a.kill_switch ≡ true
    → starts_killed (initialized env store r a v) ≡ true
unfolding state_of
initialized-starts_killed env store r a none h = refl
initialized-starts_killed env store r a (some v) h = h

initialize_with-starts_killed :
    (b : RuntimeBehavior) (actor : String) (env : Env) (store : Option SignalState) (r : Repository)
    (active : Option ActiveRecord)
    → stored_killed active ≡ true
    → starts_killed (initialize_with b actor env store r active) ≡ true
initialize_with-starts_killed b actor env store r none h = cc
initialize_with-starts_killed b actor env store r (some a) h =
    initialized-starts_killed env store r a _ h

-- Where no mutation has thrown so far and nothing waits, and the kill switch is triggered outside a
-- cycle with the repository taking the write of the active record, then after any further calls that
-- are no reset of it, with faults of the repository or without, commands, cycles, restarts'
-- acknowledgements and refreshes alike, also where cycles begin or end while a mutation waits for the
-- repository, no live intent is admitted by a micro-live control that reads the manager's view, and
-- a process that starts from the repository starts with the switch on, or does not start.
pub trigger-refuses :
    (next : KillSwitchState) (s : Sender) (m : Manager) (cs : List Performed) (intent : TradeIntent)
    (live_env : Config.Env) (h : Host) (b : RuntimeBehavior) (actor : String) (env : Env)
    (store : Option SignalState)
    → next.halted ≡ true
    → m.queue ≡ none
    → m.cycle_depth ≡ 0
    → m.pending_applied ≡ none
    → s.env.faults.update_active ≡ none
    → every (λ c. is_no_reset c.call) cs ≡ true
    → intent.execution_mode ≡ live
    → let later = perform_all cs (command (switches next) s m) in
      live_env.view ≡ some (build_control_view later.state)
      → is_allowed (evaluate_micro_live_intent intent live_env h).1 ≡ false
        × starts_killed (initialize b actor env store later.repository) ≡ true
unfolding build_control_view initialize
trigger-refuses next s m cs intent live_env h b actor env store t q d w f r l v =
    let k =
      perform_all-Killed cs (command (switches next) s m) r (trigger-Killed next s m t q d w f) in
    (
      killed_view-refused intent live_env h _ l v k.applied,
      initialize_with-starts_killed b actor env store
          (perform_all cs (command (switches next) s m)).repository
          (perform_all cs (command (switches next) s m)).repository.active k.stored,
    )
