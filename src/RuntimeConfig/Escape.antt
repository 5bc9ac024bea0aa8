-- ===== src/RuntimeConfig/Escape.antt =====
-- A version that waits for a restart, and a pause before it.
use bobby_execute.Base.{
  ◌≡◌, refl, sym, ap, ◌∙◌, String, Bool, true, false, not, ◌&&◌, Option, none, some, ltb,
}
use mathlib.Core.Path.{subst}
use bobby_execute.RuntimeConfig.Types.{PauseScope, RuntimeBehavior, RuntimeBehaviorPatch}
use bobby_execute.RuntimeConfig.Behavior.{
  is_valid_patch, build_runtime_behavior_from_seed, restart_required_for_patch,
}
use bobby_execute.RuntimeConfig.Records.{pause, runtime_config, Manager}
use bobby_execute.RuntimeConfig.Views.{build_status}
use bobby_execute.RuntimeConfig.Queue.{MutationResult, Work, run_work, after_call}
use bobby_execute.RuntimeConfig.Overlay.{request_overlay, set_pause}
use bobby_execute.RuntimeConfig.Patch.{
  is_live_patch, request_version, patch_merged, apply_behavior_patch,
}
use bobby_execute.RuntimeConfig.Calls.{Sender}
use bobby_execute.RuntimeConfig.Keeps.{enqueue-open}
use bobby_execute.RuntimeConfig.Coherent.{takes_writes, takes_update, takes_log, takes_at_once}
use bobby_execute.RuntimeConfig.Locked.{reaches}

pub after_call-open :
    (fault : Option String) (m : Manager) (next : Work)
    → fault ≡ none
    → after_call fault m next ≡ next
after_call-open fault m next h = ap (λ f. after_call f m next) h

-- a manager after a patch that requires a restart
record Waits (b : RuntimeBehavior) (m m1 : Manager) : Type 0 where
  queue : m1.queue ≡ none
  idle : ltb 0 m1.cycle_depth ≡ false
  applied : m1.state.applied ≡ m.state.applied
  requested : m1.state.requested.version.config ≡ b
  restart : m1.state.active.requires_restart ≡ true

request_version-Waits :
    (patch : RuntimeBehaviorPatch) (s : Sender) (b : RuntimeBehavior) (m : Manager)
    → m.queue ≡ none
    → ltb 0 m.cycle_depth ≡ false
    → s.env.faults.create_version ≡ none
    → takes_writes s.env.faults ≡ true
    → restart_required_for_patch patch ≡ true
    → Waits b m (run_work runtime_config (request_version patch s.actor s.reason s.env b m)).0
unfolding request_version
request_version-Waits patch s b m q d c f r =
    let w = takes_at_once s.env.faults f in
    let goal = λ (w : Work). Waits b m (run_work runtime_config w).0 in
    subst goal (sym (after_call-open _ _ _ c)) (
      subst goal (sym (after_call-open _ _ _ (takes_update s.env.faults f))) (
        subst goal (sym (after_call-open _ _ _ (takes_log s.env.faults f))) (record {
          queue = rw (w, r) q;
          idle = rw (w, r) d;
          applied = rw (w, r) refl;
          requested = rw (w, r) refl;
          restart = rw (w, r) refl;
        })))

patch-Waits :
    (patch : RuntimeBehaviorPatch) (s : Sender) (allow : Bool) (b : RuntimeBehavior) (m : Manager)
    → m.queue ≡ none
    → ltb 0 m.cycle_depth ≡ false
    → s.env.faults.create_version ≡ none
    → takes_writes s.env.faults ≡ true
    → is_valid_patch patch ≡ true
    → (is_live_patch patch.mode && not allow) ≡ false
    → build_runtime_behavior_from_seed m.state.requested.version.config patch ≡ some b
    → restart_required_for_patch patch ≡ true
    → Waits b m (apply_behavior_patch patch s.actor s.reason s.env allow m).0
unfolding apply_behavior_patch
patch-Waits patch s allow b m q d c f v l e r =
    subst (λ (out : Manager × MutationResult). Waits b m out.0)
      (sym (enqueue-open runtime_config _ m q))
      (subst (λ w. Waits b m (run_work runtime_config w).0)
        (sym (reaches _ _ _ _ _ v l ∙ ap (λ o. patch_merged patch s.actor s.reason s.env o m) e))
        (request_version-Waits patch s b m q d c f r))

pause-restart :
    (s : Sender) (scope : PauseScope) (b : RuntimeBehavior) (m m1 : Manager)
    → takes_writes s.env.faults ≡ true
    → Waits b m m1
    → let m2 = (set_pause scope s.actor s.reason s.env m1).0 in
      m2.state.applied.version.config ≡ b
      × (build_status m2.state).requires_restart ≡ false
      × m2.state.active.requires_restart ≡ true
unfolding set_pause request_overlay build_status
pause-restart s scope b m m1 f w =
    let q = takes_at_once s.env.faults f in
    let goal = λ (out : Manager × MutationResult).
      (out.0.state.applied.version.config ≡ b)
      × (build_status out.0.state).requires_restart ≡ false
      × out.0.state.active.requires_restart ≡ true in
    let goal_of = λ (x : Work). goal (run_work pause x) in
    subst goal (sym (enqueue-open pause _ m1 w.queue)) (
      subst goal_of (sym (after_call-open _ _ _ (takes_update s.env.faults f))) (
        subst goal_of (sym (after_call-open _ _ _ (takes_log s.env.faults f)))
          (rw (q, w.idle) w.requested, rw (q, w.idle) refl, rw (q, w.idle) w.restart)))

-- Outside a cycle, where no mutation has thrown so far and the repository takes the writes, with no
-- cycle that begins or ends while it is awaited, a patch
-- that is valid, alone and merged, that asks for no live mode without the right to, and that requires
-- a restart leaves the applied configuration as it was, and a pause after it applies the patched
-- behaviour without the restart: the status then asks for no restart, while the active record in
-- memory still does.
pub pause-applies_restart :
    (patch : RuntimeBehaviorPatch) (s : Sender) (allow : Bool) (b : RuntimeBehavior) (m : Manager)
    (scope : PauseScope)
    → m.queue ≡ none
    → ltb 0 m.cycle_depth ≡ false
    → s.env.faults.create_version ≡ none
    → takes_writes s.env.faults ≡ true
    → is_valid_patch patch ≡ true
    → (is_live_patch patch.mode && not allow) ≡ false
    → build_runtime_behavior_from_seed m.state.requested.version.config patch ≡ some b
    → restart_required_for_patch patch ≡ true
    → let m1 = (apply_behavior_patch patch s.actor s.reason s.env allow m).0 in
      let m2 = (set_pause scope s.actor s.reason s.env m1).0 in
      m1.state.applied ≡ m.state.applied
      × m2.state.applied.version.config ≡ b
      × (build_status m2.state).requires_restart ≡ false
      × m2.state.active.requires_restart ≡ true
pause-applies_restart patch s allow b m scope q d c f v l e r =
    let m1 = (apply_behavior_patch patch s.actor s.reason s.env allow m).0 in
    let w = patch-Waits patch s allow b m q d c f v l e r in
    let (x, y, z) = pause-restart s scope b m m1 f w in (w.applied, x, y, z)
