-- ===== src/RuntimeConfig/Keeps.antt =====
-- What every end of a mutation's work keeps, the mutation keeps.
use bobby_execute.Base.{
  String, ◌≡◌, refl, sym, ap, Bool, true, false, not, ◌&&◌, Option, none, some, ◌⊎◌, inl, inr,
  if◌then◌else◌, ◌otherwise◌, arith,
}
use mathlib.Core.Path.{subst}
use bobby_execute.KillSwitch.{KillSwitchState}
use bobby_execute.RuntimeConfig.Types.{
  PauseScope, RuntimeBehavior, RuntimeBehaviorPatch, RuntimeOverlay,
}
use bobby_execute.RuntimeConfig.Behavior.{is_valid_patch}
use bobby_execute.RuntimeConfig.Records.{
  Action, pause, resume, kill_switch, runtime_config, Manager, Env, Repository,
}
use bobby_execute.RuntimeConfig.Queue.{
  MutationResult, Work, ended, threw, run_work, enqueue_on, enqueue, after_call, refuse,
}
use bobby_execute.RuntimeConfig.Overlay.{
  request_overlay, set_pause, resume_runtime, apply_kill_switch_snapshot,
}
use bobby_execute.RuntimeConfig.Patch.{
  request_version, is_live_patch, patch_merged, apply_behavior_patch,
}

pub option-cases {ℓ} : {A : Type ℓ} (o : Option A) → (o ≡ none) ⊎ ((a : A) × o ≡ some a)
option-cases none = inl refl
option-cases (some a) = inr (a, refl)

-- A property of the manager that the promise of its queue has no part in.
module _ (P : Manager → Type 0)
    (free : (m : Manager) (e : String) → P m → P (record m { queue = some e })) where
  pub run_work-keeps : (action : Action) (w : Work) → P w.0 → P (run_work action w).0
  run_work-keeps action (m, ended r) k = k
  run_work-keeps action (m, threw e) k = free m e k

  enqueue_on-keeps :
      (queue : Option String) (action : Action) (work : Manager → Work) (m : Manager)
      → P m
      → P (work m).0
      → P (enqueue_on queue action work m).0
  enqueue_on-keeps (some e) action work m k h = k
  enqueue_on-keeps none action work m k h = run_work-keeps action (work m) h

  pub enqueue-keeps :
      (action : Action) (work : Manager → Work) (m : Manager)
      → P m
      → P (work m).0
      → P (enqueue action work m).0
  unfolding enqueue
  enqueue-keeps action work m k h = enqueue_on-keeps m.queue action work m k h

pub after_call-keeps :
    (P : Manager → Type 0) (fault : Option String) (m : Manager) (next : Work)
    → P m
    → P next.0
    → P (after_call fault m next).0
after_call-keeps P none m next k h = h
after_call-keeps P (some e) m next k h = k

-- a refusal appends to the change log at most
pub refuse-keeps :
    (P : Manager → Type 0) (action : Action) (actor : String) (reason : Option String)
    (rejection : String) (env : Env) (m : Manager)
    → P m
    → ((r : Repository) → r.active ≡ m.repository.active → P (record m { repository = r }))
    → P (refuse action actor reason rejection env m).0
refuse-keeps P action actor reason rejection env m k h =
    after_call-keeps P env.faults.append_change_log m _ k (h _ refl)

pub if-keeps :
    (P : Manager → Type 0) (b : Bool) (x y : Work) → P x.0 → P y.0 → P (if b then x else y).0
if-keeps P true x y k h = k
if-keeps P false x y k h = h

-- What the queue has no part in, and the change log has none in.
pub record Ignores (P : Manager → Type 0) : Type 0 where
  pub queue : (m : Manager) (e : String) → P m → P (record m { queue = some e })
  pub log :
      (m : Manager) (r : Repository)
      → r.active ≡ m.repository.active
      → P m
      → P (record m { repository = r })

module _ (P : Manager → Type 0) (free : Ignores P) where
  patch_merged-keeps :
      (patch : RuntimeBehaviorPatch) (actor : String) (reason : Option String) (env : Env)
      (b : Option RuntimeBehavior) (m : Manager)
      → P m
      → ((behavior : RuntimeBehavior) → P (request_version patch actor reason env behavior m).0)
      → P (patch_merged patch actor reason env b m).0
  patch_merged-keeps patch actor reason env none m k h = k
  patch_merged-keeps patch actor reason env (some b) m k h = h b

  pub apply_behavior_patch-keeps :
      (patch : RuntimeBehaviorPatch) (actor : String) (reason : Option String) (env : Env)
      (allow : Bool) (m : Manager)
      → P m
      → ((behavior : RuntimeBehavior) → P (request_version patch actor reason env behavior m).0)
      → P (apply_behavior_patch patch actor reason env allow m).0
  unfolding apply_behavior_patch
  apply_behavior_patch-keeps patch actor reason env allow m k h =
      enqueue-keeps P free.queue runtime_config _ m k (
        if-keeps P (not (is_valid_patch patch)) _ _
          (refuse-keeps P runtime_config actor reason _ env m k (λ r e. free.log m r e k))
          (if-keeps P (is_live_patch patch.mode && not allow) _ _
            (refuse-keeps P runtime_config actor reason _ env m k (λ r e. free.log m r e k))
            (patch_merged-keeps patch actor reason env _ m k h)))

  -- A command keeps what its end keeps.
  pub set_pause-keeps :
      (scope : PauseScope) (actor : String) (reason : Option String) (env : Env) (m : Manager)
      → P m
      → ((o : RuntimeOverlay)
          → o.kill_switch ≡ m.state.requested.overlay.kill_switch
          → P
              (request_overlay pause actor reason "pause queued until cycle boundary" env o
                (λ a. a)
                m).0)
      → P (set_pause scope actor reason env m).0
  unfolding set_pause
  set_pause-keeps scope actor reason env m k h = enqueue-keeps P free.queue pause _ m k (h _ refl)

  pub resume_runtime-keeps :
      (actor : String) (reason : Option String) (env : Env) (m : Manager)
      → P m
      → ((o : RuntimeOverlay)
          → o.kill_switch ≡ m.state.requested.overlay.kill_switch
          → P
              (request_overlay resume actor reason "resume queued until cycle boundary" env o
                (λ a. a)
                m).0)
      → P (resume_runtime actor reason env m).0
  unfolding resume_runtime
  resume_runtime-keeps actor reason env m k h = enqueue-keeps P free.queue resume _ m k (
      if-keeps P m.state.requested.overlay.kill_switch _ _
        (refuse-keeps P resume actor reason _ env m k (λ r e. free.log m r e k)) (h _ refl))

  pub apply_kill_switch_snapshot-keeps :
      (next : KillSwitchState) (actor : String) (reason : Option String) (env : Env) (m : Manager)
      → P m
      → ((env' : Env) (why : Option String) (o : RuntimeOverlay)
          → o.kill_switch ≡ next.halted
          → env'.faults ≡ env.faults
          → P
              (request_overlay kill_switch actor why "kill switch queued until cycle boundary" env'
                o
                (λ a. record a {
                  kill_switch = o.kill_switch;
                  kill_switch_reason = o.kill_switch_reason;
                })
                m).0)
      → P (apply_kill_switch_snapshot next actor reason env m).0
  unfolding apply_kill_switch_snapshot
  apply_kill_switch_snapshot-keeps next actor reason env m k h =
      enqueue-keeps P free.queue kill_switch _ m k
        (h (record env { now = next.triggered_at otherwise env.now }) _ _ refl refl)

-- A call of the repository that does not throw.
pub after_call-passes :
    (P : Manager → Type 0) (fault : Option String) (m : Manager) (next : Work)
    → fault ≡ none
    → P next.0
    → P (after_call fault m next).0
after_call-passes P none m next e h = h
after_call-passes P (some x) m next e h = cc

-- The queue of a manager none of whose works has thrown calls the work.
pub enqueue-open :
    (action : Action) (work : Manager → Work) (m : Manager)
    → m.queue ≡ none
    → enqueue action work m ≡ run_work action (work m)
unfolding enqueue
enqueue-open action work m e = ap (λ queue. enqueue_on queue action work m) e

-- The kill switch's snapshot, where the queue is open, leads to what its end leads to.
pub apply_kill_switch_snapshot-open :
    (P : Manager → Type 0) (free : Ignores P) (next : KillSwitchState) (actor : String)
    (reason : Option String) (env : Env) (m : Manager)
    → m.queue ≡ none
    → ((env' : Env) (why : Option String) (o : RuntimeOverlay)
        → o.kill_switch ≡ next.halted
        → env'.faults ≡ env.faults
        → P
            (request_overlay kill_switch actor why "kill switch queued until cycle boundary" env' o
              (λ a. record a {
                kill_switch = o.kill_switch;
                kill_switch_reason = o.kill_switch_reason;
              })
              m).0)
    → P (apply_kill_switch_snapshot next actor reason env m).0
unfolding apply_kill_switch_snapshot
apply_kill_switch_snapshot-open P free next actor reason env m q h =
    subst (λ (w : Manager × MutationResult). P w.0) (sym (enqueue-open kill_switch _ m q))
      (run_work-keeps P free.queue kill_switch _
        (h (record env { now = next.triggered_at otherwise env.now }) _ _ refl refl))

pub and_left : (a b : Bool) → (a && b) ≡ true → a ≡ true
and_left a b h = ground arith

pub and_right : (a b : Bool) → (a && b) ≡ true → b ≡ true
and_right a b h = ground arith
