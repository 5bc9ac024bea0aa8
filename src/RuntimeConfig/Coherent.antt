-- ===== src/RuntimeConfig/Coherent.antt =====
-- What is requested, what waits and what is applied, where the repository does not throw.
pub mod Runs
use bobby_execute.Base.{
  ℕ, zero, suc, ◌≡◌, refl, sym, ap, ◌∙◌, String, Bool, true, false, not, ◌&&◌, ◌||◌, if◌then◌else◌,
  Option, none, some, List, [], ◌∷◌, ltb, lt→ltb, ◌+◌, ◌<◌, ◌otherwise◌, Bool-cases, inl, inr,
  arith, every,
}
use bobby_execute.RuntimeConfig.Types.{RuntimeBehavior, RuntimeBehaviorPatch, RuntimeOverlay}
use bobby_execute.RuntimeConfig.Behavior.{restart_required_for_patch}
use bobby_execute.RuntimeConfig.Records.{
  Action, reload, restart_ack, ActiveRecord, ConfigState, Manager, Env, Faults,
}
use bobby_execute.RuntimeConfig.Queue.{persist_snapshot}
use bobby_execute.RuntimeConfig.Overlay.{request_overlay}
use bobby_execute.RuntimeConfig.Patch.{request_version, mode_reason, mode_patch, set_mode}
use bobby_execute.RuntimeConfig.Cycle.{reload_config, confirm_restart_applied}
use bobby_execute.RuntimeConfig.Calls.{
  Command, patches, sets_mode, pauses, resumes, reloads, switches, Sender, command, Call, sends,
  acknowledges, begins, ends, refreshes, perform, Performed, perform_all,
}
use bobby_execute.RuntimeConfig.Keeps.{
  Ignores, enqueue-keeps, after_call-keeps, after_call-passes, if-keeps, apply_behavior_patch-keeps,
  set_pause-keeps, resume_runtime-keeps, apply_kill_switch_snapshot-keeps,
}

abbrev pub is_none {ℓ} : {A : Type ℓ} → Option A → Bool
is_none none = true
is_none (some _) = false

-- what will be applied without a restart
abbrev pub upcoming : Manager → ConfigState
upcoming m =
    if m.state.requested.requires_restart
    then m.state.requested
    else m.pending_applied otherwise m.state.applied

-- Unless a restart is due, what waits, or is applied where nothing waits, is what is requested;
-- nothing waits where a restart is due, or where no cycle runs.
pub record Coherent (m : Manager) : Type 0 where
  pub version : (upcoming m).version ≡ m.state.requested.version
  pub overlay : (upcoming m).overlay ≡ m.state.requested.overlay
  pub restart : (not m.state.requested.requires_restart || is_none m.pending_applied) ≡ true
  pub idle : (ltb 0 m.cycle_depth || is_none m.pending_applied) ≡ true

pub Coherent-Ignores : Ignores Coherent
Coherent-Ignores = record {
  queue = λ m e k. record {
    version = k.version;
    overlay = k.overlay;
    restart = k.restart;
    idle = k.idle;
  };
  log = λ m r e k. record {
    version = k.version;
    overlay = k.overlay;
    restart = k.restart;
    idle = k.idle;
  };
}

nothing_waits :
    (b : Bool) (p : Option ConfigState) (a : ConfigState)
    → (b || is_none p) ≡ true
    → b ≡ false
    → (p otherwise a) ≡ a
nothing_waits b none a h c = refl
nothing_waits b (some p) a h c = ground arith

none_waits : (r n : Bool) → (not r || n) ≡ true → r ≡ true → n ≡ true
none_waits r n h k = ground arith

pub or_true : (b : Bool) → (b || true) ≡ true
or_true b = ground arith

pub idle_running : (n : ℕ) (b : Bool) → 0 < n → (ltb 0 n || b) ≡ true
idle_running n b h = ap (λ c. c || b) (lt→ltb 0 n h)

abbrev is_empty {ℓ} : {A : Type ℓ} → List A → Bool
is_empty [] = true
is_empty (_ ∷ _) = false

-- the repository takes the writes at a mutation's end, and no cycle begins or ends meanwhile
abbrev pub takes_writes : Faults → Bool
takes_writes f = is_none f.update_active && is_none f.append_change_log && is_empty f.meanwhile

none_of {ℓ} : {A : Type ℓ} (o : Option A) → is_none o ≡ true → o ≡ none
none_of none h = refl
none_of (some a) h = cc

pub takes_update : (f : Faults) → takes_writes f ≡ true → f.update_active ≡ none
takes_update f h = none_of f.update_active (ground arith)

pub takes_log : (f : Faults) → takes_writes f ≡ true → f.append_change_log ≡ none
takes_log f h = none_of f.append_change_log (ground arith)

nil_of {ℓ} : {A : Type ℓ} (xs : List A) → is_empty xs ≡ true → xs ≡ []
nil_of [] h = refl
nil_of (x ∷ xs) h = cc

pub takes_at_once : (f : Faults) → takes_writes f ≡ true → f.meanwhile ≡ []
takes_at_once f h = nil_of f.meanwhile (ground arith)

pub request_overlay-Coherent :
    (action : Action) (actor : String) (reason : Option String) (queued : String) (env : Env)
    (o : RuntimeOverlay) (set : ActiveRecord → ActiveRecord) (m : Manager)
    → takes_writes env.faults ≡ true
    → Coherent m
    → Coherent (request_overlay action actor reason queued env o set m).0
unfolding request_overlay
request_overlay-Coherent action actor reason queued env o set m f k =
    let w = takes_at_once env.faults f in
    after_call-passes Coherent env.faults.update_active _ _ (takes_update env.faults f) (
      after_call-passes Coherent env.faults.append_change_log _ _ (takes_log env.faults f)
        (elim (Bool-cases (ltb 0 m.cycle_depth)) [
          | inl c ↦ record {
            version = rw (w, c) refl;
            overlay = rw (w, c) refl;
            restart = rw (w, c) refl;
            idle = rw (w, c, c) refl;
          }
          | inr c ↦
              let q = nothing_waits _ m.pending_applied _ k.idle c in
              record {
                version = rw (w, c) (ap (λ s. s.version) q);
                overlay = rw (w, c) (ap (λ s. s.overlay) q);
                restart = rw (w, c) refl;
                idle = rw (w, c) k.idle;
              }
        ]))

pub request_version-Coherent :
    (patch : RuntimeBehaviorPatch) (actor : String) (reason : Option String) (env : Env)
    (b : RuntimeBehavior) (m : Manager)
    → takes_writes env.faults ≡ true
    → Coherent m
    → Coherent (request_version patch actor reason env b m).0
unfolding request_version
request_version-Coherent patch actor reason env b m f k =
    let w = takes_at_once env.faults f in
    after_call-keeps Coherent env.faults.create_version m _ k (
      after_call-passes Coherent env.faults.update_active _ _ (takes_update env.faults f) (
        after_call-passes Coherent env.faults.append_change_log _ _ (takes_log env.faults f)
          (elim (Bool-cases (restart_required_for_patch patch)) [
            | inl r ↦ record {
              version = rw (w, r) refl;
              overlay = rw (w, r) refl;
              restart = rw (w, r) refl;
              idle = rw (w, r) (or_true _);
            }
            | inr r ↦ elim (Bool-cases (ltb 0 m.cycle_depth)) [
              | inl c ↦ record {
                version = rw (w, r, c) refl;
                overlay = rw (w, r, c) refl;
                restart = rw (w, r, c) refl;
                idle = rw (w, r, c) rw c refl;
              }
              | inr c ↦ record {
                version = rw (w, r, c) refl;
                overlay = rw (w, r, c) refl;
                restart = rw (w, r, c) refl;
                idle = rw (w, r, c) rw c refl;
              }
            ]
          ])))

pub reload-Coherent :
    (actor : String) (reason : Option String) (env : Env) (m : Manager)
    → takes_writes env.faults ≡ true
    → Coherent m
    → Coherent (reload_config actor reason env m).0
unfolding reload_config
reload-Coherent actor reason env m f k =
    let w = takes_at_once env.faults f in
    enqueue-keeps Coherent Coherent-Ignores.queue reload _ m k (
      after_call-passes Coherent env.faults.update_active _ _ (takes_update env.faults f) (
        after_call-passes Coherent env.faults.append_change_log _ _ (takes_log env.faults f)
          (elim (Bool-cases m.state.requested.requires_restart) [
            | inl r ↦ record {
              version = rw (w, r) refl;
              overlay = rw (w, r) refl;
              restart = rw (w, r) (none_waits _ _ k.restart r);
              idle = rw (w, r) k.idle;
            }
            | inr r ↦ elim (Bool-cases (ltb 0 m.cycle_depth)) [
              | inl c ↦ record {
                version = rw (w, r, c) refl;
                overlay = rw (w, r, c) refl;
                restart = rw (w, r, c) refl;
                idle = rw (w, r, c) rw c refl;
              }
              | inr c ↦
                  let q = nothing_waits _ m.pending_applied _ k.idle c in
                  record {
                    version = rw (w, r, c) (ap (λ s. s.version) q);
                    overlay = rw (w, r, c) (ap (λ s. s.overlay) q);
                    restart = rw (w, r, c) refl;
                    idle = rw (w, r, c) k.idle;
                  }
            ]
          ])))

pub acknowledge-Coherent :
    (env : Env) (m : Manager)
    → takes_writes env.faults ≡ true
    → Coherent m
    → Coherent (confirm_restart_applied env m).0
unfolding confirm_restart_applied
acknowledge-Coherent env m f k = enqueue-keeps Coherent Coherent-Ignores.queue restart_ack _ m k (
    if-keeps Coherent m.state.active.requires_restart _ _
      (after_call-passes Coherent env.faults.update_active _ _ (takes_update env.faults f)
        (record { version = refl; overlay = refl; restart = refl; idle = (or_true _) }))
      k)
