-- ===== src/RuntimeConfig/Killed/Runs.antt =====
-- Runs of calls that keep the kill switch on, each call that is no reset of it.
use bobby_execute.Base.{
  ◌≡◌, refl, ◌∙◌, String, Bool, true, false, ◌||◌, not, ◌&&◌, if◌then◌else◌, Option, none, some,
  List, [], ◌∷◌, ltb, ◌otherwise◌, Bool-cases, inl, inr, every,
}
use bobby_execute.RuntimeConfig.Records.{
  VersionRecord, Action, reload, restart_ack, ActiveRecord, ConfigState, Manager, Env,
}
use bobby_execute.RuntimeConfig.Patch.{
  finish_version, request_version, mode_reason, mode_patch, set_mode,
}
use bobby_execute.RuntimeConfig.Cycle.{reload_config, confirm_restart_applied, after_reload}
use bobby_execute.RuntimeConfig.Boundary.{begin_cycle}
use bobby_execute.RuntimeConfig.Overlay.{request_overlay}
use bobby_execute.RuntimeConfig.Types.{RuntimeOverlay, RuntimeBehavior, RuntimeBehaviorPatch}
use bobby_execute.RuntimeConfig.Behavior.{restart_required_for_patch}
use bobby_execute.RuntimeConfig.Restore.{state_of}
use bobby_execute.RuntimeConfig.Refresh.{same_active, refreshed_from, refresh_from, refresh}
use bobby_execute.RuntimeConfig.Calls.{
  Command, patches, sets_mode, pauses, resumes, reloads, switches, Sender, command, Call, sends,
  acknowledges, begins, ends, refreshes, perform, Performed, perform_all,
}
use bobby_execute.RuntimeConfig.Keeps.{
  and_left, and_right, enqueue-keeps, after_call-keeps, if-keeps, apply_behavior_patch-keeps,
  set_pause-keeps, resume_runtime-keeps, apply_kill_switch_snapshot-keeps,
}
use bobby_execute.RuntimeConfig.Killed.{waiting_killed, stored_killed, Killed, Killed-Ignores, five}
use bobby_execute.RuntimeConfig.Killed.Boundary.{
  persist_snapshot-Killed, depth-Killed, end_cycle-Killed, finish_request-Killed, pass-Killed,
}

after_reload-Killed :
    (restart cycling : Bool) (p : ConfigState) (env : Env) (m : Manager)
    → p.overlay.kill_switch ≡ true
    → Killed m
    → Killed (after_reload restart cycling p env m)
after_reload-Killed true cycling p env m h k = k
after_reload-Killed false cycling p env m h k = finish_request-Killed cycling p env m h k

either_killed :
    (b : Bool) (p q : ConfigState)
    → p.overlay.kill_switch ≡ true
    → q.overlay.kill_switch ≡ true
    → (if b then p else q).overlay.kill_switch ≡ true
either_killed true p q h k = h
either_killed false p q h k = k

reload-Killed :
    (actor : String) (reason : Option String) (env : Env) (m : Manager)
    → Killed m
    → Killed (reload_config actor reason env m).0
unfolding reload_config
reload-Killed actor reason env m k =
    let cycling = ltb 0 m.cycle_depth in
    let restart = m.state.requested.requires_restart in
    let applied = either_killed (cycling || restart) m.state.applied _ k.applied k.requested in
    let passed =
      pass-Killed env.faults.meanwhile env _
        (five k.requested applied k.active k.waiting k.requested) in
    enqueue-keeps Killed Killed-Ignores.queue reload _ m k (
      after_call-keeps Killed env.faults.update_active _ _
        (five k.requested applied k.active k.waiting k.stored)
        (after_call-keeps Killed env.faults.append_change_log _ _ passed
          (after_reload-Killed restart _ _ env _ k.requested (Killed-Ignores.log _ _ refl passed))))

request_overlay-Killed :
    (action : Action) (actor : String) (reason : Option String) (queued : String) (env : Env)
    (o : RuntimeOverlay) (set : ActiveRecord → ActiveRecord) (m : Manager)
    → o.kill_switch ≡ true
    → ((a : ActiveRecord) → a.kill_switch ≡ true → (set a).kill_switch ≡ true)
    → Killed m
    → Killed (request_overlay action actor reason queued env o set m).0
unfolding request_overlay
request_overlay-Killed action actor reason queued env o set m h s k =
    let applied = either_killed (ltb 0 m.cycle_depth) m.state.applied _ k.applied h in
    let passed =
      pass-Killed env.faults.meanwhile env _ (five h applied (s _ k.active) k.waiting h) in
    after_call-keeps Killed env.faults.update_active _ _
      (five h applied (s _ k.active) k.waiting k.stored)
      (after_call-keeps Killed env.faults.append_change_log _ _ passed
        (finish_request-Killed _ _ env _ h (Killed-Ignores.log _ _ refl passed)))

either_waiting :
    (b : Bool) (p : ConfigState)
    → p.overlay.kill_switch ≡ true
    → waiting_killed (if b then none else some p) ≡ true
either_waiting true p h = refl
either_waiting false p h = h

finish_version-Killed :
    (now : Bool) (env : Env) (m : Manager) → Killed m → Killed (finish_version now env m)
finish_version-Killed true env m k = persist_snapshot-Killed env m k
finish_version-Killed false env m k = five k.requested k.applied k.active k.waiting k.stored

request_version-Killed :
    (patch : RuntimeBehaviorPatch) (actor : String) (reason : Option String) (env : Env)
    (b : RuntimeBehavior) (m : Manager)
    → Killed m
    → Killed (request_version patch actor reason env b m).0
unfolding request_version
request_version-Killed patch actor reason env b m k =
    let restart = restart_required_for_patch patch in
    let now = not restart && not (ltb 0 m.cycle_depth) in
    let applied = either_killed now _ m.state.applied k.requested k.applied in
    let waiting = either_waiting (restart || now) _ k.requested in
    let passed =
      pass-Killed env.faults.meanwhile env _
        (five k.requested applied k.requested waiting k.requested) in
    after_call-keeps Killed env.faults.create_version m _ k (
      after_call-keeps Killed env.faults.update_active _ _
        (five k.requested applied k.requested waiting k.stored)
        (after_call-keeps Killed env.faults.append_change_log _ _ passed
          (finish_version-Killed now env _ (Killed-Ignores.log _ _ refl passed))))

acknowledge-Killed : (env : Env) (m : Manager) → Killed m → Killed (confirm_restart_applied env m).0
unfolding confirm_restart_applied
acknowledge-Killed env m k = enqueue-keeps Killed Killed-Ignores.queue restart_ack _ m k (
    if-keeps Killed m.state.active.requires_restart _ _
      (after_call-keeps Killed env.faults.update_active _ _
        (five k.requested k.requested k.active refl k.stored)
        (five k.requested k.requested k.active refl k.active))
      k)

refreshed_from-Killed :
    (env : Env) (m : Manager) (a : ActiveRecord) (v : Option VersionRecord)
    → a.kill_switch ≡ true
    → Killed m
    → m.repository.active ≡ some a
    → Killed (refreshed_from env m a v).0
unfolding state_of
refreshed_from-Killed env m a none h k e = k
refreshed_from-Killed env m a (some v) h k e = five h h h refl k.stored

refresh_from-Killed :
    (env : Env) (m : Manager) (active : Option ActiveRecord)
    → stored_killed active ≡ true
    → Killed m
    → m.repository.active ≡ active
    → Killed (refresh_from env m active).0
refresh_from-Killed env m none h k e = k
refresh_from-Killed env m (some a) h k e = elim (Bool-cases (same_active a m.state.active)) [
  | inl s ↦ rw s (persist_snapshot-Killed env m k)
  | inr s ↦ rw s (refreshed_from-Killed env m a _ h k e)
]

-- a command that is no reset of the kill switch
abbrev pub is_no_reset : Call → Bool
is_no_reset (sends (switches next)) = next.halted
is_no_reset _ = true

command-Killed :
    (c : Command) (s : Sender) (m : Manager)
    → is_no_reset (sends c) ≡ true
    → Killed m
    → Killed (command c s m)
unfolding command set_mode
command-Killed (patches patch allow) s m h k =
    apply_behavior_patch-keeps Killed Killed-Ignores patch s.actor s.reason s.env allow m k
      (λ b. request_version-Killed patch s.actor s.reason s.env b m k)
command-Killed (sets_mode mode) s m h k =
    apply_behavior_patch-keeps Killed Killed-Ignores (mode_patch mode) s.actor
      (some (s.reason otherwise mode_reason mode)) s.env true m k
      (λ b.
        request_version-Killed (mode_patch mode) s.actor
          (some (s.reason otherwise mode_reason mode)) s.env b m k)
command-Killed (pauses scope) s m h k =
    set_pause-keeps Killed Killed-Ignores scope s.actor s.reason s.env m k (λ o e.
      request_overlay-Killed _ s.actor s.reason _ s.env o _ m (e ∙ k.requested) (λ a t. t) k)
command-Killed resumes s m h k =
    resume_runtime-keeps Killed Killed-Ignores s.actor s.reason s.env m k (λ o e.
      request_overlay-Killed _ s.actor s.reason _ s.env o _ m (e ∙ k.requested) (λ a t. t) k)
command-Killed reloads s m h k = reload-Killed s.actor s.reason s.env m k
command-Killed (switches next) s m h k =
    apply_kill_switch_snapshot-keeps Killed Killed-Ignores next s.actor s.reason s.env m k
      (λ env why o e _. request_overlay-Killed _ s.actor why _ env o _ m (e ∙ h) (λ a t. e ∙ h) k)

perform-Killed :
    (c : Call) (s : Sender) (m : Manager) → is_no_reset c ≡ true → Killed m → Killed (perform c s m)
unfolding perform begin_cycle refresh
perform-Killed (sends c) s m h k = command-Killed c s m h k
perform-Killed acknowledges s m h k = acknowledge-Killed s.env m k
perform-Killed begins s m h k = depth-Killed _ m k
perform-Killed ends s m h k = end_cycle-Killed s.env m k
perform-Killed refreshes s m h k = refresh_from-Killed s.env m m.repository.active k.stored k refl

pub perform_all-Killed :
    (cs : List Performed) (m : Manager)
    → every (λ c. is_no_reset c.call) cs ≡ true
    → Killed m
    → Killed (perform_all cs m)
unfolding perform_all
perform_all-Killed [] m h k = k
perform_all-Killed (c ∷ cs) m h k =
    perform_all-Killed cs (perform c.call c.sender m) (and_right _ _ h)
      (perform-Killed c.call c.sender m (and_left _ _ h) k)
