-- ===== src/RuntimeConfig/Steady.antt =====
-- The applied configuration during a cycle.
use bobby_execute.Base.{
  ◌≡◌, refl, ◌∙◌, String, Bool, true, false, not, ◌&&◌, Option, some, List, [], ◌∷◌, ltb, lt→ltb,
  ap, ◌<◌, Bool-cases, inl, inr, arith, ◌otherwise◌,
}
use bobby_execute.RuntimeConfig.Types.{RuntimeBehaviorPatch, RuntimeOverlay, RuntimeBehavior}
use bobby_execute.RuntimeConfig.Records.{Action, reload, ActiveRecord, Manager, Env}
use bobby_execute.RuntimeConfig.Behavior.{restart_required_for_patch}
use bobby_execute.RuntimeConfig.Overlay.{request_overlay}
use bobby_execute.RuntimeConfig.Cycle.{reload_config}
use bobby_execute.RuntimeConfig.Patch.{request_version, mode_reason, mode_patch, set_mode}
use bobby_execute.RuntimeConfig.Calls.{
  Command, patches, sets_mode, pauses, resumes, reloads, switches, Sender, command, Sent, commands,
}
use bobby_execute.RuntimeConfig.Keeps.{
  Ignores, enqueue-keeps, after_call-keeps, apply_behavior_patch-keeps, set_pause-keeps,
  resume_runtime-keeps, apply_kill_switch_snapshot-keeps,
}

-- the cycle and what is applied in it are those of the manager before
pub record Steady (m m' : Manager) : Type 0 where
  pub depth : m'.cycle_depth ≡ m.cycle_depth
  pub applied : m'.state.applied ≡ m.state.applied
  pub valid : m'.state.last_valid_version ≡ m.state.last_valid_version

request_overlay-Steady :
    (action : Action) (actor : String) (reason : Option String) (queued : String) (env : Env)
    (overlay : RuntimeOverlay) (set : ActiveRecord → ActiveRecord) (m : Manager)
    → env.faults.meanwhile ≡ []
    → ltb 0 m.cycle_depth ≡ true
    → Steady m (request_overlay action actor reason queued env overlay set m).0
unfolding request_overlay
request_overlay-Steady action actor reason queued env overlay set m w h =
    after_call-keeps (Steady m) env.faults.update_active _ _
      (record { depth = refl; applied = rw h refl; valid = refl })
      (after_call-keeps (Steady m) env.faults.append_change_log _ _
        (record { depth = rw w refl; applied = rw (w, h) refl; valid = rw w refl })
        (record { depth = rw (w, h) refl; applied = rw (w, h) refl; valid = rw (w, h) refl }))

not_now : (r b : Bool) → b ≡ true → (not r && not b) ≡ false
not_now r b h = ground arith

request_version-Steady :
    (patch : RuntimeBehaviorPatch) (actor : String) (reason : Option String) (env : Env)
    (b : RuntimeBehavior) (m : Manager)
    → env.faults.meanwhile ≡ []
    → ltb 0 m.cycle_depth ≡ true
    → Steady m (request_version patch actor reason env b m).0
unfolding request_version
request_version-Steady patch actor reason env b m w h =
    let n = not_now (restart_required_for_patch patch) (ltb 0 m.cycle_depth) h in
    after_call-keeps (Steady m) env.faults.create_version m _
      (record { depth = refl; applied = refl; valid = refl })
      (after_call-keeps (Steady m) env.faults.update_active _ _
        (record { depth = refl; applied = rw n refl; valid = rw n refl })
        (after_call-keeps (Steady m) env.faults.append_change_log _ _
          (record { depth = rw w refl; applied = rw (w, n) refl; valid = rw (w, n) refl })
          (record { depth = rw (w, n) refl; applied = rw (w, n) refl; valid = rw (w, n) refl })))

Steady-Ignores : (m : Manager) → Ignores (Steady m)
Steady-Ignores m = record {
  queue = λ m' e k. record { depth = k.depth; applied = k.applied; valid = k.valid };
  log = λ m' r e k. record { depth = k.depth; applied = k.applied; valid = k.valid };
}

Steady-self : (m : Manager) → Steady m m
Steady-self m = record { depth = refl; applied = refl; valid = refl }

reload-Steady :
    (actor : String) (reason : Option String) (env : Env) (m : Manager)
    → env.faults.meanwhile ≡ []
    → ltb 0 m.cycle_depth ≡ true
    → Steady m (reload_config actor reason env m).0
unfolding reload_config
reload-Steady actor reason env m w h =
    enqueue-keeps (Steady m) (Steady-Ignores m).queue reload _ m (Steady-self m) (
      after_call-keeps (Steady m) env.faults.update_active _ _
        (record { depth = refl; applied = rw h refl; valid = refl })
        (after_call-keeps (Steady m) env.faults.append_change_log _ _
          (record { depth = rw w refl; applied = rw (w, h) refl; valid = rw w refl })
          (elim (Bool-cases m.state.requested.requires_restart) [
            | inl r ↦ record {
              depth = rw (w, h, r) refl;
              applied = rw (w, h, r) refl;
              valid = rw (w, h, r) refl;
            }
            | inr r ↦ record {
              depth = rw (w, h, r) refl;
              applied = rw (w, h, r) refl;
              valid = rw (w, h, r) refl;
            }
          ])))

command-Steady :
    (c : Command) (s : Sender) (m : Manager)
    → s.env.faults.meanwhile ≡ []
    → ltb 0 m.cycle_depth ≡ true
    → Steady m (command c s m)
unfolding command set_mode
command-Steady (patches patch allow) s m w h =
    apply_behavior_patch-keeps (Steady m) (Steady-Ignores m) patch s.actor s.reason s.env allow m
      (Steady-self m) (λ b. request_version-Steady patch s.actor s.reason s.env b m w h)
command-Steady (sets_mode mode) s m w h =
    apply_behavior_patch-keeps (Steady m) (Steady-Ignores m) (mode_patch mode) s.actor
      (some (s.reason otherwise mode_reason mode)) s.env true m (Steady-self m)
      (λ b.
        request_version-Steady (mode_patch mode) s.actor
          (some (s.reason otherwise mode_reason mode)) s.env b m w h)
command-Steady (pauses scope) s m w h =
    set_pause-keeps (Steady m) (Steady-Ignores m) scope s.actor s.reason s.env m (Steady-self m)
      (λ o _. request_overlay-Steady _ s.actor s.reason _ s.env o _ m w h)
command-Steady resumes s m w h =
    resume_runtime-keeps (Steady m) (Steady-Ignores m) s.actor s.reason s.env m (Steady-self m)
      (λ o _. request_overlay-Steady _ s.actor s.reason _ s.env o _ m w h)
command-Steady reloads s m w h = reload-Steady s.actor s.reason s.env m w h
command-Steady (switches next) s m w h =
    apply_kill_switch_snapshot-keeps (Steady m) (Steady-Ignores m) next s.actor s.reason s.env m
      (Steady-self m)
      (λ env why o _ same.
        request_overlay-Steady _ s.actor why _ env o _ m (ap (λ f. f.meanwhile) same ∙ w) h)

Steady-trans : {l m n : Manager} → Steady l m → Steady m n → Steady l n
Steady-trans p q = record {
  depth = q.depth ∙ p.depth;
  applied = q.applied ∙ p.applied;
  valid = q.valid ∙ p.valid;
}

-- nothing begins or ends a cycle while a command waits for the repository
abbrev pub Undisturbed : List Sent → Type 0
Undisturbed [] = Unit {0}
Undisturbed (c ∷ cs) = (c.sender.env.faults.meanwhile ≡ []) × Undisturbed cs

-- While a cycle is under way, and no cycle begins or ends while a command waits for the repository, no
-- sequence of commands, accepted or refused, with the repository's calls failing or not, changes
-- what is applied: the applied version and overlay, the kill switch's state among them, and the last
-- valid version stay, and the cycle goes on.
pub commands-Steady :
    (cs : List Sent) (m : Manager) → Undisturbed cs → 0 < m.cycle_depth → Steady m (commands cs m)
unfolding commands
commands-Steady [] m u h = Steady-self m
commands-Steady (c ∷ cs) m u h =
    let now = command-Steady c.command c.sender m u.0 (lt→ltb 0 m.cycle_depth h) in
    Steady-trans now (commands-Steady cs (command c.command c.sender m) u.1 (rw now.depth h))
