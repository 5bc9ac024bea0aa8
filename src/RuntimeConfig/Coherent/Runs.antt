-- ===== src/RuntimeConfig/Coherent/Runs.antt =====
-- Runs of calls between which the repository takes what the manager writes.
use bobby_execute.Base.{
  ℕ, zero, suc, ◌≡◌, refl, sym, ap, ◌∙◌, String, Bool, true, false, not, ◌||◌, if◌then◌else◌,
  Option, none, some, List, [], ◌∷◌, ◌+◌, ◌otherwise◌, arith, every,
}
use bobby_execute.RuntimeConfig.Records.{ActiveRecord, ConfigState, Manager, Env, Faults}
use bobby_execute.RuntimeConfig.Queue.{persist_snapshot}
use bobby_execute.RuntimeConfig.Patch.{mode_reason, mode_patch, set_mode}
use bobby_execute.RuntimeConfig.Boundary.{
  begin_cycle, try_stored_active, settled, end_at, end_cycle, pred,
}
use bobby_execute.RuntimeConfig.Calls.{
  Command, patches, sets_mode, pauses, resumes, reloads, switches, Sender, command, Call, sends,
  acknowledges, begins, ends, refreshes, perform, Performed, perform_all,
}
use bobby_execute.RuntimeConfig.Keeps.{
  and_left, and_right, apply_behavior_patch-keeps, set_pause-keeps, resume_runtime-keeps,
  apply_kill_switch_snapshot-keeps,
}
use bobby_execute.RuntimeConfig.Coherent.{
  is_none, Coherent, Coherent-Ignores, or_true, idle_running, takes_writes,
  request_overlay-Coherent, request_version-Coherent, reload-Coherent, acknowledge-Coherent,
}

depth-Coherent : (m : Manager) → Coherent m → Coherent (begin_cycle m)
unfolding begin_cycle
depth-Coherent m k = record {
  version = k.version;
  overlay = k.overlay;
  restart = k.restart;
  idle = idle_running (m.cycle_depth + 1) _ (omega arith);
}

try_stored_active-Coherent :
    (fault : Option String) (a : ActiveRecord) (m : Manager)
    → Coherent m
    → Coherent (try_stored_active fault a m)
try_stored_active-Coherent none a m k = record {
  version = k.version;
  overlay = k.overlay;
  restart = k.restart;
  idle = k.idle;
}
try_stored_active-Coherent (some e) a m k = k

persist_snapshot-Coherent :
    (env : Env) (m : Manager) → Coherent m → Coherent (persist_snapshot env m)
persist_snapshot-Coherent env m k = record {
  version = k.version;
  overlay = k.overlay;
  restart = k.restart;
  idle = k.idle;
}

-- what waits is applied
settled-Coherent :
    (env : Env) (p : ConfigState) (m : Manager)
    → m.state.requested.requires_restart ≡ false
    → p.version ≡ m.state.requested.version
    → p.overlay ≡ m.state.requested.overlay
    → Coherent (settled env p m)
settled-Coherent env p m r v o = record {
  version = rw r v;
  overlay = rw r o;
  restart = (or_true _);
  idle = (or_true _);
}

-- what waits, where something does
waiting_part :
    (r : Bool) (w : Option ConfigState) (req app p : ConfigState)
    → w ≡ some p
    → (not r || is_none w) ≡ true
    → (r ≡ false) × (if r then req else w otherwise app) ≡ p
waiting_part true w req app p e h = cc
waiting_part false w req app p e h = (refl, ap (λ o. o otherwise app) e)

end_at-Coherent :
    (d : ℕ) (w : Option ConfigState) (env : Env) (m : Manager)
    → m.pending_applied ≡ w
    → Coherent m
    → Coherent (end_at d w env (record m { cycle_depth = d }))
end_at-Coherent zero (some p) env m e k =
    let (r, same) =
      waiting_part _ m.pending_applied m.state.requested m.state.applied p e k.restart in
    persist_snapshot-Coherent env _ (
      try_stored_active-Coherent env.faults.update_active _ _ (
        settled-Coherent env p (record m { cycle_depth = 0 }) r
          (sym (ap (λ s. s.version) same) ∙ k.version)
          (sym (ap (λ s. s.overlay) same) ∙ k.overlay)))
end_at-Coherent zero none env m e k = record {
  version = k.version;
  overlay = k.overlay;
  restart = k.restart;
  idle = ap is_none e;
}
end_at-Coherent (suc n) w env m e k = record {
  version = k.version;
  overlay = k.overlay;
  restart = k.restart;
  idle = idle_running (suc n) _ (omega arith);
}

end_cycle-Coherent : (env : Env) (m : Manager) → Coherent m → Coherent (end_cycle env m)
unfolding end_cycle
end_cycle-Coherent env m k = end_at-Coherent (pred m.cycle_depth) m.pending_applied env m refl k

command-Coherent :
    (c : Command) (s : Sender) (m : Manager)
    → takes_writes s.env.faults ≡ true
    → Coherent m
    → Coherent (command c s m)
unfolding command set_mode
command-Coherent (patches patch allow) s m f k =
    apply_behavior_patch-keeps Coherent Coherent-Ignores patch s.actor s.reason s.env allow m k
      (λ b. request_version-Coherent patch s.actor s.reason s.env b m f k)
command-Coherent (sets_mode mode) s m f k =
    apply_behavior_patch-keeps Coherent Coherent-Ignores (mode_patch mode) s.actor
      (some (s.reason otherwise mode_reason mode)) s.env true m k
      (λ b.
        request_version-Coherent (mode_patch mode) s.actor
          (some (s.reason otherwise mode_reason mode)) s.env b m f k)
command-Coherent (pauses scope) s m f k =
    set_pause-keeps Coherent Coherent-Ignores scope s.actor s.reason s.env m k
      (λ o _. request_overlay-Coherent _ s.actor s.reason _ s.env o _ m f k)
command-Coherent resumes s m f k =
    resume_runtime-keeps Coherent Coherent-Ignores s.actor s.reason s.env m k
      (λ o _. request_overlay-Coherent _ s.actor s.reason _ s.env o _ m f k)
command-Coherent reloads s m f k = reload-Coherent s.actor s.reason s.env m f k
command-Coherent (switches next) s m f k =
    apply_kill_switch_snapshot-keeps Coherent Coherent-Ignores next s.actor s.reason s.env m k
      (λ env why o _ same.
        request_overlay-Coherent _ s.actor why _ env o _ m (ap takes_writes same ∙ f) k)

-- a call that is no refresh, and whose writes the repository takes
abbrev pub is_quiet : Call → Faults → Bool
is_quiet refreshes f = false
is_quiet _ f = takes_writes f

perform-Coherent :
    (c : Call) (s : Sender) (m : Manager)
    → is_quiet c s.env.faults ≡ true
    → Coherent m
    → Coherent (perform c s m)
unfolding perform
perform-Coherent (sends c) s m f k = command-Coherent c s m f k
perform-Coherent acknowledges s m f k = acknowledge-Coherent s.env m f k
perform-Coherent begins s m f k = depth-Coherent m k
perform-Coherent ends s m f k = end_cycle-Coherent s.env m k
perform-Coherent refreshes s m f k = cc

-- Any calls but refreshes, whose writes of the active record and of the change log the repository
-- takes, with no cycle that begins or ends while a mutation waits for it, keep the manager coherent: unless a restart is due, the version and the overlay that were
-- requested last are those that wait for the end of the cycle, or are applied where nothing waits,
-- and nothing waits outside a cycle or where a restart is due.
pub perform_all-Coherent :
    (cs : List Performed) (m : Manager)
    → Coherent m
    → every (λ c. is_quiet c.call c.sender.env.faults) cs ≡ true
    → Coherent (perform_all cs m)
unfolding perform_all
perform_all-Coherent [] m k h = k
perform_all-Coherent (c ∷ cs) m k h =
    perform_all-Coherent cs (perform c.call c.sender m)
      (perform-Coherent c.call c.sender m (and_left _ _ h) k) (and_right _ _ h)
