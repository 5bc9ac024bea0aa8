-- ===== src/RuntimeConfig/Lapse.antt =====
-- A request whose cycle ends while the repository is awaited.
use bobby_execute.Base.{ℕ, zero, suc, ◌≡◌, refl, sym, Bool, true, false, none, List, [], ◌∷◌, every}
use mathlib.Core.Path.{subst}
use bobby_execute.KillSwitch.{KillSwitchState}
use bobby_execute.RuntimeConfig.Records.{kill_switch, Manager, Env, cycle_ends}
use bobby_execute.RuntimeConfig.Queue.{MutationResult, Work, run_work}
use bobby_execute.RuntimeConfig.Boundary.{begin_cycle, end_at, end_cycle, pred}
use bobby_execute.RuntimeConfig.Overlay.{request_overlay, apply_kill_switch_snapshot}
use bobby_execute.RuntimeConfig.Calls.{
  Sender, Call, sends, acknowledges, begins, ends, refreshes, perform, Performed, perform_all,
}
use bobby_execute.RuntimeConfig.Keeps.{and_left, and_right, enqueue-open}
use bobby_execute.RuntimeConfig.Escape.{after_call-open}

abbrev pub is_boundary : Call → Bool
is_boundary begins = true
is_boundary ends = true
is_boundary _ = false

-- nothing waits, and what is applied is what was
record Idle (m m' : Manager) : Type 0 where
  waiting : m'.pending_applied ≡ none
  applied : m'.state.applied ≡ m.state.applied

end_at-Idle :
    (l : Manager) (depth : ℕ) (env : Env) (m : Manager)
    → Idle l m
    → Idle l (end_at depth none env (record m { cycle_depth = depth }))
end_at-Idle l zero env m k = record { waiting = k.waiting; applied = k.applied }
end_at-Idle l (suc n) env m k = record { waiting = k.waiting; applied = k.applied }

perform-Idle :
    (l : Manager) (c : Call) (s : Sender) (m : Manager)
    → is_boundary c ≡ true
    → Idle l m
    → Idle l (perform c s m)
unfolding perform begin_cycle end_cycle
perform-Idle l (sends c) s m b k = cc
perform-Idle l acknowledges s m b k = cc
perform-Idle l refreshes s m b k = cc
perform-Idle l begins s m b k = record { waiting = k.waiting; applied = k.applied }
perform-Idle l ends s m b k =
    subst
      (λ w.
        Idle l
          (end_at (pred m.cycle_depth) w s.env (record m { cycle_depth = pred m.cycle_depth })))
      (sym k.waiting) (end_at-Idle l _ s.env m k)

perform_all-Idle :
    (l : Manager) (cs : List Performed) (m : Manager)
    → every (λ c. is_boundary c.call) cs ≡ true
    → Idle l m
    → Idle l (perform_all cs m)
unfolding perform_all
perform_all-Idle l [] m b k = k
perform_all-Idle l (c ∷ cs) m b k =
    perform_all-Idle l cs (perform c.call c.sender m) (and_right _ _ b)
      (perform-Idle l c.call c.sender m (and_left _ _ b) k)

-- the command is accepted, and only requested
record Lapsed (m : Manager) (out : Manager × MutationResult) : Type 0 where
  accepted : out.1.accepted ≡ true
  requested : out.0.state.requested.overlay.kill_switch ≡ true
  idle : Idle m out.0

trigger-Lapsed :
    (next : KillSwitchState) (s : Sender) (m : Manager) (now : ℕ) (store : Bool)
    → next.halted ≡ true
    → m.queue ≡ none
    → m.cycle_depth ≡ 1
    → m.pending_applied ≡ none
    → s.env.faults.update_active ≡ none
    → s.env.faults.append_change_log ≡ none
    → s.env.faults.meanwhile ≡ cycle_ends now none store ∷ []
    → Lapsed m (apply_kill_switch_snapshot next s.actor s.reason s.env m)
unfolding apply_kill_switch_snapshot request_overlay end_cycle
trigger-Lapsed next s m now store h q d w f g b =
    let goal = λ (x : Work). Lapsed m (run_work kill_switch x) in
    subst (Lapsed m) (sym (enqueue-open kill_switch _ m q)) (
      subst goal (sym (after_call-open _ _ _ f)) (
        subst goal (sym (after_call-open _ _ _ g)) (record {
          accepted = refl;
          requested = rw (b, d, w) h;
          idle = record { waiting = rw (b, d, w) refl; applied = rw (b, d, w) refl };
        })))

-- Where no mutation has thrown so far, the last cycle is under way and nothing waits, and that cycle
-- ends while a trigger of the kill switch waits for the repository, which throws nothing, the trigger
-- is accepted and the switch is requested, but neither applied nor waiting: after any number of
-- further cycles the applied configuration is still that from before the trigger.
pub trigger-lapses :
    (next : KillSwitchState) (s : Sender) (m : Manager) (now : ℕ) (store : Bool)
    (cs : List Performed)
    → next.halted ≡ true
    → m.queue ≡ none
    → m.cycle_depth ≡ 1
    → m.pending_applied ≡ none
    → s.env.faults.update_active ≡ none
    → s.env.faults.append_change_log ≡ none
    → s.env.faults.meanwhile ≡ cycle_ends now none store ∷ []
    → every (λ c. is_boundary c.call) cs ≡ true
    → let out = apply_kill_switch_snapshot next s.actor s.reason s.env m in
      out.1.accepted ≡ true
      × out.0.state.requested.overlay.kill_switch ≡ true
      × (perform_all cs out.0).pending_applied ≡ none
      × (perform_all cs out.0).state.applied ≡ m.state.applied
trigger-lapses next s m now store cs h q d w f g b c =
    let k = trigger-Lapsed next s m now store h q d w f g b in
    let i = perform_all-Idle m cs _ c k.idle in (k.accepted, k.requested, i.waiting, i.applied)
