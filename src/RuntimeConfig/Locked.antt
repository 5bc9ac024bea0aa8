-- ===== src/RuntimeConfig/Locked.antt =====
-- A mutation that throws rejects the promise of the queue, on which every later mutation waits.
use bobby_execute.Base.{
  ◌≡◌, refl, sym, ap, ◌∙◌, String, Bool, true, false, not, ◌&&◌, Option, none, some, List, [], ◌∷◌,
  if◌then◌else◌, ltb, every, arith,
}
use mathlib.Core.Path.{subst}
use bobby_execute.KillSwitch.{KillSwitchState}
use bobby_execute.RuntimeConfig.Types.{null, RuntimeBehavior, RuntimeBehaviorPatch}
use bobby_execute.RuntimeConfig.Behavior.{
  is_valid_patch, merge_notes, merged, is_valid_behavior, build_runtime_behavior_from_seed,
}
use bobby_execute.RuntimeConfig.Records.{Action, runtime_config, kill_switch, Manager}
use bobby_execute.RuntimeConfig.Queue.{
  MutationResult, Work, threw, run_work, enqueue_on, enqueue, after_call,
}
use bobby_execute.RuntimeConfig.Overlay.{
  request_overlay, set_pause, resume_runtime, apply_kill_switch_snapshot,
}
use bobby_execute.RuntimeConfig.Patch.{is_live_patch, patch_merged, apply_behavior_patch, set_mode}
use bobby_execute.RuntimeConfig.Cycle.{reload_config}
use bobby_execute.RuntimeConfig.Calls.{
  Command, patches, sets_mode, pauses, resumes, reloads, switches, Sender, command, Sent, commands,
  answer, answers,
}
use bobby_execute.RuntimeConfig.Keeps.{enqueue-open}

enqueue-shut :
    (action : Action) (work : Manager → Work) (m : Manager) (e : String)
    → m.queue ≡ some e
    → (enqueue action work m).0 ≡ m
unfolding enqueue
enqueue-shut action work m e h = ap (λ queue. (enqueue_on queue action work m).0) h

command-shut :
    (c : Command) (s : Sender) (m : Manager) (e : String) → m.queue ≡ some e → command c s m ≡ m
unfolding command apply_behavior_patch set_mode set_pause resume_runtime reload_config
    apply_kill_switch_snapshot
command-shut (patches patch allow) s m e h = enqueue-shut _ _ m e h
command-shut (sets_mode mode) s m e h = enqueue-shut _ _ m e h
command-shut (pauses scope) s m e h = enqueue-shut _ _ m e h
command-shut resumes s m e h = enqueue-shut _ _ m e h
command-shut reloads s m e h = enqueue-shut _ _ m e h
command-shut (switches next) s m e h = enqueue-shut _ _ m e h

enqueue-refused :
    (action : Action) (work : Manager → Work) (m : Manager) (e : String)
    → m.queue ≡ some e
    → (enqueue action work m).1.accepted ≡ false
unfolding enqueue
enqueue-refused action work m e h = ap (λ queue. (enqueue_on queue action work m).1.accepted) h

answer-refused :
    (c : Command) (s : Sender) (m : Manager) (e : String)
    → m.queue ≡ some e
    → (answer c s m).accepted ≡ false
unfolding answer apply_behavior_patch set_mode set_pause resume_runtime reload_config
    apply_kill_switch_snapshot
answer-refused (patches patch allow) s m e h = enqueue-refused _ _ m e h
answer-refused (sets_mode mode) s m e h = enqueue-refused _ _ m e h
answer-refused (pauses scope) s m e h = enqueue-refused _ _ m e h
answer-refused resumes s m e h = enqueue-refused _ _ m e h
answer-refused reloads s m e h = enqueue-refused _ _ m e h
answer-refused (switches next) s m e h = enqueue-refused _ _ m e h

abbrev pub are_refused : List MutationResult → Bool
are_refused rs = every (λ r. not r.accepted) rs

commands-shut : (cs : List Sent) (m : Manager) (e : String) → m.queue ≡ some e → commands cs m ≡ m
unfolding commands
commands-shut [] m e h = refl
commands-shut (c ∷ cs) m e h =
    let same = command-shut c.command c.sender m e h in
    ap (commands cs) same ∙ commands-shut cs m e h

answers-refused :
    (cs : List Sent) (m : Manager) (e : String)
    → m.queue ≡ some e
    → are_refused (answers cs m) ≡ true
unfolding answers
answers-refused [] m e h = refl
answers-refused (c ∷ cs) m e h =
    let same = command-shut c.command c.sender m e h in
    let rest = ap (λ v. are_refused (answers cs v)) same ∙ answers-refused cs m e h in
    rw (answer-refused c.command c.sender m e h) rest

-- the schema throws on null notes
build-null :
    (seed : RuntimeBehavior) (patch : RuntimeBehaviorPatch)
    → patch.notes ≡ null
    → build_runtime_behavior_from_seed seed patch ≡ none
unfolding build_runtime_behavior_from_seed
build-null seed patch h =
    ap
      (λ notes. elim (merge_notes seed.notes notes) [
        | none ↦ none
        | some n ↦
            if is_valid_behavior (merged seed patch n) then some (merged seed patch n) else none
      ])
      h

pub reaches :
    (x y : Bool) (a b c : Work)
    → x ≡ true
    → y ≡ false
    → (if not x then a else if y then b else c) ≡ c
reaches x y a b c h k = ground arith

patch-throws :
    (patch : RuntimeBehaviorPatch) (s : Sender) (allow : Bool) (m : Manager)
    → is_valid_patch patch ≡ true
    → patch.notes ≡ null
    → (is_live_patch patch.mode && not allow) ≡ false
    → m.queue ≡ none
    → apply_behavior_patch patch s.actor s.reason s.env allow m
      ≡ run_work runtime_config (m, threw s.env.schema_error)
unfolding apply_behavior_patch
patch-throws patch s allow m v n l q =
    enqueue-open runtime_config _ m q
    ∙ ap (run_work runtime_config) (
        reaches _ _ _ _ _ v l
        ∙ ap (λ b. patch_merged patch s.actor s.reason s.env b m)
            (build-null m.state.requested.version.config patch n))

-- Where no mutation has thrown so far, a patch that passes the schema of patches and clears the notes
-- is refused, unless it asks for a live mode that it may not set, and every later command, be it the
-- kill switch's, is refused too and changes nothing: the manager's state and its repository stay
-- those from before the patch.
pub clear_notes-locks :
    (patch : RuntimeBehaviorPatch) (s : Sender) (allow : Bool) (m : Manager) (cs : List Sent)
    → is_valid_patch patch ≡ true
    → patch.notes ≡ null
    → (is_live_patch patch.mode && not allow) ≡ false
    → m.queue ≡ none
    → let out = apply_behavior_patch patch s.actor s.reason s.env allow m in
      (out.1.accepted ≡ false)
      × (commands cs out.0).state ≡ m.state
      × (commands cs out.0).repository ≡ m.repository
      × are_refused (answers cs out.0) ≡ true
clear_notes-locks patch s allow m cs v n l q =
    subst
      (λ (out : Manager × MutationResult).
        (out.1.accepted ≡ false)
        × (commands cs out.0).state ≡ m.state
        × (commands cs out.0).repository ≡ m.repository
        × are_refused (answers cs out.0) ≡ true)
      (sym (patch-throws patch s allow m v n l q))
      (let locked = record m { queue = some s.env.schema_error } in
        let shut = commands-shut cs locked s.env.schema_error refl in
        (
          refl,
          ap (λ x. x.state) shut,
          ap (λ x. x.repository) shut,
          answers-refused cs locked s.env.schema_error refl,
        ))

-- halted in memory, not in the repository, and shut
abbrev pub Lost : Manager → List Sent → Manager × MutationResult → Type 0
Lost m cs out =
    (out.1.accepted ≡ false)
    × out.0.state.applied.overlay.kill_switch ≡ true
    × out.0.repository ≡ m.repository
    × commands cs out.0 ≡ out.0
    × are_refused (answers cs out.0) ≡ true

after_call-throws :
    (fault : Option String) (m : Manager) (next : Work) (e : String)
    → fault ≡ some e
    → after_call fault m next ≡ (m, threw e)
after_call-throws fault m next e h = ap (λ f. after_call f m next) h

-- Where no mutation has thrown so far and no cycle runs, and the repository throws when the active
-- record is written, a trigger of the kill switch is refused; the kill switch is on in memory, the
-- repository is what it was, and every later command, a second trigger included, is refused and
-- changes nothing.
pub trigger-Lost :
    (next : KillSwitchState) (s : Sender) (m : Manager) (e : String) (cs : List Sent)
    → next.halted ≡ true
    → m.queue ≡ none
    → m.cycle_depth ≡ 0
    → s.env.faults.update_active ≡ some e
    → Lost m cs (apply_kill_switch_snapshot next s.actor s.reason s.env m)
unfolding apply_kill_switch_snapshot request_overlay
trigger-Lost next s m e cs t q d f =
    let idle : ltb 0 m.cycle_depth ≡ false = rw d refl in
    subst (Lost m cs) (sym (enqueue-open kill_switch _ m q)) (
      subst (λ w. Lost m cs (run_work kill_switch w)) (sym (after_call-throws _ _ _ e f))
        (refl, rw idle t, refl, commands-shut cs _ e refl, answers-refused cs _ e refl))
