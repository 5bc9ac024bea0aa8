-- ===== src/RuntimeConfig/Queue.antt =====
-- The queue of the mutations of the runtime configuration's manager and the calls that they make,
-- bot/src/runtime/runtime-config-manager.ts. The repository's calls may throw. Mutations run one at a
-- time, and what a mutation has written when it throws stays.
use bobby_execute.Base.{
  ℕ, String, Bool, false, Option, none, some, List, [], ◌∷◌, ◌++◌, max, if◌then◌else◌, ◌otherwise◌,
}
use bobby_execute.RuntimeConfig.Types.{RuntimeBehavior, RuntimeOverlay}
use bobby_execute.RuntimeConfig.Records.{
  VersionRecord, ActiveRecord, Action, ChangeRecord, ConfigState, Manager, Env,
}
use bobby_execute.RuntimeConfig.Views.{RuntimeConfigStatus, build_status, build_signal}

-- `RuntimeConfigMutationResult`, whose other fields are copies of the status
pub record MutationResult : Type 0 where
  pub accepted : Bool
  pub action : Action
  pub applied_version_id : String
  pub rejection_reason : Option String
  pub status : RuntimeConfigStatus

-- how a command's work ends
pub data Ended : Type 0 where
  ended : MutationResult → Ended
  threw : String → Ended

abbrev pub Work : Type 0
Work = Manager × Ended

-- `this.result(action, accepted, rejectionReason, appliedVersionId)`
abbrev pub result : Action → Bool → Option String → Option String → Manager → MutationResult
result action accepted reason applied m = record {
  accepted = accepted;
  action = action;
  applied_version_id = applied otherwise m.state.applied.version.id;
  rejection_reason = reason;
  status = build_status m.state;
}

-- the result of the work; where it threw, the queue's promise is rejected
abbrev pub after_work : Action → Manager → Ended → Manager × MutationResult
after_work action m (ended r) = (m, r)
after_work action m (threw e) =
    let m' = record m { queue = some e } in (m', result action false (some e) none m')

abbrev pub run_work : Action → Work → Manager × MutationResult
run_work action (m, end) = after_work action m end

-- once the queue's promise is rejected, no later work is called
abbrev pub enqueue_on :
    Option String → Action → (Manager → Work) → Manager → Manager × MutationResult
enqueue_on (some e) action work m = (m, result action false (some e) none m)
enqueue_on none action work m = run_work action (work m)

unfoldable pub enqueue : Action → (Manager → Work) → Manager → Manager × MutationResult
unfolding build_status
enqueue action work m = enqueue_on m.queue action work m

abbrev pub make_state : VersionRecord → RuntimeOverlay → ℕ → Option ℕ → Bool → Bool → ConfigState
make_state version overlay requested_at applied_at pending restart = record {
  version = version;
  overlay = overlay;
  requested_at = requested_at;
  applied_at = applied_at;
  pending_apply = pending;
  requires_restart = restart;
}

abbrev pub latest_number : List VersionRecord → ℕ
latest_number [] = 0
latest_number (v ∷ vs) = max v.version_number (latest_number vs)

-- the signal of the state, saved unless the store throws: `persistSnapshot`
abbrev pub persist_snapshot : Env → Manager → Manager
persist_snapshot env m =
    let signal = build_signal m.state in
    record m {
      state = record m.state { signal = signal };
      store = if env.faults.store then m.store else some signal;
    }

-- what follows a call of the repository, where it returns
abbrev pub after_call : Option String → Manager → Work → Work
after_call none m next = next
after_call (some e) m next = (m, threw e)

abbrev pub stored_active : ActiveRecord → Manager → Manager
stored_active a m = record m { repository = record m.repository { active = some a } }

abbrev pub stored_change : ChangeRecord → Manager → Manager
stored_change c m = record m {
  repository = record m.repository { change_log = m.repository.change_log ++ c ∷ [] };
}

-- a command's entry of the change log
abbrev pub change :
    Action
    → String
    → Bool
    → VersionRecord
    → Option RuntimeBehavior
    → RuntimeOverlay
    → RuntimeOverlay
    → Option String
    → Option String
    → VersionRecord
    → ℕ
    → ChangeRecord
change action actor accepted version after_config before after reason rejection_reason base now =
    record {
      version_id = some version.id;
      action = action;
      actor = actor;
      accepted = accepted;
      before_config = some base.config;
      after_config = after_config;
      before_overlay = some before;
      after_overlay = some after;
      reason = reason;
      rejection_reason = rejection_reason;
      result_version_id = some version.id;
      reload_nonce = after.reload_nonce;
      created_at = now;
    }

-- a refused command appends an entry and changes nothing else
abbrev pub refuse : Action → String → Option String → String → Env → Manager → Work
refuse action actor reason rejection env m =
    let req = m.state.requested in
    let entry =
      change action actor false req.version (some req.version.config) req.overlay req.overlay reason
        (some rejection) req.version env.now in
    after_call env.faults.append_change_log m (
      stored_change entry m,
      ended (result action false (some rejection) none (stored_change entry m)),
    )
