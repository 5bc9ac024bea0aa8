-- ===== src/RuntimeConfig/Restore.antt =====
-- The manager's state from its repository: the initialisation and the refresh,
-- bot/src/runtime/runtime-config-manager.ts, with the seed and the lookup of versions of
-- bot/src/persistence/runtime-config-repository.ts (the repository in memory). A time that is
-- missing in the active record is the time of the request.
use bobby_execute.Base.{
  String, Bool, true, false, Option, none, some, List, [], ◌∷◌, ◌++◌, ◌===◌, if◌then◌else◌,
  ◌otherwise◌,
}
use bobby_execute.RuntimeConfig.Types.{RuntimeBehavior, RuntimeOverlay}
use bobby_execute.RuntimeConfig.Records.{
  VersionRecord, seeded, ActiveRecord, seed, ChangeRecord, Repository, boot, persisted, SeedSource,
  ManagedState, Manager, SignalState, Env,
}
use bobby_execute.RuntimeConfig.Views.{build_signal}
use bobby_execute.RuntimeConfig.Queue.{make_state, persist_snapshot}

-- `loadVersion`
unfoldable pub load_version : String → List VersionRecord → Option VersionRecord
load_version id [] = none
load_version id (v ∷ vs) = let rest = load_version id vs in if v.id === id then some v else rest

abbrev pub default_overlay : RuntimeOverlay
default_overlay = record {
  paused = false;
  pause_scope = none;
  pause_reason = none;
  kill_switch = false;
  kill_switch_reason = none;
  reload_nonce = 0;
  pending_restart = false;
  pending_reason = none;
}

-- the overlay that the active record holds
abbrev pub overlay_of : ActiveRecord → RuntimeOverlay
overlay_of a = record {
  paused = a.paused;
  pause_scope = a.pause_scope;
  pause_reason = a.pause_reason;
  kill_switch = a.kill_switch;
  kill_switch_reason = a.kill_switch_reason;
  reload_nonce = a.reload_nonce;
  pending_restart = a.requires_restart;
  pending_reason = a.pending_reason;
}

-- The state of an active record whose requested version was found. A version that is missing is
-- replaced by the requested one. Both states get the overlay of the record, also where it waits.
unfoldable pub state_of :
    SeedSource
    → Bool
    → Option String
    → SignalState
    → ActiveRecord
    → List VersionRecord
    → VersionRecord
    → ManagedState
state_of source degraded reason signal a versions requested = record {
  seed_source = source;
  requested =
      make_state requested (overlay_of a) a.requested_at
        (some (a.applied_at otherwise a.requested_at)) a.pending_apply a.requires_restart;
  applied =
      make_state (load_version a.applied_version_id versions otherwise requested) (overlay_of a)
        a.requested_at (some (a.applied_at otherwise a.requested_at)) false false;
  last_valid_version = load_version a.last_valid_version_id versions otherwise requested;
  active = a;
  signal = signal;
  degraded = degraded;
  degraded_reason = reason;
}

-- `seedEnvironment`, of an environment without an active record
abbrev pub seed_version : RuntimeBehavior → String → Env → VersionRecord
seed_version behavior actor env = record {
  id = env.version_id;
  version_number = 1;
  config = behavior;
  config_hash = env.hash behavior default_overlay;
  previous_version_id = none;
  status = seeded;
  created_by = actor;
  reason = some "runtime config bootstrap seed";
  created_at = env.now;
  activated_at = some env.now;
  activated_by = some actor;
  applied_at = some env.now;
  applied_by = some actor;
}

abbrev pub seed_active : String → Env → ActiveRecord
seed_active id env = record {
  active_version_id = id;
  requested_version_id = id;
  applied_version_id = id;
  last_valid_version_id = id;
  reload_nonce = 0;
  paused = false;
  pause_scope = none;
  pause_reason = none;
  kill_switch = false;
  kill_switch_reason = none;
  pending_apply = false;
  pending_reason = none;
  requires_restart = false;
  requested_at = env.now;
  applied_at = some env.now;
  updated_at = env.now;
}

unfoldable pub seed_environment : RuntimeBehavior → String → Env → Repository → Repository
seed_environment behavior actor env r =
    let version = seed_version behavior actor env in
    let entry : ChangeRecord = record {
      version_id = some version.id;
      action = seed;
      actor = actor;
      accepted = true;
      before_config = none;
      after_config = some behavior;
      before_overlay = none;
      after_overlay = some default_overlay;
      reason = some "runtime config bootstrap seed";
      rejection_reason = none;
      result_version_id = some version.id;
      reload_nonce = 0;
      created_at = env.now;
    } in
    record {
      active = some (seed_active version.id env);
      versions = r.versions ++ version ∷ [];
      change_log = r.change_log ++ entry ∷ [];
    }

-- the manager of a state, with its signal saved
abbrev pub started : Env → Option SignalState → Repository → ManagedState → Manager
started env store r s = persist_snapshot env (record {
  repository = r;
  store = store;
  state = s;
  pending_applied = none;
  cycle_depth = 0;
  queue = none;
})

abbrev pub blank_signal : SignalState
blank_signal = record {
  reload_nonce = 0;
  paused = false;
  pause_scope = none;
  pause_reason = none;
  kill_switch = false;
  kill_switch_reason = none;
  last_applied_version_id = none;
  last_valid_version_id = none;
  pending_apply = false;
  pending_reason = none;
}

abbrev pub initialized :
    Env → Option SignalState → Repository → ActiveRecord → Option VersionRecord → Option Manager
initialized env store r a none = none
initialized env store r a (some v) =
    some (started env store r (state_of persisted false none blank_signal a r.versions v))

abbrev pub initialize_with :
    RuntimeBehavior
    → String
    → Env
    → Option SignalState
    → Repository
    → Option ActiveRecord
    → Option Manager
initialize_with behavior actor env store r (some a) =
    initialized env store r a (load_version a.requested_version_id r.versions)
initialize_with behavior actor env store r none =
    let v = seed_version behavior actor env in
    some (
      started env store (seed_environment behavior actor env r)
        (state_of boot false none blank_signal (seed_active v.id env) [] v))

-- `initialize`, from the seed of the configuration; `none` where it throws
unfoldable pub initialize :
    RuntimeBehavior → String → Env → Option SignalState → Repository → Option Manager
unfolding build_signal seed_environment state_of load_version
initialize behavior actor env store r = initialize_with behavior actor env store r r.active
