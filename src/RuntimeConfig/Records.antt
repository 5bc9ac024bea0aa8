-- ===== src/RuntimeConfig/Records.antt =====
-- The records of the runtime configuration's repository (bot/src/persistence/
-- runtime-config-repository.ts), the signal of its store (bot/src/storage/runtime-config-store.ts),
-- and the manager's state. A manager has one environment, whose name the records leave out. A time
-- is a number of milliseconds.
use bobby_execute.Base.{ℕ, String, Bool, Option, List}
use bobby_execute.RuntimeConfig.Types.{PauseScope, RuntimeBehavior, RuntimeOverlay}

pub data VersionStatus : Type 0 where
  seeded active_version superseded rejected : VersionStatus

-- `RuntimeConfigVersionRecord`
pub record VersionRecord : Type 0 where
  pub id : String
  pub version_number : ℕ
  pub config : RuntimeBehavior
  pub config_hash : String
  pub previous_version_id : Option String
  pub status : VersionStatus
  pub created_by : String
  pub reason : Option String
  pub created_at : ℕ
  pub activated_at : Option ℕ
  pub activated_by : Option String
  pub applied_at : Option ℕ
  pub applied_by : Option String

-- `RuntimeConfigActiveRecord`
pub record ActiveRecord : Type 0 where
  pub active_version_id : String
  pub requested_version_id : String
  pub applied_version_id : String
  pub last_valid_version_id : String
  pub reload_nonce : ℕ
  pub paused : Bool
  pub pause_scope : Option PauseScope
  pub pause_reason : Option String
  pub kill_switch : Bool
  pub kill_switch_reason : Option String
  pub pending_apply : Bool
  pub pending_reason : Option String
  pub requires_restart : Bool
  pub requested_at : ℕ
  pub applied_at : Option ℕ
  pub updated_at : ℕ

pub data Action : Type 0 where
  seed pause resume kill_switch runtime_config reload restart_ack auth_failure : Action

-- `RuntimeConfigChangeLogRecord`
pub record ChangeRecord : Type 0 where
  pub version_id : Option String
  pub action : Action
  pub actor : String
  pub accepted : Bool
  pub before_config : Option RuntimeBehavior
  pub after_config : Option RuntimeBehavior
  pub before_overlay : Option RuntimeOverlay
  pub after_overlay : Option RuntimeOverlay
  pub reason : Option String
  pub rejection_reason : Option String
  pub result_version_id : Option String
  pub reload_nonce : ℕ
  pub created_at : ℕ

-- `MemoryEnvironmentState`
pub record Repository : Type 0 where
  pub active : Option ActiveRecord
  pub versions : List VersionRecord
  pub change_log : List ChangeRecord

-- `RuntimeSignalState`
pub record SignalState : Type 0 where
  pub reload_nonce : ℕ
  pub paused : Bool
  pub pause_scope : Option PauseScope
  pub pause_reason : Option String
  pub kill_switch : Bool
  pub kill_switch_reason : Option String
  pub last_applied_version_id : Option String
  pub last_valid_version_id : Option String
  pub pending_apply : Bool
  pub pending_reason : Option String

-- `RuntimeConfigState`
pub record ConfigState : Type 0 where
  pub version : VersionRecord
  pub overlay : RuntimeOverlay
  pub requested_at : ℕ
  pub applied_at : Option ℕ
  pub pending_apply : Bool
  pub requires_restart : Bool

pub data SeedSource : Type 0 where
  boot persisted : SeedSource

-- `ManagedRuntimeConfigState`
pub record ManagedState : Type 0 where
  pub seed_source : SeedSource
  pub requested : ConfigState
  pub applied : ConfigState
  pub last_valid_version : VersionRecord
  pub active : ActiveRecord
  pub signal : SignalState
  pub degraded : Bool
  pub degraded_reason : Option String

-- The manager once it is initialised, with its repository and the cell of its store. The queue is the
-- promise of the last mutation: `none` where it is fulfilled, and otherwise the error's message.
pub record Manager : Type 0 where
  pub repository : Repository
  pub store : Option SignalState
  pub state : ManagedState
  pub pending_applied : Option ConfigState
  pub cycle_depth : ℕ
  pub queue : Option String

-- What happens to the cycles while a mutation waits for the repository: one begins, or one ends, at its
-- own time, with the message where its own write of the active record throws, and whether the store
-- throws then.
pub data Boundary : Type 0 where
  cycle_begins : Boundary
  cycle_ends : ℕ → Option String → Bool → Boundary

-- Which calls of the repository throw while an operation runs, with the message, whether the store
-- throws, and what happens to the cycles while the repository's calls that do not throw are awaited.
pub record Faults : Type 0 where
  pub create_version : Option String
  pub update_active : Option String
  pub append_change_log : Option String
  pub store : Bool
  pub meanwhile : List Boundary

-- What an operation meets: the clock, the id that the repository draws for a new version, the hash of
-- a document, the message of a schema's error, and the faults.
pub record Env : Type 0 where
  pub now : ℕ
  pub version_id : String
  pub hash : RuntimeBehavior → RuntimeOverlay → String
  pub schema_error : String
  pub faults : Faults
