-- ===== src/RuntimeConfig/Refresh.antt =====
-- The refresh of the manager's state from its repository, bot/src/runtime/runtime-config-manager.ts.
use bobby_execute.Base.{ℕ, Bool, true, false, ◌&&◌, Option, none, some, ◌==◌, ◌===◌, if◌then◌else◌}
use bobby_execute.RuntimeConfig.Records.{VersionRecord, ActiveRecord, Manager, Env}
use bobby_execute.RuntimeConfig.Views.{same_bool, same_text, same_scope, build_signal}
use bobby_execute.RuntimeConfig.Queue.{persist_snapshot}
use bobby_execute.RuntimeConfig.Restore.{load_version, state_of}

abbrev same_time : Option ℕ → Option ℕ → Bool
same_time none none = true
same_time (some a) (some b) = a == b
same_time _ _ = false

-- `activeRecordKey(a) === activeRecordKey(b)`
unfoldable pub same_active : ActiveRecord → ActiveRecord → Bool
same_active a b =
    (a.active_version_id === b.active_version_id)
    && (a.requested_version_id === b.requested_version_id)
    && (a.applied_version_id === b.applied_version_id)
    && (a.last_valid_version_id === b.last_valid_version_id)
    && a.reload_nonce == b.reload_nonce
    && same_bool a.paused b.paused
    && same_scope a.pause_scope b.pause_scope
    && same_text a.pause_reason b.pause_reason
    && same_bool a.kill_switch b.kill_switch
    && same_text a.kill_switch_reason b.kill_switch_reason
    && same_bool a.pending_apply b.pending_apply
    && same_text a.pending_reason b.pending_reason
    && same_bool a.requires_restart b.requires_restart
    && a.requested_at == b.requested_at
    && same_time a.applied_at b.applied_at
    && a.updated_at == b.updated_at

-- how a refresh ends
pub data Refreshed : Type 0 where
  refreshed inconsistent : Refreshed

abbrev pub refreshed_from :
    Env → Manager → ActiveRecord → Option VersionRecord → Manager × Refreshed
refreshed_from env m a none = (m, inconsistent)
refreshed_from env m a (some v) =
    let s = m.state in
    (
      persist_snapshot env (record m {
        state =
            state_of s.seed_source s.degraded s.degraded_reason s.signal a m.repository.versions v;
        pending_applied = none;
      }),
      refreshed,
    )

abbrev pub refresh_from : Env → Manager → Option ActiveRecord → Manager × Refreshed
refresh_from env m none = (m, refreshed)
refresh_from env m (some a) =
    if same_active a m.state.active
    then (persist_snapshot env m, refreshed)
    else refreshed_from env m a (load_version a.requested_version_id m.repository.versions)

-- `refresh`; a signal that the store holds already is saved again
unfoldable pub refresh : Env → Manager → Manager × Refreshed
unfolding build_signal same_active load_version state_of
refresh env m = refresh_from env m m.repository.active
