-- ===== src/RuntimeConfig/Fixture.antt =====
-- A manager that has seeded an empty repository, and who calls it.
use bobby_execute.Base.{true, false, none, some, []}
use bobby_execute.KillSwitch.{KillSwitchState}
use bobby_execute.LiveControl.Types.{micro_live}
use bobby_execute.RuntimeConfig.Types.{RuntimeMode, no_review, RuntimeBehavior}
use bobby_execute.RuntimeConfig.Records.{boot, Repository, Manager, Env, Faults}
use bobby_execute.RuntimeConfig.Restore.{
  seed_environment, seed_version, seed_active, blank_signal, state_of, started,
}
use bobby_execute.RuntimeConfig.Calls.{Sender}

abbrev pub behavior : RuntimeBehavior
behavior = record {
  mode = RuntimeMode.paper;
  rollout_posture = micro_live;
  execution_toggles = record { trading_enabled = true; live_test_mode = false; dry_run = false };
  polling_interval_ms = 15000;
  filters = record { allowlist_tokens = []; denylist_tokens = [] };
  adapter_toggles = record {
    execution_enabled = true;
    publish_enabled = false;
    paper_adapters_enabled = true;
  };
  rate_caps = record {
    require_arm = true;
    max_notional_per_trade = 25000000000;
    max_trades_per_window = 1;
    window_ms = 3600000;
    cooldown_ms = 60000;
    max_in_flight = 1;
    failures_to_block = 3;
    failure_window_ms = 900000;
    max_daily_notional = none;
  };
  thresholds = record {
    max_slippage_percent = 5000000000;
    circuit_breaker_failure_threshold = 5;
    circuit_breaker_recovery_ms = 60000;
    review_policy_mode = no_review;
  };
  feature_flags = [];
  notes = some "night";
}

abbrev pub no_faults : Faults
no_faults = record {
  create_version = none;
  update_active = none;
  append_change_log = none;
  store = false;
  meanwhile = [];
}

abbrev pub env : Env
env = record {
  now = 5000;
  version_id = "v2";
  hash = λ _ _. "h";
  schema_error = "notes: expected string";
  faults = no_faults;
}

abbrev pub empty : Repository
empty = record { active = none; versions = []; change_log = [] }

-- a process that seeds an empty repository
abbrev pub manager : Manager
manager = started env none (seed_environment behavior "boot" env empty) (
    state_of boot false none blank_signal (seed_active "v2" env) []
      (seed_version behavior "boot" env))

abbrev pub operator : Sender
operator = record { actor = "operator"; reason = none; env = env }

abbrev pub cut : KillSwitchState
cut = record { halted = true; reason = some "manual"; triggered_at = some 6000 }
