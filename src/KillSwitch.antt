-- ===== src/KillSwitch.antt =====
-- The emergency halt, bot/src/governance/kill-switch.ts. The module's three variables are one
-- record. The repository is a cell that `saveSync` overwrites (both repositories of
-- bot/src/persistence/kill-switch-repository.ts write it at once). The bridge is the runtime
-- configuration's view: `read` gives the applied state, and a write joins a queue that a later turn
-- of the event loop applies, or drops when the write is rejected.
pub mod Halting
pub mod Bridged
pub mod Examples
use bobby_execute.Base.{
  ℕ, String, Bool, true, false, Option, none, some, List, [], ◌∷◌, ◌++◌, ◌otherwise◌,
}

pub record KillSwitchState : Type 0 where
  pub halted : Bool
  pub reason : Option String
  pub triggered_at : Option ℕ

pub record KillSwitchBridge : Type 0 where
  pub applied : KillSwitchState
  pub queue : List KillSwitchState

pub record Switch : Type 0 where
  pub state : KillSwitchState
  -- `none`: no repository; `some none`: an empty one
  pub repository : Option (Option KillSwitchState)
  pub bridge : Option KillSwitchBridge

abbrev pub not_halted : KillSwitchState
not_halted = record { halted = false; reason = none; triggered_at = none }

abbrev visible_state : KillSwitchState → Option KillSwitchBridge → KillSwitchState
visible_state s none = s
visible_state s (some b) = b.applied

unfoldable pub get_kill_switch_state : Switch → KillSwitchState
get_kill_switch_state w = visible_state w.state w.bridge

unfoldable pub is_kill_switch_halted : Switch → Bool
unfolding get_kill_switch_state
is_kill_switch_halted w = (get_kill_switch_state w).halted

abbrev overwrite :
    KillSwitchState → Option (Option KillSwitchState) → Option (Option KillSwitchState)
overwrite s none = none
overwrite s (some _) = some (some s)

unfoldable pub persist_kill_switch_state : Switch → Switch
unfolding get_kill_switch_state
persist_kill_switch_state w = record w {
  repository = overwrite (get_kill_switch_state w) w.repository;
}

abbrev enqueue : KillSwitchState → Option KillSwitchBridge → Option KillSwitchBridge
enqueue s none = none
enqueue s (some b) = some (record b { queue = b.queue ++ s ∷ [] })

-- `bridge.write(snapshot)`, after the local state was persisted
abbrev write_through : Switch → Switch
write_through w = record w { bridge = enqueue w.state w.bridge }

unfoldable pub trigger_kill_switch : Option String → ℕ → Switch → Switch
unfolding persist_kill_switch_state
trigger_kill_switch reason now w = write_through (
    persist_kill_switch_state (record w {
      state = record {
        halted = true;
        reason = some (reason otherwise "emergency-stop");
        triggered_at = some now;
      };
    }))

unfoldable pub reset_kill_switch : Switch → Switch
unfolding persist_kill_switch_state
reset_kill_switch w = write_through (persist_kill_switch_state (record w { state = not_halted }))

unfoldable pub hydrate_kill_switch_state : KillSwitchState → Switch → Switch
unfolding persist_kill_switch_state
hydrate_kill_switch_state s w = persist_kill_switch_state (record w { state = s })

abbrev load_from : Option (Option KillSwitchState) → KillSwitchState → KillSwitchState
load_from none s = s
load_from (some none) s = s
load_from (some (some loaded)) s = loaded

-- `loadKillSwitchState()`: a repository that holds nothing leaves the state alone
unfoldable pub load_kill_switch_state : Switch → Switch
load_kill_switch_state w = record w { state = load_from w.repository w.state }
