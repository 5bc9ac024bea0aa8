-- ===== src/KillSwitch/Bridged.antt =====
-- The switch of bot/src/governance/kill-switch.ts with a bridge, before the queued writes are applied.
use bobby_execute.Base.{ℕ, String, ◌≡◌, true, Option, some, [], ◌∷◌, ◌++◌, arith}
use bobby_execute.KillSwitch.{
  Switch, KillSwitchState, KillSwitchBridge, is_kill_switch_halted, trigger_kill_switch,
}

-- With a bridge, triggering the switch neither halts at once nor saves the halt: the halted flag and
-- the state that the repository receives are those that the bridge showed before, whatever they are,
-- and the halt only joins the end of the bridge's queue.
pub trigger_bridged_lags :
    (reason : Option String) (now : ℕ) (w : Switch) (b : KillSwitchBridge)
    (s : Option KillSwitchState)
    → w.bridge ≡ some b
    → w.repository ≡ some s
    → let v = trigger_kill_switch reason now w in
      (is_kill_switch_halted v ≡ b.applied.halted)
      × (v.repository ≡ some (some b.applied))
      × (v.state.halted ≡ true)
      × (v.bridge ≡ some (record b { queue = b.queue ++ v.state ∷ [] }))
unfolding trigger_kill_switch is_kill_switch_halted
trigger_bridged_lags reason now w b s hb r = ground arith
