-- ===== src/KillSwitch/Halting.antt =====
-- The halt of a process without a bridge (bot/src/governance/kill-switch.ts), over later calls.
use bobby_execute.Base.{ℕ, String, ◌≡◌, true, Option, none, some, List, [], ◌∷◌, arith}
use bobby_execute.KillSwitch.{
  Switch, KillSwitchState, is_kill_switch_halted, trigger_kill_switch, reset_kill_switch,
  load_kill_switch_state, hydrate_kill_switch_state,
}

-- A call that other parts of the program make on a running process.
pub data Call : Type 0 where
  triggers : Option String → ℕ → Call
  loads resets : Call
  hydrates : KillSwitchState → Call

unfoldable pub perform : Call → Switch → Switch
perform (triggers reason now) w = trigger_kill_switch reason now w
perform loads w = load_kill_switch_state w
perform resets w = reset_kill_switch w
perform (hydrates s) w = hydrate_kill_switch_state s w

unfoldable pub perform_all : List Call → Switch → Switch
perform_all [] w = w
perform_all (c ∷ cs) w = perform_all cs (perform c w)

abbrev pub NoReset : List Call → Type 0
NoReset [] = Unit {0}
NoReset (resets ∷ cs) = ⊥
NoReset (hydrates s ∷ cs) = (s.halted ≡ true) × NoReset cs
NoReset (loads ∷ cs) = NoReset cs
NoReset (triggers _ _ ∷ cs) = NoReset cs

pub record Holds (w : Switch) : Type 0 where
  pub unbridged : w.bridge ≡ none
  pub halts : w.state.halted ≡ true
  pub saved : w.repository ≡ some (some w.state)

perform-triggers-Holds :
    (reason : Option String) (now : ℕ) (w : Switch)
    → w.bridge ≡ none
    → (s : Option KillSwitchState) → w.repository ≡ some s
    → Holds (trigger_kill_switch reason now w)
unfolding trigger_kill_switch
perform-triggers-Holds reason now w nb s r = ground arith

loads-Holds : (w : Switch) → Holds w → Holds (load_kill_switch_state w)
unfolding load_kill_switch_state
loads-Holds w h = ground arith

hydrates-Holds :
    (s : KillSwitchState) (w : Switch)
    → s.halted ≡ true
    → Holds w
    → Holds (hydrate_kill_switch_state s w)
unfolding hydrate_kill_switch_state
hydrates-Holds s w t h = ground arith

perform_all-Holds : (cs : List Call) (w : Switch) → NoReset cs → Holds w → Holds (perform_all cs w)
unfolding perform_all perform
perform_all-Holds [] w n h = h
perform_all-Holds (triggers reason now ∷ cs) w n h =
    perform_all-Holds cs _ n
      (perform-triggers-Holds reason now w h.unbridged (some w.state) h.saved)
perform_all-Holds (loads ∷ cs) w n h = perform_all-Holds cs _ n (loads-Holds w h)
perform_all-Holds (resets ∷ cs) w n h = absurd n
perform_all-Holds (hydrates s ∷ cs) w n h = perform_all-Holds cs _ n.1 (hydrates-Holds s w n.0 h)

-- In a process that has no bridge and has a repository, once the switch is triggered, any later
-- triggers, reloads and hydrations, in any order, with no reset and no hydration by a state that is
-- not halted among them, leave it halted, and the repository holds exactly the state in memory.
pub trigger-perform_all_halted :
    (reason : Option String) (now : ℕ) (w : Switch) (s : Option KillSwitchState) (cs : List Call)
    → w.bridge ≡ none
    → w.repository ≡ some s
    → NoReset cs
    → let v = perform_all cs (trigger_kill_switch reason now w) in
      (is_kill_switch_halted v ≡ true) × (v.repository ≡ some (some v.state))
unfolding is_kill_switch_halted
trigger-perform_all_halted reason now w s cs nb r n =
    let h = perform_all-Holds cs _ n (perform-triggers-Holds reason now w nb s r) in ground arith
