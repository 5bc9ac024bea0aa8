-- ===== src/KillSwitch/Examples.antt =====
-- Runs of the kill switch, and its theorems at concrete states.
use bobby_execute.Base.{◌≡◌, refl, true, false, none, some, [], ◌∷◌, List}
use bobby_execute.KillSwitch.{Switch, not_halted, is_kill_switch_halted, trigger_kill_switch}
use bobby_execute.KillSwitch.Halting.{
  Call, triggers, loads, hydrates, perform_all, trigger-perform_all_halted,
}
use bobby_execute.KillSwitch.Bridged.{trigger_bridged_lags}

abbrev fresh : Switch
fresh = record { state = not_halted; repository = some none; bridge = none }

abbrev bridged : Switch
bridged = record {
  state = not_halted;
  repository = some none;
  bridge = some (record { applied = not_halted; queue = [] });
}

abbrev calls : List Call
calls =
    loads
    ∷ hydrates (record { halted = true; reason = some "restored"; triggered_at = none })
    ∷ triggers (some "again") 7
    ∷ loads
    ∷ []

trigger-perform_all_halted_example :
    let v = perform_all calls (trigger_kill_switch none 5 fresh) in
    (is_kill_switch_halted v ≡ true) × (v.repository ≡ some (some v.state))
trigger-perform_all_halted_example =
    trigger-perform_all_halted none 5 fresh none calls refl refl (refl, tt)

trigger_bridged_lags_example :
    let v = trigger_kill_switch (some "drill") 5 bridged in
    (is_kill_switch_halted v ≡ false)
    × (v.repository ≡ some (some not_halted))
    × (v.state.halted ≡ true)
    × (v.bridge ≡ some (record { applied = not_halted; queue = v.state ∷ [] }))
trigger_bridged_lags_example =
    trigger_bridged_lags (some "drill") 5 bridged (record { applied = not_halted; queue = [] }) none
      refl refl
