-- ===== src/RuntimeConfig/Killed/Boundary.antt =====
-- The boundaries of the cycles keep the kill switch on.
use bobby_execute.Base.{
  ℕ, zero, suc, ◌≡◌, refl, String, Bool, true, false, Option, none, some, List, [], ◌∷◌,
}
use bobby_execute.RuntimeConfig.Records.{
  ActiveRecord, ConfigState, Manager, Env, Boundary, cycle_begins, cycle_ends,
}
use bobby_execute.RuntimeConfig.Queue.{persist_snapshot}
use bobby_execute.RuntimeConfig.Boundary.{
  begin_cycle, try_stored_active, settled_state, settled, end_at, end_cycle, pass_boundary,
  pass_boundaries, finish_request,
}
use bobby_execute.RuntimeConfig.Killed.{waiting_killed, Killed, five}

pub persist_snapshot-Killed : (env : Env) (m : Manager) → Killed m → Killed (persist_snapshot env m)
persist_snapshot-Killed env m k = five k.requested k.applied k.active k.waiting k.stored

try_stored_active-Killed :
    (fault : Option String) (a : ActiveRecord) (m : Manager)
    → a.kill_switch ≡ true
    → Killed m
    → Killed (try_stored_active fault a m)
try_stored_active-Killed none a m h k = five k.requested k.applied k.active k.waiting h
try_stored_active-Killed (some e) a m h k = k

end_at-Killed :
    (depth : ℕ) (waiting : Option ConfigState) (env : Env) (m : Manager)
    → waiting_killed waiting ≡ true
    → Killed m
    → Killed (end_at depth waiting env m)
end_at-Killed zero (some p) env m w k =
    persist_snapshot-Killed env
      (try_stored_active env.faults.update_active (settled_state env p m.state).active
        (settled env p m))
      (try_stored_active-Killed env.faults.update_active (settled_state env p m.state).active
        (settled env p m) k.active (five k.requested w k.active refl k.stored))
end_at-Killed zero none env m w k = k
end_at-Killed (suc n) waiting env m w k = k

pub depth-Killed : (depth : ℕ) (m : Manager) → Killed m → Killed (record m { cycle_depth = depth })
depth-Killed depth m k = five k.requested k.applied k.active k.waiting k.stored

pub end_cycle-Killed : (env : Env) (m : Manager) → Killed m → Killed (end_cycle env m)
unfolding end_cycle
end_cycle-Killed env m k = end_at-Killed _ m.pending_applied env _ k.waiting (depth-Killed _ m k)

begin_cycle-Killed : (m : Manager) → Killed m → Killed (begin_cycle m)
unfolding begin_cycle
begin_cycle-Killed m k = depth-Killed _ m k

pass_boundary-Killed :
    (b : Boundary) (env : Env) (m : Manager) → Killed m → Killed (pass_boundary b env m)
pass_boundary-Killed cycle_begins env m k = begin_cycle-Killed m k
pass_boundary-Killed (cycle_ends now update store) env m k = end_cycle-Killed _ m k

pub pass-Killed :
    (bs : List Boundary) (env : Env) (m : Manager) → Killed m → Killed (pass_boundaries bs env m)
pass-Killed [] env m k = k
pass-Killed (b ∷ bs) env m k = pass-Killed bs env _ (pass_boundary-Killed b env m k)

pub finish_request-Killed :
    (cycling : Bool) (p : ConfigState) (env : Env) (m : Manager)
    → p.overlay.kill_switch ≡ true
    → Killed m
    → Killed (finish_request cycling p env m)
finish_request-Killed true p env m h k = five k.requested k.applied k.active h k.stored
finish_request-Killed false p env m h k = persist_snapshot-Killed env m k
