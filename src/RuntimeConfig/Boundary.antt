-- ===== src/RuntimeConfig/Boundary.antt =====
-- The cycles of the runtime and what their boundaries apply, bot/src/runtime/runtime-config-manager.ts,
-- also while a mutation waits for the repository.
use bobby_execute.Base.{
  ℕ, zero, suc, ◌+◌, String, Bool, true, false, Option, none, some, List, [], ◌∷◌,
}
use bobby_execute.RuntimeConfig.Records.{
  ActiveRecord, ConfigState, ManagedState, Manager, Env, Boundary, cycle_begins, cycle_ends,
}
use bobby_execute.RuntimeConfig.Views.{build_signal}
use bobby_execute.RuntimeConfig.Queue.{make_state, persist_snapshot, stored_active}

unfoldable pub begin_cycle : Manager → Manager
begin_cycle m = record m { cycle_depth = m.cycle_depth + 1 }

abbrev pub pred : ℕ → ℕ
pred zero = zero
pred (suc n) = n

-- the active record is stored, unless the repository throws, which is logged
abbrev pub try_stored_active : Option String → ActiveRecord → Manager → Manager
try_stored_active none a m = stored_active a m
try_stored_active (some _) a m = m

-- what waits for the end of the cycle is applied
abbrev pub settled_state : Env → ConfigState → ManagedState → ManagedState
settled_state env p base = record base {
  requested = record base.requested { pending_apply = false };
  applied = make_state p.version p.overlay p.requested_at (some env.now) false false;
  last_valid_version = p.version;
  active = record base.active {
    applied_version_id = p.version.id;
    last_valid_version_id = p.version.id;
    applied_at = some env.now;
    updated_at = env.now;
    pending_apply = false;
    pending_reason = none;
  };
}

abbrev pub settled : Env → ConfigState → Manager → Manager
settled env p m = record m { state = settled_state env p m.state; pending_applied = none }

abbrev pub apply_pending : Env → ConfigState → Manager → Manager
apply_pending env p m = persist_snapshot env (
    try_stored_active env.faults.update_active (settled_state env p m.state).active
      (settled env p m))

abbrev pub end_at : ℕ → Option ConfigState → Env → Manager → Manager
end_at zero (some p) env m = apply_pending env p m
end_at _ _ env m = m

unfoldable pub end_cycle : Env → Manager → Manager
unfolding build_signal
end_cycle env m =
    let depth = pred m.cycle_depth in
    end_at depth m.pending_applied env (record m { cycle_depth = depth })

abbrev pub pass_boundary : Boundary → Env → Manager → Manager
pass_boundary cycle_begins env m = begin_cycle m
pass_boundary (cycle_ends now update_active store) env m =
    let faults = record env.faults { update_active = update_active; store = store } in
    end_cycle (record env { now = now; faults = faults }) m

-- The boundaries that pass while the repository is awaited. The write of the active record and the
-- change log's are awaited one after the other, and since a boundary and an entry of the log do not
-- meet, all boundaries stand between the two.
abbrev pub pass_boundaries : List Boundary → Env → Manager → Manager
pass_boundaries [] env m = m
pass_boundaries (b ∷ bs) env m = pass_boundaries bs env (pass_boundary b env m)

-- The end of a request: it waits where a cycle runs by now, and is shown where none does.
abbrev pub finish_request : Bool → ConfigState → Env → Manager → Manager
finish_request true requested env m = record m { pending_applied = some requested }
finish_request false requested env m = persist_snapshot env m
