-- ===== src/EventGate/Order.antt =====
-- The order of the stages' results, and what the type of a result's disposition declares.
use bobby_execute.Base.{
  ◌≡◌, refl, ap, Bool, true, false, not, ◌&&◌, ◌||◌, Option, none, some, List, [], ◌∷◌, ◌++◌, map,
  any, every, if◌then◌else◌, arith,
}
use bobby_execute.WorkerState.Types.{promoted, RouteClass, is_routed}
use bobby_execute.EventGate.Results.{
  pass, fail, suppressed, deferred, batched, promoted, no_model_result, skipped, StageResult,
}

abbrev is_given : {A : Type 0} → Option A → Bool
is_given none = false
is_given (some _) = true

abbrev is_model_route : Option RouteClass → Bool
is_model_route none = false
is_model_route (some r) = is_routed r

-- the result has what the type of its disposition declares
abbrev pub is_typed : StageResult → Bool
is_typed r = elim r.disposition [
  | pass ↦ not r.blocked
  | fail ↦ r.blocked && r.terminal
  | suppressed ↦ r.blocked && r.terminal && is_given r.suppression
  | deferred ↦ r.blocked && r.terminal && is_given r.suppression && is_given r.release_at
  | batched ↦ r.blocked && r.terminal && is_given r.suppression && is_given r.release_at
  | promoted ↦ not r.blocked && is_model_route r.route_class
  | no_model_result ↦ not r.blocked && is_given r.route_class && not (is_model_route r.route_class)
  | skipped ↦ not r.blocked && is_given r.skipped_because
]

abbrev pub is_skipped : StageResult → Bool
is_skipped r = elim r.disposition [ skipped ↦ true | _ ↦ false ]

-- no result before the one that is blocked is skipped, and every result after it is
abbrev pub in_order : List StageResult → Bool
in_order [] = true
in_order (r ∷ rs) = if r.blocked then every is_skipped rs else not (is_skipped r) && in_order rs

pub map_stage-append :
    (rs : List StageResult) (r : StageResult)
    → map (λ r. r.stage) (rs ++ r ∷ []) ≡ map (λ r. r.stage) rs ++ r.stage ∷ []
map_stage-append [] r = refl
map_stage-append (x ∷ rs) r = ap (λ t. x.stage ∷ t) (map_stage-append rs r)

pub any-append :
    (p : StageResult → Bool) (rs : List StageResult) (r : StageResult)
    → any p (rs ++ r ∷ []) ≡ (any p rs || p r)
any-append p [] r = ground arith
any-append p (x ∷ rs) r = ground (arith, any-append p rs r)

pub every-append :
    (p : StageResult → Bool) (rs : List StageResult) (r : StageResult)
    → every p (rs ++ r ∷ []) ≡ (every p rs && p r)
every-append p [] r = ground arith
every-append p (x ∷ rs) r = ground (arith, every-append p rs r)

pub in_order-run :
    (rs : List StageResult) (r : StageResult)
    → in_order rs ≡ true
    → any (λ r. r.blocked) rs ≡ false
    → is_skipped r ≡ false
    → in_order (rs ++ r ∷ []) ≡ true
in_order-run [] r o b h = ground arith
in_order-run (x ∷ rs) r o b h = ground (arith, in_order-run rs r)

pub in_order-skip :
    (rs : List StageResult) (r : StageResult)
    → in_order rs ≡ true
    → any (λ r. r.blocked) rs ≡ true
    → is_skipped r ≡ true
    → in_order (rs ++ r ∷ []) ≡ true
in_order-skip [] r o b h = absurd (ground arith)
in_order-skip (x ∷ rs) r o b h = ground (arith, in_order-skip rs r, every-append is_skipped rs r)
