-- ===== src/CircuitBreaker.antt =====
-- The circuit breaker of the adapters, bot/src/governance/circuit-breaker.ts. The map of the adapters
-- is the list of its records, whose key is the adapter's id. A latency is a whole number of
-- milliseconds, and the weighted mean of two latencies, a computation on doubles, is a parameter.
-- `onHealthChange` is called with the record that a report leaves, and is not modelled.
pub mod History
pub mod Examples
use bobby_execute.Base.{
  ℕ, suc, ◌+◌, ◌-◌, String, Bool, true, false, not, ◌&&◌, Option, none, some, List, [], ◌∷◌, map,
  keep, any, leb, ltb, if◌then◌else◌, ◌===◌, ◌otherwise◌,
}

-- `AdapterHealthInternal`
pub record AdapterHealth : Type 0 where
  pub adapter_id : String
  pub healthy : Bool
  pub last_checked_at : ℕ
  pub freshness_age_ms : ℕ
  pub consecutive_failures : ℕ
  pub average_latency_ms : ℕ
  pub last_success_at : Option ℕ
  pub unhealthy_since : Option ℕ

pub record CircuitBreakerConfig : Type 0 where
  pub failure_threshold : ℕ
  pub recovery_time_ms : ℕ

abbrev pub default_config : CircuitBreakerConfig
default_config = record { failure_threshold = 5; recovery_time_ms = 60000 }

abbrev pub unchecked : String → AdapterHealth
unchecked id = record {
  adapter_id = id;
  healthy = true;
  last_checked_at = 0;
  freshness_age_ms = 0;
  consecutive_failures = 0;
  average_latency_ms = 0;
  last_success_at = none;
  unhealthy_since = none;
}

-- `Map.get`
unfoldable pub lookup : String → List AdapterHealth → Option AdapterHealth
lookup id [] = none
lookup id (h ∷ hs) = let rest = lookup id hs in if h.adapter_id === id then some h else rest

-- `Map.set` on a key that is there: the function is applied to its record
unfoldable pub update :
    String → (AdapterHealth → AdapterHealth) → List AdapterHealth → List AdapterHealth
update id f [] = []
update id f (h ∷ hs) =
    let rest = update id f hs in if h.adapter_id === id then f h ∷ hs else h ∷ rest

-- `Map.set` with a fresh record, which a key that is there keeps its place for
unfoldable pub set_unchecked : String → List AdapterHealth → List AdapterHealth
set_unchecked id [] = unchecked id ∷ []
set_unchecked id (h ∷ hs) =
    let rest = set_unchecked id hs in if h.adapter_id === id then unchecked id ∷ hs else h ∷ rest

unfoldable pub create_from : List AdapterHealth → List String → List AdapterHealth
create_from hs [] = hs
create_from hs (id ∷ ids) = create_from (set_unchecked id hs) ids

-- the constructor
unfoldable pub create : List String → List AdapterHealth
unfolding create_from
create ids = create_from [] ids

-- `(lastSuccessAt ?? 0) > 0 ? now - lastSuccessAt : 0`, at a clock that does not run backwards
abbrev freshness : ℕ → Option ℕ → ℕ
freshness now last = if ltb 0 (last otherwise 0) then now - (last otherwise 0) else 0

abbrev succeed : ℕ → AdapterHealth → AdapterHealth
succeed now h = record h {
  consecutive_failures = 0;
  healthy = true;
  last_success_at = some now;
  unhealthy_since = none;
}

abbrev trip : ℕ → AdapterHealth → AdapterHealth
trip now h = record h { healthy = false; unhealthy_since = some now }

abbrev fail : CircuitBreakerConfig → ℕ → AdapterHealth → AdapterHealth
fail config now h =
    let h' = record h { consecutive_failures = suc h.consecutive_failures } in
    if leb config.failure_threshold h'.consecutive_failures then trip now h' else h'

module _ (blend : ℕ → ℕ → ℕ) where
  abbrev measure : ℕ → ℕ → AdapterHealth → AdapterHealth
  measure now latency h = record h {
    average_latency_ms = blend latency h.average_latency_ms;
    last_checked_at = now;
    freshness_age_ms = freshness now h.last_success_at;
  }

  -- what `reportHealth` does to the adapter's record
  unfoldable pub report : CircuitBreakerConfig → ℕ → Bool → ℕ → AdapterHealth → AdapterHealth
  report config now success latency h =
      measure now latency (if success then succeed now h else fail config now h)

  unfoldable pub report_health :
      CircuitBreakerConfig → ℕ → String → Bool → ℕ → List AdapterHealth → List AdapterHealth
  unfolding report
  report_health config now id success latency hs = update id (report config now success latency) hs

-- `now - unhealthySince >= recoveryTimeMs`, where the difference may be negative
abbrev pub recovered : ℕ → ℕ → Option ℕ → Bool
recovered recovery now none = false
recovered recovery now (some since) = leb (since + recovery) now

abbrev health_of : CircuitBreakerConfig → ℕ → Option AdapterHealth → Bool
health_of config now none = false
health_of config now (some h) =
    if h.healthy then true else recovered config.recovery_time_ms now h.unhealthy_since

unfoldable pub is_healthy : CircuitBreakerConfig → ℕ → String → List AdapterHealth → Bool
is_healthy config now id hs = health_of config now (lookup id hs)

abbrev refreshed : ℕ → AdapterHealth → AdapterHealth
refreshed now h = record h { freshness_age_ms = freshness now h.last_success_at }

unfoldable pub get_health : ℕ → List AdapterHealth → List AdapterHealth
get_health now hs = map (refreshed now) hs

unfoldable pub has_any_healthy : CircuitBreakerConfig → ℕ → List String → List AdapterHealth → Bool
has_any_healthy config now ids hs = any (λ id. is_healthy config now id hs) ids

abbrev pub is_nil : List String → Bool
is_nil [] = true
is_nil (_ ∷ _) = false

-- whether `requireHealthy` returns; otherwise it throws
unfoldable pub require_healthy : CircuitBreakerConfig → ℕ → List String → List AdapterHealth → Bool
require_healthy config now ids hs = not (is_nil (keep (λ id. is_healthy config now id hs) ids))
