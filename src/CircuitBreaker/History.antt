-- ===== src/CircuitBreaker/History.antt =====
-- An adapter's health, from the history of its reports.
use bobby_execute.Base.{
  ℕ, suc, ◌+◌, ◌≤◌, ◌≡◌, ◌∙◌, refl, ap, String, Bool, true, false, not, ◌&&◌, ◌||◌, every, Option,
  none, some, List, [], ◌∷◌, keep, any, leb, ltb, if◌then◌else◌, ◌===◌, arith, eq_iff, Bool-cases,
  inl, inr,
}
use bobby_execute.CircuitBreaker.{
  AdapterHealth, CircuitBreakerConfig, unchecked, create, create_from, set_unchecked, is_nil,
  lookup, update, report, report_health, recovered, is_healthy, require_healthy,
}

-- A report, with the time at which it comes.
pub record Report : Type 0 where
  pub id : String
  pub at : ℕ
  pub success : Bool
  pub latency : ℕ

abbrev when_some : {A : Type 0} → (A → A) → Option A → Option A
when_some f none = none
when_some f (some a) = some (f a)

lookup-update_same :
    (id : String) (f : AdapterHealth → AdapterHealth)
    → ((h : AdapterHealth) → (f h).adapter_id ≡ h.adapter_id)
    → (hs : List AdapterHealth) → lookup id (update id f hs) ≡ when_some f (lookup id hs)
unfolding lookup update
lookup-update_same id f k [] = refl
lookup-update_same id f k (h ∷ hs) = elim (Bool-cases (h.adapter_id === id)) [
  | inl e ↦ grind (arith, k h)
  | inr e ↦ grind (arith, lookup-update_same id f k hs)
]

lookup-update_other :
    (id other : String) (f : AdapterHealth → AdapterHealth)
    → ((h : AdapterHealth) → (f h).adapter_id ≡ h.adapter_id)
    → (other === id) ≡ false
    → (hs : List AdapterHealth) → lookup id (update other f hs) ≡ lookup id hs
unfolding lookup update
lookup-update_other id other f k n [] = refl
lookup-update_other id other f k n (h ∷ hs) = elim (Bool-cases (h.adapter_id === other)) [
  | inl e ↦ rw (e, k h, (eq_iff h.adapter_id other).0 e, n) refl
  | inr e ↦ rw (e, lookup-update_other id other f k n hs) refl
]

same_refl : (s : String) → (s === s) ≡ true
same_refl s = (eq_iff s s).1 refl

lookup-set_same :
    (id : String) (hs : List AdapterHealth) → lookup id (set_unchecked id hs) ≡ some (unchecked id)
unfolding lookup set_unchecked
lookup-set_same id [] = rw (same_refl id) refl
lookup-set_same id (h ∷ hs) = elim (Bool-cases (h.adapter_id === id)) [
  | inl e ↦ rw (e, same_refl id) refl
  | inr e ↦ rw (e, e) (lookup-set_same id hs)
]

lookup-set_other :
    (id other : String) (hs : List AdapterHealth)
    → (other === id) ≡ false
    → lookup id (set_unchecked other hs) ≡ lookup id hs
unfolding lookup set_unchecked
lookup-set_other id other [] n = rw n refl
lookup-set_other id other (h ∷ hs) n = elim (Bool-cases (h.adapter_id === other)) [
  | inl e ↦ rw (e, (eq_iff h.adapter_id other).0 e, n) refl
  | inr e ↦ rw (e, lookup-set_other id other hs n) refl
]

create_from-kept :
    (id : String) (ids : List String) (hs : List AdapterHealth)
    → lookup id hs ≡ some (unchecked id)
    → lookup id (create_from hs ids) ≡ some (unchecked id)
unfolding create_from
create_from-kept id [] hs l = l
create_from-kept id (i ∷ ids) hs l = elim (Bool-cases (i === id)) [
  | inl e ↦ create_from-kept id ids _ (rw ((eq_iff i id).0 e) (lookup-set_same id hs))
  | inr e ↦ create_from-kept id ids _ (lookup-set_other id i hs e ∙ l)
]

create_from-found :
    (id : String) (ids : List String) (hs : List AdapterHealth)
    → any (λ i. i === id) ids ≡ true
    → lookup id (create_from hs ids) ≡ some (unchecked id)
unfolding create_from
create_from-found id [] hs m = absurd (ground arith)
create_from-found id (i ∷ ids) hs m = elim (Bool-cases (i === id)) [
  | inl e ↦ create_from-kept id ids _ (rw ((eq_iff i id).0 e) (lookup-set_same id hs))
  | inr e ↦ create_from-found id ids (set_unchecked i hs) (ground arith)
]

-- the reports of an adapter, the latest first: the failures since the last success
unfoldable pub streak : List Report → ℕ
streak [] = 0
streak (r ∷ rs) = if r.success then 0 else suc (streak rs)

-- whether the recovery time has gone by since the latest report
abbrev pub rested : ℕ → ℕ → List Report → Bool
rested recovery now [] = false
rested recovery now (r ∷ rs) = leb (r.at + recovery) now

module _ (blend : ℕ → ℕ → ℕ) (config : CircuitBreakerConfig) where
  -- the breaker after these reports, the latest first
  unfoldable pub play : List Report → List AdapterHealth → List AdapterHealth
  play [] hs = hs
  play (r ∷ rs) hs = report_health blend config r.at r.id r.success r.latency (play rs hs)

  -- an adapter's record after its own reports
  unfoldable pub after : List Report → AdapterHealth → AdapterHealth
  after [] h = h
  after (r ∷ rs) h = report blend config r.at r.success r.latency (after rs h)

  report-adapter_id :
      (now : ℕ) (success : Bool) (latency : ℕ) (h : AdapterHealth)
      → (report blend config now success latency h).adapter_id ≡ h.adapter_id
  unfolding report
  report-adapter_id now success latency h = ground arith

  lookup-play :
      (id : String) (rs : List Report) (hs : List AdapterHealth) (h : AdapterHealth)
      → lookup id hs ≡ some h
      → lookup id (play rs hs) ≡ some (after (keep (λ r. r.id === id) rs) h)
  unfolding play after report_health
  lookup-play id [] hs h l = l
  lookup-play id (r ∷ rs) hs h l =
      let f : AdapterHealth → AdapterHealth = report blend config r.at r.success r.latency in
      let k = report-adapter_id r.at r.success r.latency in
      elim (Bool-cases (r.id === id)) [
        | inl e ↦
            rw (e, (eq_iff r.id id).0 e)
              (lookup-update_same id f k (play rs hs) ∙ ap (when_some f) (lookup-play id rs hs h l))
        | inr e ↦ rw e (lookup-update_other id r.id f k e (play rs hs) ∙ lookup-play id rs hs h l)
      ]

  -- an adapter's record and its reports, after a record that was not checked
  record Tracks (rs : List Report) (h : AdapterHealth) : Type 0 where
    pub failures : h.consecutive_failures ≡ streak rs
    pub opened : h.healthy ≡ ltb (streak rs) config.failure_threshold
    pub since :
        (now : ℕ)
        → h.healthy ≡ false
        → recovered config.recovery_time_ms now h.unhealthy_since
          ≡ rested config.recovery_time_ms now rs

  after-Tracks :
      (id : String) (rs : List Report)
      → 1 ≤ config.failure_threshold
      → Tracks rs (after rs (unchecked id))
  unfolding after report streak
  after-Tracks id [] le = record {
    failures = refl;
    opened = ground arith;
    since = λ now e. ground arith;
  }
  after-Tracks id (r ∷ rs) le =
      let t = after-Tracks id rs le in
      record {
        failures = ground (arith, t.failures);
        opened = ground (arith, t.failures);
        since = λ now e. ground (arith, t.failures);
      }

  -- In a breaker whose threshold is at least one, over any reports on any adapters, an adapter that the
  -- breaker was created with is healthy exactly while its failures since its last success are fewer
  -- than the threshold, or once the recovery time has gone by since its latest report. The reports on
  -- other adapters have no effect on it.
  pub play-is_healthy :
      (id : String) (ids : List String) (now : ℕ) (rs : List Report)
      → 1 ≤ config.failure_threshold
      → any (λ i. i === id) ids ≡ true
      → let mine = keep (λ r. r.id === id) rs in
        is_healthy config now id (play rs (create ids))
        ≡ (ltb (streak mine) config.failure_threshold || rested config.recovery_time_ms now mine)
  unfolding is_healthy create
  play-is_healthy id ids now rs le m =
      let t = after-Tracks id (keep (λ r. r.id === id) rs) le in
      rw (lookup-play id rs (create ids) (unchecked id) (create_from-found id ids [] m))
        (ground (arith, t.opened, t.since now))

keep-any : (p : String → Bool) (ids : List String) → not (is_nil (keep p ids)) ≡ any p ids
keep-any p [] = refl
keep-any p (id ∷ ids) = elim (Bool-cases (p id)) [
  | inl e ↦ rw e refl
  | inr e ↦ rw e (keep-any p ids)
]

and_left : (a b : Bool) → (a && b) ≡ true → a ≡ true
and_left a b h = ground arith

and_right : (a b : Bool) → (a && b) ≡ true → b ≡ true
and_right a b h = ground arith

module _ (mean : ℕ → ℕ → ℕ) (config : CircuitBreakerConfig) (ids : List String) (now : ℕ)
    (rs : List Report) where
  -- what the history of an adapter says of its health
  abbrev pub history_healthy : String → Bool
  history_healthy id =
      let mine = keep (λ r. r.id === id) rs in
      ltb (streak mine) config.failure_threshold || rested config.recovery_time_ms now mine

  any-history_healthy :
      (asked : List String)
      → 1 ≤ config.failure_threshold
      → every (λ id. any (λ i. i === id) ids) asked ≡ true
      → any (λ id. is_healthy config now id (play mean config rs (create ids))) asked
        ≡ any history_healthy asked
  any-history_healthy [] le m = refl
  any-history_healthy (id ∷ asked) le m =
      let e = play-is_healthy mean config id ids now rs le (and_left _ _ m) in
      let rest = any-history_healthy asked le (and_right _ _ m) in
      ap (λ b. b || any (λ i. is_healthy config now i (play mean config rs (create ids))) asked) e
      ∙ ap (λ b. history_healthy id || b) rest

  -- In a breaker whose threshold is at least one, after any reports on any adapters, `requireHealthy`
  -- on some of the adapters that the breaker was created with returns exactly where the reports on one
  -- of them have fewer failures since the last success than the threshold, or the recovery time has
  -- gone by since the latest of them; otherwise, and for no adapters, it throws.
  pub play-require_healthy :
      (asked : List String)
      → 1 ≤ config.failure_threshold
      → every (λ id. any (λ i. i === id) ids) asked ≡ true
      → require_healthy config now asked (play mean config rs (create ids))
        ≡ any history_healthy asked
  unfolding require_healthy
  play-require_healthy asked le m =
      keep-any (λ id. is_healthy config now id (play mean config rs (create ids))) asked
      ∙ any-history_healthy asked le m
