-- ===== src/CircuitBreaker/Examples.antt =====
-- A breaker of two adapters after some reports.
use bobby_execute.Base.{
  ℕ, ◌≡◌, refl, String, false, ◌||◌, List, [], ◌∷◌, keep, any, ltb, ◌===◌, arith,
}
use bobby_execute.CircuitBreaker.{CircuitBreakerConfig, create, is_healthy, require_healthy}
use bobby_execute.CircuitBreaker.History.{
  Report, streak, rested, play, play-is_healthy, play-require_healthy, history_healthy,
}

abbrev config : CircuitBreakerConfig
config = record { failure_threshold = 2; recovery_time_ms = 1000 }

-- a mean that keeps the newer latency
abbrev newer : ℕ → ℕ → ℕ
newer latency old = latency

abbrev adapters : List String
adapters = "dexpaprika" ∷ "moralis" ∷ []

abbrev report : String → ℕ → Report
report id at = record { id = id; at = at; success = false; latency = 7 }

-- the latest first
abbrev reports : List Report
reports = report "moralis" 300 ∷ report "dexpaprika" 200 ∷ report "moralis" 100 ∷ []

play-is_healthy_example :
    let mine = keep (λ r. r.id === "moralis") reports in
    is_healthy config 500 "moralis" (play newer config reports (create adapters))
    ≡ (ltb (streak mine) 2 || rested 1000 500 mine)
play-is_healthy_example =
    play-is_healthy newer config "moralis" adapters 500 reports (omega arith) refl

moralis_open :
    let mine = keep (λ r. r.id === "moralis") reports in
    (ltb (streak mine) 2 || rested 1000 500 mine) ≡ false
unfolding streak
moralis_open = refl

-- the other adapter has failed once, which is not enough
play-require_healthy_example :
    require_healthy config 500 adapters (play newer config reports (create adapters))
    ≡ any (history_healthy newer config adapters 500 reports) adapters
play-require_healthy_example =
    play-require_healthy newer config adapters 500 reports adapters (omega arith) refl
