-- ===== src/Engine/Ingest.antt =====
-- The gate on the data of a cycle, bot/src/core/decision/ingest-provenance.ts: the reason for which
-- it is refused. A price is not negative.
use bobby_execute.Base.Text.{is_empty, trim}
use bobby_execute.Base.{
  ℕ, ◌+◌, ◌-◌, String, Bool, true, false, not, ◌||◌, Option, none, some, ltb, ◌==◌, if◌then◌else◌,
}
use bobby_execute.Engine.Types.{MarketSnapshot, WalletSnapshot, MarketStatus, stale, degraded}

abbrev max_data_age_ms : ℕ
max_data_age_ms = 60000

abbrev age_ms : ℕ → Option ℕ → ℕ
age_ms now none = max_data_age_ms + 1
age_ms now (some at) = now - at

abbrev is_stale : Option MarketStatus → Bool
is_stale (some stale) = true
is_stale _ = false

abbrev is_degraded : Option MarketStatus → Bool
is_degraded (some degraded) = true
is_degraded _ = false

-- The numbers that the two messages on stale data end with are left out.
unfoldable pub validate_ingest : MarketSnapshot → WalletSnapshot → ℕ → Option String
unfolding trim
validate_ingest market wallet now =
    if is_empty (trim market.pool_id)
      || is_empty (trim market.base_token)
      || is_empty (trim market.quote_token)
    then some "DATA_MISSING:market_fields_incomplete"
    else if market.price_usd == 0
    then some "DATA_MISSING:market_price_invalid"
    else if not wallet.has_balances
    then some "DATA_MISSING:wallet_balances_invalid"
    else if is_stale market.status
        || ltb max_data_age_ms market.freshness_ms
        || ltb max_data_age_ms (age_ms now market.timestamp)
    then some "DATA_STALE:market"
    else if ltb max_data_age_ms (age_ms now wallet.timestamp)
    then some "DATA_STALE:wallet"
    else if is_degraded market.status
    then some "DATA_DISAGREEMENT:market_status_degraded"
    else none
