-- ===== src/Engine/Escalation.antt =====
-- No stage of a cycle touches the bridge of the kill switch.
use bobby_execute.Base.{◌≡◌, String, Bool, true, false, Option, none, some}
use bobby_execute.Engine.Types.{
  Try, Thrown, returned, threw, MarketSnapshot, WalletSnapshot, Signal, SignalResult, signal_ok,
  signal_blocked, TradeIntent, ExecutionReport, StageOutcome, World, EngineConfig, Handlers,
  RecordedTrade,
}
use bobby_execute.Engine.Coordinator.{Call, and_then}
use bobby_execute.Engine.Stages.{
  need, Done, append_critical_journal, check_ingest, ingest_stage, take_signal, signal_stage,
  take_chaos, chaos_gate, after_record, record_loss, take_limit, take_risk, risk_stage,
  execute_stage, take_verification, verify_stage, journal_stage,
}
use bobby_execute.Engine.Journaled.{journal-rule}
use bobby_execute.Engine.Rules.{Post, and_then-rule, answer-rule}

-- the kill switch has no bridge
unfoldable pub Unbridged : World → Type 0
Unbridged w = w.kill_switch.bridge ≡ none

abbrev pub Leaves : {A : Type 0} → Call World A → Type 0
Leaves x = Post (λ _ w. Unbridged w) Unbridged x

answer-Leaves :
    {A B : Type 0} (w : World) (t : Try A) (f : A → World → Call World B)
    → Unbridged w
    → ((a : A) → Leaves (f a w))
    → Leaves (and_then (w, t) f)
answer-Leaves w t f p k = answer-rule (λ _ w'. Unbridged w') Unbridged w t f p k

module _ (c : EngineConfig) (h : Handlers) where
  journal-Leaves :
      {B : Type 0} (stage : String) (blocked : Bool) (reason : Option String) (w : World)
      (f : Done → World → Call World B)
      → Unbridged w
      → ((d : Done) (w' : World) → Unbridged w' → Leaves (f d w'))
      → Leaves (and_then (append_critical_journal c h stage blocked reason w) f)
  unfolding Unbridged
  journal-Leaves stage blocked reason w f p k =
      and_then-rule (λ _ w'. Unbridged w') (λ _ w'. Unbridged w') Unbridged _ f
        (journal-rule Unbridged Unbridged (λ w' q. q) (λ w' j e q. q) c h stage blocked reason w p)
        k

  check_ingest-Leaves :
      (r : Option String) (w : World) → Unbridged w → Leaves (check_ingest c h r w)
  unfolding Unbridged
  check_ingest-Leaves (some r) w p = p
  check_ingest-Leaves none w p = p

  pub ingest-Leaves : (w : World) → Unbridged w → Leaves (ingest_stage c h w)
  unfolding ingest_stage Unbridged
  ingest-Leaves w p = answer-Leaves _ h.ingest _ p (λ a. check_ingest-Leaves _ _ p)

  take_signal-Leaves : (r : SignalResult) (w : World) → Unbridged w → Leaves (take_signal c h r w)
  unfolding Unbridged
  take_signal-Leaves (signal_blocked reason) w p = p
  take_signal-Leaves (signal_ok s i) w p = journal-Leaves _ _ _ _ _ p (λ _ w' q. q)

  pub signal-Leaves : (w : World) → Unbridged w → Leaves (signal_stage c h w)
  unfolding signal_stage
  signal-Leaves w p = answer-Leaves w (need _ w.state.market) _ p (λ market.
      answer-Leaves w (need _ w.state.wallet) _ p
        (λ _. answer-Leaves w (h.signal market) _ p (λ r. take_signal-Leaves r w p)))

  take_chaos-Leaves :
      (b : Bool) (reason : Option String) (w : World)
      → Unbridged w
      → Leaves (take_chaos c h b reason w)
  unfolding Unbridged
  take_chaos-Leaves false reason w p = p
  take_chaos-Leaves true reason w p = p

  chaos_gate-Leaves :
      (i : TradeIntent) (market : MarketSnapshot) (wallet : WalletSnapshot) (s : Signal) (w : World)
      → Unbridged w
      → Leaves (chaos_gate c h i market wallet s w)
  unfolding chaos_gate Unbridged
  chaos_gate-Leaves i market wallet s w p =
      answer-Leaves _ (h.chaos i market wallet s) _ p
        (λ d. journal-Leaves _ _ _ _ _ p (λ _ w' q. take_chaos-Leaves d.allowed d.reason w' q))

  take_limit-Leaves :
      (reached : Option (Try Bool)) (next : World → Call World StageOutcome) (w : World)
      → Unbridged w
      → Leaves (next w)
      → Leaves (take_limit c h reached next w)
  unfolding Unbridged
  take_limit-Leaves (some (returned true)) next w p n = p
  take_limit-Leaves (some (returned false)) next w p n = n
  take_limit-Leaves (some (threw e)) next w p n = p
  take_limit-Leaves none next w p n = n

  take_risk-Leaves :
      (b : Bool) (reason : Option String) (next : World → Call World StageOutcome) (w : World)
      → Unbridged w
      → Leaves (next w)
      → Leaves (take_risk c h b reason next w)
  unfolding Unbridged
  take_risk-Leaves false reason next w p n = p
  take_risk-Leaves true reason next w p n = take_limit-Leaves h.is_limit_reached next w p n

  pub risk-Leaves : (w : World) → Unbridged w → Leaves (risk_stage c h w)
  unfolding risk_stage Unbridged
  risk-Leaves w p = answer-Leaves w (need _ w.state.trade_intent) _ p (λ i.
      answer-Leaves w (need _ w.state.market) _ p (λ market.
        answer-Leaves w (need _ w.state.wallet) _ p (λ wallet.
          answer-Leaves w (need _ w.state.signal) _ p (λ s.
            answer-Leaves w (h.risk i market wallet) _ p (λ d. journal-Leaves _ _ _ _ _ p (λ _ w' q.
              take_risk-Leaves d.allowed d.reason _ w' q
                (chaos_gate-Leaves i market wallet s w' q)))))))

  pub execute-Leaves : (w : World) → Unbridged w → Leaves (execute_stage c h w)
  unfolding execute_stage Unbridged
  execute-Leaves w p =
      answer-Leaves w (need _ w.state.trade_intent) _ p (λ i.
        answer-Leaves _ (h.execute i) _ p (λ report. journal-Leaves _ _ _ _ _ p (λ _ w' q. q)))

  after_record-Leaves :
      (e : Option Thrown) (w : World) → Unbridged w → Leaves (after_record c h e w)
  unfolding Unbridged
  after_record-Leaves none w p = p
  after_record-Leaves (some e) w p = p

  record_loss-Leaves :
      (o : Option (Try Bool)) (dry : Bool) (trade : RecordedTrade) (w : World)
      → Unbridged w
      → Leaves (record_loss c h o dry trade w)
  unfolding Unbridged
  record_loss-Leaves none dry trade w p = after_record-Leaves none w p
  record_loss-Leaves (some b) true trade w p = after_record-Leaves none w p
  record_loss-Leaves (some b) false trade w p = after_record-Leaves (h.record_trade trade) _ p

  take_verification-Leaves :
      (b : Bool) (reason : Option String) (i : TradeIntent) (r : ExecutionReport) (w : World)
      → Unbridged w
      → Leaves (take_verification c h b reason i r w)
  unfolding Unbridged
  take_verification-Leaves false reason i r w p = p
  take_verification-Leaves true reason i r w p =
      record_loss-Leaves h.is_limit_reached c.dry_run _ w p

  pub verify-Leaves : (w : World) → Unbridged w → Leaves (verify_stage c h w)
  unfolding verify_stage Unbridged
  verify-Leaves w p = answer-Leaves w (need _ w.state.trade_intent) _ p (λ i.
      answer-Leaves w (need _ w.state.execution_report) _ p (λ r.
        answer-Leaves w (h.verify i r) _ p (λ v.
          journal-Leaves _ _ _ _ _ p
            (λ _ w' q. take_verification-Leaves v.passed v.reason i r w' q))))

  pub journal_stage-Leaves : (w : World) → Unbridged w → Leaves (journal_stage c h w)
  unfolding journal_stage Unbridged
  journal_stage-Leaves w p = answer-Leaves w (need _ w.state.trade_intent) _ p (λ _.
      answer-Leaves w (need _ w.state.execution_report) _ p (λ _.
        answer-Leaves w (need _ w.state.rpc_verification) _ p (λ _.
          answer-Leaves w (need _ w.state.market) _ p (λ _.
            answer-Leaves w (need _ w.state.wallet) _ p
              (λ _. answer-Leaves w (need _ w.state.signal) _ p (λ _. p))))))
