-- ===== src/Engine/Guarded.antt =====
-- What stands between a cycle's signal and the execution of its intent.
use bobby_execute.Base.{
  not, ◌≡◌, refl, ap, ◌∙◌, ◌⊎◌, inl, inr, String, Bool, true, false, Option, none, some, List, [],
  ◌∷◌, ◌++◌,
}
use bobby_execute.Engine.Types.{
  returned, threw, Try, MarketSnapshot, WalletSnapshot, Signal, TradeIntent, SignalResult,
  signal_ok, signal_blocked, at_stage, execute, StageOutcome, World, EngineConfig, Handlers,
  JournalEntry,
}
use bobby_execute.Engine.Coordinator.{Call, and_then}
use bobby_execute.Engine.Stages.{
  need, check_ingest, ingest_stage, take_signal, signal_stage, take_chaos, chaos_gate, take_limit,
  take_risk, risk_stage, execute_stage,
}
use bobby_execute.Engine.Journaled.{journal-rule, need-rule}
use bobby_execute.Engine.Rules.{Post, and_then-rule, answer-rule}

-- there is no tracker, or it answers that the limit is not reached
abbrev pub is_open : Option (Try Bool) → Bool
is_open none = true
is_open (some (returned reached)) = not reached
is_open (some (threw _)) = false

module _ (c : EngineConfig) (h : Handlers) where
  -- the chaos gate has answered, and the checks before it have passed
  pub record Checked (b : Bool) (w : World) : Type 0 where
    pub idle : w.executed ≡ []
    pub risk : w.state.risk_allowed ≡ some true
    pub chaos : w.state.chaos_allowed ≡ some b
    pub limit : is_open h.is_limit_reached ≡ true

  -- one intent was executed, and the checks had passed
  pub record Cleared (w : World) : Type 0 where
    pub intent : TradeIntent
    pub traded : w.state.trade_intent ≡ some intent
    pub executed : w.executed ≡ intent ∷ []
    pub risk : w.state.risk_allowed ≡ some true
    pub chaos : w.state.chaos_allowed ≡ some true
    pub limit : is_open h.is_limit_reached ≡ true

  abbrev pub Guarded : World → Type 0
  Guarded w = (w.executed ≡ []) ⊎ Cleared w

  -- each keeps what an entry of the journal, or a change of the state elsewhere, leaves
  Checked-free :
      (b : Bool) (w : World) (j : List JournalEntry) (entry : Option JournalEntry)
      → Checked b w
      → Checked b (record w { journal = j; state = record w.state { journal_entry = entry } })
  Checked-free b w j entry a = record {
    idle = a.idle;
    risk = a.risk;
    chaos = a.chaos;
    limit = a.limit;
  }

  pub Cleared-free :
      (w : World) (j : List JournalEntry) (entry : Option JournalEntry)
      → Cleared w
      → Cleared (record w { journal = j; state = record w.state { journal_entry = entry } })
  Cleared-free w j entry a = record {
    intent = a.intent;
    traded = a.traded;
    executed = a.executed;
    risk = a.risk;
    chaos = a.chaos;
    limit = a.limit;
  }

  -- a world with the parts of one that is cleared
  pub Cleared-again :
      {w w' : World}
      → Cleared w
      → w'.executed ≡ w.executed
      → w'.state.trade_intent ≡ w.state.trade_intent
      → w'.state.risk_allowed ≡ w.state.risk_allowed
      → w'.state.chaos_allowed ≡ w.state.chaos_allowed
      → Cleared w'
  Cleared-again a x t r k = record {
    intent = a.intent;
    traded = t ∙ a.traded;
    executed = x ∙ a.executed;
    risk = r ∙ a.risk;
    chaos = k ∙ a.chaos;
    limit = a.limit;
  }

  unfoldable pub Idle : World → Type 0
  Idle w = w.executed ≡ []

  check_ingest-rule :
      (E : World → Type 0) (r : Option String) (w : World)
      → Idle w
      → Post (λ _ w'. Idle w') E (check_ingest c h r w)
  unfolding Idle
  check_ingest-rule E (some r) w p = p
  check_ingest-rule E none w p = p

  pub ingest-rule :
      (E : World → Type 0) (w : World)
      → ((w' : World) → Idle w' → E w')
      → Idle w
      → Post (λ _ w'. Idle w') E (ingest_stage c h w)
  unfolding ingest_stage Idle
  ingest-rule E w weaken p =
      answer-rule (λ _ w'. Idle w') E _ h.ingest _ (weaken _ p) (λ a. check_ingest-rule E _ _ p)

  take_signal-rule :
      (r : SignalResult) (w : World) → Idle w → Post (λ _ w'. Idle w') Guarded (take_signal c h r w)
  unfolding Idle
  take_signal-rule (signal_blocked reason) w p = p
  take_signal-rule (signal_ok s i) w p =
      and_then-rule (λ _ w'. Idle w') (λ _ w'. Idle w') Guarded _ _
        (journal-rule Idle Guarded (λ w' q. inl q) (λ w' j e q. q) c h _ _ _ _ p) (λ _ w' q. q)

  pub signal-rule : (w : World) → Idle w → Post (λ _ w'. Idle w') Guarded (signal_stage c h w)
  unfolding signal_stage Idle
  signal-rule w p =
      answer-rule (λ _ w'. Idle w') Guarded w (need _ w.state.market) _ (inl p)
        (λ market.
          answer-rule (λ _ w'. Idle w') Guarded w (need _ w.state.wallet) _ (inl p)
            (λ _.
              answer-rule (λ _ w'. Idle w') Guarded w (h.signal market) _ (inl p)
                (λ r. take_signal-rule r w p)))

  -- a stage that blocks has executed nothing, and one that does not has checked everything
  abbrev pub RiskDone : Bool → World → Type 0
  RiskDone true w = Idle w
  RiskDone false w = Checked true w

  take_chaos-rule :
      (b : Bool) (reason : Option String) (w : World)
      → Checked b w
      → Post (λ o w'. RiskDone o.blocked w') Guarded (take_chaos c h b reason w)
  unfolding Idle
  take_chaos-rule false reason w a = a.idle
  take_chaos-rule true reason w a = record {
    idle = a.idle;
    risk = a.risk;
    chaos = a.chaos;
    limit = a.limit;
  }

  chaos_gate-rule :
      (i : TradeIntent) (market : MarketSnapshot) (wallet : WalletSnapshot) (s : Signal) (w : World)
      → Idle w
      → w.state.risk_allowed ≡ some true
      → is_open h.is_limit_reached ≡ true
      → Post (λ o w'. RiskDone o.blocked w') Guarded (chaos_gate c h i market wallet s w)
  unfolding chaos_gate Idle
  chaos_gate-rule i market wallet s w p r l =
      answer-rule (λ o w'. RiskDone o.blocked w') Guarded _ (h.chaos i market wallet s) _ (inl p)
        (λ d.
          and_then-rule (λ _ w'. Checked d.allowed w') (λ o w'. RiskDone o.blocked w') Guarded _ _
            (journal-rule (Checked d.allowed) Guarded (λ w' a. inl a.idle) (Checked-free d.allowed)
              c h _ _ _ _ (record { idle = p; risk = r; chaos = refl; limit = l }))
            (λ _ w' a. take_chaos-rule d.allowed d.reason w' a))

  take_limit-rule :
      (reached : Option (Try Bool)) (next : World → Call World StageOutcome) (w : World)
      → Idle w
      → (is_open reached ≡ true → Post (λ o w'. RiskDone o.blocked w') Guarded (next w))
      → Post (λ o w'. RiskDone o.blocked w') Guarded (take_limit c h reached next w)
  unfolding Idle
  take_limit-rule (some (returned true)) next w p n = p
  take_limit-rule (some (returned false)) next w p n = n refl
  take_limit-rule (some (threw e)) next w p n = inl p
  take_limit-rule none next w p n = n refl

  take_risk-rule :
      (b : Bool) (reason : Option String) (next : World → Call World StageOutcome) (w : World)
      → Idle w
      → w.state.risk_allowed ≡ some b
      → (w.state.risk_allowed ≡ some true
          → is_open h.is_limit_reached ≡ true
          → Post (λ o w'. RiskDone o.blocked w') Guarded (next w))
      → Post (λ o w'. RiskDone o.blocked w') Guarded (take_risk c h b reason next w)
  unfolding Idle
  take_risk-rule false reason next w p r n = p
  take_risk-rule true reason next w p r n = take_limit-rule h.is_limit_reached next w p (n r)

  risk_answer :
      {A : Type 0} (w : World) (t : Try A) (f : A → World → Call World StageOutcome)
      → Idle w
      → ((a : A) → Post (λ o w'. RiskDone o.blocked w') Guarded (f a w))
      → Post (λ o w'. RiskDone o.blocked w') Guarded (and_then (w, t) f)
  unfolding Idle
  risk_answer w t f p = answer-rule (λ o w'. RiskDone o.blocked w') Guarded w t f (inl p)

  pub risk-rule :
      (w : World) → Idle w → Post (λ o w'. RiskDone o.blocked w') Guarded (risk_stage c h w)
  unfolding risk_stage Idle
  risk-rule w p = risk_answer w (need _ w.state.trade_intent) _ p (λ i.
      risk_answer w (need _ w.state.market) _ p (λ market.
        risk_answer w (need _ w.state.wallet) _ p (λ wallet.
          risk_answer w (need _ w.state.signal) _ p (λ s.
            risk_answer w (h.risk i market wallet) _ p (λ d.
              and_then-rule (λ _ w'. Idle w' × w'.state.risk_allowed ≡ some d.allowed)
                (λ o w'. RiskDone o.blocked w') Guarded _ _
                (journal-rule (λ w'. Idle w' × w'.state.risk_allowed ≡ some d.allowed) Guarded
                  (λ w' q. inl q.0) (λ w' j e q. q) c h _ _ _ _ (p, refl))
                (λ _ w' q.
                  take_risk-rule d.allowed d.reason _ w' q.0 q.1
                    (λ r l. chaos_gate-rule i market wallet s w' q.0 r l)))))))

  pub execute-rule :
      (w : World) → Checked true w → Post (λ _ w'. Cleared w') Guarded (execute_stage c h w)
  unfolding execute_stage
  execute-rule w a =
      need-rule (λ _ w'. Cleared w') Guarded w _ w.state.trade_intent _ (inl a.idle)
        (λ i e.
          let clear : Cleared (record w {
            executed = w.executed ++ i ∷ [];
            state = record w.state { stage = at_stage execute };
          }) =
            record {
              intent = i;
              traded = e;
              executed = ap (λ xs. xs ++ i ∷ []) a.idle;
              risk = a.risk;
              chaos = a.chaos;
              limit = a.limit;
            } in
          answer-rule (λ _ w'. Cleared w') Guarded _ (h.execute i) _ (inr clear)
            (λ report.
              and_then-rule (λ _ w'. Cleared w') (λ _ w'. Cleared w') Guarded _ _
                (journal-rule Cleared Guarded (λ w' k. inr k) Cleared-free c h _ _ _ _
                  (Cleared-again clear refl refl refl refl))
                (λ _ w' k. Cleared-again k refl refl refl refl)))
