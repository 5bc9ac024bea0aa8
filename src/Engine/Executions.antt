-- ===== src/Engine/Executions.antt =====
-- The executions of a cycle.
use bobby_execute.Base.{
  ◌≡◌, refl, ◌∙◌, inl, inr, String, Bool, true, false, Option, none, some, List, [], ◌∷◌,
}
use bobby_execute.Engine.Types.{
  Try, Thrown, returned, threw, TradeIntent, ExecutionReport, StageOutcome, DecisionEnvelope, World,
  EngineConfig, Handlers, RecordedTrade, DecisionStage, ingest, signal, reasoning, risk, execute,
  verify, journal, monitor,
}
use bobby_execute.Engine.Coordinator.{Call, and_then, run_decision}
use bobby_execute.Engine.Stages.{
  ingest_stage, signal_stage, risk_stage, execute_stage, need, Done, after_record, record_loss,
  take_verification, verify_stage, journal_stage, monitor_stage,
}
use bobby_execute.Engine.Cycle.{engine_handlers, keep_decision, caught, run_cycle}
use bobby_execute.Engine.Rules.{
  Post, and_then-rule, answer-rule, After, stage-rule, skip-rule, end-rule,
}
use bobby_execute.Engine.Journaled.{journal-rule, append_last-rule}
use bobby_execute.Engine.Guarded.{
  Checked, Cleared, Guarded, Idle, RiskDone, Cleared-free, Cleared-again, ingest-rule, signal-rule,
  risk-rule, execute-rule,
}

abbrev trading : List DecisionStage
trading = execute ∷ verify ∷ journal ∷ monitor ∷ []

module _ (c : EngineConfig) (h : Handlers) where
  after_record-rule :
      (e : Option Thrown) (w : World)
      → Cleared c h w
      → Post (λ _ w'. Cleared c h w') (Guarded c h) (after_record c h e w)
  after_record-rule none w k = Cleared-again c h k refl refl refl refl
  after_record-rule (some e) w k = inr k

  record_loss-rule :
      (o : Option (Try Bool)) (dry : Bool) (trade : RecordedTrade) (w : World)
      → Cleared c h w
      → Post (λ _ w'. Cleared c h w') (Guarded c h) (record_loss c h o dry trade w)
  record_loss-rule none dry trade w k = after_record-rule none w k
  record_loss-rule (some b) true trade w k = after_record-rule none w k
  record_loss-rule (some b) false trade w k =
      after_record-rule (h.record_trade trade) _ (Cleared-again c h k refl refl refl refl)

  take_verification-rule :
      (b : Bool) (reason : Option String) (i : TradeIntent) (r : ExecutionReport) (w : World)
      → Cleared c h w
      → Post (λ _ w'. Cleared c h w') (Guarded c h) (take_verification c h b reason i r w)
  take_verification-rule false reason i r w k = Cleared-again c h k refl refl refl refl
  take_verification-rule true reason i r w k = record_loss-rule h.is_limit_reached c.dry_run _ w k

  keeps_answer :
      {A B : Type 0} (w : World) (t : Try A) (f : A → World → Call World B)
      → Cleared c h w
      → ((a : A) → Post (λ _ w'. Cleared c h w') (Guarded c h) (f a w))
      → Post (λ _ w'. Cleared c h w') (Guarded c h) (and_then (w, t) f)
  keeps_answer w t f k = answer-rule (λ _ w'. Cleared c h w') (Guarded c h) w t f (inr k)

  verify-rule :
      (w : World) → Cleared c h w → Post (λ _ w'. Cleared c h w') (Guarded c h) (verify_stage c h w)
  unfolding verify_stage
  verify-rule w k = keeps_answer w (need _ w.state.trade_intent) _ k (λ i.
      keeps_answer w (need _ w.state.execution_report) _ k (λ r.
        keeps_answer w (h.verify i r) _ k (λ v.
          and_then-rule (λ _ w'. Cleared c h w') (λ _ w'. Cleared c h w') (Guarded c h) _ _
            (journal-rule (Cleared c h) (Guarded c h) (λ w' q. inr q) (Cleared-free c h) c h _ _ _ _
              (Cleared-again c h k refl refl refl refl))
            (λ _ w' q. take_verification-rule v.passed v.reason i r w' q))))

  journal_stage-rule :
      (w : World)
      → Cleared c h w
      → Post (λ _ w'. Cleared c h w') (Guarded c h) (journal_stage c h w)
  unfolding journal_stage
  journal_stage-rule w k = keeps_answer w (need _ w.state.trade_intent) _ k (λ _.
      keeps_answer w (need _ w.state.execution_report) _ k (λ _.
        keeps_answer w (need _ w.state.rpc_verification) _ k (λ _.
          keeps_answer w (need _ w.state.market) _ k (λ _.
            keeps_answer w (need _ w.state.wallet) _ k (λ _.
              keeps_answer w (need _ w.state.signal) _ k
                (λ _. Cleared-again c h k refl refl refl refl))))))

  Guarded-again :
      (w w' : World)
      → Guarded c h w
      → w'.executed ≡ w.executed
      → w'.state.trade_intent ≡ w.state.trade_intent
      → w'.state.risk_allowed ≡ w.state.risk_allowed
      → w'.state.chaos_allowed ≡ w.state.chaos_allowed
      → Guarded c h w'
  Guarded-again w w' (inl p) x t r k = inl (x ∙ p)
  Guarded-again w w' (inr a) x t r k = inr (Cleared-again c h a x t r k)

  abbrev Ends : List DecisionStage → DecisionEnvelope → World → Type 0
  Ends = After (engine_handlers c h) (Guarded c h) (Guarded c h)

  -- a stage that has executed nothing, and one after the execution
  Idle-step :
      (stage : DecisionStage) (stages : List DecisionStage)
      (handler : World → Call World StageOutcome) (last : DecisionEnvelope) (w : World)
      → engine_handlers c h stage ≡ some handler
      → Post (λ _ w'. Idle c h w') (Guarded c h) (handler w)
      → ((next : DecisionEnvelope) (w' : World) → Idle c h w' → Ends stages next w')
      → Ends (stage ∷ stages) last w
  unfolding Idle
  Idle-step stage stages handler last w e p go =
      stage-rule (engine_handlers c h) (Guarded c h) (Guarded c h) (λ _ w'. Idle c h w') stage
        stages handler last w e p (λ w' q. inl q) go

  Cleared-step :
      (stage : DecisionStage) (stages : List DecisionStage)
      (handler : World → Call World StageOutcome) (last : DecisionEnvelope) (w : World)
      → engine_handlers c h stage ≡ some handler
      → Post (λ _ w'. Cleared c h w') (Guarded c h) (handler w)
      → ((next : DecisionEnvelope) (w' : World) → Cleared c h w' → Ends stages next w')
      → Ends (stage ∷ stages) last w
  Cleared-step stage stages handler last w e p go =
      stage-rule (engine_handlers c h) (Guarded c h) (Guarded c h) (λ _ w'. Cleared c h w') stage
        stages handler last w e p (λ w' k. inr k) go

  -- the stages from the execution on
  executed-rule : (last : DecisionEnvelope) (w : World) → Checked c h true w → Ends trading last w
  unfolding engine_handlers
  executed-rule last w a =
      Cleared-step execute (verify ∷ journal ∷ monitor ∷ []) (execute_stage c h) last w refl
        (execute-rule c h w a)
        (λ last w k.
          Cleared-step verify (journal ∷ monitor ∷ []) (verify_stage c h) last w refl
            (verify-rule w k)
            (λ last w k.
              Cleared-step journal (monitor ∷ []) (journal_stage c h) last w refl
                (journal_stage-rule w k)
                (λ last w k.
                  Cleared-step monitor [] (monitor_stage c h) last w refl
                    (Cleared-again c h k refl refl refl refl)
                    (λ last w k.
                      end-rule (engine_handlers c h) (Guarded c h) (Guarded c h) last w (inr k)))))

  decision-rule :
      (w : World)
      → Idle c h w
      → Post (λ _ w'. Guarded c h w') (Guarded c h) (run_decision (engine_handlers c h) w)
  unfolding run_decision engine_handlers Idle
  decision-rule w p =
      Idle-step ingest (signal ∷ reasoning ∷ risk ∷ trading) (ingest_stage c h)
        (record { stage = ingest; blocked = false; blocked_reason = none }) w refl
        (ingest-rule c h (Guarded c h) w (λ w' q. inl q) p)
        (λ last w p.
          Idle-step signal (reasoning ∷ risk ∷ trading) (signal_stage c h) last w refl
            (signal-rule c h w p)
            (λ last w p.
              skip-rule (engine_handlers c h) (Guarded c h) (Guarded c h) reasoning (risk ∷ trading)
                last w refl
                (stage-rule (engine_handlers c h) (Guarded c h) (Guarded c h) (RiskDone c h) risk
                  trading (risk_stage c h) last w refl (risk-rule c h w p) (λ w q. inl q)
                  executed-rule)))

  keep_decision-rule :
      (e : DecisionEnvelope) (w : World)
      → Guarded c h w
      → Post (λ _ w'. Guarded c h w') (Guarded c h) (keep_decision c h e w)
  keep_decision-rule e w g =
      and_then-rule (λ _ w'. Guarded c h w') (λ _ w'. Guarded c h w') (Guarded c h) _ _
        (append_last-rule (Guarded c h) (Guarded c h) (λ w' g. g)
          (λ w' j n g. Guarded-again w' _ g refl refl refl refl) c.journal_writer _ _
          (Guarded-again w _ g refl refl refl refl))
        (λ _ w' g. Guarded-again w' _ g refl refl refl refl)

  caught-Guarded :
      (x : Call World Done)
      → Post (λ _ w'. Guarded c h w') (Guarded c h) x
      → Guarded c h (caught c h x).0
  caught-Guarded (w, returned d) g = g
  caught-Guarded (w, threw e) g = Guarded-again w _ g refl refl refl refl

  -- From a world in which no intent was executed, a cycle, ended or failed, whatever its handlers
  -- answer or throw, has executed nothing, or exactly one intent, the trade intent of its state: then
  -- the risk handler had allowed it, the daily loss limit was not reached, and the chaos gate had
  -- allowed it.
  pub run_cycle-Guarded : (w : World) → w.executed ≡ [] → Guarded c h (run_cycle c h w).0
  unfolding run_cycle Idle
  run_cycle-Guarded w p = caught-Guarded _ (
      and_then-rule (λ _ w'. Guarded c h w') (λ _ w'. Guarded c h w') (Guarded c h)
        (run_decision (engine_handlers c h) w) (keep_decision c h) (decision-rule w p)
        keep_decision-rule)
