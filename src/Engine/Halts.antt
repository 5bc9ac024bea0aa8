-- ===== src/Engine/Halts.antt =====
-- The errors of a cycle that halt trading.
use bobby_execute.Base.{◌≡◌, refl, ap, ◌∙◌, String, true, false, Option, none, some, List, [], ◌∷◌}
use bobby_execute.KillSwitch.{Switch, is_kill_switch_halted, trigger_kill_switch}
use bobby_execute.Engine.Types.{
  Thrown, Try, returned, threw, StageOutcome, DecisionEnvelope, World, EngineConfig, Handlers,
  DecisionStage, ingest, signal, reasoning, risk, execute, verify, journal, monitor,
}
use bobby_execute.Engine.Coordinator.{Call, run_decision}
use bobby_execute.Engine.Stages.{
  Done, ingest_stage, signal_stage, risk_stage, execute_stage, verify_stage, journal_stage,
  monitor_stage,
}
use bobby_execute.Engine.Cycle.{engine_handlers, keep_decision, escalates, caught, run_cycle}
use bobby_execute.Engine.Journaled.{append_last-rule}
use bobby_execute.Engine.Rules.{and_then-rule, After, stage-rule, skip-rule, end-rule}
use bobby_execute.Engine.Escalation.{
  Unbridged, Leaves, ingest-Leaves, signal-Leaves, risk-Leaves, execute-Leaves, verify-Leaves,
  journal_stage-Leaves,
}

-- the error that a call throws, where it throws
thrown_or : {A : Type 0} → Thrown → Try A → Thrown
thrown_or e (returned a) = e
thrown_or e (threw x) = x

threw_injective : (e e' : Thrown) → ◌≡◌ {A = Try Done} (threw e) (threw e') → e ≡ e'
unfolding thrown_or
threw_injective e e' h = ap (thrown_or e) h

module _ (c : EngineConfig) (h : Handlers) where
  abbrev Ends : List DecisionStage → DecisionEnvelope → World → Type 0
  Ends = After (engine_handlers c h) Unbridged Unbridged

  Unbridged-step :
      (stage : DecisionStage) (stages : List DecisionStage)
      (handler : World → Call World StageOutcome) (last : DecisionEnvelope) (w : World)
      → engine_handlers c h stage ≡ some handler
      → Leaves (handler w)
      → ((next : DecisionEnvelope) (w' : World) → Unbridged w' → Ends stages next w')
      → Ends (stage ∷ stages) last w
  Unbridged-step stage stages handler last w e p go =
      stage-rule (engine_handlers c h) Unbridged Unbridged (λ _ w'. Unbridged w') stage stages
        handler last w e p (λ w' q. q) go

  monitored : (w : World) → Unbridged w → Leaves (monitor_stage c h w)
  unfolding Unbridged
  monitored w p = p

  trading-Ends :
      (last : DecisionEnvelope) (w : World)
      → Unbridged w
      → Ends (risk ∷ execute ∷ verify ∷ journal ∷ monitor ∷ []) last w
  unfolding engine_handlers
  trading-Ends last w p =
      Unbridged-step risk (execute ∷ verify ∷ journal ∷ monitor ∷ []) (risk_stage c h) last w refl
        (risk-Leaves c h w p)
        (λ last w p.
          Unbridged-step execute (verify ∷ journal ∷ monitor ∷ []) (execute_stage c h) last w refl
            (execute-Leaves c h w p)
            (λ last w p.
              Unbridged-step verify (journal ∷ monitor ∷ []) (verify_stage c h) last w refl
                (verify-Leaves c h w p)
                (λ last w p.
                  Unbridged-step journal (monitor ∷ []) (journal_stage c h) last w refl
                    (journal_stage-Leaves c h w p)
                    (λ last w p.
                      Unbridged-step monitor [] (monitor_stage c h) last w refl (monitored w p)
                        (λ last w p.
                          end-rule (engine_handlers c h) Unbridged Unbridged last w p)))))

  decision-Leaves : (w : World) → Unbridged w → Leaves (run_decision (engine_handlers c h) w)
  unfolding run_decision engine_handlers
  decision-Leaves w p =
      Unbridged-step ingest (signal ∷ reasoning ∷ risk ∷ execute ∷ verify ∷ journal ∷ monitor ∷ [])
        (ingest_stage c h) (record { stage = ingest; blocked = false; blocked_reason = none }) w
        refl (ingest-Leaves c h w p)
        (λ last w p.
          Unbridged-step signal (reasoning ∷ risk ∷ execute ∷ verify ∷ journal ∷ monitor ∷ [])
            (signal_stage c h) last w refl (signal-Leaves c h w p)
            (λ last w p.
              skip-rule (engine_handlers c h) Unbridged Unbridged reasoning
                (risk ∷ execute ∷ verify ∷ journal ∷ monitor ∷ []) last w refl
                (trading-Ends last w p)))

  keep_decision-Leaves :
      (e : DecisionEnvelope) (w : World) → Unbridged w → Leaves (keep_decision c h e w)
  unfolding Unbridged
  keep_decision-Leaves e w p =
      and_then-rule (λ _ w'. Unbridged w') (λ _ w'. Unbridged w') Unbridged _ _
        (append_last-rule Unbridged Unbridged (λ w' q. q) (λ w' j n q. q) c.journal_writer _ _ p)
        (λ _ w' q. q)

  triggered_halts :
      (reason : Option String) (k : Switch)
      → k.bridge ≡ none
      → is_kill_switch_halted (trigger_kill_switch reason h.now k) ≡ true
  unfolding is_kill_switch_halted trigger_kill_switch
  triggered_halts reason k e = rw e refl

  caught-halts :
      (x : Call World Done) (e : Thrown)
      → Leaves x
      → (caught c h x).1 ≡ threw e
      → escalates e ≡ true
      → is_kill_switch_halted (caught c h x).0.kill_switch ≡ true
  unfolding Unbridged
  caught-halts (w, returned d) e p t s = cc
  caught-halts (w, threw e') e p t s =
      let same = ap escalates (threw_injective e' e t) ∙ s in
      rw same (triggered_halts _ w.kill_switch p)

  -- Without a bridge of the kill switch, a cycle that ends in an error that escalates (one of the
  -- chaos gate, or one whose message has "no healthy adapters", "critical" or "emergency" in any case)
  -- leaves the kill switch halted, whichever stage it came from.
  pub run_cycle-halted :
      (w : World) (e : Thrown)
      → w.kill_switch.bridge ≡ none
      → (run_cycle c h w).1 ≡ threw e
      → escalates e ≡ true
      → is_kill_switch_halted (run_cycle c h w).0.kill_switch ≡ true
  unfolding run_cycle Unbridged
  run_cycle-halted w e b t s =
      caught-halts _ e
        (and_then-rule (λ _ w'. Unbridged w') (λ _ w'. Unbridged w') Unbridged
          (run_decision (engine_handlers c h) w) (keep_decision c h) (decision-Leaves w b)
          keep_decision-Leaves)
        t s
