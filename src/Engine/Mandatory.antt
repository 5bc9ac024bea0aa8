-- ===== src/Engine/Mandatory.antt =====
-- A cycle whose journal is mandatory, without a writer of the journal.
use bobby_execute.Base.{◌≡◌, refl, String, Bool, true, false, Option, none, some, [], ◌∷◌}
use bobby_execute.Engine.Types.{
  Thrown, SignalResult, signal_ok, signal_blocked, ingest, signal, reasoning, risk, execute, verify,
  journal, monitor, DecisionEnvelope, StageOutcome, JournalEntry, World, EngineConfig, Handlers,
  returned, threw,
}
use bobby_execute.Engine.Coordinator.{Call, run_decision}
use bobby_execute.Engine.Stages.{
  need, Done, journal_on, append_critical_journal, take_signal, ingest_stage, signal_stage,
}
use bobby_execute.Engine.Cycle.{engine_handlers, keep_decision, caught, run_cycle}
use bobby_execute.Engine.Rules.{Post, and_then-rule, answer-rule, stage-rule}
use bobby_execute.Engine.Journaled.{append_last-rule}
use bobby_execute.Engine.Guarded.{Idle, ingest-rule}

never : {A : Type 0} → false ≡ true → A
never e = cc

journal_on-throws :
    (P : World → Type 0) (writer : Option (String → Option Thrown)) (mandatory : Bool)
    (entry : JournalEntry) (w : World)
    → writer ≡ none
    → mandatory ≡ true
    → P w
    → Post (λ _ _. false ≡ true) P (journal_on writer mandatory entry w)
journal_on-throws P (some writer) mandatory entry w e m p = cc
journal_on-throws P none true entry w e m p = p
journal_on-throws P none false entry w e m p = cc

module _ (c : EngineConfig) (h : Handlers) (unwritten : c.journal_writer ≡ none)
    (mandatory : c.is_journal_mandatory ≡ true) where
  -- the signal is blocked, and nothing was executed
  abbrev Refused : Bool → World → Type 0
  Refused b w = (b ≡ true) × Idle c h w

  take_signal-Refused :
      (r : SignalResult) (w : World)
      → Idle c h w
      → Post (λ o w'. Refused o.blocked w') (Idle c h) (take_signal c h r w)
  unfolding append_critical_journal Idle
  take_signal-Refused (signal_blocked reason) w p = (refl, p)
  take_signal-Refused (signal_ok s i) w p =
      and_then-rule (λ _ _. false ≡ true) (λ o w'. Refused o.blocked w') (Idle c h) _ _
        (journal_on-throws (Idle c h) c.journal_writer c.is_journal_mandatory _ _ unwritten
          mandatory p)
        (λ _ w' absurd_case. cc)

  signal-Refused :
      (w : World) → Idle c h w → Post (λ o w'. Refused o.blocked w') (Idle c h) (signal_stage c h w)
  unfolding signal_stage
  signal-Refused w p =
      let R = λ (o : StageOutcome) (w' : World). Refused o.blocked w' in
      answer-rule R (Idle c h) w (need _ w.state.market) _ p (λ market.
        answer-rule R (Idle c h) w (need _ w.state.wallet) _ p
          (λ _. answer-rule R (Idle c h) w (h.signal market) _ p (λ r. take_signal-Refused r w p)))

  decision-Idle :
      (w : World)
      → Idle c h w
      → Post (λ _ w'. Idle c h w') (Idle c h) (run_decision (engine_handlers c h) w)
  unfolding run_decision engine_handlers
  decision-Idle w p =
      stage-rule (engine_handlers c h) (Idle c h) (Idle c h) (λ _ w'. Idle c h w') ingest
        (signal ∷ reasoning ∷ risk ∷ execute ∷ verify ∷ journal ∷ monitor ∷ []) (ingest_stage c h)
        (record { stage = ingest; blocked = false; blocked_reason = none }) w refl
        (ingest-rule c h (Idle c h) w (λ w' q. q) p) (λ w' q. q)
        (λ last w p.
          stage-rule (engine_handlers c h) (Idle c h) (Idle c h) Refused signal
            (reasoning ∷ risk ∷ execute ∷ verify ∷ journal ∷ monitor ∷ []) (signal_stage c h) last w
            refl (signal-Refused w p) (λ w' q. q.1) (λ last w1 q. never q.0))

  keep_decision-Idle :
      (e : DecisionEnvelope) (w : World)
      → Idle c h w
      → Post (λ _ w'. Idle c h w') (Idle c h) (keep_decision c h e w)
  unfolding Idle
  keep_decision-Idle e w p =
      and_then-rule (λ _ w'. Idle c h w') (λ _ w'. Idle c h w') (Idle c h) _ _
        (append_last-rule (Idle c h) (Idle c h) (λ w' q. q) (λ w' j n q. q) c.journal_writer _ _ p)
        (λ _ w' q. q)

  caught-Idle :
      (x : Call World Done) → Post (λ _ w'. Idle c h w') (Idle c h) x → Idle c h (caught c h x).0
  unfolding Idle
  caught-Idle (w, returned d) p = p
  caught-Idle (w, threw e) p = p

  -- Where the journal is mandatory and there is no writer of it, a cycle that starts with no intent
  -- executed executes none, whatever its handlers answer or throw.
  pub run_cycle-idle : (w : World) → w.executed ≡ [] → (run_cycle c h w).0.executed ≡ []
  unfolding run_cycle Idle
  run_cycle-idle w p = caught-Idle _ (
      and_then-rule (λ _ w'. Idle c h w') (λ _ w'. Idle c h w') (Idle c h)
        (run_decision (engine_handlers c h) w) (keep_decision c h) (decision-Idle w p)
        keep_decision-Idle)
