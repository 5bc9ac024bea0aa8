-- ===== src/Engine/Coordinator.antt =====
-- The authority that runs the stages of a decision in their order,
-- bot/src/core/decision/decision-coordinator.ts, over any state that the handlers share.
use bobby_execute.Base.{true, false, Option, none, some, List, [], ◌∷◌}
use bobby_execute.Engine.Types.{
  Try, returned, threw, DecisionStage, ingest, signal, reasoning, risk, execute, verify, journal,
  monitor, StageOutcome, DecisionEnvelope,
}

-- `CANONICAL_STAGE_ORDER`
abbrev pub canonical_stage_order : List DecisionStage
canonical_stage_order =
    ingest ∷ signal ∷ reasoning ∷ risk ∷ execute ∷ verify ∷ journal ∷ monitor ∷ []

-- a call that may throw, on a state that it leaves in either case
abbrev pub Call {ℓ} : Type ℓ → Type 0 → Type ℓ
Call W A = W × Try A

abbrev pub and_then {ℓ} : {W : Type ℓ} {A B : Type 0} → Call W A → (A → W → Call W B) → Call W B
and_then (w, returned a) f = f a w
and_then (w, threw e) f = (w, threw e)

module _ {ℓ} {W : Type ℓ} (handlers : DecisionStage → Option (W → Call W StageOutcome)) where
  abbrev pub envelope : DecisionStage → StageOutcome → DecisionEnvelope
  envelope stage o = record {
    stage = stage;
    blocked = o.blocked;
    blocked_reason = o.blocked_reason;
  }

  -- the stages that are left, after the outcome of the last stage that ran
  unfoldable pub run_stages : List DecisionStage → DecisionEnvelope → W → Call W DecisionEnvelope
  run_stages [] last w = (w, returned last)
  run_stages (stage ∷ stages) last w = elim (handlers stage) [
    | none ↦ run_stages stages last w
    | some handler ↦ and_then (handler w) (λ o w'. elim o.blocked [
      | true ↦ (w', returned (envelope stage o))
      | false ↦ run_stages stages (record (envelope stage o) { blocked_reason = none }) w'
    ])
  ]

  -- `run`, of a request that has the handlers that its flow requires
  unfoldable pub run_decision : W → Call W DecisionEnvelope
  unfolding run_stages
  run_decision w =
      run_stages canonical_stage_order
        (record { stage = ingest; blocked = false; blocked_reason = none }) w
