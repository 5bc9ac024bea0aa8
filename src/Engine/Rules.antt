-- ===== src/Engine/Rules.antt =====
-- Rules for calls that may throw: what holds after one, where it returns and where it throws.
use bobby_execute.Base.{◌≡◌, sym, Bool, true, false, Option, none, some, List, [], ◌∷◌}
use mathlib.Core.Path.{subst}
use bobby_execute.Engine.Types.{Try, returned, threw, DecisionStage, DecisionEnvelope, StageOutcome}
use bobby_execute.Engine.Coordinator.{Call, and_then, run_stages, envelope}

-- `Q` of the value and the state where the call returns, `E` of the state where it throws
abbrev pub Post : {W A : Type 0} → (A → W → Type 0) → (W → Type 0) → Call W A → Type 0
Post Q E (w, returned a) = Q a w
Post Q E (w, threw e) = E w

pub and_then-rule :
    {W A B : Type 0} (Q : A → W → Type 0) (R : B → W → Type 0) (E : W → Type 0) (x : Call W A)
    (f : A → W → Call W B)
    → Post Q E x
    → ((a : A) (w : W) → Q a w → Post R E (f a w))
    → Post R E (and_then x f)
and_then-rule Q R E (w, returned a) f h k = k a w h
and_then-rule Q R E (w, threw e) f h k = h

-- a call that leaves the state, whatever it answers
pub answer-rule :
    {W A B : Type 0} (R : B → W → Type 0) (E : W → Type 0) (w : W) (t : Try A)
    (f : A → W → Call W B)
    → E w
    → ((a : A) → Post R E (f a w))
    → Post R E (and_then (w, t) f)
answer-rule R E w (returned a) f e k = k a
answer-rule R E w (threw x) f e k = e

pub elim-rule :
    {W A : Type 0} (R : A → W → Type 0) (E : W → Type 0) (P : Bool → Type 0) (b : Bool)
    (x y : Call W A)
    → P b
    → (P true → Post R E x)
    → (P false → Post R E y)
    → Post R E (elim b [ true ↦ x | false ↦ y ])
elim-rule R E P true x y p h k = h p
elim-rule R E P false x y p h k = k p

module _ {W : Type 0} (handlers : DecisionStage → Option (W → Call W StageOutcome))
    (R E : W → Type 0) where
  -- what holds after the stages that are left
  abbrev pub After : List DecisionStage → DecisionEnvelope → W → Type 0
  After stages last w = Post (λ _ w'. R w') E (run_stages handlers stages last w)

  -- the same of a stage, by its handler
  abbrev AfterWith :
      DecisionStage
      → List DecisionStage
      → DecisionEnvelope
      → W
      → Option (W → Call W StageOutcome)
      → Type 0
  AfterWith stage stages last w o =
      Post (λ _ w'. R w') E
        (elim o [
          | none ↦ run_stages handlers stages last w
          | some handler ↦ and_then (handler w) (λ o w'. elim o.blocked [
            | true ↦ (w', returned (envelope handlers stage o))
            | false ↦
                run_stages handlers stages
                  (record (envelope handlers stage o) { blocked_reason = none }) w'
          ])
        ])

  -- a stage that the request has, by what its handler leaves where it blocks and where it does not
  pub stage-rule :
      (Q : Bool → W → Type 0) (stage : DecisionStage) (stages : List DecisionStage)
      (handler : W → Call W StageOutcome) (last : DecisionEnvelope) (w : W)
      → handlers stage ≡ some handler
      → Post (λ o w'. Q o.blocked w') E (handler w)
      → ((w' : W) → Q true w' → R w')
      → ((next : DecisionEnvelope) (w' : W) → Q false w' → After stages next w')
      → After (stage ∷ stages) last w
  unfolding run_stages
  stage-rule Q stage stages handler last w e p stop go =
      subst (AfterWith stage stages last w) (sym e) (
        and_then-rule (λ o w'. Q o.blocked w') (λ _ w'. R w') E (handler w) _ p
          (λ o w' q.
            elim-rule (λ _ w'. R w') E (λ b. Q b w') o.blocked _ _ q (λ q. stop w' q)
              (λ q. go _ w' q)))

  -- a stage that the request does not have
  pub skip-rule :
      (stage : DecisionStage) (stages : List DecisionStage) (last : DecisionEnvelope) (w : W)
      → handlers stage ≡ none
      → After stages last w
      → After (stage ∷ stages) last w
  unfolding run_stages
  skip-rule stage stages last w e a = subst (AfterWith stage stages last w) (sym e) a

  pub end-rule : (last : DecisionEnvelope) (w : W) → R w → After [] last w
  unfolding run_stages
  end-rule last w r = r
