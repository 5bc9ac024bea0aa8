-- ===== src/Engine/Cycle.antt =====
-- The engine's cycle, `Engine.run` of bot/src/core/engine.ts: the stages, the last entry of the
-- journal, and what an error does.
use bobby_execute.Base.Text.{codes, lower, starts_with_codes}
use bobby_execute.Base.{
  ℕ, String, Bool, true, false, ◌||◌, Option, none, some, List, [], ◌∷◌, if◌then◌else◌,
}
use Prim.Native.String
use bobby_execute.KillSwitch.{Switch, trigger_kill_switch}
use bobby_execute.Engine.Types.{
  Thrown, returned, threw, DecisionStage, ingest, signal, reasoning, risk, execute, verify, journal,
  monitor, EngineStage, at_stage, chaos, StageOutcome, DecisionEnvelope, World, EngineConfig,
  Handlers, JournalEntry,
}
use bobby_execute.Engine.Coordinator.{Call, and_then, run_decision}
use bobby_execute.Engine.Stages.{
  set_state, Done, done, entry_of, append_on, ingest_stage, signal_stage, risk_stage, execute_stage,
  verify_stage, journal_stage, monitor_stage,
}

-- whether a text contains another
abbrev pub includes_codes : List ℕ → List ℕ → Bool
includes_codes part [] = starts_with_codes part []
includes_codes part (c ∷ s) = starts_with_codes part (c ∷ s) || includes_codes part s

-- an error that halts trading: `/No healthy adapters|CRITICAL|emergency/i`, or the chaos gate's
unfoldable pub escalates : Thrown → Bool
unfolding lower
escalates e =
    let message = lower e.message in
    e.is_chaos_gate
    || includes_codes (codes "no healthy adapters") message
    || includes_codes (codes "critical") message
    || includes_codes (codes "emergency") message

-- `mapDecisionStageToEngineStage`
abbrev pub engine_stage_of : DecisionStage → EngineStage
engine_stage_of reasoning = at_stage risk
engine_stage_of stage = at_stage stage

abbrev pub last_stage : Option Bool → DecisionStage → EngineStage
last_stage (some false) stage = chaos
last_stage _ stage = engine_stage_of stage

abbrev pub append_last : Option (String → Option Thrown) → JournalEntry → World → Call World Done
append_last none entry w = (w, returned done)
append_last (some writer) entry w = append_on (writer entry.stage) entry w

module _ (c : EngineConfig) (h : Handlers) where
  unfoldable pub engine_handlers : DecisionStage → Option (World → Call World StageOutcome)
  unfolding ingest_stage signal_stage risk_stage execute_stage verify_stage journal_stage
  engine_handlers ingest = some (ingest_stage c h)
  engine_handlers signal = some (signal_stage c h)
  engine_handlers reasoning = none
  engine_handlers risk = some (risk_stage c h)
  engine_handlers execute = some (execute_stage c h)
  engine_handlers verify = some (verify_stage c h)
  engine_handlers journal = some (journal_stage c h)
  engine_handlers monitor = some (monitor_stage c h)

  -- the decision is kept in the state and in the journal
  abbrev pub keep_decision : DecisionEnvelope → World → Call World Done
  keep_decision e w0 =
      let stage = if e.blocked then "canonical_trade_blocked" else "canonical_trade_complete" in
      let entry = entry_of h w0 stage e.blocked e.blocked_reason in
      and_then
        (append_last c.journal_writer entry (
          set_state
            (λ s. record s {
              decision_envelope = some e;
              blocked = e.blocked;
              blocked_reason = e.blocked_reason;
              journal_entry = some entry;
            })
            w0))
        λ _ w. (
          set_state (λ s. record s { stage = last_stage s.chaos_allowed e.stage }) w,
          returned done,
        )

  -- an error blocks the state, and halts trading where it escalates
  abbrev pub escalate : Thrown → Switch → Switch
  escalate e k =
      if escalates e
      then trigger_kill_switch (some (String.◌++◌ "Engine error escalation: " e.message)) h.now k
      else k

  abbrev pub caught : Call World Done → Call World Done
  caught (w, returned d) = (w, returned d)
  caught (w, threw e) = (
    record w {
      state = record w.state { error = some e.message; blocked = true };
      kill_switch = escalate e w.kill_switch;
    },
    threw e,
  )

  -- `run`, from the world that its first lines make
  unfoldable pub run_cycle : World → Call World Done
  unfolding run_decision engine_handlers escalates trigger_kill_switch
  run_cycle w = caught (and_then (run_decision engine_handlers w) keep_decision)
