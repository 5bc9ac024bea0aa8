-- ===== src/WorkerState/Reconstruct.antt =====
-- The replay of a transition journal, `reconstructWorkerStateTransitionReplay`.
use bobby_execute.Base.{
  Bool, true, false, ◌||◌, Option, none, some, List, [], ◌∷◌, ◌++◌, if◌then◌else◌, ◌or_else◌,
}
use bobby_execute.WorkerState.Types.{
  WorkerStateMachineKind, lowcap_hunter, shadow_intelligence, OutcomeKind, transition_blocked,
  invalid_transition, WorkerState, TransitionResult,
}
use bobby_execute.WorkerState.Journal.{
  JournalEntry, ParseError, skipped, failed, parsed, parse_transition_record,
}

pub record ReplayTrace : Type 0 where
  pub state_before : Option WorkerState
  pub state_after : Option WorkerState
  pub blocked : Bool
  pub invalid : Bool
  pub no_transition : Bool
  pub history : List TransitionResult

pub data Replay : Type 0 where
  replayed : ReplayTrace → Replay
  broken : ParseError → Replay

abbrev pub same_kind : WorkerStateMachineKind → WorkerStateMachineKind → Bool
same_kind lowcap_hunter lowcap_hunter = true
same_kind shadow_intelligence shadow_intelligence = true
same_kind _ _ = false

abbrev pub is_blocked : OutcomeKind → Bool
is_blocked transition_blocked = true
is_blocked _ = false

abbrev pub is_invalid : OutcomeKind → Bool
is_invalid invalid_transition = true
is_invalid _ = false

abbrev pub is_unchanged : OutcomeKind → Bool
is_unchanged OutcomeKind.no_transition = true
is_unchanged _ = false

abbrev pub start_trace : ReplayTrace
start_trace = record {
  state_before = none;
  state_after = none;
  blocked = false;
  invalid = false;
  no_transition = false;
  history = [];
}

-- one round of the replay's loop, for a record of its kind
abbrev pub note : TransitionResult → ReplayTrace → ReplayTrace
note r t = record {
  state_before = t.state_before or_else some r.state_before;
  state_after = some r.state_after;
  blocked = t.blocked || is_blocked r.kind;
  invalid = t.invalid || is_invalid r.kind;
  no_transition = t.no_transition || is_unchanged r.kind;
  history = t.history ++ r ∷ [];
}

-- The loop of `reconstructWorkerStateTransitionReplay`; the trace's `workerKind` and
-- `journalEntries` are its arguments.
unfoldable pub replay_from : WorkerStateMachineKind → ReplayTrace → List JournalEntry → Replay
replay_from k t [] = replayed t
replay_from k t (entry ∷ entries) = elim (parse_transition_record entry.output) [
  | skipped ↦ replay_from k t entries
  | failed e ↦ broken e
  | parsed r ↦ replay_from k (if same_kind r.worker_kind k then note r t else t) entries
]

unfoldable pub reconstruct_worker_state_transition_replay :
    List JournalEntry → WorkerStateMachineKind → Replay
reconstruct_worker_state_transition_replay entries k = replay_from k start_trace entries
