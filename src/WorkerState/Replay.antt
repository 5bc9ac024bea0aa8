-- ===== src/WorkerState/Replay.antt =====
-- What the parsing and the replay of a journal find in the entries of any results.
use bobby_execute.Base.{
  arith, ◌∙◌, if◌then◌else◌, sym, inl, inr, Bool-cases, any, keep, ◌≡◌, refl, Bool, true, false,
  ◌||◌, Option, none, some, List, [], ◌∷◌, ◌++◌, ap, map, ◌or_else◌,
}
use bobby_execute.WorkerState.Types.{
  WorkerStateMachineKind, lowcap_hunter, shadow_intelligence, OutcomeKind, ReasonClass,
  LowCapHunterStateStatus, ShadowIntelligenceStateStatus, WorkerState, lowcap, shadow,
  TransitionResult, Hash,
}
use bobby_execute.WorkerState.Journal.{
  JournalEntry, parsed, build_transition_journal_record, build_transition_journal_entry,
  parse_transition_record, parse_kind, parse_outcome, parse_reason, parse_state, raw_state,
  kind_name, outcome_name, reason_name, orelse,
}
use bobby_execute.WorkerState.Reconstruct.{
  replayed, ReplayTrace, note, start_trace, replay_from, is_blocked, is_invalid, is_unchanged,
  reconstruct_worker_state_transition_replay, same_kind,
}

-- The kind that a state carries.
abbrev pub kind_of : WorkerState → WorkerStateMachineKind
kind_of (lowcap s) = lowcap_hunter
kind_of (shadow s) = shadow_intelligence

kind-parse : (k : WorkerStateMachineKind) → parse_kind (kind_name k) ≡ some k
kind-parse lowcap_hunter = refl
kind-parse shadow_intelligence = refl

outcome-parse : (k : OutcomeKind) → parse_outcome (outcome_name k) ≡ some k
outcome-parse OutcomeKind.transition_applied = refl
outcome-parse OutcomeKind.transition_blocked = refl
outcome-parse OutcomeKind.no_transition = refl
outcome-parse OutcomeKind.invalid_transition = refl

reason-parse : (c : ReasonClass) → parse_reason (reason_name c) ≡ some c
reason-parse ReasonClass.state_advanced = refl
reason-parse ReasonClass.state_blocked_suppressed = refl
reason-parse ReasonClass.state_no_change = refl
reason-parse ReasonClass.state_invalid_edge = refl
reason-parse ReasonClass.state_rejected = refl
reason-parse ReasonClass.state_review_queue = refl
reason-parse ReasonClass.state_alert = refl

state-parse : (s : WorkerState) → parse_state (kind_of s) (raw_state s) ≡ some s
unfolding parse_state
state-parse (lowcap LowCapHunterStateStatus.observed) = refl
state-parse (lowcap LowCapHunterStateStatus.screened) = refl
state-parse (lowcap LowCapHunterStateStatus.candidate) = refl
state-parse (lowcap LowCapHunterStateStatus.promoted) = refl
state-parse (lowcap LowCapHunterStateStatus.modeled) = refl
state-parse (lowcap LowCapHunterStateStatus.watchlisted) = refl
state-parse (lowcap LowCapHunterStateStatus.rejected) = refl
state-parse (lowcap LowCapHunterStateStatus.review_queue) = refl
state-parse (shadow ShadowIntelligenceStateStatus.watching) = refl
state-parse (shadow ShadowIntelligenceStateStatus.stable) = refl
state-parse (shadow ShadowIntelligenceStateStatus.notable_change) = refl
state-parse (shadow ShadowIntelligenceStateStatus.transition_detected) = refl
state-parse (shadow ShadowIntelligenceStateStatus.modeled) = refl
state-parse (shadow ShadowIntelligenceStateStatus.updated_case) = refl
state-parse (shadow ShadowIntelligenceStateStatus.review_queue) = refl
state-parse (shadow ShadowIntelligenceStateStatus.alert) = refl

-- A result whose two states are of its machine's kind is read back from its journal record exactly.
pub record-parse :
    (r : TransitionResult)
    → kind_of r.state_before ≡ r.worker_kind
    → kind_of r.state_after ≡ r.worker_kind
    → parse_transition_record (some (build_transition_journal_record r)) ≡ parsed r
unfolding parse_transition_record build_transition_journal_record orelse
record-parse r b a = simp (
  kind-parse r.worker_kind,
  outcome-parse r.kind,
  reason-parse r.reason_class,
  rw b at (state-parse r.state_before),
  rw a at (state-parse r.state_after),
)

-- A result as the machines make it: its two states are of its kind.
pub record Coherent (r : TransitionResult) : Type 0 where
  pub before : kind_of r.state_before ≡ r.worker_kind
  pub after : kind_of r.state_after ≡ r.worker_kind

pub data AllCoherent : List TransitionResult → Type 0 where
  empty : AllCoherent []
  cons :
      {r : TransitionResult} {rs : List TransitionResult}
      → Coherent r
      → AllCoherent rs
      → AllCoherent (r ∷ rs)

abbrev pub of_kind : WorkerStateMachineKind → TransitionResult → Bool
of_kind k r = same_kind r.worker_kind k

-- The state before the first result of a list, and the state after its last one.
abbrev pub first_before : Option WorkerState → List TransitionResult → Option WorkerState
first_before o [] = o
first_before o (r ∷ rs) = o or_else some r.state_before

abbrev pub last_after : Option WorkerState → List TransitionResult → Option WorkerState
last_after o [] = o
last_after o (r ∷ rs) = last_after (some r.state_after) rs

-- what a replay from `t` finds in results of its kind
abbrev summary : ReplayTrace → List TransitionResult → ReplayTrace
summary t rs = record {
  state_before = first_before t.state_before rs;
  state_after = last_after t.state_after rs;
  blocked = t.blocked || any (λ r. is_blocked r.kind) rs;
  invalid = t.invalid || any (λ r. is_invalid r.kind) rs;
  no_transition = t.no_transition || any (λ r. is_unchanged r.kind) rs;
  history = t.history ++ rs;
}

or-false : (b : Bool) → b || false ≡ b
or-false true = refl
or-false false = refl

or_assoc : (a b c : Bool) → (a || b) || c ≡ a || (b || c)
or_assoc true b c = refl
or_assoc false b c = refl

first_before-step :
    (o : Option WorkerState) (s : WorkerState) (rs : List TransitionResult)
    → first_before (o or_else some s) rs ≡ o or_else some s
first_before-step none s [] = refl
first_before-step none s (r ∷ rs) = refl
first_before-step (some x) s [] = refl
first_before-step (some x) s (r ∷ rs) = refl

append-nil : (rs : List TransitionResult) → rs ++ [] ≡ rs
append-nil [] = refl
append-nil (r ∷ rs) = ap (λ x. r ∷ x) (append-nil rs)

append-step :
    (hs : List TransitionResult) (r : TransitionResult) (rs : List TransitionResult)
    → (hs ++ r ∷ []) ++ rs ≡ hs ++ r ∷ rs
append-step [] r rs = refl
append-step (h ∷ hs) r rs = ap (λ x. h ∷ x) (append-step hs r rs)

summary-nil : (t : ReplayTrace) → summary t [] ≡ t
summary-nil t = simp (or-false, append-nil)

summary-step :
    (r : TransitionResult) (t : ReplayTrace) (rs : List TransitionResult)
    → summary (note r t) rs ≡ summary t (r ∷ rs)
summary-step r t rs = simp (or_assoc, append-step, first_before-step)

replay_from-parsed :
    (k : WorkerStateMachineKind) (t : ReplayTrace) (e : JournalEntry) (es : List JournalEntry)
    (r : TransitionResult)
    → parse_transition_record e.output ≡ parsed r
    → replay_from k t (e ∷ es) ≡ replay_from k (if of_kind k r then note r t else t) es
unfolding replay_from
replay_from-parsed k t e es r p = ground arith

replay_from-entry :
    (hash : Hash) (k : WorkerStateMachineKind) (t : ReplayTrace) (es : List JournalEntry)
    (r : TransitionResult)
    → Coherent r
    → replay_from k t (build_transition_journal_entry hash r ∷ es)
      ≡ replay_from k (if of_kind k r then note r t else t) es
unfolding build_transition_journal_entry
replay_from-entry hash k t es r c =
    replay_from-parsed k t (build_transition_journal_entry hash r) es r
      (record-parse r c.before c.after)

replay_from-entries :
    (hash : Hash) (k : WorkerStateMachineKind) (t : ReplayTrace) (rs : List TransitionResult)
    → AllCoherent rs
    → replay_from k t (map (build_transition_journal_entry hash) rs)
      ≡ replayed (summary t (keep (of_kind k) rs))
unfolding replay_from
replay_from-entries hash k t [] empty = ap replayed (sym (summary-nil t))
replay_from-entries hash k t (r ∷ rs) (cons c cs) =
    replay_from-entry hash k t (map (build_transition_journal_entry hash) rs) r c
    ∙ elim (Bool-cases (of_kind k r)) [
      | inl e ↦
          rw (e, ← summary-step r t (keep (of_kind k) rs))
            (replay_from-entries hash k (note r t) rs cs)
      | inr e ↦ rw e (replay_from-entries hash k t rs cs)
    ]

-- The replay of the journal entries of any results, of both machines in any order, finds for one
-- machine exactly that machine's results in order, the state before the first of them, the state
-- after the last, and whether one of them was blocked, invalid or without a change.
pub reconstruct-entries :
    (hash : Hash) (k : WorkerStateMachineKind) (rs : List TransitionResult)
    → AllCoherent rs
    → let found = keep (λ r. same_kind r.worker_kind k) rs in
      reconstruct_worker_state_transition_replay (map (build_transition_journal_entry hash) rs) k
      ≡ replayed (record {
        state_before = first_before none found;
        state_after = last_after none found;
        blocked = any (λ r. is_blocked r.kind) found;
        invalid = any (λ r. is_invalid r.kind) found;
        no_transition = any (λ r. is_unchanged r.kind) found;
        history = found;
      })
unfolding reconstruct_worker_state_transition_replay
reconstruct-entries hash k rs c = replay_from-entries hash k start_trace rs c
