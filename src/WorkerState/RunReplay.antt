-- ===== src/WorkerState/RunReplay.antt =====
-- The journal of one machine's run, replayed.
use bobby_execute.Base.{◌≡◌, refl, ap, ◌∙◌, true, Option, none, some, List, [], ◌∷◌, map, keep, any}
use bobby_execute.WorkerState.Types.{
  WorkerStateMachineKind, lowcap_hunter, shadow_intelligence, LowCapHunterStateStatus,
  ShadowIntelligenceStateStatus, WorkerState, lowcap, shadow, Evaluation, TransitionBasis,
  TransitionResult, Hash, build_transition_basis, build_transition_result, Verdict, applied, blocks,
  keeps, refuses, result_of, after,
}
use bobby_execute.WorkerState.Journal.{build_transition_journal_entry}
use bobby_execute.WorkerState.Reconstruct.{
  replayed, reconstruct_worker_state_transition_replay, is_blocked, is_invalid, is_unchanged,
}
use bobby_execute.WorkerState.LowCap
use bobby_execute.WorkerState.Shadow
use bobby_execute.WorkerState.Replay.{
  kind_of, Coherent, AllCoherent, empty, cons, of_kind, first_before, last_after,
  reconstruct-entries,
}

result_of-Coherent :
    {S : Type 0} (hash : Hash) (k : WorkerStateMachineKind) (state : S → WorkerState)
    → ((s : S) → kind_of (state s) ≡ k)
    → (s : S) (basis : TransitionBasis) (v : Verdict S)
    → Coherent (result_of hash k state s basis v)
unfolding build_transition_result
result_of-Coherent hash k state h s basis (applied t r) = record { before = h s; after = h t }
result_of-Coherent hash k state h s basis blocks = record { before = h s; after = h s }
result_of-Coherent hash k state h s basis keeps = record { before = h s; after = h s }
result_of-Coherent hash k state h s basis refuses = record { before = h s; after = h s }

result_of-before :
    {S : Type 0} (hash : Hash) (k : WorkerStateMachineKind) (state : S → WorkerState) (s : S)
    (basis : TransitionBasis) (v : Verdict S)
    → (result_of hash k state s basis v).state_before ≡ state s
unfolding build_transition_result
result_of-before hash k state s basis (applied t r) = refl
result_of-before hash k state s basis blocks = refl
result_of-before hash k state s basis keeps = refl
result_of-before hash k state s basis refuses = refl

result_of-after :
    {S : Type 0} (hash : Hash) (k : WorkerStateMachineKind) (state : S → WorkerState) (s : S)
    (basis : TransitionBasis) (v : Verdict S)
    → (result_of hash k state s basis v).state_after ≡ state (after s v)
unfolding build_transition_result
result_of-after hash k state s basis (applied t r) = refl
result_of-after hash k state s basis blocks = refl
result_of-after hash k state s basis keeps = refl
result_of-after hash k state s basis refuses = refl

result_of-kind :
    {S : Type 0} (hash : Hash) (k : WorkerStateMachineKind) (state : S → WorkerState) (s : S)
    (basis : TransitionBasis) (v : Verdict S)
    → of_kind k (result_of hash k state s basis v) ≡ true
unfolding build_transition_result
result_of-kind hash lowcap_hunter state s basis (applied t r) = refl
result_of-kind hash lowcap_hunter state s basis blocks = refl
result_of-kind hash lowcap_hunter state s basis keeps = refl
result_of-kind hash lowcap_hunter state s basis refuses = refl
result_of-kind hash shadow_intelligence state s basis (applied t r) = refl
result_of-kind hash shadow_intelligence state s basis blocks = refl
result_of-kind hash shadow_intelligence state s basis keeps = refl
result_of-kind hash shadow_intelligence state s basis refuses = refl

keep-here :
    {S : Type 0} (hash : Hash) (k : WorkerStateMachineKind) (state : S → WorkerState) (s : S)
    (basis : TransitionBasis) (v : Verdict S) (rs : List TransitionResult)
    → keep (of_kind k) rs ≡ rs
    → keep (of_kind k) (result_of hash k state s basis v ∷ rs)
      ≡ result_of hash k state s basis v ∷ rs
keep-here hash k state s basis v rs h = rw (result_of-kind hash k state s basis v, h) refl

reconstruct-kept :
    (hash : Hash) (k : WorkerStateMachineKind) (found : List TransitionResult) (b a : WorkerState)
    → AllCoherent found
    → keep (of_kind k) found ≡ found
    → first_before none found ≡ some b
    → last_after none found ≡ some a
    → reconstruct_worker_state_transition_replay (map (build_transition_journal_entry hash) found) k
      ≡ replayed (record {
        state_before = some b;
        state_after = some a;
        blocked = any (λ r. is_blocked r.kind) found;
        invalid = any (λ r. is_invalid r.kind) found;
        no_transition = any (λ r. is_unchanged r.kind) found;
        history = found;
      })
reconstruct-kept hash k found b a c kp f l = reconstruct-entries hash k found c ∙ rw (kp, f, l) refl

low_cap_results-AllCoherent :
    (hash : Hash) (s : LowCapHunterStateStatus) (es : List Evaluation)
    → AllCoherent (LowCap.results hash s es)
unfolding LowCap.results LowCap.transition_low_cap_hunter_state
low_cap_results-AllCoherent hash s [] = empty
low_cap_results-AllCoherent hash s (e ∷ es) =
    cons
      (result_of-Coherent hash lowcap_hunter lowcap (λ x. refl) s (build_transition_basis e)
        (LowCap.judge s e))
      (low_cap_results-AllCoherent hash (after s (LowCap.judge s e)) es)

low_cap_results-keep :
    (hash : Hash) (s : LowCapHunterStateStatus) (es : List Evaluation)
    → keep (of_kind lowcap_hunter) (LowCap.results hash s es) ≡ LowCap.results hash s es
unfolding LowCap.results LowCap.transition_low_cap_hunter_state
low_cap_results-keep hash s [] = refl
low_cap_results-keep hash s (e ∷ es) =
    keep-here hash lowcap_hunter lowcap s (build_transition_basis e) (LowCap.judge s e) _
      (low_cap_results-keep hash (after s (LowCap.judge s e)) es)

low_cap_last_after :
    (hash : Hash) (s : LowCapHunterStateStatus) (es : List Evaluation) (o : Option WorkerState)
    → o ≡ some (lowcap s)
    → last_after o (LowCap.results hash s es) ≡ some (lowcap (LowCap.run s es))
unfolding LowCap.results LowCap.transition_low_cap_hunter_state LowCap.run
low_cap_last_after hash s [] o p = p
low_cap_last_after hash s (e ∷ es) o p =
    low_cap_last_after hash (after s (LowCap.judge s e)) es
      (some
        (result_of hash lowcap_hunter lowcap s (build_transition_basis e)
          (LowCap.judge s e)).state_after)
      (ap some
        (result_of-after hash lowcap_hunter lowcap s (build_transition_basis e) (LowCap.judge s e)))

low_cap_first_before :
    (hash : Hash) (s : LowCapHunterStateStatus) (e : Evaluation) (es : List Evaluation)
    → first_before none (LowCap.results hash s (e ∷ es)) ≡ some (lowcap s)
unfolding LowCap.results LowCap.transition_low_cap_hunter_state
low_cap_first_before hash s e es =
    ap some
      (result_of-before hash lowcap_hunter lowcap s (build_transition_basis e) (LowCap.judge s e))

low_cap_last_of :
    (hash : Hash) (s : LowCapHunterStateStatus) (e : Evaluation) (es : List Evaluation)
    → last_after none (LowCap.results hash s (e ∷ es)) ≡ some (lowcap (LowCap.run s (e ∷ es)))
unfolding LowCap.results
low_cap_last_of hash s e es = low_cap_last_after hash s (e ∷ es) (some (lowcap s)) refl

-- The journal of a run of the low-cap machine replays to that run: the results in order, the state
-- that the run started in, the state that it ended in, and its flags.
pub low_cap_run-replay :
    (hash : Hash) (s : LowCapHunterStateStatus) (e : Evaluation) (es : List Evaluation)
    → let found = LowCap.results hash s (e ∷ es) in
      reconstruct_worker_state_transition_replay
        (map (build_transition_journal_entry hash) found)
        lowcap_hunter
      ≡ replayed (record {
        state_before = some (lowcap s);
        state_after = some (lowcap (LowCap.run s (e ∷ es)));
        blocked = any (λ r. is_blocked r.kind) found;
        invalid = any (λ r. is_invalid r.kind) found;
        no_transition = any (λ r. is_unchanged r.kind) found;
        history = found;
      })
low_cap_run-replay hash s e es =
    reconstruct-kept hash lowcap_hunter (LowCap.results hash s (e ∷ es)) (lowcap s)
      (lowcap (LowCap.run s (e ∷ es))) (low_cap_results-AllCoherent hash s (e ∷ es))
      (low_cap_results-keep hash s (e ∷ es)) (low_cap_first_before hash s e es)
      (low_cap_last_of hash s e es)

shadow_results-AllCoherent :
    (hash : Hash) (s : ShadowIntelligenceStateStatus) (es : List Evaluation)
    → AllCoherent (Shadow.results hash s es)
unfolding Shadow.results Shadow.transition_shadow_intelligence_state
shadow_results-AllCoherent hash s [] = empty
shadow_results-AllCoherent hash s (e ∷ es) =
    cons
      (result_of-Coherent hash shadow_intelligence shadow (λ x. refl) s (build_transition_basis e)
        (Shadow.judge s e))
      (shadow_results-AllCoherent hash (after s (Shadow.judge s e)) es)

shadow_results-keep :
    (hash : Hash) (s : ShadowIntelligenceStateStatus) (es : List Evaluation)
    → keep (of_kind shadow_intelligence) (Shadow.results hash s es) ≡ Shadow.results hash s es
unfolding Shadow.results Shadow.transition_shadow_intelligence_state
shadow_results-keep hash s [] = refl
shadow_results-keep hash s (e ∷ es) =
    keep-here hash shadow_intelligence shadow s (build_transition_basis e) (Shadow.judge s e) _
      (shadow_results-keep hash (after s (Shadow.judge s e)) es)

shadow_last_after :
    (hash : Hash) (s : ShadowIntelligenceStateStatus) (es : List Evaluation)
    (o : Option WorkerState)
    → o ≡ some (shadow s)
    → last_after o (Shadow.results hash s es) ≡ some (shadow (Shadow.run s es))
unfolding Shadow.results Shadow.transition_shadow_intelligence_state Shadow.run
shadow_last_after hash s [] o p = p
shadow_last_after hash s (e ∷ es) o p =
    shadow_last_after hash (after s (Shadow.judge s e)) es
      (some
        (result_of hash shadow_intelligence shadow s (build_transition_basis e)
          (Shadow.judge s e)).state_after)
      (ap some (
        result_of-after hash shadow_intelligence shadow s (build_transition_basis e)
          (Shadow.judge s e)))

shadow_first_before :
    (hash : Hash) (s : ShadowIntelligenceStateStatus) (e : Evaluation) (es : List Evaluation)
    → first_before none (Shadow.results hash s (e ∷ es)) ≡ some (shadow s)
unfolding Shadow.results Shadow.transition_shadow_intelligence_state
shadow_first_before hash s e es = ap some (
    result_of-before hash shadow_intelligence shadow s (build_transition_basis e)
      (Shadow.judge s e))

shadow_last_of :
    (hash : Hash) (s : ShadowIntelligenceStateStatus) (e : Evaluation) (es : List Evaluation)
    → last_after none (Shadow.results hash s (e ∷ es)) ≡ some (shadow (Shadow.run s (e ∷ es)))
unfolding Shadow.results
shadow_last_of hash s e es = shadow_last_after hash s (e ∷ es) (some (shadow s)) refl

-- The journal of a run of the shadow machine replays to that run: the results in order, the state
-- that the run started in, the state that it ended in, and its flags.
pub shadow_run-replay :
    (hash : Hash) (s : ShadowIntelligenceStateStatus) (e : Evaluation) (es : List Evaluation)
    → let found = Shadow.results hash s (e ∷ es) in
      reconstruct_worker_state_transition_replay
        (map (build_transition_journal_entry hash) found)
        shadow_intelligence
      ≡ replayed (record {
        state_before = some (shadow s);
        state_after = some (shadow (Shadow.run s (e ∷ es)));
        blocked = any (λ r. is_blocked r.kind) found;
        invalid = any (λ r. is_invalid r.kind) found;
        no_transition = any (λ r. is_unchanged r.kind) found;
        history = found;
      })
shadow_run-replay hash s e es =
    reconstruct-kept hash shadow_intelligence (Shadow.results hash s (e ∷ es)) (shadow s)
      (shadow (Shadow.run s (e ∷ es))) (shadow_results-AllCoherent hash s (e ∷ es))
      (shadow_results-keep hash s (e ∷ es)) (shadow_first_before hash s e es)
      (shadow_last_of hash s e es)
