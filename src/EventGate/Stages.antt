-- ===== src/EventGate/Stages.antt =====
-- The eight stages of the event gate, bot/src/runtime/worker-event-gate/engine.ts.
use bobby_execute.Base.{
  ℕ, ◌+◌, Bool, ◌&&◌, Option, none, some, List, [], ◌∷◌, ◌++◌, ltb, ◌===◌, if◌then◌else◌,
}
use bobby_execute.WorkerState.Types.{
  validity, integrity, convergence_relevance, dedupe_stage, cooldown_stage, invalid, dedupe,
  cooldown, integrity_kind,
}
use bobby_execute.EventGate.Types.{
  Event, event_key, dedupe_key, cooldown_key, DedupeRecord, CooldownRecord, GateState,
}
use bobby_execute.EventGate.Results.{
  validity_pass, validity_block, integrity_pass, integrity_block, convergence_pass,
  convergence_block, dedupe_pass, dedupe_suppressed, cooldown_pass, cooldown_suppressed,
  StageResult, EventNormalization,
}
use bobby_execute.EventGate.Keys.{
  family_of, dedupe_window_ms, cooldown_window_ms, cooldown_class, same_dedupe_key,
  same_cooldown_key, build_dedupe_key, build_cooldown_key,
}
use bobby_execute.EventGate.Checks.{
  is_valid, family_specific_integrity_check, convergence_assessment,
}
use bobby_execute.EventGate.StageResults.{
  create_suppression_record, create_pass_result, create_fail_result, create_suppressed_result,
}

unfoldable pub evaluate_validity : Event → EventNormalization → StageResult
unfolding is_valid
evaluate_validity e n =
    if is_valid e
    then create_pass_result validity validity_pass e.observed_at
    else create_fail_result e.observed_at
        (create_suppression_record validity invalid validity_block n (event_key e.event_id))

unfoldable pub evaluate_integrity : Event → EventNormalization → StageResult
unfolding family_specific_integrity_check
evaluate_integrity e n =
    if family_specific_integrity_check e
    then create_pass_result integrity integrity_pass e.observed_at
    else create_fail_result e.observed_at (
        create_suppression_record integrity integrity_kind integrity_block n (event_key e.event_id))

unfoldable pub evaluate_convergence_relevance : Event → EventNormalization → StageResult
unfolding convergence_assessment
evaluate_convergence_relevance e n =
    let a = convergence_assessment e in
    if a.relevant
    then create_pass_result convergence_relevance convergence_pass e.observed_at
    else create_suppressed_result e.observed_at (
        create_suppression_record convergence_relevance a.kind convergence_block n
          (event_key e.event_id))

-- a stage's result and the state that it leaves
pub record Outcome : Type 0 where
  pub result : StageResult
  pub next_state : GateState

-- `xs.find(p)`
unfoldable pub find {ℓ} : {A : Type ℓ} → (A → Bool) → List A → Option A
find p [] = none
find p (x ∷ xs) = let rest = find p xs in if p x then some x else rest

unfoldable pub blocks_dedupe : Event → EventNormalization → DedupeRecord → Bool
unfolding same_dedupe_key build_dedupe_key
blocks_dedupe e n r =
    same_dedupe_key r.key (build_dedupe_key e n)
    && (r.basis_hash === n.basis_hash)
    && ltb e.observed_at r.expires_at

abbrev pub dedupe_record : Event → EventNormalization → DedupeRecord
dedupe_record e n = record {
  key = build_dedupe_key e n;
  event_id = e.event_id;
  family = family_of e;
  event_type = e.event_type;
  observed_at = e.observed_at;
  expires_at = e.observed_at + dedupe_window_ms e;
  severity = e.severity;
  confidence = e.confidence;
  evidence_signature = n.evidence_signature;
  basis_hash = n.basis_hash;
}

abbrev pub dedupe_suppressed_by : Event → EventNormalization → DedupeRecord → StageResult
dedupe_suppressed_by e n r =
    create_suppressed_result e.observed_at
      (record (create_suppression_record dedupe_stage dedupe dedupe_suppressed n
        (dedupe_key (build_dedupe_key e n))) { expires_at = some r.expires_at })

abbrev pub dedupe_passed : Event → EventNormalization → GateState → Outcome
dedupe_passed e n s = record {
  result = record (create_pass_result dedupe_stage dedupe_pass e.observed_at) {
    key = some (dedupe_key (build_dedupe_key e n));
    window_ms = some (dedupe_window_ms e);
    expires_at = some (e.observed_at + dedupe_window_ms e);
  };
  next_state = record s {
    dedupe_records = s.dedupe_records ++ dedupe_record e n ∷ [];
    last_evaluated_at = some e.observed_at;
  };
}

-- by the active record
abbrev pub dedupe_outcome : Event → EventNormalization → GateState → Option DedupeRecord → Outcome
dedupe_outcome e n s (some r) = record { result = dedupe_suppressed_by e n r; next_state = s }
dedupe_outcome e n s none = dedupe_passed e n s

unfoldable pub evaluate_dedupe : Event → EventNormalization → GateState → Outcome
unfolding find blocks_dedupe build_dedupe_key
evaluate_dedupe e n s = dedupe_outcome e n s (find (blocks_dedupe e n) s.dedupe_records)

unfoldable pub blocks_cooldown : Event → EventNormalization → CooldownRecord → Bool
unfolding same_cooldown_key build_cooldown_key
blocks_cooldown e n r =
    same_cooldown_key r.key (build_cooldown_key e n) && ltb e.observed_at r.expires_at

abbrev cooldown_expiry : Event → ℕ
cooldown_expiry e = e.observed_at + cooldown_window_ms e (cooldown_class e)

abbrev pub cooldown_record : Event → EventNormalization → CooldownRecord
cooldown_record e n = record {
  key = build_cooldown_key e n;
  event_id = e.event_id;
  family = family_of e;
  event_type = e.event_type;
  observed_at = e.observed_at;
  expires_at = cooldown_expiry e;
  severity = e.severity;
  confidence = e.confidence;
  evidence_signature = n.evidence_signature;
  basis_hash = n.basis_hash;
  cooldown_class = cooldown_class e;
}

abbrev pub cooldown_suppressed_by : Event → EventNormalization → CooldownRecord → StageResult
cooldown_suppressed_by e n r =
    create_suppressed_result e.observed_at
      (record (create_suppression_record cooldown_stage cooldown cooldown_suppressed n
        (cooldown_key (build_cooldown_key e n))) { expires_at = some r.expires_at })

abbrev pub cooldown_passed : Event → EventNormalization → GateState → Outcome
cooldown_passed e n s = record {
  result = record (create_pass_result cooldown_stage cooldown_pass e.observed_at) {
    key = some (cooldown_key (build_cooldown_key e n));
    window_ms = some (cooldown_window_ms e (cooldown_class e));
    expires_at = some (cooldown_expiry e);
  };
  next_state = record s {
    cooldown_records = s.cooldown_records ++ cooldown_record e n ∷ [];
    last_evaluated_at = some e.observed_at;
  };
}

-- by the active record
abbrev pub cooldown_outcome :
    Event → EventNormalization → GateState → Option CooldownRecord → Outcome
cooldown_outcome e n s (some r) = record { result = cooldown_suppressed_by e n r; next_state = s }
cooldown_outcome e n s none = cooldown_passed e n s

unfoldable pub evaluate_cooldown : Event → EventNormalization → GateState → Outcome
unfolding find blocks_cooldown build_cooldown_key cooldown_class
evaluate_cooldown e n s = cooldown_outcome e n s (find (blocks_cooldown e n) s.cooldown_records)
