-- ===== src/EventGate/StageResults.antt =====
-- The results that the stages of the event gate build, bot/src/runtime/worker-event-gate/engine.ts.
use bobby_execute.Base.{ℕ, true, false, none, some}
use bobby_execute.WorkerState.Types.{
  GateStageName, model_promotion, RouteClass, no_model, SuppressionKind,
}
use bobby_execute.EventGate.Types.{StageKey}
use bobby_execute.EventGate.Results.{
  Disposition, pass, fail, suppressed, promoted, no_model_result, skipped, GateReasonClass,
  model_no_promotion, SuppressionRecord, StageResult, EventNormalization,
}

-- `createSuppressionRecord`
abbrev pub create_suppression_record :
    GateStageName
    → SuppressionKind
    → GateReasonClass
    → EventNormalization
    → StageKey
    → SuppressionRecord
create_suppression_record stage kind reason n key = record {
  stage = stage;
  kind = kind;
  reason_class = reason;
  evidence_signature = n.evidence_signature;
  key = some key;
  expires_at = none;
  release_at = none;
}

abbrev pub create_pass_result : GateStageName → GateReasonClass → ℕ → StageResult
create_pass_result stage reason at = record {
  stage = stage;
  disposition = pass;
  reason_class = reason;
  evaluated_at = at;
  blocked = false;
  terminal = false;
  is_suppressed = false;
  is_promoted = false;
  route_class = none;
  write_effect = none;
  key = none;
  window_ms = none;
  expires_at = none;
  release_at = none;
  suppression = none;
  skipped_because = none;
}

abbrev pub create_skipped_result : GateStageName → GateStageName → ℕ → StageResult
create_skipped_result stage because at = record (create_pass_result stage model_no_promotion at) {
  disposition = skipped;
  skipped_because = some because;
}

abbrev pub create_fail_result : ℕ → SuppressionRecord → StageResult
create_fail_result at s = record (create_pass_result s.stage s.reason_class at) {
  disposition = fail;
  blocked = true;
  terminal = true;
  suppression = some s;
}

abbrev pub create_suppressed_result : ℕ → SuppressionRecord → StageResult
create_suppressed_result at s = record (create_fail_result at s) {
  disposition = suppressed;
  is_suppressed = true;
}

-- `createDeferredResult` and `createBatchedResult`, by the disposition
abbrev pub create_held_result : Disposition → ℕ → SuppressionRecord → ℕ → StageResult
create_held_result disposition at s window = record (create_fail_result at s) {
  disposition = disposition;
  is_suppressed = true;
  release_at = s.release_at;
  key = s.key;
  window_ms = some window;
}

abbrev pub create_promoted_result : GateReasonClass → ℕ → RouteClass → StageResult
create_promoted_result reason at route = record (create_pass_result model_promotion reason at) {
  disposition = promoted;
  is_promoted = true;
  route_class = some route;
}

abbrev pub create_no_model_result : GateReasonClass → ℕ → StageResult
create_no_model_result reason at = record (create_pass_result model_promotion reason at) {
  disposition = no_model_result;
  route_class = some no_model;
}
