-- ===== src/EventGate/Content.antt =====
-- What the gate reads of an event's content, and the record by which it knows the content again.
use bobby_execute.Base.{
  ℕ, ◌+◌, ◌≡◌, refl, String, Bool, true, false, not, ◌&&◌, ◌||◌, List, [], ◌∷◌, ltb, ◌==◌, ◌===◌,
  Bool-cases, inl, inr, eq_iff, arith,
}
use bobby_execute.WorkerState.Types.{
  EventFamily, lowcap_family, shadow_family, GateStageName, validity, integrity,
  convergence_relevance, basis_of,
}
use bobby_execute.EventGate.Types.{Event, DedupeKey, DedupeRecord}
use bobby_execute.EventGate.Results.{EventNormalization, EventBasis, basis_of}
use bobby_execute.EventGate.Keys.{
  same_family, family_of, is_lowcap, dedupe_window_ms, stable_time_bucket_label, Platform,
  event_basis, build_worker_event_normalization, same_dedupe_key, build_dedupe_key,
}
use bobby_execute.EventGate.Checks.{
  is_valid, family_specific_integrity_check, convergence_assessment,
}
use bobby_execute.EventGate.Stages.{dedupe_record, blocks_dedupe}

-- the event that a basis leaves, without its id, its trace and its producer
abbrev pub event_from : EventBasis → Event
event_from b = record {
  event_id = "";
  trace_id = "";
  event_type = b.event_type;
  event_version = "";
  producer = "";
  entity_type = b.entity_type;
  entity_id = b.entity_id;
  entity_key = b.entity_key;
  observed_at = b.observed_at;
  window_start = b.window_start;
  window_end = b.window_end;
  severity = b.severity;
  confidence = b.confidence;
  knowledge_mode = b.knowledge_mode;
  evidence_refs = b.evidence_refs;
  source_scope = b.source_scope;
  promotion_candidate = b.promotion_candidate;
  suppression_candidate = b.suppression_candidate;
  feature = b.feature;
}

-- the stages that read the event alone
abbrev pub early : List GateStageName
early = validity ∷ integrity ∷ convergence_relevance ∷ []

-- whether one of them blocks the event
abbrev pub fails_early : Event → Bool
fails_early e =
    not (is_valid e)
    || (not (family_specific_integrity_check e)
        || (not (convergence_assessment e).relevant || false))

pub fails_early-basis :
    (p : Platform) (e : Event) → fails_early e ≡ fails_early (event_from (event_basis p e))
unfolding event_basis is_valid family_specific_integrity_check convergence_assessment
fails_early-basis p e = refl

abbrev pub same_content : Platform → EventBasis → DedupeRecord → Bool
same_content p b r =
    same_dedupe_key r.key (record {
      family = family_of (event_from b);
      entity_id = b.entity_id;
      event_type = b.event_type;
      bucket = stable_time_bucket_label b.observed_at (dedupe_window_ms (event_from b));
      entity_key = b.entity_key;
    })
    && (r.basis_hash === p.hash (basis_of b))
    && ltb b.observed_at r.expires_at

pub blocks_dedupe-basis :
    (p : Platform) (e : Event)
    → blocks_dedupe e (build_worker_event_normalization p e) ≡ same_content p (event_basis p e)
unfolding event_basis blocks_dedupe build_dedupe_key build_worker_event_normalization
blocks_dedupe-basis p e = refl

same_family_refl : (f : EventFamily) → same_family f f ≡ true
same_family_refl lowcap_family = refl
same_family_refl shadow_family = refl

text_refl : (s : String) → (s === s) ≡ true
text_refl s = (eq_iff s s).1 refl

number_refl : (a : ℕ) → (a == a) ≡ true
number_refl a = ground arith

same_dedupe_key_refl : (k : DedupeKey) → same_dedupe_key k k ≡ true
unfolding same_dedupe_key
same_dedupe_key_refl k =
    rw
      (
        same_family_refl k.family,
        text_refl k.entity_id,
        text_refl k.event_type,
        number_refl k.bucket.start_ms,
        number_refl k.bucket.minutes,
        text_refl k.entity_key,
      )
      refl

before_expiry : (e : Event) → ltb e.observed_at (e.observed_at + dedupe_window_ms e) ≡ true
before_expiry e = elim (Bool-cases (is_lowcap e)) [
  | inl b ↦ rw b (ground arith)
  | inr b ↦ rw b (ground arith)
]

-- the record that an event leaves is one that blocks it
pub own_record : (e : Event) (n : EventNormalization) → blocks_dedupe e n (dedupe_record e n) ≡ true
unfolding blocks_dedupe
own_record e n =
    rw (same_dedupe_key_refl (build_dedupe_key e n), text_refl n.basis_hash, before_expiry e) refl
