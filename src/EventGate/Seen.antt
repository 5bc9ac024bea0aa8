-- ===== src/EventGate/Seen.antt =====
-- What the gate's state has seen, it keeps over any events.
use bobby_execute.Base.{
  ◌≡◌, refl, sym, Bool, true, ◌||◌, Option, none, some, List, [], ◌∷◌, ◌++◌, any, ◌===◌, Bool-cases,
  inl, inr, arith,
}
use mathlib.Core.Path.{subst}
use bobby_execute.EventGate.Types.{
  Event, DedupeRecord, CooldownRecord, BatchRecord, GateState, state_schema_version,
}
use bobby_execute.EventGate.Results.{EventNormalization}
use bobby_execute.EventGate.Keys.{Platform, build_worker_event_normalization}
use bobby_execute.EventGate.Stages.{dedupe_record, find, dedupe_outcome, cooldown_outcome}
use bobby_execute.EventGate.Routing.{is_batchable, holds, batch_outcome}
use bobby_execute.EventGate.Gate.{ensure_valid_state, evaluate_worker_event_gate, run}
use bobby_execute.EventGate.Invariant.{Kept, evaluate-kept}
use bobby_execute.EventGate.Verdict.{if-true}

-- the state has seen what this test asks for, and a later evaluation takes it as it is
pub record Seen (test : DedupeRecord → Bool) (s : GateState) : Type 0 where
  pub version : (s.schema_version === state_schema_version) ≡ true
  pub found : any test s.dedupe_records ≡ true

pub any_record-append :
    (test : DedupeRecord → Bool) (rs : List DedupeRecord) (r : DedupeRecord)
    → any test (rs ++ r ∷ []) ≡ (any test rs || test r)
any_record-append test [] r = ground arith
any_record-append test (x ∷ rs) r = ground (arith, any_record-append test rs r)

module _ (test : DedupeRecord → Bool) where
  dedupe_outcome-Seen :
      (e : Event) (n : EventNormalization) (s : GateState) (found : Option DedupeRecord)
      → Seen test s
      → Seen test (dedupe_outcome e n s found).next_state
  dedupe_outcome-Seen e n s (some r) t = t
  dedupe_outcome-Seen e n s none t = record {
    version = t.version;
    found = rw (any_record-append test s.dedupe_records (dedupe_record e n), t.found) refl;
  }

  cooldown_outcome-Seen :
      (e : Event) (n : EventNormalization) (s : GateState) (found : Option CooldownRecord)
      → Seen test s
      → Seen test (cooldown_outcome e n s found).next_state
  cooldown_outcome-Seen e n s (some r) t = t
  cooldown_outcome-Seen e n s none t = record { version = t.version; found = t.found }

  batch_outcome-Seen :
      (p : Platform) (e : Event) (n : EventNormalization) (s : GateState)
      (found : Option BatchRecord)
      → Seen test s
      → Seen test (batch_outcome p e n s found).next_state
  batch_outcome-Seen p e n s (some r) t = record { version = t.version; found = t.found }
  batch_outcome-Seen p e n s none t = elim (Bool-cases (is_batchable e)) [
    | inl b ↦ rw b (record { version = t.version; found = t.found })
    | inr b ↦ rw b t
  ]

pub Seen-Kept :
    (test : DedupeRecord → Bool) (p : Platform) (e : Event) (n : EventNormalization)
    → Kept (Seen test) p e n
Seen-Kept test p e n = record {
  by_dedupe = λ s found t. dedupe_outcome-Seen test e n s found t;
  by_cooldown = λ s found t. cooldown_outcome-Seen test e n s found t;
  by_batch = λ s t. batch_outcome-Seen test p e n s (find (holds e n) s.batch_records) t;
  by_touch = λ s t. record { version = t.version; found = t.found };
}

pub ensure-version :
    (state : Option GateState)
    → ((ensure_valid_state state).schema_version === state_schema_version) ≡ true
ensure-version none = refl
ensure-version (some s) = elim (Bool-cases (s.schema_version === state_schema_version)) [
  | inl b ↦ rw b b
  | inr b ↦ rw b refl
]

pub run-Seen :
    (test : DedupeRecord → Bool) (p : Platform) (es : List Event) (s : GateState)
    → Seen test s
    → Seen test (ensure_valid_state (run p es (some s)))
unfolding run
run-Seen test p [] s t = subst (Seen test) (sym (if-true _ _ t.version)) t
run-Seen test p (e ∷ es) s t =
    run-Seen test p es (evaluate_worker_event_gate p e (some s)).state_after (
      evaluate-kept (Seen-Kept test p e (build_worker_event_normalization p e)) (some s)
        (subst (Seen test) (sym (if-true _ _ t.version)) t))
