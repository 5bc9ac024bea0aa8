-- ===== src/EventGate/Batches.antt =====
-- The batches of the event gate over a sequence of events.
use bobby_execute.Base.{
  ℕ, ◌+◌, ◌<◌, ◌≡◌, ◌===◌, refl, sym, ◌∙◌, Bool, true, false, not, ◌&&◌, ◌||◌, Option, none, some,
  List, [], ◌∷◌, ◌++◌, any, every, leb, ltb, le→leb, lt→ltb, leb→le, ==_iff, Bool-cases, inl, inr,
  arith,
}
use mathlib.Core.Path.{subst}
use bobby_execute.EventGate.Types.{
  Event, TimeBucket, DedupeRecord, CooldownRecord, BatchRecord, GateState, state_schema_version,
}
use bobby_execute.EventGate.Results.{EventNormalization}
use bobby_execute.EventGate.Keys.{
  Platform, build_worker_event_normalization, is_lowcap, batch_window_ms, minutes_ms,
  stable_time_bucket_label, same_batch_key,
}
use bobby_execute.EventGate.Stages.{find, dedupe_outcome, cooldown_outcome}
use bobby_execute.EventGate.Routing.{
  build_batch_key, holds, is_batchable, is_pending, update_first, join_batch, first_of_batch,
  batch_outcome,
}
use bobby_execute.EventGate.Gate.{stage_order, ensure_valid_state, evaluate_worker_event_gate, run}
use bobby_execute.EventGate.Verdict.{find-cases, is_held, fails, evaluate-find}
use bobby_execute.EventGate.Invariant.{Kept, evaluate-kept}

-- the end of a bucket
abbrev bucket_end : TimeBucket → ℕ
bucket_end b = b.start_ms + minutes_ms b.minutes

-- the batch waits, and no event of its bucket comes as late as its release
abbrev waits : BatchRecord → Bool
waits r = is_pending r.status && leb (bucket_end r.key.bucket) r.release_at

and-left : (a b : Bool) → (a && b) ≡ true → a ≡ true
and-left a b h = ground arith

and-right : (a b : Bool) → (a && b) ≡ true → b ≡ true
and-right a b h = ground arith

within_bucket :
    (e : Event)
    → e.observed_at < bucket_end (stable_time_bucket_label e.observed_at (batch_window_ms e))
within_bucket e = elim (Bool-cases (is_lowcap e)) [
  | inl b ↦ rw b (omega arith)
  | inr b ↦ rw b (omega arith)
]

bucket_end-le :
    (e : Event)
    → leb
        (bucket_end (stable_time_bucket_label e.observed_at (batch_window_ms e)))
        (e.observed_at + batch_window_ms e)
      ≡ true
bucket_end-le e = elim (Bool-cases (is_lowcap e)) [
  | inl b ↦ rw b (le→leb _ _ (omega arith))
  | inr b ↦ rw b (le→leb _ _ (omega arith))
]

every_record-append :
    (test : BatchRecord → Bool) (rs : List BatchRecord) (r : BatchRecord)
    → every test (rs ++ r ∷ []) ≡ (every test rs && test r)
every_record-append test [] r = ground arith
every_record-append test (x ∷ rs) r = ground (arith, every_record-append test rs r)

-- the record that is found passes both tests
abbrev found_good : (BatchRecord → Bool) → (BatchRecord → Bool) → Option BatchRecord → Bool
found_good test p none = true
found_good test p (some r) = p r && test r

every-find :
    (test p : BatchRecord → Bool) (rs : List BatchRecord)
    → every test rs ≡ true
    → found_good test p (find p rs) ≡ true
unfolding find
every-find test p [] k = refl
every-find test p (x ∷ rs) k = elim (Bool-cases (p x)) [
  | inl b ↦ rw (b, b) (and-left (test x) (every test rs) k)
  | inr b ↦ rw b (every-find test p rs (and-right (test x) (every test rs) k))
]

-- an event that a batch takes comes before its release
holds-lt :
    (e : Event) (n : EventNormalization) (r : BatchRecord)
    → holds e n r ≡ true
    → waits r ≡ true
    → ltb e.observed_at r.release_at ≡ true
unfolding holds same_batch_key build_batch_key
holds-lt e n r h k =
    let bucket = stable_time_bucket_label e.observed_at (batch_window_ms e) in
    let starts = (==_iff r.key.bucket.start_ms bucket.start_ms).0 (ground (arith, h)) in
    let widths = (==_iff r.key.bucket.minutes bucket.minutes).0 (ground (arith, h)) in
    lt→ltb e.observed_at r.release_at (
      omega (
        arith,
        starts,
        widths,
        within_bucket e,
        leb→le (bucket_end r.key.bucket) r.release_at
            (and-right (is_pending r.status) (leb (bucket_end r.key.bucket) r.release_at) k),
      ))

update_first-every :
    (test p : BatchRecord → Bool) (f : BatchRecord → BatchRecord) (rs : List BatchRecord)
    → ((r : BatchRecord) → p r ≡ true → test r ≡ true → test (f r) ≡ true)
    → every test rs ≡ true
    → every test (update_first p f rs) ≡ true
unfolding update_first
update_first-every test p f [] g k = refl
update_first-every test p f (x ∷ rs) g k = elim (Bool-cases (p x)) [
  | inl b ↦ rw b (ground (arith, g x b (and-left (test x) (every test rs) k)))
  | inr b ↦ rw b (ground (arith, update_first-every test p f rs g))
]

leb-false : (a b : ℕ) → ltb b a ≡ true → leb a b ≡ false
leb-false a b h = ground arith

-- a batch that takes an event goes on waiting
join-waits :
    (p : Platform) (e : Event) (n : EventNormalization) (r : BatchRecord)
    → holds e n r ≡ true
    → waits r ≡ true
    → waits (join_batch p e r) ≡ true
unfolding join_batch
join-waits p e n r h k =
    rw (leb-false r.release_at e.observed_at (holds-lt e n r h k))
      (and-right (is_pending r.status) (leb (bucket_end r.key.bucket) r.release_at) k)

first-waits : (e : Event) (n : EventNormalization) → waits (first_of_batch e n) ≡ true
unfolding build_batch_key
first-waits e n = bucket_end-le e

abbrev AllWait : GateState → Type 0
AllWait s = every waits s.batch_records ≡ true

batch_outcome-AllWait :
    (p : Platform) (e : Event) (n : EventNormalization) (s : GateState) (found : Option BatchRecord)
    → AllWait s
    → AllWait (batch_outcome p e n s found).next_state
batch_outcome-AllWait p e n s (some r) k =
    update_first-every waits (holds e n) (join_batch p e) s.batch_records (join-waits p e n) k
batch_outcome-AllWait p e n s none k = elim (Bool-cases (is_batchable e)) [
  | inl b ↦ rw b (
      every_record-append waits s.batch_records (first_of_batch e n) ∙ rw (k, first-waits e n) refl)
  | inr b ↦ rw b k
]

dedupe_outcome-AllWait :
    (e : Event) (n : EventNormalization) (s : GateState) (found : Option DedupeRecord)
    → AllWait s
    → AllWait (dedupe_outcome e n s found).next_state
dedupe_outcome-AllWait e n s none k = k
dedupe_outcome-AllWait e n s (some r) k = k

cooldown_outcome-AllWait :
    (e : Event) (n : EventNormalization) (s : GateState) (found : Option CooldownRecord)
    → AllWait s
    → AllWait (cooldown_outcome e n s found).next_state
cooldown_outcome-AllWait e n s none k = k
cooldown_outcome-AllWait e n s (some r) k = k

AllWait-Kept : (p : Platform) (e : Event) (n : EventNormalization) → Kept AllWait p e n
AllWait-Kept p e n = record {
  by_dedupe = dedupe_outcome-AllWait e n;
  by_cooldown = cooldown_outcome-AllWait e n;
  by_batch = λ s k. batch_outcome-AllWait p e n s (find (holds e n) s.batch_records) k;
  by_touch = λ s k. k;
}

ensure-AllWait : (s : GateState) → AllWait s → AllWait (ensure_valid_state (some s))
ensure-AllWait s k = elim (Bool-cases (s.schema_version === state_schema_version)) [
  | inl b ↦ rw b k
  | inr b ↦ rw b refl
]

run-AllWait :
    (p : Platform) (es : List Event) (state : Option GateState)
    → AllWait (ensure_valid_state state)
    → AllWait (ensure_valid_state (run p es state))
unfolding run
run-AllWait p [] state k = k
run-AllWait p (e ∷ es) state k =
    let after = evaluate_worker_event_gate p e state in
    let n = build_worker_event_normalization p e in
    run-AllWait p es (some after.state_after)
      (ensure-AllWait after.state_after (evaluate-kept (AllWait-Kept p e n) state k))

waits-pending :
    (rs : List BatchRecord) → every waits rs ≡ true → every (λ r. is_pending r.status) rs ≡ true
waits-pending [] k = refl
waits-pending (r ∷ rs) k = ground (arith, waits-pending rs)

fails-held :
    (p : Platform) (e : Event) (n : EventNormalization) (s : GateState)
    → is_held e (find (holds e n) s.batch_records) ≡ true
    → any (fails p e n s) stage_order ≡ true
fails-held p e n s h = ground (arith, h)

or-right : (a b : Bool) → b ≡ true → (a || b) ≡ true
or-right a b h = ground (arith, h)

-- After any sequence of events from the empty state, every batch is still pending: no batch is ever
-- released. And an event for which there is a batch is blocked, at whatever time it comes.
pub run-pending :
    (p : Platform) (es : List Event) (e : Event)
    → let state = run p es none in
      let batches = (ensure_valid_state state).batch_records in
      every (λ r. is_pending r.status) batches ≡ true
      × (not (any (holds e (build_worker_event_normalization p e)) batches)
          || (evaluate_worker_event_gate p e state).blocked)
        ≡ true
run-pending p es e =
    let state = run p es none in
    let s = ensure_valid_state state in
    let n = build_worker_event_normalization p e in
    let k = run-AllWait p es none refl in
    (
      waits-pending s.batch_records k,
      elim (find-cases (holds e n) s.batch_records) [
        | inl (f, a) ↦ rw a refl
        | inr (r, f, a) ↦
            let good =
              subst (λ x. found_good waits (holds e n) x ≡ true) f
                (every-find waits (holds e n) s.batch_records k) in
            let held =
              holds-lt e n r (and-left (holds e n r) (waits r) good)
                (and-right (holds e n r) (waits r) good) in
            or-right _ _ (
              (evaluate-find p e state).0
              ∙ fails-held p e n s (subst (λ x. is_held e x ≡ true) (sym f) held))
      ],
    )
