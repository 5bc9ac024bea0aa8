-- ===== src/Engine/Journaled.antt =====
-- What holds after a call that the engine makes of its journal, and of a value that may be missing.
use bobby_execute.Base.{◌≡◌, refl, String, Bool, true, false, Option, none, some, List}
use bobby_execute.Engine.Types.{Thrown, World, EngineConfig, Handlers, JournalEntry}
use bobby_execute.Engine.Coordinator.{Call, and_then}
use bobby_execute.Engine.Stages.{need, append_on, journal_on, append_critical_journal}
use bobby_execute.Engine.Cycle.{append_last}
use bobby_execute.Engine.Rules.{Post}

-- A predicate that the journal has no part in.
module _ (P E : World → Type 0) (weaken : (w : World) → P w → E w)
    (free : (w : World) (j : List JournalEntry) (entry : Option JournalEntry)
      → P w
      → P (record w { journal = j; state = record w.state { journal_entry = entry } })) where
  pub append_on-rule :
      (fault : Option Thrown) (entry : JournalEntry) (w : World)
      → P w
      → Post (λ _ w'. P w') E (append_on fault entry w)
  append_on-rule (some e) entry w p = weaken w p
  append_on-rule none entry w p = free w _ _ p

  pub journal_on-rule :
      (writer : Option (String → Option Thrown)) (mandatory : Bool) (entry : JournalEntry)
      (w : World)
      → P w
      → Post (λ _ w'. P w') E (journal_on writer mandatory entry w)
  journal_on-rule (some writer) mandatory entry w p = append_on-rule (writer entry.stage) entry w p
  journal_on-rule none true entry w p = weaken w p
  journal_on-rule none false entry w p = p

  pub journal-rule :
      (c : EngineConfig) (h : Handlers) (stage : String) (blocked : Bool) (reason : Option String)
      (w : World)
      → P w
      → Post (λ _ w'. P w') E (append_critical_journal c h stage blocked reason w)
  unfolding append_critical_journal
  journal-rule c h stage blocked reason w p =
      journal_on-rule c.journal_writer c.is_journal_mandatory _ w p

  pub append_last-rule :
      (writer : Option (String → Option Thrown)) (entry : JournalEntry) (w : World)
      → P w
      → Post (λ _ w'. P w') E (append_last writer entry w)
  append_last-rule none entry w p = p
  append_last-rule (some writer) entry w p = append_on-rule (writer entry.stage) entry w p

pub need-rule :
    {A B : Type 0} (R : B → World → Type 0) (E : World → Type 0) (w : World) (message : String)
    (o : Option A) (f : A → World → Call World B)
    → E w
    → ((a : A) → o ≡ some a → Post R E (f a w))
    → Post R E (and_then (w, need message o) f)
need-rule R E w message (some a) f e k = k a refl
need-rule R E w message none f e k = e
