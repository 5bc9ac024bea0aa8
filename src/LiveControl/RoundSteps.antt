-- ===== src/LiveControl/RoundSteps.antt =====
-- The diagram of the live-test round, and the operations of the round in it.
use bobby_execute.Base.{
  ℕ, String, ◌≡◌, ◌≢◌, refl, Bool, true, false, not, ◌&&◌, Option, if◌then◌else◌, arith,
}
use bobby_execute.LiveControl.Types.{
  LiveTestRoundStatus, idle, preflighted, running, stopped, completed, failed, ControlState,
  MicroLiveCaps, Message,
}
use bobby_execute.LiveControl.Config.{Env}
use bobby_execute.LiveControl.State.{
  Host, cleaned, cleanup_counters, mark_round_transition, transition, is_terminal_round_status,
}
use bobby_execute.LiveControl.Snapshot.{respond}
use bobby_execute.LiveControl.Operator.{refuse_round_transition, is_idle}
use bobby_execute.LiveControl.Rounds.{preflight_in, start_in, stop_in, complete_in, reset_in}

-- An idle round cannot fail, a running one cannot be preflighted, and a failed one not completed.
infix 40 ◌⟶◌
pub data ◌⟶◌ : LiveTestRoundStatus → LiveTestRoundStatus → Type 0 where
  stay : {s : LiveTestRoundStatus} → s ⟶ s
  ready : {s : LiveTestRoundStatus} → s ≢ running → s ⟶ preflighted
  begin : idle ⟶ running
  launch : preflighted ⟶ running
  halt : {s : LiveTestRoundStatus} → s ⟶ stopped
  finish : {s : LiveTestRoundStatus} → s ≢ failed → s ⟶ completed
  break : {s : LiveTestRoundStatus} → s ≢ idle → s ⟶ failed

unfoldable pub status : Host → LiveTestRoundStatus
status h = h.control.round_status

pub cleanup-status :
    (now : ℕ) (caps : MicroLiveCaps) (h : Host) → status (cleanup_counters now caps h) ≡ status h
unfolding status cleanup_counters cleaned
cleanup-status now caps h = ground arith

respond-status :
    (env : Env) (b : Bool) (m : Message) (h : Host) → status (respond env b m h).0 ≡ status h
unfolding respond
respond-status env b m h = cleanup-status env.now_ms _ h

transition-status :
    (s : LiveTestRoundStatus) (now : ℕ) (detail : Option Message) (c : ControlState)
    → (transition s now detail c).round_status ≡ c.round_status
unfolding transition
transition-status idle now detail c = refl
transition-status _ now detail c = refl

mark-status :
    (s : LiveTestRoundStatus) (actor : String) (now : ℕ) (detail : Option Message) (h : Host)
    → status (mark_round_transition s actor now detail h) ≡ s
unfolding status mark_round_transition
mark-status s actor now detail h = transition-status s now detail _

-- The round of `h` is one step from `s`.
abbrev pub Goes : LiveTestRoundStatus → Host → Type 0
Goes s h = s ⟶ status h

pub respond-Goes :
    (s : LiveTestRoundStatus) (env : Env) (b : Bool) (m : Message) (h : Host)
    → Goes s h
    → Goes s (respond env b m h).0
respond-Goes s env b m h g = rw (respond-status env b m h) g

pub mark-Goes :
    (s t : LiveTestRoundStatus) (actor : String) (now : ℕ) (detail : Option Message) (h : Host)
    → s ⟶ t
    → Goes s (mark_round_transition t actor now detail h)
mark-Goes s t actor now detail h g = rw (mark-status t actor now detail h) g

pub if-Goes {ℓ} :
    {A : Type ℓ} (s : LiveTestRoundStatus) (b : Bool) (x y : Host × A)
    → (b ≡ true → Goes s x.0)
    → (b ≡ false → Goes s y.0)
    → Goes s (if b then x else y).0
if-Goes s true x y p q = p refl
if-Goes s false x y p q = q refl

pub terminal_not_idle :
    (b : Bool) (s : LiveTestRoundStatus) → (b && is_terminal_round_status s) ≡ true → s ≢ idle
terminal_not_idle b s e f = ground arith

pub unfinished_not-idle :
    (b : Bool) (s : LiveTestRoundStatus)
    → (b && not (is_terminal_round_status s) && not (is_idle s)) ≡ true
    → s ≢ idle
unfinished_not-idle b s e f = ground arith

pub finished_not_running :
    (b : Bool) (s : LiveTestRoundStatus)
    → b ≡ true
    → (b && not (is_terminal_round_status s) && not (is_idle s)) ≡ false
    → s ≢ running
finished_not_running b s t e f = ground arith

pub refuse_round-Goes :
    (s next : LiveTestRoundStatus) (actor : String) (detail : Message) (env : Env) (h : Host)
    → s ≢ idle
    → Goes s (refuse_round_transition next actor detail env h).0
unfolding refuse_round_transition
refuse_round-Goes s next actor detail env h n =
    respond-Goes s env _ _ _ (mark-Goes s failed actor _ _ h (break n))

pub ruleset moves = (respond-Goes, mark-Goes, refuse_round-Goes, stay, halt)

pub preflight-Goes :
    (s : LiveTestRoundStatus) (actor : String) (env : Env) (h : Host)
    → s ≡ status h
    → Goes s (preflight_in s actor env h).0
unfolding preflight_in
preflight-Goes running actor env h e = refuse_round-Goes running _ actor _ env h (λ e. cc)
preflight-Goes preflighted actor env h e = respond-Goes _ env _ _ h (rw (← e) stay)
preflight-Goes _ actor env h e =
    respond-Goes _ env _ _ _ (mark-Goes _ _ actor _ _ h (ready (λ e. cc)))

pub start-Goes :
    (s : LiveTestRoundStatus) (actor : String) (env : Env) (h : Host)
    → s ≡ status h
    → Goes s (start_in s actor env h).0
unfolding start_in
start-Goes idle actor env h e = respond-Goes _ env _ _ _ (mark-Goes _ _ actor _ _ _ begin)
start-Goes running actor env h e = respond-Goes _ env _ _ h (rw (← e) stay)
start-Goes preflighted actor env h e = respond-Goes _ env _ _ _ (mark-Goes _ _ actor _ _ _ launch)
start-Goes _ actor env h e = refuse_round-Goes _ _ actor _ env h (λ e. cc)

pub stop-Goes :
    (s : LiveTestRoundStatus) (reason actor : String) (env : Env) (h : Host)
    → s ≡ status h
    → Goes s (stop_in s reason actor env h).0
unfolding stop_in status
stop-Goes stopped reason actor env h e = respond-Goes _ env _ _ h (rw (← e) stay)
stop-Goes completed reason actor env h e = refuse_round-Goes _ _ actor _ env h (λ e. cc)
stop-Goes failed reason actor env h e = refuse_round-Goes _ _ actor _ env h (λ e. cc)
stop-Goes s reason actor env h e = search (respond-Goes, mark-Goes, halt)

pub complete-Goes :
    (s : LiveTestRoundStatus) (reason actor : String) (env : Env) (h : Host)
    → s ≡ status h
    → Goes s (complete_in s reason actor env h).0
unfolding complete_in
complete-Goes completed reason actor env h e = respond-Goes _ env _ _ h (rw (← e) stay)
complete-Goes failed reason actor env h e = refuse_round-Goes _ _ actor _ env h (λ e. cc)
complete-Goes s reason actor env h e =
    respond-Goes _ env _ _ _ (mark-Goes _ _ actor _ _ h (finish (λ e. cc)))

pub reset-Goes :
    (s : LiveTestRoundStatus) (actor : String) (env : Env) (h : Host)
    → s ≡ status h
    → Goes s (reset_in s actor env h).0
unfolding reset_in status
reset-Goes running actor env h e = refuse_round-Goes _ _ actor _ env h (λ e. cc)
reset-Goes preflighted actor env h e = respond-Goes _ env _ _ h (rw (← e) stay)
reset-Goes idle actor env h e = respond-Goes _ env _ _ h (rw (← e) stay)
reset-Goes s actor env h e =
    let n : s ≢ running = λ e. cc in search (respond-Goes, mark-Goes, ready, n)
