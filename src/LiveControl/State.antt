-- ===== src/LiveControl/State.antt =====
-- The module's mutable state, its repository (a cell, as in KillSwitch), and the writes that the
-- operations of live-control.ts share.
use bobby_execute.Base.{
  ℕ, ◌+◌, String, Bool, true, false, not, ◌||◌, Option, none, some, [], keep, length, leb, ◌==◌,
  if◌then◌else◌, ◌or_else◌, ◌otherwise◌,
}
use bobby_execute.KillSwitch.{Switch}
use bobby_execute.DailyLoss.{DailyLossState}
use bobby_execute.LiveControl.Types.{
  ControlState, LiveTestRoundStatus, idle, preflighted, running, stopped, completed, failed,
  LiveControlReasonCode, micro_live_disarmed, micro_live_killed, micro_live_config_invalid,
  MicroLiveCaps, Message, say, to_day_key,
}

pub record Host : Type 0 where
  pub control : ControlState
  pub repository : Option (Option ControlState)
  pub kill_switch : Switch
  pub daily_loss : DailyLossState

-- the state of a process that starts at this time
abbrev pub initial_state : ℕ → ControlState
initial_state now_ms = record {
  armed = false;
  blocked = false;
  degraded = false;
  manual_rearm_required = false;
  round_status = idle;
  round_started_at = none;
  round_stopped_at = none;
  round_completed_at = none;
  stop_reason = none;
  failure_reason = none;
  last_transition_at = none;
  last_transition_by = none;
  reason_code = none;
  reason_detail = none;
  last_reason_at = none;
  last_operator_action = none;
  last_operator_action_at = none;
  last_guardrail_refusal = none;
  in_flight = 0;
  recent_trade_at_ms = [];
  recent_failure_at_ms = [];
  daily_notional = 0;
  daily_key = to_day_key now_ms;
  last_execution_at_ms = none;
}

abbrev pub store : ControlState → Option (Option ControlState) → Option (Option ControlState)
store s none = none
store s (some _) = some (some s)

abbrev pub persist_live_control_state : Host → Host
persist_live_control_state h = record h { repository = store h.control h.repository }

abbrev load_from : Option (Option ControlState) → ControlState → ControlState
load_from none s = s
load_from (some none) s = s
load_from (some (some loaded)) s = loaded

-- `loadLiveControlState()`, with `hydrateLiveControlState`, which copies every field
unfoldable pub load_live_control_state : Host → Host
load_live_control_state h = record h { control = load_from h.repository h.control }

-- A write to the state, without persisting it.
abbrev pub change : (ControlState → ControlState) → Host → Host
change f h = record h { control = f h.control }

abbrev pub is_terminal_round_status : LiveTestRoundStatus → Bool
is_terminal_round_status stopped = true
is_terminal_round_status completed = true
is_terminal_round_status failed = true
is_terminal_round_status _ = false

-- the three writes of `setReason`
abbrev pub with_reason : LiveControlReasonCode → Option Message → ℕ → ControlState → ControlState
with_reason code detail now s = record s {
  reason_code = some code;
  reason_detail = detail;
  last_reason_at = some now;
}

abbrev pub set_reason : LiveControlReasonCode → Option Message → ℕ → Host → Host
set_reason code detail now h = persist_live_control_state (change (with_reason code detail now) h)

abbrev clear_round_terminal_fields : ControlState → ControlState
clear_round_terminal_fields s = record s {
  round_started_at = none;
  round_stopped_at = none;
  round_completed_at = none;
  stop_reason = none;
  failure_reason = none;
}

-- what `markRoundTransition` writes, by the next status; the last case is its fall-through
unfoldable pub transition : LiveTestRoundStatus → ℕ → Option Message → ControlState → ControlState
transition preflighted now detail s =
    with_reason micro_live_disarmed (some (detail otherwise say "Live-test round preflighted.")) now
      (record (clear_round_terminal_fields s) {
        blocked = false;
        degraded = false;
        manual_rearm_required = false;
        armed = false;
      })
transition running now detail s = record s {
  round_started_at = s.round_started_at or_else some now;
  blocked = false;
  degraded = false;
  manual_rearm_required = false;
  reason_code = none;
  reason_detail = none;
  last_reason_at = none;
}
transition stopped now detail s =
    with_reason micro_live_killed (some (detail otherwise say "Live-test round stopped.")) now
      (record s {
        round_stopped_at = some now;
        stop_reason = detail;
        armed = false;
        blocked = true;
        manual_rearm_required = true;
        degraded = true;
      })
transition completed now detail s =
    with_reason micro_live_disarmed (some (detail otherwise say "Live-test round completed.")) now
      (record s {
        round_completed_at = some now;
        stop_reason = detail;
        armed = false;
        blocked = true;
        manual_rearm_required = false;
        degraded = false;
      })
transition _ now detail s =
    with_reason micro_live_config_invalid (some (detail otherwise say "Live-test round failed."))
      now
      (record s {
        failure_reason = detail;
        round_stopped_at = none;
        round_completed_at = none;
        armed = false;
        blocked = true;
        degraded = true;
        manual_rearm_required = true;
      })

unfoldable pub mark_round_transition :
    LiveTestRoundStatus → String → ℕ → Option Message → Host → Host
mark_round_transition next actor now detail h = persist_live_control_state (
    change
      (λ s. transition next now detail (record s {
        round_status = next;
        last_transition_at = some now;
        last_transition_by = some actor;
      }))
      h)

-- `nowMs - timestamp <= span`, where the difference may be negative
abbrev pub within : ℕ → ℕ → ℕ → Bool
within now span timestamp = leb now (timestamp + span)

abbrev pub new_day : ℕ → ControlState → ControlState
new_day now s = if s.daily_key == to_day_key now then s else record s {
  daily_key = to_day_key now;
  daily_notional = 0;
  recent_trade_at_ms = [];
  recent_failure_at_ms = [];
}

abbrev pub in_windows : ℕ → MicroLiveCaps → ControlState → ControlState
in_windows now caps s = record s {
  recent_trade_at_ms = keep (within now caps.window_ms) s.recent_trade_at_ms;
  recent_failure_at_ms = keep (within now caps.failure_window_ms) s.recent_failure_at_ms;
}

-- what `cleanupCounters` leaves
unfoldable pub cleaned : ℕ → MicroLiveCaps → ControlState → ControlState
cleaned now caps s = in_windows now caps (new_day now s)

-- its flag `changed`
unfoldable pub counters_changed : ℕ → MicroLiveCaps → ControlState → Bool
counters_changed now caps s =
    not (s.daily_key == to_day_key now)
    || not (
        length (keep (within now caps.window_ms) (new_day now s).recent_trade_at_ms)
        == length (new_day now s).recent_trade_at_ms)
    || not (
        length (keep (within now caps.failure_window_ms) (new_day now s).recent_failure_at_ms)
        == length (new_day now s).recent_failure_at_ms)

unfoldable pub cleanup_counters : ℕ → MicroLiveCaps → Host → Host
cleanup_counters now caps h =
    let h' = change (cleaned now caps) h in
    if counters_changed now caps h.control then persist_live_control_state h' else h'
