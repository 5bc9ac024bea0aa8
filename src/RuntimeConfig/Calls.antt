-- ===== src/RuntimeConfig/Calls.antt =====
-- The operations of the runtime configuration's manager as calls, and sequences of them.
use bobby_execute.Base.{String, Bool, Option, List, [], ◌∷◌}
use bobby_execute.KillSwitch.{KillSwitchState}
use bobby_execute.RuntimeConfig.Types.{RuntimeMode, PauseScope, RuntimeBehaviorPatch}
use bobby_execute.RuntimeConfig.Records.{Manager, Env}
use bobby_execute.RuntimeConfig.Queue.{MutationResult}
use bobby_execute.RuntimeConfig.Overlay.{set_pause, resume_runtime, apply_kill_switch_snapshot}
use bobby_execute.RuntimeConfig.Patch.{apply_behavior_patch, set_mode}
use bobby_execute.RuntimeConfig.Cycle.{reload_config, confirm_restart_applied}
use bobby_execute.RuntimeConfig.Boundary.{begin_cycle, end_cycle}
use bobby_execute.RuntimeConfig.Refresh.{refresh}

-- The mutations that an operator, or the kill switch's bridge, can queue. The acknowledgement of a
-- restart is the worker's.
pub data Command : Type 0 where
  patches : RuntimeBehaviorPatch → Bool → Command
  sets_mode : RuntimeMode → Command
  pauses : PauseScope → Command
  resumes reloads : Command
  switches : KillSwitchState → Command

pub record Sender : Type 0 where
  pub actor : String
  pub reason : Option String
  pub env : Env

unfoldable pub command : Command → Sender → Manager → Manager
command (patches patch allow) s m = (apply_behavior_patch patch s.actor s.reason s.env allow m).0
command (sets_mode mode) s m = (set_mode mode s.actor s.reason s.env m).0
command (pauses scope) s m = (set_pause scope s.actor s.reason s.env m).0
command resumes s m = (resume_runtime s.actor s.reason s.env m).0
command reloads s m = (reload_config s.actor s.reason s.env m).0
command (switches next) s m = (apply_kill_switch_snapshot next s.actor s.reason s.env m).0

-- what the sender of a command is told
unfoldable pub answer : Command → Sender → Manager → MutationResult
answer (patches patch allow) s m = (apply_behavior_patch patch s.actor s.reason s.env allow m).1
answer (sets_mode mode) s m = (set_mode mode s.actor s.reason s.env m).1
answer (pauses scope) s m = (set_pause scope s.actor s.reason s.env m).1
answer resumes s m = (resume_runtime s.actor s.reason s.env m).1
answer reloads s m = (reload_config s.actor s.reason s.env m).1
answer (switches next) s m = (apply_kill_switch_snapshot next s.actor s.reason s.env m).1

pub record Sent : Type 0 where
  pub command : Command
  pub sender : Sender

unfoldable pub commands : List Sent → Manager → Manager
commands [] m = m
commands (c ∷ cs) m = commands cs (command c.command c.sender m)

-- the answers to the commands, each run after the one before it
unfoldable pub answers : List Sent → Manager → List MutationResult
answers [] m = []
answers (c ∷ cs) m = answer c.command c.sender m ∷ answers cs (command c.command c.sender m)

-- everything that happens to a manager
pub data Call : Type 0 where
  sends : Command → Call
  acknowledges begins ends refreshes : Call

unfoldable pub perform : Call → Sender → Manager → Manager
perform (sends c) s m = command c s m
perform acknowledges s m = (confirm_restart_applied s.env m).0
perform begins s m = begin_cycle m
perform ends s m = end_cycle s.env m
perform refreshes s m = (refresh s.env m).0

pub record Performed : Type 0 where
  pub call : Call
  pub sender : Sender

unfoldable pub perform_all : List Performed → Manager → Manager
perform_all [] m = m
perform_all (c ∷ cs) m = perform_all cs (perform c.call c.sender m)
