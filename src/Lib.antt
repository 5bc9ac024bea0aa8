-- ===== src/Lib.antt =====
-- The safety core of the trading bot: a model of it, and what it promises.
--
-- The program trades tokens on Solana. A cycle of its runtime turns market data into a trade
-- intent and sends the intent to an execution engine. Before an intent goes out in live mode it must
-- pass the micro-live control, which holds the operator's switches, a live-test round and the limits
-- on trading, and which reads the emergency halt and the day's losses. Beside the cycle, two workers
-- follow candidates and cases through their states, by the evaluations of an event gate, and write a
-- journal that can be replayed.
--
-- KillSwitch models bot/src/governance/kill-switch.ts: its variables are the record `Switch`, and
-- `trigger_kill_switch`, `reset_kill_switch`, `is_kill_switch_halted`, `load_kill_switch_state`,
-- `hydrate_kill_switch_state` are its functions. The repository (a file) is a cell that a save
-- overwrites, `none` where there is none. The bridge is the view of the applied runtime configuration
-- with the queue of the writes that were started: what the bridge answers is the applied state.
-- KillSwitch/Halting is about a process without a bridge, KillSwitch/Bridged about one with it. The
-- runtime configuration's manager installs the bridge when it is initialised, and what it does with the
-- writes is in RuntimeConfig: the results that ask for no bridge are about a process in which it is not
-- initialised.
--
-- DailyLoss models bot/src/governance/daily-loss-tracker.ts (`check_limit`, `record_trade`,
-- `get_daily_loss_state`) and `getLiveTestConfig` of bot/src/config/safety.ts. A thrown error is a
-- value of `Try`, and the state that it leaves stands beside it. A call has two times, that of the
-- clock it is given and that of the system's clock, which the saving and the kill switch read.
-- DailyLoss/Limits is about a day of trades, DailyLoss/Halts about the halt and what is saved.
--
-- CircuitBreaker models bot/src/governance/circuit-breaker.ts: the map of the adapters is the list of
-- its records, and the weighted mean of two latencies is a parameter. CircuitBreaker/History is about
-- the history of an adapter's reports.
--
-- LiveControl models bot/src/runtime/live-control.ts. LiveControl/Types has its types, Config the
-- reading of the configuration (the runtime configuration's view or the environment's variables),
-- State the module's state with its repository (the record `Host`, which also holds the kill switch
-- and the day's losses) and the writes that the operations share, Snapshot the posture, the refusals
-- and the snapshot, Operator arm, disarm, kill and reset, Rounds the live-test round, Intents the
-- admission of an intent and the end of its execution, and Calls any operation as a call; the other
-- files of the folder are about what these do. An
-- operation takes an `Env`: the clock, the variables and the view that it meets. One operation reads
-- the clock once, where the source may read it twice in a row.
--
-- EventGate models bot/src/runtime/worker-event-gate (engine.ts and contracts.ts): the eight stages
-- that an event passes in order until one of them blocks it, and the records of duplicates, cooldowns
-- and batches that they keep. EventGate/Types and Results have the data, Keys the windows, classes and
-- keys, Checks the conditions and the routing, StageResults the results that a stage builds, Stages and
-- Routing the stages, and Gate the loop over them and the evaluation; the other files of the folder
-- are about what it decides, what it keeps and what the worker state machines read of it.
--
-- Engine models bot/src/core/engine.ts with the authority that runs the stages of a decision
-- (bot/src/core/decision/decision-coordinator.ts) and the gate on the data of a cycle
-- (bot/src/core/decision/ingest-provenance.ts). Engine/Types has the data, Coordinator the loop over the
-- stages, Ingest the gate, Stages the handlers of the stages, and Cycle `Engine.run`, with the last entry
-- of the journal and what an error does. The handlers that a cycle is given (the data, the signal, the
-- risk, the chaos gate, the execution, the verification) are the record `Handlers`, whose calls answer or
-- throw; a `World` is what a cycle changes, with the intents that it has handed to the execution.
--
-- RuntimeConfig models bot/src/runtime/runtime-config-manager.ts with the schemas and the patch of
-- bot/src/config/runtime-config-schema.ts and the repository in memory of
-- bot/src/persistence/runtime-config-repository.ts. RuntimeConfig/Types, Behavior and Records have the
-- data, the schemas and the patch, Views what the manager shows (its `build_control_view` is the view
-- that LiveControl reads), Queue the queue of the mutations, Boundary the cycles of the runtime, Overlay,
-- Patch and Cycle the mutations, Restore and Refresh the way back from the repository, and Calls any
-- operation as a call. A `Manager` holds its repository, and an operation takes an `Env`: the clock,
-- the id of a new version, the hash, and which calls of the repository throw, with what message. The
-- mutations run one at a time. The `meanwhile` of an operation's faults lists the cycles that begin or
-- end while a mutation waits for the repository; all of them stand between its write of the active
-- record and its entry of the change log, which they do not read. A cycle's end is one step, and no
-- refresh comes while a mutation waits. The seed that is built from the variables of the environment is a parameter.
--
-- WorkerState models bot/src/runtime/worker-state-machines.ts. WorkerState/Types has its types and
-- the part of an event gate's evaluation that it reads, LowCap and Shadow the two machines (`judge`
-- is the decision of a transition, before it is hashed), Journal the journal's entries and their
-- parsing, Reconstruct the replay. Hashing is a parameter, a function from what is hashed to a text.
--
-- Base has the names that the modules share, Boolean tests on the native numbers, the array methods
-- and `??`, and Base/Text the text functions of the language that the source calls.
--
-- Conventions. A time is a number of milliseconds since the epoch, also where the source keeps an ISO
-- text, and the key of a day is the number of the UTC day. An amount is a number of billionths;
-- digits further down are dropped, and doubles are not rounded. Texts are ASCII. A message is the
-- list of the parts of its template. A module's variables are a record that each function takes and
-- returns. No definition needs fuel: every loop runs over a list or a text.
--
-- Not modelled: the deprecated orchestrator, the execution engine, the adapters (RPC, DEX, market data,
-- signer), the other governance modules, the restart and alert services, the server's routes,
-- the persistence in files and Postgres beyond the cells above, the scoring of signals and the
-- dashboard. They are either input and output, or parts that stand
-- beside the safety core and can be modelled next to it.
pub mod Base
pub mod KillSwitch
pub mod DailyLoss
pub mod CircuitBreaker
pub mod LiveControl
pub mod EventGate
pub mod RuntimeConfig
pub mod Engine
pub mod WorkerState
