-- ===== src/Lib.antt =====
-- The Beryl 7 AI agent (go-agent/): the Go program that watches an OpenWrt router and repairs it.
--
-- The parts, and how they interact. The orchestrator (go-agent/orchestrator) owns an event bus and a
-- queue that one worker drains into the store. Events name what the agent sees, recommends, runs and
-- verifies; the handlers of the orchestrator move its state machine and give rewards to the store.
-- A recommended action goes to the executor (go-agent/executor), which runs the programs of the router
-- if the action is in its whitelist. The watchdog (go-agent/watchdog) keeps a checkpoint of the settings
-- on disk, rolls back to it, and holds the agent in safe mode until enough health checks have passed.
-- Requests to the model in the cloud go through a circuit breaker (go-agent/ai). Anomalies come from the
-- lines of the log (go-agent/parser) and from thresholds that the intents of the owner override
-- (go-agent/config); the operator sends commands and gets alerts by chat (go-agent/notifier).
--
-- The files, by what they model:
--   Ai.Breaker: go-agent/ai/circuit_breaker.go. `admit` and `settle` are the two critical sections of
--     `Call`; a run is a list of such sections, so that calls interleave.
--   Ai.Client: go-agent/ai/ai_client.go. The budget and the token bucket of the client, Redact and Extract
--     for its texts, Fetch for the request loop with what it does over HTTP, Analyze for the whole call.
--     The network, the context and the JSON decoder answer through a `Web`, a parameter.
--   Orchestrator.WriterQueue: go-agent/orchestrator/writer_queue.go. A bounded channel with its closed
--     flag; `none` is a panic of a send or a close. A run is a list of Enqueue, Stop and worker rounds.
--   Orchestrator.EventBus: go-agent/orchestrator/event_bus.go. Data maps lie on a heap, so that sharing
--     shows; RingBuffer has the ring for entries of any type. The goroutines that a publication starts
--     are part of its result.
--   Orchestrator.Machine: go-agent/orchestrator/orchestrator.go. The handlers, their wiring and Stop.
--   SkillStore: go-agent/skillstore/store.go. The tables of the database are lists of rows, a
--     statement is an operation on them, and whether the database carries it out is a parameter.
--     Skills has the skills, QTable the values of actions, Signatures the nearest state, Recommend
--     the recommendation, History the telemetry.
--   Config.Intents: go-agent/config/intents.go. The windows of the day in which an intent overrides the
--     thresholds of the anomalies, and the thresholds in effect; Window and Positive have the proofs.
--   LogParser: go-agent/parser/parser.go. The lines of the log, sanitized and classified; Pattern matches
--     the regular expressions, Sanitize and RateLimit have the proofs.
--   Notifier: go-agent/notifier/telegram.go. The commands of the operator, and in Alert an alert that
--     is sent again until a deadline; Authority, Cooldown and Alert.Deadline have the proofs. The updates,
--     the change to lower case and the command's execution are parameters.
--   Config.Settings, Config.EnvFile and Config.Load: go-agent/config/config.go. The settings with their
--     defaults, `parseEnvFile` and `LoadConfigWithFlags`: the file, the environment and the files of keys.
--     A case of a switch is an entry of a list of setters; Given, Ranges and Tokens have the proofs.
--   Logger: go-agent/logger/logger.go. Numbered files, the rotation and the writing of lines, with
--     what the system answers to a removal, a rename and the opening of the log; Rotation and Sizes
--     have the proofs.
--   Telemetry: go-agent/telemetry/telemetry.go. Collect has `CollectMetrics` of what was read, Traffic its
--     classes of traffic, Shaper the rates of the shaper and the mean of the latency, Clients what the
--     executor is told of clients and the uplink, Radios what the main loop reads of the radios,
--     Wan the state of the WAN, Proc the counters and the clients of /proc/net.
--   Healing: go-agent/cmd/main.go, the main loop. What the parts around it answer during one tick is a
--     `Tick`, its state a `Healer`. Detect finds anomalies, Decide heals one by a skill, a proposal of the
--     cloud or the recommended action, Outcome tells the store, Loop has the tick and runs of events; the
--     store, the AI client, the executor, the log parser and the watchdog are the ones modelled here.
--     Loop.Keeps and Loop.Steps show what every step keeps, Loop.Spacing, Loop.Quiet, Loop.Programs,
--     Licence, Cloud, Restart and DryRun have the proofs.
--   Server: go-agent/cmd/main.go. Ip reads addresses, Access has `isLocalhostRequest` and
--     `validateTokenRole`, Limits the counters of requests, Endpoints the handlers that change something.
--     A handler is a function of the server's state; a chain of guards is a chain of such functions.
--     Roles, Strangers and Approvals have the proofs, Keeps what all handlers keep.
--   Watchdog: go-agent/watchdog/watchdog.go. The checkpoint file is one cell; the digest and the answers
--     of the system are parameters.
--   Executor: go-agent/executor/executor.go. An action is a function of the trace of what was done
--     before, in a world that answers for every command, file and wait. Effects has the calls, Request
--     the parameters and their tests, Wifi, Network and Tuning the twenty actions, Dispatch the
--     whitelist and `ExecuteAction`, Programs a predicate on what an action runs, with one rule for each
--     part of an action.
--   Base has the names, the lists over native numbers, integers, texts and floats that the parts share.
--
-- Floats are values of an interface, `Base.Float`, with the laws of the order that the proofs use; they
-- hold of IEEE 754 numbers. `Base.Fixed` is an instance with four decimals, for the examples.
--
-- Conventions. Times are numbers of nanoseconds, and a time that is read is an argument. Counters of the
-- program are numbers without a bound where it only adds one to them. Logging is left out. A
-- loop is over a list, or over a number that falls; only the alerts of the notifier are sent on fuel, one
-- attempt for each five seconds of the wait and one more.
--
-- Not modelled: HTTP, SQLite itself, the files that the store and the update of the firmware keep,
-- what the collector reads from programs and from files outside /proc/net, the redaction of the log,
-- the start and the end of the process, and the programs outside go-agent.
mod Base
pub mod Ai
pub mod Orchestrator
pub mod Watchdog
pub mod Executor
pub mod Healing
pub mod Telemetry
pub mod SkillStore
pub mod Config
pub mod LogParser
pub mod Notifier
pub mod Logger
pub mod Server
