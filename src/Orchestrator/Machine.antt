-- ===== src/Orchestrator/Machine.antt =====
-- go-agent/orchestrator/orchestrator.go: the handlers of the state machine and how they are wired
-- to the event bus. A call of `UpdateQValue` is a result of the handler that makes it; the store's
-- side is SkillStore. An event without data, or none at all, is `none`.
pub mod Handlers
pub mod Schedule
mod Tests
use text.Mathlib.Text.{◌==◌ as str_eq}
use beryl7_ai_agent.Base.{
  ℕ, String, Bool, true, false, Option, none, some, List, [], ◌∷◌, ◌++◌, ◌&&◌, ◌||◌, not, ltb,
  if◌then◌else◌,
}
use beryl7_ai_agent.Base.Text.{Text, codes, contains}
use beryl7_ai_agent.Orchestrator.EventBus.{
  Value, str, bool, other, Dict, Heap, Event, EventBus, new_event_bus, subscribe, clear_subscribers,
}
use beryl7_ai_agent.Orchestrator.WriterQueue.{DbWriterQueue}
use beryl7_ai_agent.Orchestrator.WriterQueue

pub data OrchestrationState : Type 0 where
  idle monitoring analyzing approving executing verifying safe_mode : OrchestrationState

-- The rewards that the handlers give: 1.0 and -0.5.
pub data Reward : Type 0 where
  success penalty : Reward

-- A call `UpdateQValue(state, action, reward)`.
pub record QUpdate : Type 0 where
  pub q_state : String
  pub q_action : String
  pub reward : Reward

pub record Orchestrator : Type 0 where
  pub state : OrchestrationState
  -- `o.skillStore != nil`
  pub has_store : Bool

pub data Handler : Type 0 where
  anomaly_detected action_recommended action_approved action_executed : Handler
  verification_passed verification_failed safe_mode_triggered : Handler

abbrev pub lookup : String → Dict → Option Value
lookup k [] = none
lookup k ((j, v) ∷ d) = if str_eq j k then some v else lookup k d

-- `s, _ := v.(string)`
abbrev pub as_string : Option Value → String
as_string (some (str s)) = s
as_string _ = ""

-- `b, ok := v.(bool); ok && b`
abbrev pub is_true : Option Value → Bool
is_true (some (bool b)) = b
is_true _ = false

abbrev pub transition_to : OrchestrationState → Orchestrator → Orchestrator
transition_to s o = record o { state = s }

-- The update that both verification handlers make, if the data names a state and an action.
pub q_update : Bool → Reward → Dict → List QUpdate
q_update has_store r d =
    let s = as_string (lookup "state" d) in
    let a = as_string (lookup "action" d) in
    if has_store && (not (str_eq s "") && not (str_eq a ""))
    then record { q_state = s; q_action = a; reward = r } ∷ []
    else []

pub handle_verification_passed : Option Dict → Orchestrator → Orchestrator × List QUpdate
unfolding q_update
handle_verification_passed none o = (transition_to idle o, [])
handle_verification_passed (some d) o = (transition_to idle o, q_update o.has_store success d)

pub handle_verification_failed : Option Dict → Orchestrator → Orchestrator × List QUpdate
unfolding q_update
handle_verification_failed none o = (transition_to idle o, [])
handle_verification_failed (some d) o = (
  if is_true (lookup "safe_mode" d) then transition_to safe_mode o else transition_to idle o,
  q_update o.has_store penalty d,
)

pub handle : Handler → Option Dict → Orchestrator → Orchestrator × List QUpdate
unfolding handle_verification_passed handle_verification_failed
handle anomaly_detected d o = (transition_to analyzing o, [])
handle action_recommended d o = (transition_to approving o, [])
handle action_approved d o = (transition_to executing o, [])
handle action_executed d o = (transition_to verifying o, [])
handle verification_passed d o = handle_verification_passed d o
handle verification_failed d o = handle_verification_failed d o
handle safe_mode_triggered d o = (transition_to safe_mode o, [])

-- The subscriptions that `NewOrchestrator` makes on the bus that it is given.
pub wire : EventBus Handler → EventBus Handler
wire eb = subscribe "safe_mode_triggered" safe_mode_triggered (
    subscribe "verification_failed" verification_failed (
      subscribe "verification_passed" verification_passed (
        subscribe "action_executed" action_executed (
          subscribe "action_approved" action_approved (
            subscribe "action_recommended" action_recommended
              (subscribe "anomaly_detected" anomaly_detected eb))))))

abbrev bus_or_new : Option (EventBus Handler) → EventBus Handler
bus_or_new none = new_event_bus
bus_or_new (some eb) = eb

abbrev queue_or_new : Option DbWriterQueue → DbWriterQueue
queue_or_new none = WriterQueue.new_queue 128
queue_or_new (some q) = q

-- `NewOrchestrator`, with `none` for a nil bus or queue: the orchestrator, its bus and its queue.
pub new_orchestrator :
    Bool
    → Option (EventBus Handler)
    → Option DbWriterQueue
    → Orchestrator × EventBus Handler × DbWriterQueue
unfolding wire
new_orchestrator has_store eb q =
    (record { state = idle; has_store = has_store }, wire (bus_or_new eb), queue_or_new q)

-- `Stop` of the orchestrator up to the wait for the writer; `none` is a panic of the queue.
abbrev stopped_with :
    EventBus Handler → Option DbWriterQueue → Option (EventBus Handler × DbWriterQueue)
stopped_with eb none = none
stopped_with eb (some q) = some (clear_subscribers eb, q)

pub stop : EventBus Handler → DbWriterQueue → Option (EventBus Handler × DbWriterQueue)
stop eb q = stopped_with eb (WriterQueue.stop q)

abbrev is_disruptive : Text → Bool
is_disruptive name =
    contains name (codes "restart")
    || contains name (codes "revert")
    || contains name (codes "bandwidth")
    || contains name (codes "channel")
    || contains name (codes "power")
    || contains name (codes "failover")
    || contains name (codes "align")

-- `CalculateContextFrictionPenalty`: 3.0 or 1.0. The clients are those that the collector reports,
-- whether they are idle and how many; `none` where there is no collector.
pub context_friction_penalty : Option (Bool × ℕ) → Text → ℕ
context_friction_penalty none name = 1
context_friction_penalty (some (is_idle, clients)) name =
    if not is_idle && (ltb 0 clients && is_disruptive name) then 3 else 1
