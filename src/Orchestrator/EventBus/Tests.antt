-- ===== src/Orchestrator/EventBus/Tests.antt =====
-- Runs of the bus of event_bus.go.
use beryl7_ai_agent.Base.{ℕ, ◌≡◌, refl, true, some, [], ◌∷◌, map, Option, arith}
use beryl7_ai_agent.Orchestrator.EventBus.RingBuffer.{recent_slots}
use beryl7_ai_agent.Orchestrator.EventBus.{
  bool, Heap, Event, clone, EventBus, new_event_bus, subscribe, dispatch, publish,
}
use beryl7_ai_agent.Orchestrator.EventBus.Recent.{put_all, recent_slots-put_all}
use beryl7_ai_agent.Orchestrator.EventBus.Isolation.{Isolates, publish-Isolates}

recent_slots-put_all_example :
    recent_slots 2 (put_all {A = ℕ} (9 ∷ 8 ∷ 7 ∷ [])) ≡ some 8 ∷ some 9 ∷ []
recent_slots-put_all_example = recent_slots-put_all 2 (9 ∷ 8 ∷ 7 ∷ [])

abbrev failed : Event
failed = record {
  event_type = "verification_failed";
  source = "watchdog";
  timestamp = 0;
  event_data = some 0;
  priority = 5;
  correlation = "c1";
}

abbrev one_map : Heap
one_map = record { next = 1; cell = λ _. ("safe_mode", bool true) ∷ [] }

abbrev two_handlers : EventBus ℕ
two_handlers = subscribe "verification_failed" 6 (subscribe "verification_failed" 5 new_event_bus)

publish-Isolates_example :
    Isolates
      (record failed { timestamp = 40 })
      one_map
      two_handlers
      (publish 40 failed one_map two_handlers)
publish-Isolates_example = publish-Isolates 40 failed one_map two_handlers refl (omega arith)

-- The subscribers are called in order, each with a map of its own.
calls_both :
    map {B = ℕ × Option ℕ}
      (λ c. (c.0, c.1.event_data))
      (publish 40 failed one_map two_handlers).dispatched
    ≡ (5, some 2) ∷ (6, some 3) ∷ []
unfolding publish clone dispatch subscribe new_event_bus
calls_both = refl
