-- ===== src/Orchestrator/EventBus.antt =====
-- go-agent/orchestrator/event_bus.go. An event's data map is shared by reference, so it lies on a
-- heap, and `Clone` copies it into a new cell. `Publish` and `GetRecentEvents` hold the bus's lock
-- while they read and write the ring buffer; the goroutines that `Publish` starts are its result.
pub mod RingBuffer
pub mod Recent
pub mod Isolation
mod Tests
use text.Mathlib.Text.{◌==◌ as str_eq}
use beryl7_ai_agent.Base.{
  ℕ, suc, String, Bool, Option, none, some, List, [], ◌∷◌, ◌++◌, ◌==◌, if◌then◌else◌,
}
use RingBuffer.{Ring, empty_ring, put, recent_slots}

-- What the handlers of this program read from a data map.
pub data Value : Type 0 where
  str : String → Value
  bool : Bool → Value
  other : Value

abbrev pub Dict : Type 0
Dict = List (String × Value)

-- The data maps that are in use, by reference; `next` is the next free one.
pub record Heap : Type 0 where
  pub next : ℕ
  pub cell : ℕ → Dict

pub record Event : Type 0 where
  pub event_type : String
  pub source : String
  pub timestamp : ℕ
  pub event_data : Option ℕ
  pub priority : ℕ
  pub correlation : String

abbrev pub update : (ℕ → Dict) → ℕ → Dict → ℕ → Dict
update f p v q = if p == q then v else f q

abbrev pub write : ℕ → Dict → Heap → Heap
write p v h = record h { cell = update h.cell p v }

abbrev pub clone_data : Option ℕ → Heap → Option ℕ × Heap
clone_data none h = (none, h)
clone_data (some p) h =
    (some h.next, record { next = suc h.next; cell = update h.cell h.next (h.cell p) })

-- `Clone` of an event that is not nil
unfoldable pub clone : Event → Heap → Event × Heap
clone e h = let (d, h') = clone_data e.event_data h in (record e { event_data = d }, h')

-- A subscriber is known by a value of `S`; the map has one list for each event type.
pub record EventBus (S : Type 0) : Type 0 where
  pub subscribers : String → List S
  pub ring : Ring Event

-- What `Publish` and the calls around it leave behind: the bus, the heap, and the event that the
-- caller passed, whose timestamp may have been set.
pub record Published (S : Type 0) : Type 0 where
  pub bus : EventBus S
  pub heap : Heap
  pub event : Event
  -- The goroutines to start, each with the clone that its subscriber is called with.
  pub dispatched : List (S × Event)

abbrev pub stamped : ℕ → Event → Event
stamped now e = if e.timestamp == 0 then record e { timestamp = now } else e

abbrev pub clone_slot : Option Event → Heap → Option Event × Heap
clone_slot none h = (none, h)
clone_slot (some e) h = let (e', h') = clone e h in (some e', h')

unfoldable pub clone_slots : List (Option Event) → Heap → List (Option Event) × Heap
clone_slots [] h = ([], h)
clone_slots (o ∷ rest) h =
    let (o', h₁) = clone_slot o h in let (tail, h₂) = clone_slots rest h₁ in (o' ∷ tail, h₂)

module _ {S : Type 0} where
  unfoldable pub new_event_bus : EventBus S
  new_event_bus = record { subscribers = λ _. []; ring = empty_ring }

  unfoldable pub subscribe : String → S → EventBus S → EventBus S
  subscribe t s eb = record eb {
    subscribers = λ u. if str_eq t u then eb.subscribers u ++ s ∷ [] else eb.subscribers u;
  }

  unfoldable pub clear_subscribers : EventBus S → EventBus S
  clear_subscribers eb = record eb { subscribers = λ _. [] }

  -- The loop over `subsCopy`.
  unfoldable pub dispatch : List S → Event → Heap → List (S × Event) × Heap
  dispatch [] e h = ([], h)
  dispatch (s ∷ rest) e h =
      let (sub_event, h₁) = clone e h in
      let (tail, h₂) = dispatch rest e h₁ in ((s, sub_event) ∷ tail, h₂)

  -- `Publish` from the clone on.
  unfoldable pub broadcast : Event → Heap → EventBus S → Published S
  unfolding dispatch
  broadcast event h eb =
      let (kept, h₁) = clone event h in
      let (calls, h₂) = dispatch (eb.subscribers event.event_type) kept h₁ in
      record {
        bus = record eb { ring = put kept eb.ring };
        heap = h₂;
        event = event;
        dispatched = calls;
      }

  -- `Publish` at time `now` of an event that is not nil, with `0` for the zero time.
  unfoldable pub publish : ℕ → Event → Heap → EventBus S → Published S
  unfolding broadcast
  publish now e h eb =
      if str_eq e.event_type ""
      then record { bus = eb; heap = h; event = e; dispatched = [] }
      else broadcast (stamped now e) h eb

  unfoldable pub get_recent_events : ℕ → Heap → EventBus S → List (Option Event) × Heap
  unfolding clone_slots
  get_recent_events limit h eb = clone_slots (recent_slots limit eb.ring) h
