-- ===== src/Orchestrator/WriterQueue/Order.antt =====
-- What the queue of writer_queue.go does with the tasks that it accepts.
use mathlib.Core.List.{append_assoc, append-nil}
use beryl7_ai_agent.Base.{
  ℕ, ◌≤◌, ◌≡◌, refl, true, Option, none, some, List, [], ◌∷◌, ◌++◌, length, length-append, arith,
}
use beryl7_ai_agent.Orchestrator.WriterQueue.{
  Effect, DbTask, nil_task, task, DbWriterQueue, new_queue, enqueue, stop, execute_task, work_on,
  work, Action, enqueues, stops, works, Run, step, run,
}

-- The effects of a list of tasks: a nil task has none.
abbrev pub effects_of : List DbTask → List (ℕ × Effect)
effects_of [] = []
effects_of (nil_task ∷ ts) = effects_of ts
effects_of (task i e ∷ ts) = (i, e) ∷ effects_of ts

pub record IsOrdered (r : Run) : Type 0 where
  pub lock : r.0.stopped ≡ r.0.task_chan.is_closed
  pub bounded : length r.0.task_chan.buffer ≤ r.0.task_chan.capacity
  pub fifo : r.1 ≡ r.0.received ++ r.0.task_chan.buffer
  pub ran : r.0.effects ≡ effects_of r.0.received
  pub drained : r.0.worker_done ≡ true → (r.0.stopped ≡ true) × (r.0.task_chan.buffer ≡ [])

pub effects_of-append :
    (ts : List DbTask) (t : DbTask)
    → effects_of (ts ++ t ∷ []) ≡ effects_of ts ++ effects_of (t ∷ [])
effects_of-append [] nil_task = refl
effects_of-append [] (task i e) = refl
effects_of-append (nil_task ∷ ts) t = effects_of-append ts t
effects_of-append (task i e ∷ ts) t = rw (effects_of-append ts t)

pub new-IsOrdered : (size : ℕ) → IsOrdered (new_queue size, [])
unfolding new_queue
new-IsOrdered size = ground arith

-- A step that finds the invariant does not panic, and keeps it.
abbrev pub Steps : Option Run → Type 0
Steps none = ⊥
Steps (some r) = IsOrdered r

enqueue-Steps :
    (q : DbWriterQueue) (acc : List DbTask) (t : DbTask)
    → IsOrdered (q, acc)
    → Steps (step (q, acc) (enqueues t))
unfolding step enqueue
enqueue-Steps q acc t v = ground (
  arith,
  length-append q.task_chan.buffer (t ∷ []),
  append_assoc q.received q.task_chan.buffer (t ∷ []),
)

stop-Steps :
    (q : DbWriterQueue) (acc : List DbTask) → IsOrdered (q, acc) → Steps (step (q, acc) stops)
unfolding step stop
stop-Steps q acc v = ground arith

work_on-IsOrdered :
    (q : DbWriterQueue) (acc ts : List DbTask)
    → q.task_chan.buffer ≡ ts
    → IsOrdered (q, acc)
    → IsOrdered (work_on ts q, acc)
unfolding execute_task
work_on-IsOrdered q acc [] e v = ground arith
work_on-IsOrdered q acc (nil_task ∷ ts) e v = ground (
  arith,
  append_assoc q.received (nil_task ∷ []) ts,
  effects_of-append q.received nil_task,
  append-nil (effects_of q.received),
)
work_on-IsOrdered q acc (task i x ∷ ts) e v =
    ground
      (arith, append_assoc q.received (task i x ∷ []) ts, effects_of-append q.received (task i x))

step-Steps : (r : Run) (a : Action) → IsOrdered r → Steps (step r a)
unfolding step work
step-Steps (q, acc) (enqueues t) v = enqueue-Steps q acc t v
step-Steps (q, acc) stops v = stop-Steps q acc v
step-Steps (q, acc) works v = work_on-IsOrdered q acc q.task_chan.buffer refl v

rest-Steps :
    (o : Option Run) (rest : List Action)
    → Steps o
    → ((r : Run) → IsOrdered r → Steps (run r rest))
    → Steps (elim o [ none ↦ none | some r ↦ run r rest ])
rest-Steps none rest h k = h
rest-Steps (some r) rest h k = k r h

pub run_from-Steps : (h : List Action) (r : Run) → IsOrdered r → Steps (run r h)
unfolding run
run_from-Steps [] r v = v
run_from-Steps (a ∷ rest) r v = rest-Steps (step r a) rest (step-Steps r a v) (run_from-Steps rest)

Steps-some : (o : Option Run) → Steps o → (r : Run) × (o ≡ some r) × IsOrdered r
Steps-some none h = absurd h
Steps-some (some r) h = (r, refl, h)

pub run-IsOrdered :
    (size : ℕ) (h : List Action) → (r : Run) × (run (new_queue size, []) h ≡ some r) × IsOrdered r
run-IsOrdered size h = Steps-some _ (run_from-Steps h (new_queue size, []) (new-IsOrdered size))

-- No interleaving of `Enqueue`, `Stop` and the worker panics. At every point the tasks that the queue
-- has accepted are those that the worker has received followed by those in the channel, in the order
-- of acceptance; the effects are those of the received tasks, once each and in that order; and the
-- channel holds no more than its capacity.
pub run_fifo :
    (size : ℕ) (h : List Action)
    → (r : Run) × (run (new_queue size, []) h ≡ some r)
      × (r.1 ≡ r.0.received ++ r.0.task_chan.buffer)
      × (r.0.effects ≡ effects_of r.0.received)
      × (length r.0.task_chan.buffer ≤ r.0.task_chan.capacity)
run_fifo size h = let (r, e, v) = run-IsOrdered size h in (r, e, v.fifo, v.ran, v.bounded)
