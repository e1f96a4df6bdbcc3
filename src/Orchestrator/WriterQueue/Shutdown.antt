-- ===== src/Orchestrator/WriterQueue/Shutdown.antt =====
-- `Stop` of writer_queue.go: nothing is accepted after it, and nothing that was accepted is lost.
use mathlib.Core.List.{append-nil}
use beryl7_ai_agent.Base.{ℕ, ◌≡◌, refl, true, some, List, [], ◌∷◌, arith, ◌∙◌}
use beryl7_ai_agent.Orchestrator.WriterQueue.{
  DbTask, nil_task, task, DbWriterQueue, new_queue, enqueue, stop, execute_task, work, work_on,
  Action, enqueues, stops, works, step, run,
}
use beryl7_ai_agent.Orchestrator.WriterQueue.Order.{
  IsOrdered, effects_of, run_from-Steps, new-IsOrdered,
}

work_on-stopped :
    (q : DbWriterQueue) (ts : List DbTask)
    → ((work_on ts q).stopped ≡ q.stopped)
      × ((work_on ts q).task_chan.is_closed ≡ q.task_chan.is_closed)
unfolding execute_task
work_on-stopped q [] = ground arith
work_on-stopped q (nil_task ∷ ts) = (refl, refl)
work_on-stopped q (task i e ∷ ts) = (refl, refl)

step_stopped :
    (q : DbWriterQueue) (acc : List DbTask) (a : Action)
    → q.stopped ≡ true
    → (q' : DbWriterQueue) × (step (q, acc) a ≡ some (q', acc)) × (q'.stopped ≡ true)
unfolding step enqueue stop work
step_stopped q acc (enqueues t) s = (q, ground arith, s)
step_stopped q acc stops s = (q, ground arith, s)
step_stopped q acc works s = (work q, refl, (work_on-stopped q q.task_chan.buffer).0 ∙ s)

-- Once the queue has been stopped no action panics, none starts it again, and no task is accepted.
pub run_stopped :
    (h : List Action) (q : DbWriterQueue) (acc : List DbTask)
    → q.stopped ≡ true
    → (q' : DbWriterQueue) × (run (q, acc) h ≡ some (q', acc)) × (q'.stopped ≡ true)
unfolding run
run_stopped [] q acc s = (q, refl, s)
run_stopped (a ∷ rest) q acc s =
    let (q₁, e, s₁) = step_stopped q acc a s in
    let (q₂, e₂, s₂) = run_stopped rest q₁ acc s₁ in (q₂, rw (e, run) e₂, s₂)

-- What the worker still has to do before it is done.
record IsDraining (q : DbWriterQueue) (ts : List DbTask) : Type 0 where
  shut : q.task_chan.is_closed ≡ true
  left : q.task_chan.buffer ≡ ts

work-left :
    (q : DbWriterQueue) (t : DbTask) (ts : List DbTask)
    → IsDraining q (t ∷ ts)
    → IsDraining (work q) ts
unfolding work execute_task
work-left q nil_task ts d = ground arith
work-left q (task i e) ts d = ground arith

work_last : (q : DbWriterQueue) → IsDraining q [] → (work q).worker_done ≡ true
unfolding work
work_last q d = ground arith

-- Rounds of the worker, one for each task and one that finds the channel closed.
abbrev pub drain : List DbTask → List Action
drain [] = works ∷ []
drain (t ∷ ts) = works ∷ drain ts

run-drain :
    (ts : List DbTask) (q : DbWriterQueue) (acc : List DbTask)
    → IsDraining q ts
    → (q' : DbWriterQueue) × (run (q, acc) (drain ts) ≡ some (q', acc)) × (q'.worker_done ≡ true)
unfolding run step
run-drain [] q acc d = (work q, refl, work_last q d)
run-drain (t ∷ ts) q acc d = run-drain ts (work q) acc (work-left q t ts d)

stop-IsDraining :
    (q : DbWriterQueue) (acc : List DbTask)
    → IsOrdered (q, acc)
    → (q' : DbWriterQueue) × (step (q, acc) stops ≡ some (q', acc))
      × IsDraining q' q.task_chan.buffer
unfolding step stop
stop-IsDraining q acc v = (
  record q { stopped = true; task_chan = record (q.task_chan) { is_closed = true } },
  ground arith,
  ground arith,
)

drained_all :
    (q : DbWriterQueue) (acc : List DbTask)
    → IsOrdered (q, acc)
    → q.worker_done ≡ true
    → (q.received ≡ acc) × (q.effects ≡ effects_of acc)
drained_all q acc v done = ground (arith, append-nil q.received)

-- Of any reachable queue that is then stopped, the worker ends after one round for each task in the
-- channel and one more, and by then it has received all that the queue ever accepted, in order, and
-- the effects are those of all these tasks.
pub run_stop_drain :
    (size : ℕ) (h : List Action) (q : DbWriterQueue) (accepted : List DbTask)
    → run (new_queue size, []) h ≡ some (q, accepted)
    → (q' : DbWriterQueue) × (run (q, accepted) (stops ∷ drain q.task_chan.buffer)
        ≡ some (q', accepted))
      × (q'.worker_done ≡ true)
      × (q'.received ≡ accepted)
      × (q'.effects ≡ effects_of accepted)
unfolding run
run_stop_drain size h q acc e =
    let v : IsOrdered (q, acc) =
      rw e at (run_from-Steps h (new_queue size, []) (new-IsOrdered size)) in
    let (q₁, e₁, d) = stop-IsDraining q acc v in
    let (q₂, e₂, done) = run-drain q.task_chan.buffer q₁ acc d in
    let whole : run (q, acc) (stops ∷ drain q.task_chan.buffer) ≡ some (q₂, acc) =
      rw (e₁, run) e₂ in
    let w : IsOrdered (q₂, acc) =
      rw whole at (run_from-Steps (stops ∷ drain q.task_chan.buffer) (q, acc) v) in
    let all = drained_all q₂ acc w done in (q₂, whole, done, all.0, all.1)
