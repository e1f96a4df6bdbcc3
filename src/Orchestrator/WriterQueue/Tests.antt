-- ===== src/Orchestrator/WriterQueue/Tests.antt =====
-- Runs of the queue of writer_queue.go.
use beryl7_ai_agent.Base.{◌≡◌, ◌≤◌, refl, true, false, some, List, [], ◌∷◌, ◌++◌, length}
use beryl7_ai_agent.Orchestrator.WriterQueue.{
  returns_nil, panics, DbTask, nil_task, task, DbWriterQueue, new_queue, enqueue, work, Action,
  enqueues, stops, works, Run, step, run,
}
use beryl7_ai_agent.Orchestrator.WriterQueue.Order.{effects_of, run_fifo}
use beryl7_ai_agent.Orchestrator.WriterQueue.Shutdown.{run_stop_drain}

abbrev save : DbTask
save = task 1 returns_nil

abbrev crash : DbTask
crash = task 2 panics

-- The third task finds the channel full and is dropped.
abbrev busy : List Action
busy = enqueues save ∷ enqueues crash ∷ enqueues save ∷ works ∷ enqueues nil_task ∷ []

abbrev busy_queue : DbWriterQueue
busy_queue = record {
  task_chan = record { buffer = crash ∷ nil_task ∷ []; capacity = 2; is_closed = false };
  stopped = false;
  received = save ∷ [];
  effects = (1, returns_nil) ∷ [];
  worker_done = false;
}

busy_runs : run (new_queue 2, []) busy ≡ some (busy_queue, save ∷ crash ∷ nil_task ∷ [])
unfolding run step enqueue work new_queue
busy_runs = refl

run_fifo_example :
    (r : Run) × (run (new_queue 2, []) busy ≡ some r)
    × (r.1 ≡ r.0.received ++ r.0.task_chan.buffer)
    × (r.0.effects ≡ effects_of r.0.received)
    × (length r.0.task_chan.buffer ≤ r.0.task_chan.capacity)
run_fifo_example = run_fifo 2 busy

run_stop_drain_example :
    (q : DbWriterQueue) × (run
        (busy_queue, save ∷ crash ∷ nil_task ∷ [])
        (stops ∷ works ∷ works ∷ works ∷ [])
      ≡ some (q, save ∷ crash ∷ nil_task ∷ []))
    × (q.worker_done ≡ true)
    × (q.received ≡ save ∷ crash ∷ nil_task ∷ [])
    × (q.effects ≡ effects_of (save ∷ crash ∷ nil_task ∷ []))
run_stop_drain_example = run_stop_drain 2 busy busy_queue (save ∷ crash ∷ nil_task ∷ []) busy_runs
