-- ===== src/Orchestrator/WriterQueue.antt =====
-- go-agent/orchestrator/writer_queue.go. `Enqueue` and the first part of `Stop` run under the
-- queue's lock and the worker receives one task at a time, so each is one step here. `none` is a
-- panic of the runtime: a send on a closed channel, or a second close.
pub mod Order
pub mod Shutdown
mod Tests
use beryl7_ai_agent.Base.{
  ℕ, Bool, true, false, Option, none, some, List, [], ◌∷◌, ◌++◌, length, ltb, ◌==◌, if◌then◌else◌,
}

pub data Effect : Type 0 where
  returns_nil returns_error panics : Effect

-- A `DBTask`: a nil function, or one that is known by a number.
pub data DbTask : Type 0 where
  nil_task : DbTask
  task : ℕ → Effect → DbTask

-- A buffered Go channel.
pub record Chan : Type 0 where
  pub buffer : List DbTask
  pub capacity : ℕ
  pub is_closed : Bool

pub record DbWriterQueue : Type 0 where
  pub task_chan : Chan
  pub stopped : Bool
  -- What the worker has received, in order, and the tasks of it that have run.
  pub received : List DbTask
  pub effects : List (ℕ × Effect)
  pub worker_done : Bool

-- A size that is not positive is given as 0.
pub new_queue : ℕ → DbWriterQueue
new_queue size = record {
  task_chan = record { buffer = []; capacity = if size == 0 then 128 else size; is_closed = false };
  stopped = false;
  received = [];
  effects = [];
  worker_done = false;
}

-- `select { case c <- t: … default: … }`
try_send : Chan → DbTask → Option (Bool × Chan)
try_send c t =
    if c.is_closed
    then none
    else if ltb (length c.buffer) c.capacity
    then some (true, record c { buffer = c.buffer ++ t ∷ [] })
    else some (false, c)

close : Chan → Option Chan
close c = if c.is_closed then none else some (record c { is_closed = true })

abbrev sent : DbWriterQueue → Option (Bool × Chan) → Option (Bool × DbWriterQueue)
sent q none = none
sent q (some (ok, c)) = some (ok, record q { task_chan = c })

pub enqueue : DbWriterQueue → DbTask → Option (Bool × DbWriterQueue)
unfolding try_send
enqueue q t = if q.stopped then some (false, q) else sent q (try_send q.task_chan t)

abbrev closed_with : DbWriterQueue → Option Chan → Option DbWriterQueue
closed_with q none = none
closed_with q (some c) = some (record q { stopped = true; task_chan = c })

-- `Stop` up to `q.wg.Wait()`, which returns when `worker_done` holds.
pub stop : DbWriterQueue → Option DbWriterQueue
unfolding close
stop q = if q.stopped then some q else closed_with q (close q.task_chan)

-- A nil task is skipped, and an error or a panic of a task ends with it.
pub execute_task : DbTask → DbWriterQueue → DbWriterQueue
execute_task nil_task q = q
execute_task (task i e) q = record q { effects = q.effects ++ (i, e) ∷ [] }

-- One round of `for task := range q.taskChan`: an empty channel that is open blocks the worker, and
-- one that is closed ends it.
abbrev pub work_on : List DbTask → DbWriterQueue → DbWriterQueue
work_on [] q = if q.task_chan.is_closed then record q { worker_done = true } else q
work_on (t ∷ rest) q = execute_task t (record q {
  task_chan = record (q.task_chan) { buffer = rest };
  received = q.received ++ t ∷ [];
})

pub work : DbWriterQueue → DbWriterQueue
unfolding execute_task
work q = work_on q.task_chan.buffer q

-- What the goroutines do to one queue, in the order in which it happens.
pub data Action : Type 0 where
  enqueues : DbTask → Action
  stops works : Action

-- The queue and the tasks that it has accepted so far.
abbrev pub Run : Type 0
Run = DbWriterQueue × List DbTask

abbrev pub after_enqueue : DbTask → List DbTask → Option (Bool × DbWriterQueue) → Option Run
after_enqueue t accepted none = none
after_enqueue t accepted (some (true, q)) = some (q, accepted ++ t ∷ [])
after_enqueue t accepted (some (false, q)) = some (q, accepted)

abbrev pub after_stop : List DbTask → Option DbWriterQueue → Option Run
after_stop accepted none = none
after_stop accepted (some q) = some (q, accepted)

pub step : Run → Action → Option Run
step (q, accepted) (enqueues t) = after_enqueue t accepted (enqueue q t)
step (q, accepted) stops = after_stop accepted (stop q)
step (q, accepted) works = some (work q, accepted)

pub run : Run → List Action → Option Run
run r [] = some r
run r (a ∷ rest) = elim (step r a) [ none ↦ none | some r' ↦ run r' rest ]
