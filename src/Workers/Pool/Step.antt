-- ===== src/Workers/Pool/Step.antt =====
-- The events of the worker pool of src/workers/pool.ts as steps, and the pools that they reach.
use coretex_client.Prelude.{ℕ, List, Option}
use coretex_client.Workers.Pool.{
  EvalWorkerRequest, EvalWorkerMessage, WorkerPool, new_pool, eval, on_message, on_worker_error,
  close,
}
use coretex_client.Workers.Pool.Invariant.{IsPool, new_pool-IsPool}
use coretex_client.Workers.Pool.Events.{eval-IsPool, on_message-IsPool}
use coretex_client.Workers.Pool.Failure.{on_worker_error-IsPool, close-IsPool}

-- The events in which no worker fails.
pub data CalmStep (p : WorkerPool) : WorkerPool → Type 0 where
  submitted : (body : EvalWorkerRequest) → CalmStep p (eval body p)
  answered : (w : ℕ) (msg : EvalWorkerMessage) → CalmStep p (on_message w msg p)
  was_closed : CalmStep p (close p)

pub data Step (p : WorkerPool) : WorkerPool → Type 0 where
  calm : {q : WorkerPool} → CalmStep p q → Step p q
  failed : (w : ℕ) (err : List ℕ) → Step p (on_worker_error w err p)

-- The pools that a new one becomes.
pub data Reaches (p : WorkerPool) : WorkerPool → Type 0 where
  here : Reaches p p
  then_step : {q r : WorkerPool} → Reaches p q → Step q r → Reaches p r

calm-IsPool : {p q : WorkerPool} → CalmStep p q → IsPool p → IsPool q
calm-IsPool {p} (submitted body) h = eval-IsPool body p h
calm-IsPool {p} (answered w msg) h = on_message-IsPool w msg p h
calm-IsPool {p} was_closed h = close-IsPool p h

Step-IsPool : {p q : WorkerPool} → Step p q → IsPool p → IsPool q
Step-IsPool (calm s) h = calm-IsPool s h
Step-IsPool {p} (failed w err) h = on_worker_error-IsPool w err p h

Reaches-IsPool : {p q : WorkerPool} → Reaches p q → IsPool p → IsPool q
Reaches-IsPool here h = h
Reaches-IsPool (then_step r s) h = Step-IsPool s (Reaches-IsPool r h)

-- In every pool that a new one becomes through submissions, messages, failures of workers and
-- `close`, each id given so far is exactly once in the queue, at a worker or among the settled
-- ones; a worker of the pool is idle exactly if nothing waits for it, is at most once idle, and
-- has at most one request; and the workers are those of the map of pending requests.
pub new_pool-Reaches-IsPool :
    (size : ℕ) (limit : Option ℕ) (q : WorkerPool) → Reaches (new_pool size limit) q → IsPool q
new_pool-Reaches-IsPool size limit q r = Reaches-IsPool r (new_pool-IsPool size limit)
