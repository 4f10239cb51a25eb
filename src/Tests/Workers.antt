-- ===== src/Tests/Workers.antt =====
-- The theorems on the worker pool, at concrete inputs.
use coretex_client.Prelude.{◌<◌, ◌≡◌, refl, [], ◌∷◌, length, some, arith}
use coretex_client.Workers.Pool.{
  EvalWorkerRequest, WorkerPool, new_pool, spawn_workers, spawn_worker, eval, take_idle, dispatch,
  enqueue, on_worker_error,
}
use coretex_client.Workers.Pool.Slots.{lookup, update}
use coretex_client.Workers.Pool.Invariant.{IsPool, new_pool-IsPool}
use coretex_client.Workers.Pool.Events.{eval-IsPool}
use coretex_client.Workers.Pool.Step.{
  here, then_step, calm, failed, submitted, new_pool-Reaches-IsPool,
}
use coretex_client.Workers.Pool.Progress
use coretex_client.Workers.Pool.Progress.{IsEager, new_pool-IsEager}
use coretex_client.Workers.Pool.Drain.{Drained, queue-drains, IsStalled, one_worker-stalls}

abbrev request : EvalWorkerRequest
request = record {
  id = 0;
  state_bytes = 1 ∷ [];
  patch_wire_bytes = 2 ∷ [];
  shard_id = 3 ∷ [];
  corpus_root = 4 ∷ [];
}

-- One worker, and room for five requests.
abbrev one_worker : WorkerPool
one_worker = new_pool 1 (some 5)

-- The first request is with the worker, and two wait.
abbrev two_wait : WorkerPool
two_wait = eval request (eval request (eval request one_worker))

-- A request, the failure of its worker, and another request.
new_pool-Reaches-IsPool_example :
    IsPool (eval request (on_worker_error 0 (7 ∷ []) (eval request one_worker)))
new_pool-Reaches-IsPool_example =
    new_pool-Reaches-IsPool 1 (some 5)
      (eval request (on_worker_error 0 (7 ∷ []) (eval request one_worker)))
      (then_step (then_step (then_step here (calm (submitted request))) (failed 0 (7 ∷ [])))
        (calm (submitted request)))

new_pool-IsEager_example : IsEager two_wait
new_pool-IsEager_example = new_pool-IsEager 1 (some 5) two_wait (
    Progress.then_calm
      (Progress.then_calm (Progress.then_calm Progress.here (submitted request))
        (submitted request))
      (submitted request))

two_wait-IsPool : IsPool two_wait
two_wait-IsPool = eval-IsPool request (eval request (eval request one_worker)) (
    eval-IsPool request (eval request one_worker)
      (eval-IsPool request one_worker (new_pool-IsPool 1 (some 5))))

two_wait-IsEager : IsEager two_wait
two_wait-IsEager = new_pool-IsEager 1 (some 5) two_wait (
    Progress.then_calm
      (Progress.then_calm (Progress.then_calm Progress.here (submitted request))
        (submitted request))
      (submitted request))

busy_slot : two_wait.pending ≡ record { worker = 0; ids = 0 ∷ [] } ∷ []
unfolding new_pool spawn_workers spawn_worker eval take_idle dispatch enqueue lookup update
busy_slot = refl

one_slot : 0 < length two_wait.pending
one_slot = rw busy_slot (omega arith)

queue-drains_example : Drained (9 ∷ []) (length two_wait.queue) two_wait
queue-drains_example = queue-drains (9 ∷ []) two_wait two_wait-IsPool two_wait-IsEager one_slot

one_worker-stalls_example : IsStalled two_wait (on_worker_error 0 (7 ∷ []) two_wait)
one_worker-stalls_example =
    one_worker-stalls (record { worker = 0; ids = 0 ∷ [] }) (7 ∷ []) two_wait two_wait-IsPool
      busy_slot
