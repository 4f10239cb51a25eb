-- ===== src/Workers/Pool/Progress.antt =====
-- What becomes of the requests that wait in the worker pool of src/workers/pool.ts.
use coretex_client.Prelude.{
  ℕ, zero, suc, ◌+◌, ◌≡◌, refl, sym, ◌∙◌, List, [], ◌∷◌, length, Option, none, some, not, contains,
  if-both,
}
use coretex_client.Workers.Pool.Slots.{lookup, update, remove_first}
use coretex_client.Workers.Pool.{
  EvalWorkerRequest, EvalWorkerMessage, WorkerPool, new_pool, spawn_workers, spawn_worker, dispatch,
  drain_or_idle, settle, is_saturated, enqueue, take_idle, eval, message_id, message_outcome,
  answer, on_message, close,
}
use coretex_client.Workers.Pool.Step.{CalmStep, submitted, answered, was_closed}

-- No worker is idle while a request waits.
pub data IsEager (p : WorkerPool) : Type 0 where
  all_busy : p.idle ≡ [] → IsEager p
  none_waits : p.queue ≡ [] → IsEager p

module _ (w : ℕ) (req : EvalWorkerRequest) (p : WorkerPool) where
  post-same :
      (o : Option (List ℕ))
      → lookup w p.pending ≡ o
      → ((dispatch w req p).idle ≡ p.idle) × ((dispatch w req p).queue ≡ p.queue)
  unfolding dispatch
  post-same none e = (rw (e, dispatch) refl, rw (e, dispatch) refl)
  post-same (some ids) e = (rw (e, dispatch) refl, rw (e, dispatch) refl)

  dispatch-same : ((dispatch w req p).idle ≡ p.idle) × ((dispatch w req p).queue ≡ p.queue)
  dispatch-same = post-same (lookup w p.pending) refl

  dispatch-IsEager : IsEager p → IsEager (dispatch w req p)
  dispatch-IsEager (all_busy e) = all_busy (dispatch-same.0 ∙ e)
  dispatch-IsEager (none_waits e) = none_waits (dispatch-same.1 ∙ e)

enqueue-IsEager : (req : EvalWorkerRequest) (p : WorkerPool) → p.idle ≡ [] → IsEager (enqueue req p)
unfolding enqueue settle
enqueue-IsEager req p e =
    if-both IsEager (is_saturated p.max_queue_size (length p.queue)) _ _ (all_busy e) (all_busy e)

take_idle-IsEager :
    (idle : List ℕ) (req : EvalWorkerRequest) (p : WorkerPool)
    → p.idle ≡ idle
    → IsEager p
    → IsEager (take_idle idle req p)
unfolding take_idle
take_idle-IsEager [] req p e h = enqueue-IsEager req p e
take_idle-IsEager (w ∷ idle) req p e (all_busy k) = absurd (let n : w ∷ idle ≡ [] = sym e ∙ k in cc)
take_idle-IsEager (w ∷ idle) req p e (none_waits k) =
    dispatch-IsEager w req (record p { idle = idle }) (none_waits k)

renumbered : (n : ℕ) (p : WorkerPool) → IsEager p → IsEager (record p { next_id = n })
renumbered n p (all_busy e) = all_busy e
renumbered n p (none_waits e) = none_waits e

drain_or_idle-IsEager :
    (w : ℕ) (queue : List EvalWorkerRequest) (p : WorkerPool)
    → p.queue ≡ queue
    → IsEager p
    → IsEager (drain_or_idle w queue p)
unfolding drain_or_idle
drain_or_idle-IsEager w [] p e h = none_waits e
drain_or_idle-IsEager w (next ∷ queue) p e (all_busy k) =
    dispatch-IsEager w next (record p { queue = queue }) (all_busy k)
drain_or_idle-IsEager w (next ∷ queue) p e (none_waits k) =
    absurd (let n : next ∷ queue ≡ [] = sym e ∙ k in cc)

answer-IsEager :
    (w : ℕ) (msg : EvalWorkerMessage) (found : Option (List ℕ)) (p : WorkerPool)
    → IsEager p
    → IsEager (answer w msg found p)
unfolding answer settle
answer-IsEager w msg none p h = h
answer-IsEager w msg (some ids) p h =
    if-both IsEager (not (contains (message_id msg) ids)) p _ h
      (drain_or_idle-IsEager w p.queue _ refl (same h))
  where
    same :
        IsEager p
        → IsEager (
            settle
              (message_id msg)
              (message_outcome msg)
              (record p { pending = update w (remove_first (message_id msg) ids) p.pending }))
    same (all_busy e) = all_busy e
    same (none_waits e) = none_waits e

pub calm-IsEager : {p q : WorkerPool} → CalmStep p q → IsEager p → IsEager q
unfolding eval on_message close
calm-IsEager {p} (submitted body) h =
    if-both IsEager p.closed p _ h
      (take_idle-IsEager p.idle _ (record p { next_id = p.next_id + 1 }) refl (renumbered _ p h))
calm-IsEager {p} (answered w msg) h = answer-IsEager w msg (lookup w p.pending) p h
calm-IsEager {p} was_closed (all_busy e) = all_busy e
calm-IsEager {p} was_closed (none_waits e) = none_waits e

-- The pools that a new one becomes while no worker fails.
pub data CalmlyReaches (p : WorkerPool) : WorkerPool → Type 0 where
  here : CalmlyReaches p p
  then_calm : {q r : WorkerPool} → CalmlyReaches p q → CalmStep q r → CalmlyReaches p r

spawn_workers-queue : (n : ℕ) (p : WorkerPool) → p.queue ≡ [] → (spawn_workers n p).queue ≡ []
unfolding spawn_workers spawn_worker
spawn_workers-queue zero p e = e
spawn_workers-queue (suc n) p e = spawn_workers-queue n (spawn_worker p) e

-- In every pool that a new one becomes while no worker fails, either no worker is idle or no
-- request waits.
pub new_pool-IsEager :
    (size : ℕ) (limit : Option ℕ) (q : WorkerPool)
    → CalmlyReaches (new_pool size limit) q
    → IsEager q
unfolding new_pool
new_pool-IsEager size limit q here = none_waits (spawn_workers-queue size _ refl)
new_pool-IsEager size limit q (then_calm r s) = calm-IsEager s (new_pool-IsEager size limit _ r)
