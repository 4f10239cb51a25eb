-- ===== src/Workers/Pool/Drain.antt =====
-- Answers of the busy workers of src/workers/pool.ts empty the queue, and a failed worker stalls it.
use coretex_client.Prelude.{
  ℕ, suc, ◌<◌, ◌≡◌, inl, inr, refl, sym, ap, ◌∙◌, List, [], ◌∷◌, length, some, true, arith, ◌==◌,
  Bool-cases, contains,
}
use coretex_client.Workers.Pool.Slots.{
  Slot, lookup, update, remove_slot, remove_first, occ, length-update,
}
use coretex_client.Workers.Pool.{
  EvalWorkerRequest, EvalWorkerMessage, response, WorkerPool, spawn_worker, dispatch, drain_or_idle,
  settle, settle_all, answer, on_message, reject_pending, replace_worker, on_worker_error,
}
use coretex_client.Workers.Pool.Invariant.{IsPool, dispatch-eq}
use coretex_client.Workers.Pool.Events
use coretex_client.Workers.Pool.Failure.{is_worker, without}
use coretex_client.Workers.Pool.Events.{on_message-IsPool, answered-IsFree}
use coretex_client.Workers.Pool.Step.{answered}
use coretex_client.Workers.Pool.Progress.{IsEager, all_busy, none_waits, calm-IsEager}
use mathlib.Core.Path.{subst}

-- A worker with one request.
pub record Busy (p : WorkerPool) : Type 0 where
  pub worker : ℕ
  pub waiting : ℕ
  pub found : lookup worker p.pending ≡ some (waiting ∷ [])

first-Busy :
    (w : ℕ) (ids : List ℕ) (p : WorkerPool)
    → IsPool p
    → p.idle ≡ []
    → lookup w p.pending ≡ some ids
    → Busy p
unfolding occ
first-Busy w [] p h e f = absurd (let n = h.empty_idle w f in let m = ap (occ w) e in omega arith)
first-Busy w (i ∷ []) p h e f = record { worker = w; waiting = i; found = f }
first-Busy w (i ∷ j ∷ ids) p h e f =
    absurd (let n = h.core.one_each w (i ∷ j ∷ ids) f in omega arith)

head_found : (slot : Slot) (slots : List Slot) → lookup slot.worker (slot ∷ slots) ≡ some slot.ids
unfolding lookup
head_found slot slots = let e : (slot.worker == slot.worker) ≡ true = ground arith in rw e refl

find-Busy :
    (slots : List Slot) (p : WorkerPool)
    → IsPool p
    → p.idle ≡ []
    → p.pending ≡ slots
    → 0 < length slots
    → Busy p
find-Busy [] p h e f g = absurd (omega arith)
find-Busy (slot ∷ slots) p h e f g =
    first-Busy slot.worker slot.ids p h e (ap (lookup slot.worker) f ∙ head_found slot slots)

-- The answer of a busy worker, while a request waits, posts the oldest one to it.
record Answered (p : WorkerPool) (next : EvalWorkerRequest) (queue : List EvalWorkerRequest)
    (w i : ℕ) (text : List ℕ) : Type 0 where
  shorter : (on_message w (response i text) p).queue ≡ queue
  sent : (on_message w (response i text) p).posted ≡ record { worker = w; req = next } ∷ p.posted
  same_size : length (on_message w (response i text) p).pending ≡ length p.pending

answer-queue :
    (p : WorkerPool) (w i : ℕ) (text : List ℕ) (next : EvalWorkerRequest)
    (queue : List EvalWorkerRequest)
    → IsPool p
    → lookup w p.pending ≡ some (i ∷ [])
    → p.queue ≡ next ∷ queue
    → Answered p next queue w i text
unfolding on_message answer settle drain_or_idle
answer-queue p w i text next queue h f e =
    let self : (i == i) ≡ true = ground arith in
    let waits : contains i (i ∷ []) ≡ true = rw self refl in
    let q = Events.answered w (response i text) (i ∷ []) p h f waits in
    let free = answered-IsFree w (response i text) (i ∷ []) p h f waits in
    let k : on_message w (response i text) p ≡ dispatch w next (record q { queue = queue }) =
      rw (f, waits, e) refl in
    let d = dispatch-eq w next (record q { queue = queue }) free.free in
    let all = k ∙ d in
    record {
      shorter = ap (λ (x : WorkerPool). x.queue) all;
      sent = ap (λ (x : WorkerPool). x.posted) all;
      same_size =
          ap (λ (x : WorkerPool). length x.pending) all
          ∙ length-update w (next.id ∷ []) _
          ∙ length-update w (remove_first i (i ∷ [])) p.pending;
    }

-- A run of `n` answers, each of a busy worker to its request.
pub data Answers (text : List ℕ) : ℕ → WorkerPool → WorkerPool → Type 0 where
  done : {p : WorkerPool} → Answers text 0 p p
  answer_of :
      {n : ℕ} {p q : WorkerPool} (w i : ℕ)
      → lookup w p.pending ≡ some (i ∷ [])
      → Answers text n (on_message w (response i text) p) q
      → Answers text (suc n) p q

pub record Drained (text : List ℕ) (n : ℕ) (p : WorkerPool) : Type 0 where
  pub final : WorkerPool
  pub run : Answers text n p final
  pub empty : final.queue ≡ []

busy_while_waiting :
    (p : WorkerPool) (next : EvalWorkerRequest) (queue : List EvalWorkerRequest)
    → p.queue ≡ next ∷ queue
    → IsEager p
    → p.idle ≡ []
busy_while_waiting p next queue e (all_busy k) = k
busy_while_waiting p next queue e (none_waits k) =
    absurd (let n : next ∷ queue ≡ [] = sym e ∙ k in cc)

drain_queue :
    (text : List ℕ) (queue : List EvalWorkerRequest) (p : WorkerPool)
    → p.queue ≡ queue
    → IsPool p
    → IsEager p
    → 0 < length p.pending
    → Drained text (length queue) p
drain_queue text [] p e h eager some_slot = record { final = p; run = done; empty = e }
drain_queue text (next ∷ queue) p e h eager some_slot =
    let b = find-Busy p.pending p h (busy_while_waiting p next queue e eager) refl some_slot in
    let a = answer-queue p b.worker b.waiting text next queue h b.found e in
    let rest =
      drain_queue text queue (on_message b.worker (response b.waiting text) p) a.shorter
        (on_message-IsPool b.worker (response b.waiting text) p h)
        (calm-IsEager (answered b.worker (response b.waiting text)) eager)
        (let n = a.same_size in omega arith) in
    record {
      final = rest.final;
      run = answer_of b.worker b.waiting b.found rest.run;
      empty = rest.empty;
    }

-- In a pool with at least one worker that keeps the invariant, and in which no worker is idle
-- while a request waits, there is a run of as many answers as requests wait, each of a worker to
-- the request that it has, after which the queue is empty.
pub queue-drains :
    (text : List ℕ) (p : WorkerPool)
    → IsPool p
    → IsEager p
    → 0 < length p.pending
    → Drained text (length p.queue) p
queue-drains text p h eager some_slot = drain_queue text p.queue p refl h eager some_slot

silent :
    (w : ℕ) (msg : EvalWorkerMessage) (k : ℕ) (p : WorkerPool)
    → p.pending ≡ record { worker = k; ids = [] } ∷ []
    → on_message w msg p ≡ p
unfolding on_message answer lookup
silent w msg k p e = elim (Bool-cases (w == k)) [ inl t ↦ rw (e, t) refl | inr t ↦ rw (e, t) refl ]

-- What the failure of the one worker of a pool leaves.
pub record IsStalled (p q : WorkerPool) : Type 0 where
  pub still_waiting : q.queue ≡ p.queue
  pub an_idle_worker : 0 < length q.idle
  pub none_pending : q.pending ≡ record { worker = p.next_worker; ids = [] } ∷ []
  pub deaf : (w : ℕ) (msg : EvalWorkerMessage) → on_message w msg q ≡ q

on_worker_error-one :
    (slot : Slot) (err : List ℕ) (p : WorkerPool)
    → IsPool p
    → p.pending ≡ slot ∷ []
    → (q : WorkerPool) × (on_worker_error slot.worker err p ≡ spawn_worker q)
      × (q.queue ≡ p.queue)
      × (q.pending ≡ [])
      × (q.next_worker ≡ p.next_worker)
unfolding on_worker_error reject_pending settle_all replace_worker update remove_slot
on_worker_error-one slot err p h e =
    let f : lookup slot.worker p.pending ≡ some slot.ids =
      ap (lookup slot.worker) e ∙ head_found slot [] in
    let k = is_worker slot.worker err slot.ids p h f in
    let same : (slot.worker == slot.worker) ≡ true = ground arith in
    (without slot.worker err slot.ids p h f, rw (f, k) refl, refl, rw (e, same, same) refl, refl)

-- When the one worker of a pool that keeps the invariant fails, the queue stays as it is beside
-- the idle new worker, for which nothing is pending, and no message changes the pool any more.
pub one_worker-stalls :
    (slot : Slot) (err : List ℕ) (p : WorkerPool)
    → IsPool p
    → p.pending ≡ slot ∷ []
    → IsStalled p (on_worker_error slot.worker err p)
unfolding spawn_worker
one_worker-stalls slot err p h e =
    let (q, eq, queue, pending, fresh) = on_worker_error-one slot err p h e in
    subst (IsStalled p) (sym eq) (stalled q queue pending fresh)
  where
    stalled :
        (q : WorkerPool)
        → q.queue ≡ p.queue
        → q.pending ≡ []
        → q.next_worker ≡ p.next_worker
        → IsStalled p (spawn_worker q)
    stalled q queue pending fresh =
        let n : (spawn_worker q).pending ≡ record { worker = p.next_worker; ids = [] } ∷ [] =
          rw (pending, fresh) refl in
        record {
          still_waiting = queue;
          an_idle_worker = omega arith;
          none_pending = n;
          deaf = λ w msg. silent w msg p.next_worker (spawn_worker q) n;
        }
