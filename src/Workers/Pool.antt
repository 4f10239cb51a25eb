-- ===== src/Workers/Pool.antt =====
-- src/workers/pool.ts: the worker pool, as state that is passed on.
-- A Worker is known by the number in which it was made, a promise by the id of its request. A map of
-- maps is a list of slots, one for each key. The end of an array is the head of a list where the
-- source pushes and pops there (`idle`), and its end where the source shifts at the other (`queue`).
-- What the pool does to the outside is kept in lists: the promises settled and the messages posted.
pub mod Step
pub mod Slots
pub mod Invariant
pub mod Events
pub mod Failure
pub mod Progress
pub mod Drain
use coretex_client.Prelude.{
  ℕ, zero, suc, ◌+◌, ◌-◌, ◌*◌, ◌/◌, ◌%◌, ◌^◌, ◌≤◌, ◌<◌, min, max, ◌≡◌, ◌≢◌, ◌↔◌, ◌⊎◌, inl, inr,
  refl, sym, ap, ◌∙◌, List, [], ◌∷◌, ◌++◌, map, length, get_elem?, get_or, set, take, drop,
  replicate, tabulate, All, Option, none, some, Option-cases, Bool, true, false, not, ◌&&◌, ◌||◌,
  arith, ltb, leb, ◌==◌, if◌then◌else◌, Bool-cases, &&-eq-true, ||-eq-false, ==-eq-false, list_head,
  contains, length-append, length-set, get_elem?-set_self, get_elem?-set_ne, ==_iff, length-map,
  some-injective, positive_test, if-both,
}
use coretex_client.Workers.Pool.Slots.{Slot, lookup, update, remove_slot, remove_first}

pub record EvalWorkerRequest : Type 0 where
  pub id : ℕ
  pub state_bytes : List ℕ
  pub patch_wire_bytes : List ℕ
  pub shard_id : List ℕ
  pub corpus_root : List ℕ

pub data EvalWorkerMessage : Type 0 where
  response error : ℕ → List ℕ → EvalWorkerMessage

-- How a promise is settled: with a report, or with an Error of that text.
pub data Outcome : Type 0 where
  resolved rejected crashed : List ℕ → Outcome
  saturated : Outcome

pub record Settled : Type 0 where
  pub id : ℕ
  pub outcome : Outcome

pub record Posted : Type 0 where
  pub worker : ℕ
  pub req : EvalWorkerRequest

-- `WorkerPool`. `none` is a queue with no bound.
pub record WorkerPool : Type 0 where
  pub workers : List ℕ
  pub idle : List ℕ
  pub queue : List EvalWorkerRequest
  pub pending : List Slot
  pub max_queue_size : Option ℕ
  pub next_id : ℕ
  pub closed : Bool
  pub next_worker : ℕ
  pub settled : List Settled
  pub posted : List Posted

-- The size by the number of processors.
unfoldable pub default_pool_size : ℕ → ℕ
default_pool_size cpus = if leb cpus 4 then 1 else max 1 (min 8 (cpus - 2))

unfoldable pub spawn_worker : WorkerPool → WorkerPool
spawn_worker p =
    let w = p.next_worker in
    record p {
      pending = record { worker = w; ids = [] } ∷ p.pending;
      workers = p.workers ++ w ∷ [];
      idle = w ∷ p.idle;
      next_worker = w + 1;
    }

unfoldable pub spawn_workers : ℕ → WorkerPool → WorkerPool
spawn_workers zero p = p
spawn_workers (suc n) p = spawn_workers n (spawn_worker p)

-- The constructor.
unfoldable pub new_pool : ℕ → Option ℕ → WorkerPool
new_pool size max_queue_size = spawn_workers size (record {
  workers = [];
  idle = [];
  queue = [];
  pending = [];
  max_queue_size = max_queue_size;
  next_id = 0;
  closed = false;
  next_worker = 0;
  settled = [];
  posted = [];
})

-- A Map keeps one entry for each id.
abbrev pub add_id : ℕ → List ℕ → List ℕ
add_id i ids = if contains i ids then ids else i ∷ ids

unfoldable pub dispatch : ℕ → EvalWorkerRequest → WorkerPool → WorkerPool
dispatch w req p = elim (lookup w p.pending) [
  | none ↦ p
  | some ids ↦ record p {
    pending = update w (add_id req.id ids) p.pending;
    posted = record { worker = w; req = req } ∷ p.posted;
  }
]

unfoldable pub settle : ℕ → Outcome → WorkerPool → WorkerPool
settle i outcome p = record p { settled = record { id = i; outcome = outcome } ∷ p.settled }

abbrev pub is_saturated : Option ℕ → ℕ → Bool
is_saturated none n = false
is_saturated (some limit) n = leb limit n

-- Where no worker is idle.
unfoldable pub enqueue : EvalWorkerRequest → WorkerPool → WorkerPool
enqueue req p =
    if is_saturated p.max_queue_size (length p.queue)
    then settle req.id saturated p
    else record p { queue = p.queue ++ req ∷ [] }

-- With the idle workers as they were.
unfoldable pub take_idle : List ℕ → EvalWorkerRequest → WorkerPool → WorkerPool
take_idle [] req p = enqueue req p
take_idle (w ∷ idle) req p = dispatch w req (record p { idle = idle })

-- `eval`. A closed pool rejects at once, and gives no id.
unfoldable pub eval : EvalWorkerRequest → WorkerPool → WorkerPool
eval body p =
    if p.closed
    then p
    else take_idle p.idle (record body { id = p.next_id }) (record p { next_id = p.next_id + 1 })

abbrev pub message_id : EvalWorkerMessage → ℕ
message_id (response i text) = i
message_id (error i text) = i

abbrev pub message_outcome : EvalWorkerMessage → Outcome
message_outcome (response i text) = resolved text
message_outcome (error i text) = rejected text

-- The next request of the queue goes to the worker, or the worker is idle.
unfoldable pub drain_or_idle : ℕ → List EvalWorkerRequest → WorkerPool → WorkerPool
drain_or_idle w [] p = record p { idle = w ∷ p.idle }
drain_or_idle w (next ∷ queue) p = dispatch w next (record p { queue = queue })

-- With the map of the worker.
unfoldable pub answer : ℕ → EvalWorkerMessage → Option (List ℕ) → WorkerPool → WorkerPool
answer w msg none p = p
answer w msg (some ids) p =
    if not (contains (message_id msg) ids)
    then p
    else drain_or_idle w p.queue (
        settle (message_id msg) (message_outcome msg)
          (record p { pending = update w (remove_first (message_id msg) ids) p.pending }))

unfoldable pub on_message : ℕ → EvalWorkerMessage → WorkerPool → WorkerPool
on_message w msg p = answer w msg (lookup w p.pending) p

unfoldable pub settle_entries : List ℕ → Outcome → List Settled → List Settled
settle_entries [] outcome settled = settled
settle_entries (i ∷ ids) outcome settled =
    settle_entries ids outcome (record { id = i; outcome = outcome } ∷ settled)

unfoldable pub settle_all : List ℕ → Outcome → WorkerPool → WorkerPool
settle_all ids outcome p = record p { settled = settle_entries ids outcome p.settled }

-- The entries of the worker are rejected, and its map is cleared.
unfoldable pub reject_pending : ℕ → List ℕ → Option (List ℕ) → WorkerPool → WorkerPool
reject_pending w err none p = p
reject_pending w err (some ids) p =
    settle_all ids (crashed err) (record p { pending = update w [] p.pending })

-- The worker is taken out of the pool, and another is spawned.
unfoldable pub replace_worker : ℕ → WorkerPool → WorkerPool
replace_worker w p =
    if contains w p.workers
    then spawn_worker (record p {
      workers = remove_first w p.workers;
      pending = remove_slot w p.pending;
      idle = remove_first w p.idle;
    })
    else p

unfoldable pub on_worker_error : ℕ → List ℕ → WorkerPool → WorkerPool
on_worker_error w err p = replace_worker w (reject_pending w err (lookup w p.pending) p)

-- `close` ends the threads, too.
unfoldable pub close : WorkerPool → WorkerPool
close p = record p { closed = true }

-- The getters `size`, `queueDepth` and `inFlight`.
abbrev pub size : WorkerPool → ℕ
size p = length p.workers

abbrev pub queue_depth : WorkerPool → ℕ
queue_depth p = length p.queue

unfoldable pub count_ids : List Slot → ℕ
count_ids [] = 0
count_ids (slot ∷ pending) = length slot.ids + count_ids pending

abbrev pub in_flight : WorkerPool → ℕ
in_flight p = count_ids p.pending
