-- ===== src/Workers/Pool/Invariant.antt =====
-- The invariant of the worker pool of src/workers/pool.ts: which workers are idle, and where each
-- request is.
use coretex_client.Prelude.{
  ℕ, zero, suc, ◌+◌, ◌≤◌, ◌<◌, ◌≡◌, ◌⊎◌, inl, inr, refl, sym, ap, ◌∙◌, List, [], ◌∷◌, length,
  Option, some, true, false, arith, ltb, ◌==◌, Bool-cases, ==_iff, some-injective,
}
use coretex_client.Workers.Pool.Slots.{
  lookup, update, keys, occ, occ_slots, one_if, occ-append, lookup-update_self, lookup-update_ne,
  keys-update, occ_slots-update, found-keys,
}
use coretex_client.Workers.Pool.{
  EvalWorkerRequest, WorkerPool, Settled, dispatch, drain_or_idle, spawn_worker, spawn_workers,
  new_pool,
}
use mathlib.Core.Path.{subst}

abbrev pub occ_queue : ℕ → List EvalWorkerRequest → ℕ
occ_queue i [] = 0
occ_queue i (req ∷ queue) = one_if (i == req.id) + occ_queue i queue

abbrev pub occ_settled : ℕ → List Settled → ℕ
occ_settled i [] = 0
occ_settled i (s ∷ settled) = one_if (i == s.id) + occ_settled i settled

-- Each id given so far is once in the queue, at a worker, settled, or one of `extra`.
pub record IsCore (extra : List ℕ) (p : WorkerPool) : Type 0 where
  pub idle_distinct : (w : ℕ) → occ w p.idle ≤ 1
  pub idle_empty : (w : ℕ) → 0 < occ w p.idle → lookup w p.pending ≡ some []
  pub keys_old : (w : ℕ) → keys w p.pending ≤ one_if (ltb w p.next_worker)
  pub keys_workers : (w : ℕ) → keys w p.pending ≡ occ w p.workers
  pub one_each : (w : ℕ) (ids : List ℕ) → lookup w p.pending ≡ some ids → length ids ≤ 1
  pub accounted :
      (i : ℕ)
      → occ_queue i p.queue + occ_slots i p.pending + occ_settled i p.settled + occ i extra
        ≡ one_if (ltb i p.next_id)

-- The invariant between two events.
pub record IsPool (p : WorkerPool) : Type 0 where
  pub core : IsCore [] p
  pub empty_idle : (w : ℕ) → lookup w p.pending ≡ some [] → 0 < occ w p.idle

-- A worker of the pool has nothing to do, and is not in the list of the idle ones.
pub record IsFree (w : ℕ) (extra : List ℕ) (p : WorkerPool) : Type 0 where
  pub core : IsCore extra p
  pub free : lookup w p.pending ≡ some []
  pub not_idle : occ w p.idle ≡ 0
  pub others : (v : ℕ) → (v == w) ≡ false → lookup v p.pending ≡ some [] → 0 < occ v p.idle

pub test_refl : (w : ℕ) → (w == w) ≡ true
test_refl w = ground arith

pub test_eq : (v w : ℕ) → (v == w) ≡ true → v ≡ w
test_eq v w h = (==_iff v w).0 h

pub zero_or_pos : (n : ℕ) → (n ≡ 0) ⊎ (0 < n)
zero_or_pos n = ground arith

-- A worker that is idle is not the free one.
pub differs : (w v : ℕ) (idle : List ℕ) → occ w idle ≡ 0 → 0 < occ v idle → (v == w) ≡ false
differs w v idle h k = elim (Bool-cases (v == w)) [
  | inl e ↦
      let n : occ v idle ≡ 0 = ap (λ (x : ℕ). occ x idle) (test_eq v w e) ∙ h in
      absurd (omega arith)
  | inr e ↦ e
]

abbrev dispatched : ℕ → EvalWorkerRequest → WorkerPool → WorkerPool
dispatched w req p = record p {
  pending = update w (req.id ∷ []) p.pending;
  posted = record { worker = w; req = req } ∷ p.posted;
}

pub dispatch-eq :
    (w : ℕ) (req : EvalWorkerRequest) (p : WorkerPool)
    → lookup w p.pending ≡ some []
    → dispatch w req p ≡ dispatched w req p
unfolding dispatch
dispatch-eq w req p h = rw (h, dispatch) refl

module _ (w : ℕ) (req : EvalWorkerRequest) (p : WorkerPool) (h : IsFree w (req.id ∷ []) p) where
  after_self :
      (v : ℕ) → (v == w) ≡ true → lookup v (update w (req.id ∷ []) p.pending) ≡ some (req.id ∷ [])
  after_self v e =
      ap (λ (x : ℕ). lookup x (update w (req.id ∷ []) p.pending)) (test_eq v w e)
      ∙ lookup-update_self w (req.id ∷ []) p.pending h.free

  dispatched-IsCore : IsCore [] (dispatched w req p)
  unfolding occ
  dispatched-IsCore = record {
    idle_distinct = h.core.idle_distinct;
    idle_empty = λ v k.
        lookup-update_ne w v (req.id ∷ []) p.pending (differs w v p.idle h.not_idle k)
        ∙ h.core.idle_empty v k;
    keys_old = λ v. rw (keys-update w v (req.id ∷ []) p.pending) (h.core.keys_old v);
    keys_workers = λ v. keys-update w v (req.id ∷ []) p.pending ∙ h.core.keys_workers v;
    one_each = λ v ids k. elim (Bool-cases (v == w)) [
      | inl e ↦
          let n : ids ≡ req.id ∷ [] = some-injective (sym k ∙ after_self v e) in
          subst (λ (l : List ℕ). length l ≤ 1) (sym n) (omega arith)
      | inr e ↦ h.core.one_each v ids (sym (lookup-update_ne w v (req.id ∷ []) p.pending e) ∙ k)
    ];
    accounted = λ i.
        let a = h.core.accounted i in
        let b = occ_slots-update i w (req.id ∷ []) p.pending h.free in move_id i a b;
  }
    where
      move_id :
          (i : ℕ)
          → occ_queue i p.queue
              + occ_slots i p.pending
              + occ_settled i p.settled
              + occ i (req.id ∷ [])
            ≡ one_if (ltb i p.next_id)
          → occ_slots i (update w (req.id ∷ []) p.pending) + occ i []
            ≡ occ_slots i p.pending + occ i (req.id ∷ [])
          → occ_queue i p.queue
              + occ_slots i (update w (req.id ∷ []) p.pending)
              + occ_settled i p.settled
              + occ i []
            ≡ one_if (ltb i p.next_id)
      move_id i a b = omega arith

  dispatched-IsPool : IsPool (dispatched w req p)
  dispatched-IsPool = record {
    core = dispatched-IsCore;
    empty_idle = λ v k. elim (Bool-cases (v == w)) [
      | inl e ↦ absurd (let n : [] ≡ req.id ∷ [] = some-injective (sym k ∙ after_self v e) in cc)
      | inr e ↦ h.others v e (sym (lookup-update_ne w v (req.id ∷ []) p.pending e) ∙ k)
    ];
  }

  pub dispatch-IsPool : IsPool (dispatch w req p)
  dispatch-IsPool = subst IsPool (sym (dispatch-eq w req p h.free)) dispatched-IsPool

-- A worker that is made idle, or takes the next request.
idle-IsPool : (w : ℕ) (p : WorkerPool) → IsFree w [] p → IsPool (record p { idle = w ∷ p.idle })
unfolding occ
idle-IsPool w p h = record {
  core = record {
    idle_distinct = λ v. elim (Bool-cases (v == w)) [
      | inl e ↦
          let n : occ v p.idle ≡ 0 = ap (λ (x : ℕ). occ x p.idle) (test_eq v w e) ∙ h.not_idle in
          rw e (omega arith)
      | inr e ↦ rw e (let n = h.core.idle_distinct v in omega arith)
    ];
    idle_empty = λ v k. elim (Bool-cases (v == w)) [
      | inl e ↦ ap (λ (x : ℕ). lookup x p.pending) (test_eq v w e) ∙ h.free
      | inr e ↦ h.core.idle_empty v (let n : 0 < 0 + occ v p.idle = rw e at k in omega arith)
    ];
    keys_old = h.core.keys_old;
    keys_workers = h.core.keys_workers;
    one_each = h.core.one_each;
    accounted = h.core.accounted;
  };
  empty_idle = λ v k. elim (Bool-cases (v == w)) [
    | inl e ↦ rw e (omega arith)
    | inr e ↦ rw e (let n = h.others v e k in omega arith)
  ];
}

dequeued-IsFree :
    (w : ℕ) (next : EvalWorkerRequest) (queue : List EvalWorkerRequest) (p : WorkerPool)
    → p.queue ≡ next ∷ queue
    → IsFree w [] p
    → IsFree w (next.id ∷ []) (record p { queue = queue })
unfolding occ
dequeued-IsFree w next queue p e h = record {
  core = record {
    idle_distinct = h.core.idle_distinct;
    idle_empty = h.core.idle_empty;
    keys_old = h.core.keys_old;
    keys_workers = h.core.keys_workers;
    one_each = h.core.one_each;
    accounted = λ i.
        let a = h.core.accounted i in
        let b = ap (λ (q : List EvalWorkerRequest). occ_queue i q) e in omega (arith, a, b);
  };
  free = h.free;
  not_idle = h.not_idle;
  others = h.others;
}

pub drain_or_idle-IsPool :
    (w : ℕ) (queue : List EvalWorkerRequest) (p : WorkerPool)
    → p.queue ≡ queue
    → IsFree w [] p
    → IsPool (drain_or_idle w queue p)
unfolding drain_or_idle
drain_or_idle-IsPool w [] p e h = idle-IsPool w p h
drain_or_idle-IsPool w (next ∷ queue) p e h =
    dispatch-IsPool w next (record p { queue = queue }) (dequeued-IsFree w next queue p e h)

-- A worker that was spawned.
module _ (p : WorkerPool) (h : IsPool p) where
  none_yet : keys p.next_worker p.pending ≡ 0
  none_yet =
      let m : ltb p.next_worker p.next_worker ≡ false = ground arith in
      let k : keys p.next_worker p.pending ≤ 0 = rw m at (h.core.keys_old p.next_worker) in
      omega arith

  not_idle_yet : occ p.next_worker p.idle ≡ 0
  not_idle_yet = elim (zero_or_pos (occ p.next_worker p.idle)) [
    | inl e ↦ e
    | inr k ↦
        let n = found-keys p.next_worker p.pending (h.core.idle_empty p.next_worker k) in
        let m = none_yet in absurd (omega arith)
  ]

  spawned_found :
      (v : ℕ) (ids : List ℕ)
      → lookup v (record { worker = p.next_worker; ids = [] } ∷ p.pending) ≡ some ids
      → ((v == p.next_worker) ≡ true) × (ids ≡ [])
        ⊎ ((v == p.next_worker) ≡ false) × (lookup v p.pending ≡ some ids)
  unfolding lookup
  spawned_found v ids k = elim (Bool-cases (v == p.next_worker)) [
    | inl e ↦ inl (e, some-injective (sym (rw e at k)))
    | inr e ↦ inr (e, (rw e at k))
  ]

  spawned-IsCore : IsCore [] (spawn_worker p)
  unfolding spawn_worker occ keys lookup occ_slots
  spawned-IsCore = record {
    idle_distinct = λ v. elim (Bool-cases (v == p.next_worker)) [
      | inl e ↦
          let n : occ v p.idle ≡ 0 =
            ap (λ (x : ℕ). occ x p.idle) (test_eq v p.next_worker e) ∙ not_idle_yet in
          rw e (omega arith)
      | inr e ↦ rw e (let n = h.core.idle_distinct v in omega arith)
    ];
    idle_empty = λ v k. elim (Bool-cases (v == p.next_worker)) [
      | inl e ↦ rw e refl
      | inr e ↦ rw e (h.core.idle_empty v (let n : 0 < 0 + occ v p.idle = rw e at k in omega arith))
    ];
    keys_old = λ v. let n = h.core.keys_old v in grind arith;
    keys_workers = λ v.
        let n = h.core.keys_workers v in
        let m = occ-append v p.workers (p.next_worker ∷ []) in omega (arith, n, m);
    one_each = λ v ids k. elim (spawned_found v ids k) [
      | inl (e, n) ↦ subst (λ (l : List ℕ). length l ≤ 1) (sym n) (omega arith)
      | inr (e, n) ↦ h.core.one_each v ids n
    ];
    accounted = λ i. let n = h.core.accounted i in omega arith;
  }

  pub spawn_worker-IsPool : IsPool (spawn_worker p)
  unfolding spawn_worker occ
  spawn_worker-IsPool = record {
    core = spawned-IsCore;
    empty_idle = λ v k. elim (spawned_found v [] k) [
      | inl (e, n) ↦ rw e (omega arith)
      | inr (e, n) ↦ (let n = h.empty_idle v n in omega arith)
    ];
  }

pub spawn_workers-IsPool : (n : ℕ) (p : WorkerPool) → IsPool p → IsPool (spawn_workers n p)
unfolding spawn_workers
spawn_workers-IsPool zero p h = h
spawn_workers-IsPool (suc n) p h = spawn_workers-IsPool n (spawn_worker p) (spawn_worker-IsPool p h)

pub new_pool-IsPool : (size : ℕ) (limit : Option ℕ) → IsPool (new_pool size limit)
unfolding new_pool occ keys lookup occ_slots
new_pool-IsPool size limit = spawn_workers-IsPool size _ (record {
  core = record {
    idle_distinct = λ v. omega arith;
    idle_empty = λ v k. absurd (omega arith);
    keys_old = λ v. omega arith;
    keys_workers = λ v. refl;
    one_each = λ v ids k. absurd (cc);
    accounted = λ i. ground arith;
  };
  empty_idle = λ v k. absurd (cc);
})
