-- ===== src/Workers/Pool/Events.antt =====
-- Each event of the worker pool of src/workers/pool.ts keeps the invariant.
use coretex_client.Prelude.{
  ℕ, ◌+◌, ◌≤◌, ◌<◌, ◌≡◌, inl, inr, refl, sym, ap, ◌∙◌, List, [], ◌∷◌, ◌++◌, length, Option, none,
  some, Bool, true, false, arith, ◌==◌, if◌then◌else◌, Bool-cases, contains, some-injective,
  if-both,
}
use coretex_client.Workers.Pool.Slots.{
  lookup, update, remove_first, occ, occ-remove_first, lookup-update_self, lookup-update_ne,
  keys-update, occ_slots-update, length-remove_first,
}
use coretex_client.Workers.Pool.{
  EvalWorkerRequest, EvalWorkerMessage, WorkerPool, saturated, settle, is_saturated, enqueue,
  take_idle, eval, message_id, message_outcome, answer, on_message,
}
use coretex_client.Workers.Pool.Invariant.{
  occ_queue, IsCore, IsPool, IsFree, test_eq, differs, zero_or_pos, dispatch-IsPool,
  drain_or_idle-IsPool,
}
use mathlib.Core.Path.{subst}

occ_queue-append :
    (i : ℕ) (xs ys : List EvalWorkerRequest)
    → occ_queue i (xs ++ ys) ≡ occ_queue i xs + occ_queue i ys
occ_queue-append i [] ys = omega arith
occ_queue-append i (x ∷ xs) ys = let h = occ_queue-append i xs ys in omega arith

-- The invariant while the id of a request is given, and the request is nowhere yet.
abbrev numbered : WorkerPool → WorkerPool
numbered p = record p { next_id = p.next_id + 1 }

numbered-IsCore : (p : WorkerPool) → IsPool p → IsCore (p.next_id ∷ []) (numbered p)
unfolding occ
numbered-IsCore p h = record {
  idle_distinct = h.core.idle_distinct;
  idle_empty = h.core.idle_empty;
  keys_old = h.core.keys_old;
  keys_workers = h.core.keys_workers;
  one_each = h.core.one_each;
  accounted = λ i. let n = h.core.accounted i in grind arith;
}

-- A request that waits or is refused.
enqueue-IsPool :
    (req : EvalWorkerRequest) (p : WorkerPool)
    → IsCore (req.id ∷ []) p
    → ((w : ℕ) → lookup w p.pending ≡ some [] → 0 < occ w p.idle)
    → IsPool (enqueue req p)
unfolding enqueue settle occ
enqueue-IsPool req p core empty = split (is_saturated p.max_queue_size (length p.queue))
  where
    split :
        (b : Bool)
        → IsPool (if b then settle req.id saturated p else record p { queue = p.queue ++ req ∷ [] })
    split true = record {
      core = record {
        idle_distinct = core.idle_distinct;
        idle_empty = core.idle_empty;
        keys_old = core.keys_old;
        keys_workers = core.keys_workers;
        one_each = core.one_each;
        accounted = λ i. let n = core.accounted i in omega arith;
      };
      empty_idle = empty;
    }
    split false = record {
      core = record {
        idle_distinct = core.idle_distinct;
        idle_empty = core.idle_empty;
        keys_old = core.keys_old;
        keys_workers = core.keys_workers;
        one_each = core.one_each;
        accounted = λ i.
            let n = core.accounted i in
            let m = occ_queue-append i p.queue (req ∷ []) in omega arith;
      };
      empty_idle = empty;
    }

-- The idle worker at the top of the stack is free.
popped-IsFree :
    (w : ℕ) (idle : List ℕ) (extra : List ℕ) (p : WorkerPool)
    → p.idle ≡ w ∷ idle
    → IsCore extra p
    → ((v : ℕ) → lookup v p.pending ≡ some [] → 0 < occ v p.idle)
    → IsFree w extra (record p { idle = idle })
unfolding occ
popped-IsFree w idle extra p e core empty =
    let at = λ (v : ℕ). ap (λ (l : List ℕ). occ v l) e in
    let self : (w == w) ≡ true = ground arith in
    let once : occ w p.idle ≡ 1 + occ w idle = (rw self at (at w)) in
    record {
      core = record {
        idle_distinct = λ v. let n = core.idle_distinct v in let m = at v in omega (arith, n, m);
        idle_empty = λ v k. core.idle_empty v (let m = at v in omega (arith, m, k));
        keys_old = core.keys_old;
        keys_workers = core.keys_workers;
        one_each = core.one_each;
        accounted = core.accounted;
      };
      free = core.idle_empty w (omega arith);
      not_idle = let n = core.idle_distinct w in omega arith;
      others = λ v d k.
          let m : occ v p.idle ≡ 0 + occ v idle = (rw d at (at v)) in
          let n = empty v k in omega arith;
    }

take_idle-IsPool :
    (idle : List ℕ) (req : EvalWorkerRequest) (p : WorkerPool)
    → p.idle ≡ idle
    → IsCore (req.id ∷ []) p
    → ((v : ℕ) → lookup v p.pending ≡ some [] → 0 < occ v p.idle)
    → IsPool (take_idle idle req p)
unfolding take_idle
take_idle-IsPool [] req p e core empty = enqueue-IsPool req p core empty
take_idle-IsPool (w ∷ idle) req p e core empty =
    dispatch-IsPool w req (record p { idle = idle })
      (popped-IsFree w idle (req.id ∷ []) p e core empty)

pub eval-IsPool : (body : EvalWorkerRequest) (p : WorkerPool) → IsPool p → IsPool (eval body p)
unfolding eval
eval-IsPool body p h = if-both IsPool p.closed p _ h (
    take_idle-IsPool p.idle (record body { id = p.next_id }) (numbered p) refl (numbered-IsCore p h)
      h.empty_idle)

-- The worker that answered is free.
module _ (w : ℕ) (msg : EvalWorkerMessage) (ids : List ℕ) (p : WorkerPool) (h : IsPool p)
    (found : lookup w p.pending ≡ some ids) (waits : contains (message_id msg) ids ≡ true) where
  left_empty : remove_first (message_id msg) ids ≡ []
  left_empty =
      let n = length-remove_first (message_id msg) ids waits in
      let m = h.core.one_each w ids found in length_zero _ (omega arith)
    where
      length_zero : (xs : List ℕ) → length xs ≡ 0 → xs ≡ []
      length_zero [] k = refl
      length_zero (x ∷ xs) k = absurd (omega arith)

  abbrev pub answered : WorkerPool
  answered =
      settle (message_id msg) (message_outcome msg)
        (record p { pending = update w (remove_first (message_id msg) ids) p.pending })

  busy : occ w p.idle ≡ 0
  busy = elim (zero_or_pos (occ w p.idle)) [
    | inl e ↦ e
    | inr k ↦
        let n : ids ≡ [] = some-injective (sym found ∙ h.core.idle_empty w k) in
        absurd (cc (subst (λ (l : List ℕ). contains (message_id msg) l ≡ true) n waits))
  ]

  emptied : lookup w (update w (remove_first (message_id msg) ids) p.pending) ≡ some []
  emptied =
      lookup-update_self w (remove_first (message_id msg) ids) p.pending found ∙ ap some left_empty

  pub answered-IsFree : IsFree w [] answered
  unfolding settle occ
  answered-IsFree =
      let left = remove_first (message_id msg) ids in
      record {
        core = record {
          idle_distinct = h.core.idle_distinct;
          idle_empty = λ v k.
              lookup-update_ne w v left p.pending (differs w v p.idle busy k)
              ∙ h.core.idle_empty v k;
          keys_old = λ v. rw (keys-update w v left p.pending) (h.core.keys_old v);
          keys_workers = λ v. keys-update w v left p.pending ∙ h.core.keys_workers v;
          one_each = λ v l k. elim (Bool-cases (v == w)) [
            | inl e ↦
                let n : l ≡ [] = some-injective (
                  sym k
                  ∙ ap (λ (x : ℕ). lookup x (update w left p.pending)) (test_eq v w e)
                  ∙ emptied) in
                subst (λ (l : List ℕ). length l ≤ 1) (sym n) (omega arith)
            | inr e ↦ h.core.one_each v l (sym (lookup-update_ne w v left p.pending e) ∙ k)
          ];
          accounted = λ i.
              let a = h.core.accounted i in
              let b = occ_slots-update i w left p.pending found in
              let c = occ-remove_first (message_id msg) i ids waits in omega (arith, a, b, c);
        };
        free = emptied;
        not_idle = busy;
        others = λ v e k. h.empty_idle v (sym (lookup-update_ne w v left p.pending e) ∙ k);
      }

answer-IsPool :
    (w : ℕ) (msg : EvalWorkerMessage) (found : Option (List ℕ)) (p : WorkerPool)
    → IsPool p
    → lookup w p.pending ≡ found
    → IsPool (answer w msg found p)
unfolding answer settle
answer-IsPool w msg none p h e = h
answer-IsPool w msg (some ids) p h e = elim (Bool-cases (contains (message_id msg) ids)) [
  | inl c ↦ rw c (
      drain_or_idle-IsPool w p.queue (answered w msg ids p h e c) refl
        (answered-IsFree w msg ids p h e c))
  | inr c ↦ rw c h
]

pub on_message-IsPool :
    (w : ℕ) (msg : EvalWorkerMessage) (p : WorkerPool) → IsPool p → IsPool (on_message w msg p)
unfolding on_message
on_message-IsPool w msg p h = answer-IsPool w msg (lookup w p.pending) p h refl
