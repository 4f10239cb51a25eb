-- ===== src/Workers/Pool/Failure.antt =====
-- The failure of a worker of src/workers/pool.ts keeps the invariant.
use coretex_client.Prelude.{
  ℕ, ◌+◌, ◌≤◌, ◌≡◌, inl, inr, refl, sym, ap, ◌∙◌, List, [], ◌∷◌, Option, none, some, true, false,
  arith, ltb, ◌==◌, Bool-cases, contains,
}
use coretex_client.Workers.Pool.Slots.{
  Slot, lookup, update, remove_slot, remove_first, keys, occ, one_if, occ→contains, absent,
  occ-remove_first, remove_first_absent, lookup-update_self, lookup-update_ne, keys-update,
  occ_slots-update, lookup-keys, found-keys, keys-remove_slot, occ_slots-remove_slot,
  lookup-remove_slot_ne, missing-keys, occ-absent,
}
use coretex_client.Workers.Pool.{
  WorkerPool, Settled, Outcome, crashed, settle_entries, settle_all, reject_pending, replace_worker,
  on_worker_error, close,
}
use coretex_client.Workers.Pool.Invariant.{
  occ_settled, IsCore, IsPool, differs, spawn_worker-IsPool,
}

occ_settled-entries :
    (i : ℕ) (ids : List ℕ) (outcome : Outcome) (settled : List Settled)
    → occ_settled i (settle_entries ids outcome settled) ≡ occ i ids + occ_settled i settled
unfolding settle_entries occ
occ_settled-entries i [] outcome settled = omega arith
occ_settled-entries i (j ∷ ids) outcome settled =
    let h = occ_settled-entries i ids outcome (record { id = j; outcome = outcome } ∷ settled) in
    omega arith

-- The pool without the worker that failed.
module _ (w : ℕ) (err : List ℕ) (ids : List ℕ) (p : WorkerPool) (h : IsPool p)
    (found : lookup w p.pending ≡ some ids) where
  abbrev cleared : List Slot
  cleared = update w [] p.pending

  cleared_found : lookup w cleared ≡ some []
  cleared_found = lookup-update_self w [] p.pending found

  abbrev pub without : WorkerPool
  without = record p {
    settled = settle_entries ids (crashed err) p.settled;
    workers = remove_first w p.workers;
    pending = remove_slot w cleared;
    idle = remove_first w p.idle;
  }

  pub is_worker : contains w p.workers ≡ true
  is_worker =
      let n = found-keys w p.pending found in
      let m = h.core.keys_workers w in occ→contains w p.workers (omega arith)

  keys_lem : (v : ℕ) → keys v (remove_slot w cleared) + one_if (v == w) ≡ keys v p.pending
  keys_lem v = keys-remove_slot w v cleared cleared_found ∙ keys-update w v [] p.pending

  kept_lem : (v : ℕ) → (v == w) ≡ false → lookup v (remove_slot w cleared) ≡ lookup v p.pending
  kept_lem v e = lookup-remove_slot_ne w v cleared e ∙ lookup-update_ne w v [] p.pending e

  -- Nothing is found any more.
  gone : (v : ℕ) → (v == w) ≡ true → lookup v (remove_slot w cleared) ≡ none
  gone v e =
      let k = keys_lem v in
      let b = h.core.keys_old v in
      let one : one_if (ltb v p.next_worker) ≤ 1 = ground arith in
      let k₁ : keys v (remove_slot w cleared) + 1 ≡ keys v p.pending = (rw e at k) in
      lookup-keys v (remove_slot w cleared) (omega arith)

  idle_less : (v : ℕ) → occ v (remove_first w p.idle) ≤ occ v p.idle
  idle_less v = elim (Bool-cases (contains w p.idle)) [
    | inl c ↦ (let n = occ-remove_first w v p.idle c in omega arith)
    | inr c ↦ (let n = ap (occ v) (remove_first_absent w p.idle c) in omega arith)
  ]

  idle_same : (v : ℕ) → (v == w) ≡ false → occ v (remove_first w p.idle) ≡ occ v p.idle
  idle_same v e = elim (Bool-cases (contains w p.idle)) [
    | inl c ↦
        let n : occ v (remove_first w p.idle) + 0 ≡ occ v p.idle =
          (rw e at (occ-remove_first w v p.idle c)) in
        omega arith
    | inr c ↦ ap (occ v) (remove_first_absent w p.idle c)
  ]

  -- The worker is not idle any more.
  idle_gone : occ w (remove_first w p.idle) ≡ 0
  idle_gone =
      let self : (w == w) ≡ true = ground arith in
      elim (Bool-cases (contains w p.idle)) [
        | inl c ↦
            let n : occ w (remove_first w p.idle) + 1 ≡ occ w p.idle =
              (rw self at (occ-remove_first w w p.idle c)) in
            let m = h.core.idle_distinct w in omega arith
        | inr c ↦ ap (occ w) (remove_first_absent w p.idle c) ∙ absent w p.idle c
      ]

  without-IsCore : IsCore [] without
  unfolding occ
  without-IsCore = record {
    idle_distinct = λ v. let a = idle_less v in let b = h.core.idle_distinct v in omega arith;
    idle_empty = λ v k.
        let d = differs w v (remove_first w p.idle) idle_gone k in
        let a = idle_less v in kept_lem v d ∙ h.core.idle_empty v (omega arith);
    keys_old = λ v. let a = keys_lem v in let b = h.core.keys_old v in omega arith;
    keys_workers = λ v.
        let a = keys_lem v in
        let b = h.core.keys_workers v in
        let c = occ-remove_first w v p.workers is_worker in omega arith;
    one_each = λ v l k. elim (Bool-cases (v == w)) [
      | inl e ↦ absurd (let n : none ≡ some l = sym (gone v e) ∙ k in cc)
      | inr e ↦ h.core.one_each v l (sym (kept_lem v e) ∙ k)
    ];
    accounted = λ i.
        let a = h.core.accounted i in
        let b = occ_slots-update i w [] p.pending found in
        let c = occ_slots-remove_slot i w cleared cleared_found in
        let d = occ_settled-entries i ids (crashed err) p.settled in omega arith;
  }

  without-IsPool : IsPool without
  without-IsPool = record {
    core = without-IsCore;
    empty_idle = λ v k. elim (Bool-cases (v == w)) [
      | inl e ↦ absurd (let n : none ≡ some [] = sym (gone v e) ∙ k in cc)
      | inr e ↦
          let a = h.empty_idle v (sym (kept_lem v e) ∙ k) in let b = idle_same v e in omega arith
    ];
  }

reject-IsPool :
    (w : ℕ) (err : List ℕ) (found : Option (List ℕ)) (p : WorkerPool)
    → IsPool p
    → lookup w p.pending ≡ found
    → IsPool (replace_worker w (reject_pending w err found p))
unfolding replace_worker reject_pending settle_all
reject-IsPool w err none p h e =
    let k = missing-keys w p.pending e in
    let m = h.core.keys_workers w in rw (occ-absent w p.workers (omega arith)) h
reject-IsPool w err (some ids) p h e =
    rw (is_worker w err ids p h e)
      (spawn_worker-IsPool (without w err ids p h e) (without-IsPool w err ids p h e))

pub on_worker_error-IsPool :
    (w : ℕ) (err : List ℕ) (p : WorkerPool) → IsPool p → IsPool (on_worker_error w err p)
unfolding on_worker_error
on_worker_error-IsPool w err p h = reject-IsPool w err (lookup w p.pending) p h refl

pub close-IsPool : (p : WorkerPool) → IsPool p → IsPool (close p)
unfolding close
close-IsPool p h = record {
  core = record {
    idle_distinct = h.core.idle_distinct;
    idle_empty = h.core.idle_empty;
    keys_old = h.core.keys_old;
    keys_workers = h.core.keys_workers;
    one_each = h.core.one_each;
    accounted = h.core.accounted;
  };
  empty_idle = h.empty_idle;
}
