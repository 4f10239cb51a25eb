-- ===== src/Reducer/Batch/Partition.antt =====
-- Every patch that comes in is accepted or rejected, once; and the order of the greedy loop.
use coretex_client.Prelude.{
  ℕ, suc, ◌+◌, ◌≡◌, refl, ap, List, [], ◌∷◌, ◌++◌, some, Bool, false, length, if◌then◌else◌, arith,
  Bool-cases, Option-cases, inl, inr, some-injective,
}
use mathlib.Core.Path.{subst}
use coretex_client.Prelude.Int.{ℤ}
use coretex_client.State.Types.{CortexState, Patch}
use coretex_client.State.Patch.Apply.{patch_matches_epoch_parent}
use coretex_client.Reducer.Accept.{
  AcceptStepResult, accepted, rejected, threw, evaluate_and_apply_onto_current,
}
use coretex_client.Reducer.Batch.{
  RejectionCode, target_overlap, ReducerInputPatch, AcceptedPatch, RejectedPatch, Progress,
  compare_patch_priority, goes_after, insert, stable_sort, eligible_of, wrong_parent_of, reject,
  with_rejected, with_accepted, after_step, overlaps, reduce_step, reduce_loop, batch_codes,
}

abbrev pub count {ℓ} : {A : Type ℓ} → (A → Bool) → List A → ℕ
count f [] = 0
count f (x ∷ xs) = if f x then suc (count f xs) else count f xs

count-append {ℓ} :
    {A : Type ℓ} (f : A → Bool) (xs ys : List A) → count f (xs ++ ys) ≡ count f xs + count f ys
count-append f [] ys = omega arith
count-append f (x ∷ xs) ys =
    let rest = count-append f xs ys in
    elim (Bool-cases (f x)) [
      | inl hit ↦ ground (arith, rest, hit)
      | inr miss ↦ ground (arith, rest, miss)
    ]

module _ (f : Patch → List ℕ → Bool) where
  abbrev pub count_input : List ReducerInputPatch → ℕ
  count_input = count (λ t. f t.patch t.patch_bytes)

  abbrev pub count_accepted : List AcceptedPatch → ℕ
  count_accepted = count (λ t. f t.patch t.patch_bytes)

  abbrev pub count_rejected : List RejectedPatch → ℕ
  count_rejected = count (λ t. f t.patch t.patch_bytes)

  count-insert :
      (x : ReducerInputPatch) (xs : List ReducerInputPatch)
      → count_input (insert x xs) ≡ count_input (x ∷ xs)
  unfolding insert
  count-insert x [] = refl
  count-insert x (y ∷ ys) =
      let rest = count-insert x ys in
      elim (Bool-cases (goes_after (compare_patch_priority x y))) [
        | inl after ↦ rw (after, insert) (ground (arith, rest))
        | inr before ↦ rw (before, insert) refl
      ]

  pub count-stable_sort :
      (xs : List ReducerInputPatch) → count_input (stable_sort xs) ≡ count_input xs
  unfolding stable_sort
  count-stable_sort [] = refl
  count-stable_sort (x ∷ xs) =
      let first = count-insert x (stable_sort xs) in
      let rest = count-stable_sort xs in ground (arith, first, rest)

  pub count-eligible_of :
      (root : List ℕ) (xs : List ReducerInputPatch)
      → count_input (eligible_of root xs) + count_rejected (wrong_parent_of root xs)
        ≡ count_input xs
  unfolding eligible_of wrong_parent_of reject
  count-eligible_of root [] = refl
  count-eligible_of root (x ∷ xs) =
      let rest = count-eligible_of root xs in
      elim (Bool-cases (patch_matches_epoch_parent x.patch root)) [
        | inl match ↦ rw (match, eligible_of, wrong_parent_of) (ground (arith, rest))
        | inr other ↦ rw (other, eligible_of, wrong_parent_of) (ground (arith, rest))
      ]

  -- The patches that a run has decided on.
  abbrev pub decided : Progress → ℕ
  decided g = count_accepted g.accepted_set + count_rejected g.rejected_set

  decided-with_rejected :
      (r : RejectedPatch) (g : Progress)
      → decided (with_rejected r g) ≡ decided g + count_rejected (r ∷ [])
  unfolding with_rejected
  decided-with_rejected r g =
      let e = count-append (λ t. f t.patch t.patch_bytes) g.rejected_set (r ∷ []) in
      omega (arith, e)

  decided-with_accepted :
      (s : CortexState) (gain : ℤ) (item : ReducerInputPatch) (g : Progress)
      → decided (with_accepted s gain item g) ≡ decided g + count_input (item ∷ [])
  unfolding with_accepted
  decided-with_accepted s gain item g =
      let e =
        count-append (λ t. f t.patch t.patch_bytes) g.accepted_set
          (record {
            patch = item.patch;
            patch_bytes = item.patch_bytes;
            marginal_gain = gain;
            acceptance_index = length g.accepted_set;
          }
            ∷ []) in
      omega (arith, e)

  after_step-decided :
      (item : ReducerInputPatch) (g g' : Progress) (r : AcceptStepResult RejectionCode)
      → after_step item g r ≡ some g'
      → decided g' ≡ decided g + count_input (item ∷ [])
  unfolding reject
  after_step-decided item g g' (accepted s gain) h =
      subst (λ t. decided t ≡ decided g + count_input (item ∷ [])) (some-injective h)
        (decided-with_accepted s gain item g)
  after_step-decided item g g' (rejected reason) h =
      subst (λ t. decided t ≡ decided g + count_input (item ∷ [])) (some-injective h)
        (decided-with_rejected (reject reason item) g)
  after_step-decided item g g' threw h = cc

  reduce_step-decided :
      (threshold : ℤ) (mode : Bool) (item : ReducerInputPatch) (g g' : Progress)
      → reduce_step threshold mode item g ≡ some g'
      → decided g' ≡ decided g + count_input (item ∷ [])
  unfolding reduce_step reject
  reduce_step-decided threshold mode item g g' h =
      elim (Bool-cases (overlaps g.accepted_targets item.patch.indices)) [
        | inl over ↦
            subst (λ t. decided t ≡ decided g + count_input (item ∷ []))
              (some-injective (rw over at h)) (decided-with_rejected (reject target_overlap item) g)
        | inr apart ↦
            after_step-decided item g g'
              (evaluate_and_apply_onto_current g.current item.patch item.marginal_evaluator
                threshold false mode batch_codes)
              (rw apart at h)
      ]

  pub reduce_loop-decided :
      (threshold : ℤ) (mode : Bool) (items : List ReducerInputPatch) (g g' : Progress)
      → reduce_loop threshold mode items g ≡ some g'
      → decided g' ≡ decided g + count_input items
  unfolding reduce_loop
  reduce_loop-decided threshold mode [] g g' h =
      let e = ap decided (some-injective h) in omega (arith, e)
  reduce_loop-decided threshold mode (item ∷ items) g g' h =
      elim (Option-cases (reduce_step threshold mode item g)) [
        | inl stop ↦ absurd (cc (rw (stop, reduce_loop) at h))
        | inr (next, step) ↦
            let rest =
              reduce_loop-decided threshold mode items next g' (rw (step, reduce_loop) at h) in
            let first = reduce_step-decided threshold mode item g next step in
            ground (arith, rest, first)
      ]
