-- ===== src/Reducer/Batch/Reduce.antt =====
-- The batch reducer as a whole.
use coretex_client.Prelude.{
  ℕ, ◌+◌, ◌≡◌, refl, List, [], ◌∷◌, some, Bool, arith, All, get_or, Bool-cases, inl, inr,
}
use coretex_client.Prelude.Int.{ℤ}
use coretex_client.State.Types.{CortexState, Patch, IsState}
use coretex_client.State.Merkle.{MerkleResult, cache_of, merkleize_state}
use coretex_client.State.Merkle.Update.{merkleize_state-cache_of}
use coretex_client.State.Patch.Apply.{patch_matches_epoch_parent}
use coretex_client.Reducer.Batch.{
  ReducerInputPatch, Progress, ReducerOutput, compare_patch_priority, goes_after, insert,
  stable_sort, eligible_of, start, finish, reduce_loop, reduce_from, reduce, compute_patch_set_root,
}
use coretex_client.Reducer.Batch.Partition.{
  count_input, count_accepted, count_rejected, count-stable_sort, count-eligible_of,
  reduce_loop-decided,
}
use coretex_client.Reducer.Batch.Greedy.{
  IsDecoded, IsSettled, Avoids, IsGreedy, reduce_loop-IsGreedy,
}

Decoded : ReducerInputPatch → Type 0
Decoded t = IsDecoded t.patch

-- What the output of the reducer is.
pub record IsReduced (parent : CortexState) (patches : List ReducerInputPatch) (threshold : ℤ)
    (out : ReducerOutput) : Type 0 where
  pub well_formed : IsState out.new_state
  pub root : merkleize_state out.new_state ≡ MerkleResult.ok out.new_state_root
  pub targets : List ℕ
  pub settled : All (IsSettled out.new_state targets threshold) out.accepted_set
  pub untouched :
      (i : ℕ)
      → All (Avoids i) out.accepted_set
      → get_or out.new_state.words i 0 ≡ get_or parent.words i 0
  pub partition :
      (f : Patch → List ℕ → Bool)
      → count_accepted f out.accepted_set + count_rejected f out.rejected_set
        ≡ count_input f patches

eligible_of-Decoded :
    (root : List ℕ) (xs : List ReducerInputPatch)
    → All Decoded xs
    → All Decoded (eligible_of root xs)
unfolding eligible_of
eligible_of-Decoded root [] h = tt
eligible_of-Decoded root (x ∷ xs) h =
    let rest = eligible_of-Decoded root xs h.1 in
    elim (Bool-cases (patch_matches_epoch_parent x.patch root)) [
      | inl match ↦ rw (match, eligible_of) (h.0, rest)
      | inr other ↦ rw (other, eligible_of) rest
    ]

insert-Decoded :
    (x : ReducerInputPatch) (xs : List ReducerInputPatch)
    → Decoded x
    → All Decoded xs
    → All Decoded (insert x xs)
unfolding insert
insert-Decoded x [] hx h = (hx, tt)
insert-Decoded x (y ∷ ys) hx h = elim (Bool-cases (goes_after (compare_patch_priority x y))) [
  | inl after ↦ rw (after, insert) (h.0, insert-Decoded x ys hx h.1)
  | inr before ↦ rw (before, insert) (hx, h)
]

stable_sort-Decoded : (xs : List ReducerInputPatch) → All Decoded xs → All Decoded (stable_sort xs)
unfolding stable_sort
stable_sort-Decoded [] h = tt
stable_sort-Decoded (x ∷ xs) h = insert-Decoded x (stable_sort xs) h.0 (stable_sort-Decoded xs h.1)

start-IsGreedy :
    (parent : CortexState) (root : List ℕ) (patches : List ReducerInputPatch) (threshold : ℤ)
    (mode : Bool)
    → IsState parent
    → IsGreedy parent threshold mode (start parent root patches)
unfolding start
start-IsGreedy parent root patches threshold mode h = record {
  well_formed = h;
  settled = tt;
  exact = λ i avoid. refl;
  untouched = λ i out. refl;
}

finish-eq :
    (g : Progress) (root : List ℕ)
    → merkleize_state g.current ≡ MerkleResult.ok root
    → finish g
      ≡ some (record {
        new_state = g.current;
        patch_set_root = compute_patch_set_root g.accepted_set;
        new_state_root = root;
        accepted_set = g.accepted_set;
        rejected_set = g.rejected_set;
      })
unfolding finish
finish-eq g root e = rw (e, finish) refl

reduce-eq :
    (parent : CortexState) (patches : List ReducerInputPatch) (threshold : ℤ) (mode : Bool)
    (root : List ℕ) (g : Progress) (out : ReducerOutput)
    → merkleize_state parent ≡ MerkleResult.ok root
    → reduce_loop threshold mode
        (stable_sort (eligible_of root patches))
        (start parent root patches)
      ≡ some g
    → finish g ≡ some out
    → reduce parent patches threshold mode ≡ some out
unfolding reduce reduce_from
reduce-eq parent patches threshold mode root g out known run last =
    rw (known, run, reduce, reduce_from) last

-- On a parent state of 1024 words and decoded patches `reduce` returns. Its state is well formed
-- and its root is that state's; each accepted patch gains the threshold at least, and all its
-- words stand in the final state; a word that no accepted patch names is the parent's; and the
-- patches with any given property number the same in the input as in the accepted and rejected
-- sets together.
pub reduce-IsReduced :
    (parent : CortexState) (patches : List ReducerInputPatch) (threshold : ℤ) (mode : Bool)
    → IsState parent
    → All (λ t. IsDecoded t.patch) patches
    → (out : ReducerOutput) × (reduce parent patches threshold mode ≡ some out)
      × IsReduced parent patches threshold out
unfolding Decoded start
reduce-IsReduced parent patches threshold mode hp hd =
    let root = (cache_of parent.words).root in
    let ordered = stable_sort (eligible_of root patches) in
    let first = start parent root patches in
    let decoded =
      stable_sort-Decoded (eligible_of root patches) (eligible_of-Decoded root patches hd) in
    let (g, run, kept) =
      reduce_loop-IsGreedy parent threshold mode ordered first decoded
        (start-IsGreedy parent root patches threshold mode hp) in
    let known = merkleize_state-cache_of parent hp.word_count in
    let last = merkleize_state-cache_of g.current kept.well_formed.word_count in
    let partition : (f : Patch → List ℕ → Bool)
        → count_accepted f g.accepted_set + count_rejected f g.rejected_set
          ≡ count_input f patches =
      λ f.
        let sorted = count-stable_sort f (eligible_of root patches) in
        let split = count-eligible_of f root patches in
        let loop = reduce_loop-decided f threshold mode ordered first g run in
        omega (arith, sorted, split, loop) in
    (
      record {
        new_state = g.current;
        patch_set_root = compute_patch_set_root g.accepted_set;
        new_state_root = (cache_of g.current.words).root;
        accepted_set = g.accepted_set;
        rejected_set = g.rejected_set;
      },
      reduce-eq parent patches threshold mode root g _ known run (finish-eq g _ last),
      record {
        well_formed = kept.well_formed;
        root = last;
        targets = g.accepted_targets;
        settled = kept.settled;
        untouched = λ i avoid. kept.untouched i (kept.exact i avoid);
        partition = partition;
      },
    )
