-- ===== src/Reducer/Batch.antt =====
-- src/reducer/reducer.ts: the batch lane. `Array.prototype.sort` is stable, so that it gives the one
-- stable order of the comparison: here an insertion sort gives it. A root is its bytes, of which
-- the hex forms are a rendering.
pub mod Reduce
pub mod Order
pub mod Partition
pub mod Greedy
use coretex_client.Prelude.{
  ℕ, zero, suc, ◌+◌, ◌≡◌, refl, List, [], ◌∷◌, ◌++◌, map, Option, none, some, Bool, true, false,
  not, ◌&&◌, ◌||◌, ltb, ◌==◌, if◌then◌else◌, contains, length,
}
use coretex_client.Prelude.Int.{ℤ, ltb_ℤ}
use coretex_client.State.Types.{CortexState, Patch}
use coretex_client.State.Keccak.{keccak256}
use coretex_client.State.Merkle.{MerkleResult, merkleize_state, add_to_set}
use coretex_client.State.Patch.Apply.{patch_matches_epoch_parent}
use coretex_client.Reducer.Accept.{
  MarginalEvaluator, stub_marginal_evaluator, AcceptStepCodes, AcceptStepResult, accepted, rejected,
  threw, evaluate_and_apply_onto_current,
}

pub data RejectionCode : Type 0 where
  target_overlap semantic_conflict wrong_parent_root invalid_target reserved_bit_set : RejectionCode

pub record ReducerInputPatch : Type 0 where
  pub patch : Patch
  pub patch_bytes : List ℕ
  pub score_delta : ℤ
  pub marginal_evaluator : MarginalEvaluator

pub record AcceptedPatch : Type 0 where
  pub patch : Patch
  pub patch_bytes : List ℕ
  pub marginal_gain : ℤ
  pub acceptance_index : ℕ

pub record RejectedPatch : Type 0 where
  pub patch : Patch
  pub patch_bytes : List ℕ
  pub reason : RejectionCode

-- `PATCH_HASH_DOMAIN_PREFIX`, the bytes of 'coretex-patch-hash-v1'.
abbrev patch_hash_domain_prefix : List ℕ
patch_hash_domain_prefix =
    99 ∷ 111 ∷ 114 ∷ 101 ∷ 116 ∷ 101 ∷ 120 ∷ 45 ∷ 112 ∷ 97 ∷ 116 ∷ 99 ∷ 104 ∷ 45 ∷ 104 ∷ 97 ∷ 115
    ∷ 104 ∷ 45 ∷ 118 ∷ 49 ∷ []

-- `computePatchHash`
pub compute_patch_hash : List ℕ → List ℕ
compute_patch_hash patch_bytes = keccak256 (patch_hash_domain_prefix ++ patch_bytes)

-- The sign of `comparePatchPriority`: negative, zero or positive.
pub data Priority : Type 0 where
  earlier same later : Priority

-- The order of the hex strings of two hashes of one length is that of their bytes.
unfoldable pub compare_bytes : List ℕ → List ℕ → Priority
compare_bytes [] [] = same
compare_bytes [] (b ∷ bs) = earlier
compare_bytes (a ∷ as') [] = later
compare_bytes (a ∷ as') (b ∷ bs) =
    if ltb a b then earlier else if ltb b a then later else compare_bytes as' bs

unfoldable pub compare_patch_priority : ReducerInputPatch → ReducerInputPatch → Priority
compare_patch_priority a b =
    if ltb_ℤ a.score_delta b.score_delta
    then later
    else if ltb_ℤ b.score_delta a.score_delta
    then earlier
    else if ltb a.patch.word_count b.patch.word_count
    then earlier
    else if ltb b.patch.word_count a.patch.word_count
    then later
    else compare_bytes (compute_patch_hash a.patch_bytes) (compute_patch_hash b.patch_bytes)

abbrev pub goes_after : Priority → Bool
goes_after later = true
goes_after _ = false

-- An item goes before the first one that it need not follow.
unfoldable pub insert : ReducerInputPatch → List ReducerInputPatch → List ReducerInputPatch
insert x [] = x ∷ []
insert x (y ∷ ys) = if goes_after (compare_patch_priority x y) then y ∷ insert x ys else x ∷ y ∷ ys

unfoldable pub stable_sort : List ReducerInputPatch → List ReducerInputPatch
stable_sort [] = []
stable_sort (x ∷ xs) = insert x (stable_sort xs)

-- `leafBuf`
leaf_buf : List AcceptedPatch → List ℕ
leaf_buf [] = []
leaf_buf (a ∷ as') = keccak256 a.patch_bytes ++ leaf_buf as'

-- `computePatchSetRoot`; of no patches it is the hash of no bytes.
pub compute_patch_set_root : List AcceptedPatch → List ℕ
unfolding leaf_buf
compute_patch_set_root as' = keccak256 (leaf_buf as')

unfoldable pub reject : RejectionCode → ReducerInputPatch → RejectedPatch
reject reason item = record { patch = item.patch; patch_bytes = item.patch_bytes; reason = reason }

-- The pre-pass: `eligible`, and `rejectedSet` after it.
unfoldable pub eligible_of : List ℕ → List ReducerInputPatch → List ReducerInputPatch
eligible_of root [] = []
eligible_of root (item ∷ items) =
    if not (patch_matches_epoch_parent item.patch root)
    then eligible_of root items
    else item ∷ eligible_of root items

unfoldable pub wrong_parent_of : List ℕ → List ReducerInputPatch → List RejectedPatch
wrong_parent_of root [] = []
wrong_parent_of root (item ∷ items) =
    if not (patch_matches_epoch_parent item.patch root)
    then reject wrong_parent_root item ∷ wrong_parent_of root items
    else wrong_parent_of root items

abbrev pub batch_codes : AcceptStepCodes RejectionCode
batch_codes = record {
  not_improvement = semantic_conflict;
  wrong_parent = wrong_parent_root;
  reserved_bit = reserved_bit_set;
  invalid_target = invalid_target;
}

-- What the greedy loop carries.
pub record Progress : Type 0 where
  pub current : CortexState
  pub accepted_set : List AcceptedPatch
  pub accepted_targets : List ℕ
  pub rejected_set : List RejectedPatch

-- `indices.some((i) => acceptedTargets.has(i))`
abbrev pub overlaps : List ℕ → List ℕ → Bool
overlaps targets [] = false
overlaps targets (i ∷ is) = contains i targets || overlaps targets is

unfoldable pub add_targets : List ℕ → List ℕ → List ℕ
add_targets [] targets = targets
add_targets (i ∷ is) targets = add_targets is (add_to_set i targets)

unfoldable pub with_rejected : RejectedPatch → Progress → Progress
with_rejected r g = record {
  current = g.current;
  accepted_set = g.accepted_set;
  accepted_targets = g.accepted_targets;
  rejected_set = g.rejected_set ++ (r ∷ []);
}

unfoldable pub with_accepted : CortexState → ℤ → ReducerInputPatch → Progress → Progress
with_accepted s gain item g = record {
  current = s;
  accepted_set =
      g.accepted_set
      ++ (record {
        patch = item.patch;
        patch_bytes = item.patch_bytes;
        marginal_gain = gain;
        acceptance_index = length g.accepted_set;
      }
          ∷ []);
  accepted_targets = add_targets item.patch.indices g.accepted_targets;
  rejected_set = g.rejected_set;
}

abbrev pub after_step :
    ReducerInputPatch → Progress → AcceptStepResult RejectionCode → Option Progress
after_step item g (accepted s gain) = some (with_accepted s gain item g)
after_step item g (rejected reason) = some (with_rejected (reject reason item) g)
after_step item g threw = none

-- One round of the greedy loop; `none` is an exception.
unfoldable pub reduce_step : ℤ → Bool → ReducerInputPatch → Progress → Option Progress
reduce_step threshold policy_atoms_mode item g =
    if overlaps g.accepted_targets item.patch.indices
    then some (with_rejected (reject target_overlap item) g)
    else after_step item g (
        evaluate_and_apply_onto_current g.current item.patch item.marginal_evaluator threshold false
          policy_atoms_mode batch_codes)

unfoldable pub reduce_loop : ℤ → Bool → List ReducerInputPatch → Progress → Option Progress
reduce_loop threshold mode [] g = some g
reduce_loop threshold mode (item ∷ items) g = elim (reduce_step threshold mode item g) [
  | some g' ↦ reduce_loop threshold mode items g'
  | none ↦ none
]

pub record ReducerOutput : Type 0 where
  pub new_state : CortexState
  pub patch_set_root : List ℕ
  pub new_state_root : List ℕ
  pub accepted_set : List AcceptedPatch
  pub rejected_set : List RejectedPatch

unfoldable pub start : CortexState → List ℕ → List ReducerInputPatch → Progress
start parent_state root patches = record {
  current = parent_state;
  accepted_set = [];
  accepted_targets = [];
  rejected_set = wrong_parent_of root patches;
}

unfoldable pub finish : Progress → Option ReducerOutput
finish g = elim (merkleize_state g.current) [
  | MerkleResult.ok root ↦ some (record {
    new_state = g.current;
    patch_set_root = compute_patch_set_root g.accepted_set;
    new_state_root = root;
    accepted_set = g.accepted_set;
    rejected_set = g.rejected_set;
  })
  | MerkleResult.err e ↦ none
]

-- Behind the root of the parent state.
unfoldable pub reduce_from :
    CortexState → List ReducerInputPatch → ℤ → Bool → List ℕ → Option ReducerOutput
reduce_from parent_state patches threshold mode root =
    elim (reduce_loop threshold mode (stable_sort (eligible_of root patches))
      (start parent_state root patches)) [ some g ↦ finish g | none ↦ none ]

unfoldable pub reduce : CortexState → List ReducerInputPatch → ℤ → Bool → Option ReducerOutput
reduce parent_state patches threshold mode = elim (merkleize_state parent_state) [
  | MerkleResult.ok root ↦ reduce_from parent_state patches threshold mode root
  | MerkleResult.err e ↦ none
]
