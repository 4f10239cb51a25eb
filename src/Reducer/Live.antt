-- ===== src/Reducer/Live.antt =====
-- src/reducer/live-epoch.ts: the live lane, which takes patches in the order of their arrival and
-- keeps the Merkle cache by incremental updates. A miner's address is the list of its character
-- codes; a root is its bytes, of which the hex form is a rendering.
pub mod Root
use coretex_client.Prelude.{
  ℕ, zero, suc, ◌+◌, ◌≤◌, ◌≡◌, refl, List, [], ◌∷◌, ◌++◌, map, Option, none, some, Bool, true,
  false, not, ◌&&◌, ltb, leb, ◌==◌, if◌then◌else◌, length, get_or,
}
use coretex_client.Prelude.Int.{ℤ, pos}
use coretex_client.State.Types.{CortexState, Patch}
use coretex_client.State.Merkle.{
  MerkleResult, MerkleTreeCache, MerkleWordUpdate, build_merkle_cache, update_merkle_cache,
}
use coretex_client.State.Patch.Apply.{bytes_equal}
use coretex_client.Rewards.Numeric.{Numeric, bigint, WorkResult, to_big_int}
use coretex_client.Rewards.Policy.{CoreTexWorkPolicy, or_zero, outcome_coretex_state_advance}
use coretex_client.Rewards.WorkUnits.{compute_coretex_work_units_bps}
use coretex_client.Reducer.Accept.{
  MarginalEvaluator, AcceptStepCodes, AcceptStepResult, accepted, rejected, threw,
  evaluate_and_apply_onto_current,
}
use coretex_client.Reducer.Batch.{AcceptedPatch, compute_patch_hash, compute_patch_set_root}

-- `LiveRejectionCode`, less the codes that the live lane never gives.
pub data LiveRejectionCode : Type 0 where
  not_improvement wrong_parent_root invalid_target reserved_bit_set : LiveRejectionCode

pub record LiveEpochInputPatch : Type 0 where
  pub miner : List ℕ
  pub patch : Patch
  pub patch_bytes : List ℕ
  pub score_delta : ℤ
  pub marginal_evaluator : MarginalEvaluator

-- `creditUnits` is `workUnitsBps` again.
pub record StateAdvance : Type 0 where
  pub miner : List ℕ
  pub patch : Patch
  pub patch_bytes : List ℕ
  pub patch_hash : List ℕ
  pub parent_state_root : List ℕ
  pub new_state_root : List ℕ
  pub marginal_gain : ℤ
  pub work_units_bps : ℕ
  pub advance_index : ℕ

pub record LiveRejectedPatch : Type 0 where
  pub miner : List ℕ
  pub patch : Patch
  pub patch_bytes : List ℕ
  pub reason : LiveRejectionCode

pub record LiveEpochOutput : Type 0 where
  pub new_state : CortexState
  pub patch_set_root : List ℕ
  pub new_state_root : List ℕ
  pub advances : List StateAdvance
  pub rejected_set : List LiveRejectedPatch

pub record LiveEpochRewardOptions : Type 0 where
  pub qualified_screener_passes_since_last_state_advance : Option Numeric
  pub work_policy : CoreTexWorkPolicy
  pub policy_atoms_mode : Bool

-- `toLowerCase` of the characters of an address.
unfoldable pub lower_case : List ℕ → List ℕ
lower_case [] = []
lower_case (c ∷ cs) = (if leb 65 c && leb c 90 then c + 32 else c) ∷ lower_case cs

abbrev pub live_codes : AcceptStepCodes LiveRejectionCode
live_codes = record {
  not_improvement = not_improvement;
  wrong_parent = wrong_parent_root;
  reserved_bit = reserved_bit_set;
  invalid_target = invalid_target;
}

pub record LiveProgress : Type 0 where
  pub current : CortexState
  pub current_merkle : MerkleTreeCache
  pub advances : List StateAdvance
  pub rejected_set : List LiveRejectedPatch

-- `indices.map((index, i) => ({ index, word: newWords[i] ?? 0n }))`, from position `k` on.
abbrev pub merkle_updates : ℕ → List ℕ → List ℕ → List MerkleWordUpdate
merkle_updates k [] words = []
merkle_updates k (i ∷ is) words =
    record { index = i; word = get_or words k 0 } ∷ merkle_updates (suc k) is words

unfoldable pub with_rejected : LiveRejectionCode → LiveEpochInputPatch → LiveProgress → LiveProgress
with_rejected reason item g = record {
  current = g.current;
  current_merkle = g.current_merkle;
  advances = g.advances;
  rejected_set =
      g.rejected_set
      ++ (record {
        miner = item.miner;
        patch = item.patch;
        patch_bytes = item.patch_bytes;
        reason = reason;
      }
          ∷ []);
}

unfoldable pub with_advance :
    CortexState → ℤ → MerkleTreeCache → ℕ → LiveEpochInputPatch → LiveProgress → LiveProgress
with_advance s gain cache units item g = record {
  current = s;
  current_merkle = cache;
  advances =
      g.advances
      ++ (record {
        miner = lower_case item.miner;
        patch = item.patch;
        patch_bytes = item.patch_bytes;
        patch_hash = compute_patch_hash item.patch_bytes;
        parent_state_root = g.current_merkle.root;
        new_state_root = cache.root;
        marginal_gain = gain;
        work_units_bps = units;
        advance_index = length g.advances;
      }
          ∷ []);
  rejected_set = g.rejected_set;
}

-- The work units of the next advance: the counter of the options and the advances so far.
unfoldable pub advance_units : LiveEpochRewardOptions → ℕ → WorkResult ℕ
advance_units options advances =
    elim (to_big_int (or_zero options.qualified_screener_passes_since_last_state_advance)) [
      | WorkResult.ok count ↦
          compute_coretex_work_units_bps outcome_coretex_state_advance
            (some (bigint (pos (count + advances)))) options.work_policy
      | WorkResult.range_error ↦ WorkResult.range_error
    ]

unfoldable pub advance_with :
    LiveEpochRewardOptions
    → LiveEpochInputPatch
    → LiveProgress
    → CortexState
    → ℤ
    → Option LiveProgress
advance_with options item g s gain =
    elim (update_merkle_cache g.current_merkle
      (merkle_updates 0 item.patch.indices item.patch.new_words)) [
        | MerkleResult.err e ↦ none
        | MerkleResult.ok cache ↦ elim (advance_units options (length g.advances)) [
          | WorkResult.ok units ↦ some (with_advance s gain cache units item g)
          | WorkResult.range_error ↦ none
        ]
      ]

abbrev pub after_step :
    LiveEpochRewardOptions
    → LiveEpochInputPatch
    → LiveProgress
    → AcceptStepResult LiveRejectionCode
    → Option LiveProgress
after_step options item g (accepted s gain) = advance_with options item g s gain
after_step options item g (rejected reason) = some (with_rejected reason item g)
after_step options item g threw = none

-- One round of the loop; `none` is an exception.
unfoldable pub advance_step :
    ℤ → LiveEpochRewardOptions → LiveEpochInputPatch → LiveProgress → Option LiveProgress
advance_step threshold options item g =
    if not (bytes_equal item.patch.parent_state_root g.current_merkle.root)
    then some (with_rejected wrong_parent_root item g)
    else after_step options item g (
        evaluate_and_apply_onto_current g.current item.patch item.marginal_evaluator threshold true
          options.policy_atoms_mode live_codes)

unfoldable pub advance_loop :
    ℤ → LiveEpochRewardOptions → List LiveEpochInputPatch → LiveProgress → Option LiveProgress
advance_loop threshold options [] g = some g
advance_loop threshold options (item ∷ items) g = elim (advance_step threshold options item g) [
  | some g' ↦ advance_loop threshold options items g'
  | none ↦ none
]

accepted_for_root : StateAdvance → AcceptedPatch
accepted_for_root a = record {
  patch = a.patch;
  patch_bytes = a.patch_bytes;
  marginal_gain = a.marginal_gain;
  acceptance_index = a.advance_index;
}

unfoldable pub finish : LiveProgress → LiveEpochOutput
unfolding accepted_for_root
finish g = record {
  new_state = g.current;
  patch_set_root = compute_patch_set_root (map accepted_for_root g.advances);
  new_state_root = g.current_merkle.root;
  advances = g.advances;
  rejected_set = g.rejected_set;
}

unfoldable pub start : CortexState → MerkleTreeCache → LiveProgress
start parent_state cache = record {
  current = parent_state;
  current_merkle = cache;
  advances = [];
  rejected_set = [];
}

unfoldable pub advance_epoch_state :
    CortexState → List LiveEpochInputPatch → ℤ → LiveEpochRewardOptions → Option LiveEpochOutput
advance_epoch_state parent_state patches threshold options =
    elim (build_merkle_cache parent_state) [
      | MerkleResult.ok cache ↦
          elim (advance_loop threshold options patches (start parent_state cache)) [
            | some g ↦ some (finish g)
            | none ↦ none
          ]
      | MerkleResult.err e ↦ none
    ]
