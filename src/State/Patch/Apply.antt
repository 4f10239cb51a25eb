-- ===== src/State/Patch/Apply.antt =====
-- src/state/patch.ts: `applyPatch` and `applyPatchOntoCurrent`.
-- `patch.indices[i]` past the end of the indices names no word: its old word reads as 0, and the
-- write changes no word.
pub mod Equal
pub mod Words
pub mod Result
pub mod Lanes
pub mod Total
pub mod Tests
use coretex_client.Prelude.{
  ℕ, zero, suc, ◌+◌, List, [], ◌∷◌, Option, none, some, Bool, true, false, not, ◌&&◌, ◌||◌, ltb,
  leb, ◌==◌, if◌then◌else◌, length, get_elem?, get_or, set,
}
use coretex_client.State.Types.{
  CortexState, Patch, PatchResult, ok, err, thrown, wrong_parent_root, wrong_type_field,
  over_budget, reserved_bit_set, noop_patch, PatchErrorCode,
}
use coretex_client.State.Types.Ranges
use coretex_client.State.Merkle.{MerkleResult, merkleize_state}
use coretex_client.State.Validate.{has_non_zero_reserved_bits, validate_policy_regions}
use coretex_client.State.Patch.Rules.{
  within, validate_patch_type, is_valid, patch_touches_header, policy_write_is_canonical_for_state,
}

unfoldable pub bytes_equal : List ℕ → List ℕ → Bool
bytes_equal [] [] = true
bytes_equal [] (b ∷ bs) = false
bytes_equal (a ∷ as') [] = false
bytes_equal (a ∷ as') (b ∷ bs) = a == b && bytes_equal as' bs

-- The word that position `k` of a patch is about.
pub old_word : List ℕ → Option ℕ → ℕ
old_word words none = 0
old_word words (some i) = get_or words i 0

-- `anyChange`, over the positions from `k` on with `n` to go.
pub any_change : ℕ → ℕ → List ℕ → Patch → Bool
any_change zero k words p = false
any_change (suc n) k words p =
    not (old_word words (get_elem? p.indices k) == get_or p.new_words k 0)
    || any_change n (suc k) words p

pub write_position : List ℕ → Option ℕ → ℕ → PatchResult (List ℕ)
write_position words none w = ok words
write_position words (some i) w =
    if within Ranges.reserved_start Ranges.reserved_end i
    then err wrong_type_field
    else if leb Ranges.word_count i
    then err wrong_type_field
    else ok (set words i w)

-- The writes, over the positions from `k` on with `n` to go.
pub apply_words : ℕ → ℕ → List ℕ → Patch → PatchResult (List ℕ)
apply_words zero k words p = ok words
apply_words (suc n) k words p =
    elim (write_position words (get_elem? p.indices k) (get_or p.new_words k 0)) [
      | ok words' ↦ apply_words n (suc k) words' p
      | err e ↦ err e
      | thrown ↦ thrown
    ]

-- The last checks, on the resulting state.
pub check_result : Bool → List ℕ → PatchResult CortexState
check_result policy_atoms_mode words =
    let s : CortexState = record { words = words } in
    if has_non_zero_reserved_bits s
    then err reserved_bit_set
    else if policy_atoms_mode
    then elim (validate_policy_regions s) [ none ↦ ok s | some e ↦ err e ]
    else ok s

-- Steps 3 to 5, which both functions share.
pub write_and_check : CortexState → Patch → Bool → PatchResult CortexState
write_and_check s p policy_atoms_mode =
    if not (any_change p.word_count 0 s.words p)
    then err noop_patch
    else elim (apply_words p.word_count 0 s.words p) [
      | ok words ↦ check_result policy_atoms_mode words
      | err e ↦ err e
      | thrown ↦ thrown
    ]

abbrev over : Patch → Bool
over p = ltb p.word_count 1 || ltb 4 p.word_count

pub apply_patch : CortexState → Patch → Bool → PatchResult CortexState
apply_patch s p policy_atoms_mode = if over p then err over_budget else elim (merkleize_state s) [
  | MerkleResult.err e ↦ thrown
  | MerkleResult.ok root ↦
      if not (bytes_equal p.parent_state_root root)
      then err wrong_parent_root
      else if not (is_valid (validate_patch_type p.patch_type p.indices))
      then err wrong_type_field
      else if policy_atoms_mode && not (policy_write_is_canonical_for_state s p)
      then err wrong_type_field
      else if policy_atoms_mode && patch_touches_header p
      then err wrong_type_field
      else write_and_check s p policy_atoms_mode
]

pub apply_patch_onto_current : CortexState → Patch → Bool → PatchResult CortexState
apply_patch_onto_current s p policy_atoms_mode =
    if over p
    then err over_budget
    else if not (is_valid (validate_patch_type p.patch_type p.indices))
    then err wrong_type_field
    else if policy_atoms_mode && patch_touches_header p
    then err wrong_type_field
    else if policy_atoms_mode && not (policy_write_is_canonical_for_state s p)
    then err wrong_type_field
    else write_and_check s p policy_atoms_mode

-- `patchMatchesEpochParent`
pub patch_matches_epoch_parent : Patch → List ℕ → Bool
patch_matches_epoch_parent p root = bytes_equal p.parent_state_root root
