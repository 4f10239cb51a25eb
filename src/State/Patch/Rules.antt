-- ===== src/State/Patch/Rules.antt =====
-- src/state/patch.ts: `validatePatchType` and the checks on the regions that a patch touches.
-- Indices are natural numbers, so the source's tests for a negative or fractional index fall away.
pub mod Regions
use coretex_client.Prelude.{
  ℕ, zero, suc, ◌+◌, ◌≡◌, List, [], ◌∷◌, Option, none, some, Bool, true, false, not, ◌&&◌, ◌||◌,
  ltb, leb, ◌==◌, if◌then◌else◌, get_elem?, get_or, contains,
}
use coretex_client.State.Types.{CortexState, Patch, RangeRow, patch_type_range_table}
use coretex_client.State.Types.PatchType
use coretex_client.State.Types.Ranges

-- The reasons of `validatePatchType`.
pub data TypeReason : Type 0 where
  outside_range index_reserved duplicate_index unknown_type cannot_target : TypeReason

pub data TypeCheck : Type 0 where
  valid : TypeCheck
  invalid : TypeReason → TypeCheck

abbrev pub within : ℕ → ℕ → ℕ → Bool
within start end i = leb start i && leb i end

-- `PATCH_TYPE_RANGE_TABLE.find((r) => r.typeByte === patchType)`
find_row : ℕ → List RangeRow → Option RangeRow
find_row t [] = none
find_row t (r ∷ rs) = if r.type_byte == t then some r else find_row t rs

unfoldable pub patch_type_range : ℕ → Option RangeRow
unfolding find_row patch_type_range_table
patch_type_range t = find_row t patch_type_range_table

-- The first loop, over the indices that are left; `seen` holds those before them.
unfoldable pub check_indices : List ℕ → List ℕ → TypeCheck
check_indices seen [] = valid
check_indices seen (i ∷ is) =
    if leb Ranges.word_count i
    then invalid outside_range
    else if within Ranges.reserved_start Ranges.reserved_end i
    then invalid index_reserved
    else if contains i seen
    then invalid duplicate_index
    else check_indices (i ∷ seen) is

check_targets : ℕ → ℕ → List ℕ → TypeCheck
check_targets start end [] = valid
check_targets start end (i ∷ is) =
    if ltb i start || ltb end i then invalid cannot_target else check_targets start end is

unfoldable pub check_range : Option RangeRow → List ℕ → TypeCheck
unfolding check_targets
check_range none is = invalid unknown_type
check_range (some r) is = check_targets r.start r.end is

abbrev pub and_then : TypeCheck → TypeCheck → TypeCheck
and_then valid next = next
and_then (invalid r) next = invalid r

unfoldable pub validate_patch_type : ℕ → List ℕ → TypeCheck
validate_patch_type t is =
    and_then (check_indices [] is)
      (if t == PatchType.mixed then valid else check_range (patch_type_range t) is)

abbrev pub is_valid : TypeCheck → Bool
is_valid valid = true
is_valid (invalid r) = false

-- `patch.indices[i]` for the first `word_count` positions; past the end there is no index, and
-- every comparison fails.
abbrev pub test_index : (ℕ → Bool) → Option ℕ → Bool
test_index p none = false
test_index p (some i) = p i

-- Is there a position below `n`, counted from `k`, whose index passes the test?
unfoldable pub any_index : (ℕ → Bool) → ℕ → ℕ → List ℕ → Bool
any_index p zero k is = false
any_index p (suc n) k is = test_index p (get_elem? is k) || any_index p n (suc k) is

abbrev is_policy_index : ℕ → Bool
is_policy_index i = within Ranges.policy_evidence_start Ranges.policy_abstention_end i

abbrev is_policy_mixed_companion_index : ℕ → Bool
is_policy_mixed_companion_index i =
    within Ranges.memory_index_start Ranges.memory_index_end i
    || (within Ranges.relations_start Ranges.relations_end i
        || within Ranges.temporal_start Ranges.temporal_end i)

unfoldable pub patch_touches_header : Patch → Bool
unfolding any_index
patch_touches_header p =
    any_index (within Ranges.header_start Ranges.header_end) p.word_count 0 p.indices

unfoldable pub policy_write_is_canonical : Patch → Bool
unfolding any_index
policy_write_is_canonical p =
    let touches_policy = any_index is_policy_index p.word_count 0 p.indices in
    let touches_companion =
      any_index (λ i. not (is_policy_index i) && is_policy_mixed_companion_index i) p.word_count 0
        p.indices in
    if not touches_policy
    then true
    else if p.patch_type == PatchType.policy_update
    then true
    else if p.patch_type == PatchType.mixed
    then touches_companion
    else false

-- A companion index whose word changes: the word at position `k` against the state's.
abbrev changes_companion : CortexState → Patch → ℕ → Bool
changes_companion s p k =
    test_index
      (λ i. is_policy_mixed_companion_index i && not (get_or s.words i 0 == get_or p.new_words k 0))
      (get_elem? p.indices k)

any_changed_companion : CortexState → Patch → ℕ → ℕ → Bool
any_changed_companion s p zero k = false
any_changed_companion s p (suc n) k = changes_companion s p k || any_changed_companion s p n (suc k)

unfoldable pub policy_write_is_canonical_for_state : CortexState → Patch → Bool
unfolding policy_write_is_canonical any_index any_changed_companion
policy_write_is_canonical_for_state s p =
    if not (policy_write_is_canonical p)
    then false
    else if not (any_index is_policy_index p.word_count 0 p.indices)
        || not (p.patch_type == PatchType.mixed)
    then true
    else any_changed_companion s p p.word_count 0
