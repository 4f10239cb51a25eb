-- ===== src/State/Validate.antt =====
-- src/state/validate.ts: the reserved bits of a state, and the checks on its policy regions.
use coretex_client.Prelude.{
  ℕ, zero, suc, ◌+◌, ◌-◌, ◌*◌, ◌%◌, ◌^◌, List, Option, none, some, Bool, false, not, ◌&&◌, ◌||◌,
  ltb, ◌==◌, if◌then◌else◌, get_or, ◌≡◌, ◌≢◌, arith,
}
use coretex_client.State.Types.{CortexState, PatchErrorCode}
use coretex_client.State.Types.Ranges
use coretex_client.State.Patch.Rules.{within}
use coretex_client.Substrate.PolicyAtoms.{
  evidence_bundle, conflict_lifecycle, abstention, decode_policy_atom_region,
  policy_reserved_non_zero_words,
}
use Prim.Native.Nat.{bit_and, bit_or}

abbrev uint256_max : ℕ
uint256_max = 2 ^ 256 - 1

-- The bits from `hi` down to `lo`, both included.
flags_mask : ℕ → ℕ → ℕ
flags_mask hi lo = if ltb hi lo then 0 else (2 ^ (hi + 1 - lo) - 1) * 2 ^ lo

header_reserved_mask : ℕ → ℕ
unfolding flags_mask
header_reserved_mask i =
    if i == 0
    then bit_or (2 ^ 192 - 1) (flags_mask 207 193)
    else if i == 1
    then 2 ^ 128 - 1
    else if within 2 7 i
    then 0
    else if i == 8
    then 2 ^ 64 - 1
    else if within 9 10 i
    then 0
    else uint256_max

-- The masks of the memory-index, retrieval-key and codebook slots are 0 in every word of a slot.
memory_index_slot_reserved_mask : ℕ → ℕ
memory_index_slot_reserved_mask slot_word = 0

retrieval_key_slot_reserved_mask : ℕ → ℕ
retrieval_key_slot_reserved_mask slot_word = 0

codebook_slot_reserved_mask : ℕ → ℕ
codebook_slot_reserved_mask slot_word = 0

unfoldable pub reserved_mask : ℕ → ℕ
unfolding header_reserved_mask memory_index_slot_reserved_mask retrieval_key_slot_reserved_mask
    codebook_slot_reserved_mask
reserved_mask i =
    if within Ranges.reserved_start Ranges.reserved_end i
    then uint256_max
    else if within Ranges.header_start Ranges.header_end i
    then header_reserved_mask i
    else if within Ranges.memory_index_start Ranges.memory_index_end i
    then memory_index_slot_reserved_mask 0
    else if within Ranges.retrieval_keys_start Ranges.retrieval_keys_end i
    then retrieval_key_slot_reserved_mask ((i - Ranges.retrieval_keys_start) % 8)
    else if within Ranges.relations_start Ranges.relations_end i
    then 0
    else if within Ranges.temporal_start Ranges.temporal_end i
    then 2 ^ 152 - 1
    else if within Ranges.codebook_start Ranges.codebook_end i
    then codebook_slot_reserved_mask ((i - Ranges.codebook_start) % 2)
    else 0

-- Does the word at `i` have a reserved bit?
unfoldable pub word_has_reserved_bit : List ℕ → ℕ → Bool
word_has_reserved_bit words i =
    not (reserved_mask i == 0) && not (bit_and (get_or words i 0) (reserved_mask i) == 0)

-- The words from `i` on, with `n` to go.
unfoldable pub reserved_bits_loop : ℕ → ℕ → List ℕ → Bool
reserved_bits_loop zero i words = false
reserved_bits_loop (suc n) i words =
    word_has_reserved_bit words i || reserved_bits_loop n (suc i) words

unfoldable pub has_non_zero_reserved_bits : CortexState → Bool
has_non_zero_reserved_bits s = reserved_bits_loop Ranges.word_count 0 s.words

pub validate_reserved_bits : CortexState → Option PatchErrorCode
validate_reserved_bits s =
    if has_non_zero_reserved_bits s then some PatchErrorCode.reserved_bit_set else none

-- The first violation in the policy regions.
unfoldable pub validate_policy_regions : CortexState → Option PatchErrorCode
validate_policy_regions s =
    if ltb 0 (decode_policy_atom_region s evidence_bundle).failures
    then some PatchErrorCode.wrong_type_field
    else if ltb 0 (decode_policy_atom_region s conflict_lifecycle).failures
    then some PatchErrorCode.wrong_type_field
    else if ltb 0 (decode_policy_atom_region s abstention).failures
    then some PatchErrorCode.wrong_type_field
    else if ltb 0 (policy_reserved_non_zero_words s)
    then some PatchErrorCode.reserved_bit_set
    else none

-- A violation of the policy regions is one of two codes.
pub validate_policy_regions_codes :
    (s : CortexState) {e : PatchErrorCode}
    → validate_policy_regions s ≡ some e
    → e ≢ PatchErrorCode.wrong_parent_root
unfolding validate_policy_regions
validate_policy_regions_codes s h = λ w. ground arith
