-- ===== src/Substrate/SlotPolicy.antt =====
-- src/substrate/slot-policy.ts: the next slot that a patch writes. An index is a natural number; those
-- that are negative or no safe integer, which the source refuses first, are not modelled below zero.
pub mod Select
use coretex_client.Prelude.{
  ℕ, zero, suc, ◌+◌, ◌-◌, ◌*◌, ◌/◌, ◌%◌, ◌^◌, ◌≤◌, ◌<◌, min, max, ◌≡◌, ◌≢◌, ◌↔◌, ◌⊎◌, inl, inr,
  refl, sym, ap, ◌∙◌, List, [], ◌∷◌, ◌++◌, map, length, get_elem?, get_or, set, take, drop,
  replicate, tabulate, All, Option, none, some, Option-cases, Bool, true, false, not, ◌&&◌, ◌||◌,
  arith, ltb, leb, ◌==◌, if◌then◌else◌, Bool-cases, &&-eq-true, ||-eq-false, ==-eq-false, list_head,
  contains, length-append, length-set, get_elem?-set_self, get_elem?-set_ne, ==_iff, length-map,
  some-injective, positive_test, if-both,
}
use coretex_client.State.Types.Ranges

pub data SubstrateSlotRegion : Type 0 where
  memory_index retrieval_keys : SubstrateSlotRegion

pub record SelectedSubstrateSlot : Type 0 where
  pub region : SubstrateSlotRegion
  pub slot_index : ℕ
  pub word_index : ℕ
  pub capacity : ℕ
  pub wrapped : Bool

pub data SlotError : Type 0 where
  bad_advance_index bad_protected_slot no_writable_slot bad_slot_index bad_word_offset : SlotError

pub data SlotResult (A : Type 0) : Type 0 where
  ok : A → SlotResult A
  err : SlotError → SlotResult A

-- `Number.isSafeInteger` of a natural number.
abbrev pub is_safe : ℕ → Bool
is_safe n = ltb n (2 ^ 53)

-- `SUBSTRATE_SLOT_CAPACITY` and `SUBSTRATE_WORDS_PER_SLOT`.
unfoldable pub slot_capacity : SubstrateSlotRegion → ℕ
slot_capacity memory_index = 352
slot_capacity retrieval_keys = 36

unfoldable pub words_per_slot : SubstrateSlotRegion → ℕ
words_per_slot memory_index = 1
words_per_slot retrieval_keys = 8

unfoldable pub region_start : SubstrateSlotRegion → ℕ
region_start memory_index = Ranges.memory_index_start
region_start retrieval_keys = Ranges.retrieval_keys_start

unfoldable pub word_index_for_substrate_slot : SubstrateSlotRegion → ℕ → ℕ → SlotResult ℕ
word_index_for_substrate_slot region slot_index word_offset =
    if not (is_safe slot_index) || leb (slot_capacity region) slot_index
    then err bad_slot_index
    else if not (is_safe word_offset) || leb (words_per_slot region) word_offset
    then err bad_word_offset
    else ok (region_start region + slot_index * words_per_slot region + word_offset)

-- The test of the loop of `normalizeProtectedSlots` on one slot. The set is the list: only
-- membership is asked of it.
unfoldable pub protected_in_range : List ℕ → ℕ → Bool
protected_in_range [] capacity = true
protected_in_range (slot ∷ slots) capacity =
    let rest = protected_in_range slots capacity in
    if not (is_safe slot) || leb capacity slot then false else rest

unfoldable pub normalize_protected_slots : Option (List ℕ) → ℕ → SlotResult (List ℕ)
normalize_protected_slots none capacity = ok []
normalize_protected_slots (some slots) capacity =
    if protected_in_range slots capacity then ok slots else err bad_protected_slot

-- The value that the loop returns at a slot.
unfoldable pub selected :
    SubstrateSlotRegion → ℕ → ℕ → SlotResult ℕ → SlotResult SelectedSubstrateSlot
selected region advance_index slot_index (err e) = err e
selected region advance_index slot_index (ok word_index) = ok (record {
  region = region;
  slot_index = slot_index;
  word_index = word_index;
  capacity = slot_capacity region;
  wrapped = leb (slot_capacity region) advance_index;
})

-- The loop, with `tries` to go.
unfoldable pub try_slots :
    ℕ → SubstrateSlotRegion → ℕ → List ℕ → ℕ → SlotResult SelectedSubstrateSlot
try_slots zero region advance_index slots slot_index = err no_writable_slot
try_slots (suc tries) region advance_index slots slot_index =
    let next =
      try_slots tries region advance_index slots ((slot_index + 1) % slot_capacity region) in
    if contains slot_index slots
    then next
    else selected region advance_index slot_index
        (word_index_for_substrate_slot region slot_index 0)

unfoldable pub try_from :
    SubstrateSlotRegion → ℕ → SlotResult (List ℕ) → SlotResult SelectedSubstrateSlot
try_from region advance_index (err e) = err e
try_from region advance_index (ok slots) =
    try_slots (slot_capacity region) region advance_index slots
      (advance_index % slot_capacity region)

unfoldable pub select_substrate_slot :
    SubstrateSlotRegion → ℕ → Option (List ℕ) → SlotResult SelectedSubstrateSlot
select_substrate_slot region advance_index protected_slots =
    if not (is_safe advance_index)
    then err bad_advance_index
    else try_from region advance_index
        (normalize_protected_slots protected_slots (slot_capacity region))
