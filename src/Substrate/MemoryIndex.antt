-- ===== src/Substrate/MemoryIndex.antt =====
-- src/substrate/retrieval-decoder.ts: the memory index, one word for each slot. The loop over further
-- words of a slot has no rounds, since a slot is one word.
pub mod Flags
pub mod RoundTrip
use coretex_client.Prelude.{
  ℕ, zero, suc, ◌+◌, ◌-◌, ◌*◌, ◌/◌, ◌%◌, ◌^◌, ◌≤◌, ◌<◌, min, max, ◌≡◌, ◌≢◌, ◌↔◌, ◌⊎◌, inl, inr,
  refl, sym, ap, ◌∙◌, List, [], ◌∷◌, ◌++◌, map, length, get_elem?, get_or, set, take, drop,
  replicate, tabulate, All, Option, none, some, Option-cases, Bool, true, false, not, ◌&&◌, ◌||◌,
  arith, ltb, leb, ◌==◌, if◌then◌else◌, Bool-cases, &&-eq-true, ||-eq-false, ==-eq-false, list_head,
  contains, length-append, length-set, get_elem?-set_self, get_elem?-set_ne, ==_iff, length-map,
  some-injective, positive_test, if-both,
}
use coretex_client.State.Types.{CortexState}
use coretex_client.State.Types.Ranges
use coretex_client.Substrate.PolicyAtoms.{field, mask}
use coretex_client.Substrate.Counts.{
  memory_index_slot_count, retrieval_key_slot_count, EncodeResult, ok, out_of_range,
}
use Prim.Native.Nat.{bit_and, bit_or}

pub data SubstrateFamily : Type 0 where
  near_collision temporal long_horizon multi_hop_relation : SubstrateFamily

pub record MemoryIndexSlot : Type 0 where
  pub slot_index : ℕ
  pub record_id : ℕ
  pub family : SubstrateFamily
  pub domain_bits : ℕ
  pub valid : Bool
  pub revoked : Bool
  pub is_protected : Bool
  pub policy_anchor : Bool
  pub retrieval_slot : ℕ
  pub expiry_epoch : ℕ

unfoldable pub family_by_bits : ℕ → Option SubstrateFamily
family_by_bits b =
    if b == 0
    then some near_collision
    else if b == 1
    then some temporal
    else if b == 2
    then some long_horizon
    else if b == 3
    then some multi_hop_relation
    else none

unfoldable pub family_to_bits : SubstrateFamily → ℕ
family_to_bits near_collision = 0
family_to_bits temporal = 1
family_to_bits long_horizon = 2
family_to_bits multi_hop_relation = 3

-- What one word is. An inactive slot is neither decoded nor a failure.
pub data MemoryWord : Type 0 where
  empty failure inactive : MemoryWord
  slot : MemoryIndexSlot → MemoryWord

-- The tests behind the one on the family.
unfoldable pub decode_family : ℕ → ℕ → Option SubstrateFamily → MemoryWord
decode_family s w none = failure
decode_family s w (some family) =
    let flags = field w 48 (mask 16) in
    let retrieval_slot = field w 40 (mask 8) in
    if leb retrieval_key_slot_count retrieval_slot
    then failure
    else if bit_and flags 1 == 0
    then inactive
    else slot (record {
      slot_index = s;
      record_id = field w 128 (mask 128);
      family = family;
      domain_bits = field w 64 (mask 60);
      valid = true;
      revoked = not (bit_and flags 2 == 0);
      is_protected = not (bit_and flags 4 == 0);
      policy_anchor = not (bit_and flags 8 == 0);
      retrieval_slot = retrieval_slot;
      expiry_epoch = field w 0 (mask 40);
    })

-- One round of the loop of `decodeMemoryIndex`.
unfoldable pub decode_memory_word : ℕ → ℕ → MemoryWord
decode_memory_word s w =
    if w == 0
    then empty
    else if field w 128 (mask 128) == 0
    then failure
    else decode_family s w (family_by_bits (field w 124 15))

pub record DecodedMemoryIndex : Type 0 where
  pub slots : List (Option MemoryIndexSlot)
  pub attempts : ℕ
  pub failures : ℕ

abbrev pub count_memory : MemoryWord → DecodedMemoryIndex → DecodedMemoryIndex
count_memory empty d = record d { slots = none ∷ d.slots }
count_memory failure d = record d {
  slots = none ∷ d.slots;
  attempts = d.attempts + 1;
  failures = d.failures + 1;
}
count_memory inactive d = record d { slots = none ∷ d.slots; attempts = d.attempts + 1 }
count_memory (slot m) d = record d { slots = some m ∷ d.slots; attempts = d.attempts + 1 }

-- The slots from `i` on, with `n` to go.
unfoldable pub decode_memory_index_from : ℕ → ℕ → CortexState → DecodedMemoryIndex
decode_memory_index_from zero i s = record { slots = []; attempts = 0; failures = 0 }
decode_memory_index_from (suc n) i s =
    count_memory (decode_memory_word i (get_or s.words (Ranges.memory_index_start + i) 0))
      (decode_memory_index_from n (suc i) s)

unfoldable pub decode_memory_index : CortexState → DecodedMemoryIndex
decode_memory_index s = decode_memory_index_from memory_index_slot_count 0 s

abbrev pub flag : Bool → ℕ → ℕ
flag b bit = if b then bit else 0

unfoldable pub slot_flags : MemoryIndexSlot → ℕ
slot_flags m =
    bit_or (bit_or (bit_or (flag m.valid 1) (flag m.revoked 2)) (flag m.is_protected 4))
      (flag m.policy_anchor 8)

-- The word and seven of padding.
unfoldable pub encode_memory_index_slot : MemoryIndexSlot → EncodeResult (List ℕ)
encode_memory_index_slot m =
    if not (m.record_id / 2 ^ 128 == 0)
    then out_of_range
    else if not (m.domain_bits / 2 ^ 60 == 0)
    then out_of_range
    else if leb retrieval_key_slot_count m.retrieval_slot
    then out_of_range
    else if not (m.expiry_epoch / 2 ^ 40 == 0)
    then out_of_range
    else ok (
        bit_or
          (bit_or
            (bit_or
              (bit_or (m.record_id * 2 ^ 128)
                (bit_or (family_to_bits m.family * 2 ^ 60) m.domain_bits * 2 ^ 64))
              (slot_flags m * 2 ^ 48))
            (m.retrieval_slot * 2 ^ 40))
          m.expiry_epoch
        ∷ replicate 7 0)
