-- ===== src/Tests/Substrate.antt =====
-- The theorems on the typed records of a state, at concrete inputs.
use coretex_client.Prelude.{
  ℕ, ◌+◌, ◌*◌, ◌^◌, ◌<◌, ◌≡◌, ◌↔◌, refl, [], ◌∷◌, ◌++◌, length, replicate, none, some, true, false,
  arith,
}
use coretex_client.State.Types.{CortexState}
use coretex_client.Substrate.Counts.{ok}
use coretex_client.Substrate.PolicyAtoms.{field, mask}
use coretex_client.Substrate.Temporal
use coretex_client.Substrate.Temporal.{TemporalRecord, decode_temporal_word, encode_temporal_record}
use coretex_client.Substrate.Temporal.RoundTrip.{
  decode-encode_temporal_record, encode_temporal_record-word,
}
use coretex_client.Substrate.Relations
use coretex_client.Substrate.Relations.{
  RelationEdge, RelationCategoryLens, RelationWord, decode_relation_word, encode_relation_edge,
  encode_relation_category_lens, relation_type_to_bits,
}
use coretex_client.Substrate.Relations.RoundTrip.{
  decode-encode_relation_edge, decode-encode_relation_category_lens,
}
use coretex_client.Substrate.MemoryIndex
use coretex_client.Substrate.MemoryIndex.{
  MemoryIndexSlot, decode_memory_word, encode_memory_index_slot, slot_flags, family_to_bits,
}
use coretex_client.Substrate.MemoryIndex.RoundTrip.{decode-encode_memory_index_slot}
use coretex_client.Substrate.Codebook
use coretex_client.Substrate.Codebook.{
  CodebookEntry, decode_codebook_words, encode_codebook_entry, code_type_to_bits,
}
use coretex_client.Substrate.Codebook.RoundTrip.{decode-encode_codebook_entry}
use coretex_client.Prelude.Int.{pos_part}
use coretex_client.Prelude.{◌/◌, leb, ltb}
use coretex_client.Substrate.LensDiversity.{FloatArith}
use coretex_client.Substrate.RetrievalKeys.{DecoderOptions, int8}
use coretex_client.Substrate.Temporal.{decode_temporal}
use coretex_client.Substrate.Relations.{decode_relations}
use coretex_client.Substrate.Decode.{decode_substrate}
use coretex_client.Substrate.Decode.Laws.{
  IsCounted, IsFiltered, decode_substrate-IsCounted, decode_substrate-IsFiltered,
  decode_substrate-policy_mode, passed_check,
}
use coretex_client.Substrate.SlotPolicy
use coretex_client.Substrate.SlotPolicy.{slot_capacity, protected_in_range, select_substrate_slot}
use coretex_client.Substrate.SlotPolicy.Select.{IsSelection, select_substrate_slot-IsSelection}

abbrev t₀ : TemporalRecord
t₀ = record {
  record_index = 2;
  memory_slot = 3;
  superseded_by = 4;
  valid_from_epoch = 5;
  valid_until_epoch = 9;
  current_stale_flag = true;
}

abbrev temporal_word : ℕ
temporal_word = 3 * 2 ^ 248 + 4 * 2 ^ 240 + 5 * 2 ^ 200 + 9 * 2 ^ 160 + 2 ^ 152

encode_t₀ : encode_temporal_record t₀ ≡ ok (temporal_word ∷ [])
unfolding encode_temporal_record
encode_t₀ = refl

decode-encode_temporal_record_example : decode_temporal_word 2 temporal_word ≡ Temporal.found t₀
decode-encode_temporal_record_example =
    decode-encode_temporal_record t₀ temporal_word encode_t₀ (omega arith) (λ e. omega (arith, e))

-- A memory slot that the encoder accepts and whose word is too large.
abbrev wide_record : TemporalRecord
wide_record = record t₀ { memory_slot = 300 }

encode_temporal_record-word_example :
    (w : ℕ) × (encode_temporal_record wide_record ≡ ok (w ∷ [])) × ((w < 2 ^ 256) ↔ (300 < 256))
encode_temporal_record-word_example = encode_temporal_record-word wide_record (record {
  slot_small = omega arith;
  by_small = omega arith;
  ordered = omega arith;
  from_small = omega arith;
  until_small = omega arith;
})

-- The second slot does not fit the field of the decoder.
abbrev wide_edge : RelationEdge
wide_edge = record {
  entry_index = 7;
  weight = 10;
  edge_type = Relations.causes;
  source_slot = 1;
  target_slot = 300;
}

abbrev edge_word : ℕ
edge_word = 10 * 2 ^ 240 + 4 * 2 ^ 224 + 2 ^ 96 + 300

encode_wide_edge : encode_relation_edge wide_edge ≡ ok edge_word
unfolding encode_relation_edge relation_type_to_bits
encode_wide_edge = refl

decode-encode_relation_edge_example : decode_relation_word 7 edge_word ≡ Relations.failure
decode-encode_relation_edge_example =
    decode-encode_relation_edge wide_edge edge_word encode_wide_edge

abbrev lens₀ : RelationCategoryLens
lens₀ = record { entry_index = 8; weight = 10; edge_type = Relations.supports }

abbrev lens_word : ℕ
lens_word = 10 * 2 ^ 240 + 2 ^ 224 + 2 ^ 223

encode_lens₀ : encode_relation_category_lens lens₀ ≡ ok lens_word
unfolding encode_relation_category_lens relation_type_to_bits
encode_lens₀ = refl

decode-encode_relation_category_lens_example :
    (field lens_word 208 (mask 16) ≡ 2 ^ 15)
    × (decode_relation_word 8 lens_word ≡ Relations.lens lens₀)
decode-encode_relation_category_lens_example =
    decode-encode_relation_category_lens lens₀ lens_word encode_lens₀

abbrev slot₀ : MemoryIndexSlot
slot₀ = record {
  slot_index = 3;
  record_id = 77;
  family = MemoryIndex.long_horizon;
  domain_bits = 6;
  valid = true;
  revoked = true;
  is_protected = false;
  policy_anchor = true;
  retrieval_slot = 5;
  expiry_epoch = 100;
}

abbrev memory_word : ℕ
memory_word = 77 * 2 ^ 128 + 2 * 2 ^ 124 + 6 * 2 ^ 64 + 11 * 2 ^ 48 + 5 * 2 ^ 40 + 100

encode_slot₀ : encode_memory_index_slot slot₀ ≡ ok (memory_word ∷ replicate 7 0)
unfolding encode_memory_index_slot slot_flags family_to_bits
encode_slot₀ = refl

decode-encode_memory_index_slot_example : decode_memory_word 3 memory_word ≡ MemoryIndex.slot slot₀
decode-encode_memory_index_slot_example =
    decode-encode_memory_index_slot slot₀ memory_word (replicate 7 0) encode_slot₀ (omega arith)

abbrev entry₀ : CodebookEntry
entry₀ = record {
  entry_index = 1;
  code = 9;
  code_type = Codebook.pq;
  valid = true;
  payload = 12;
  payload_cont = 13;
}

abbrev codebook_word : ℕ
codebook_word = 9 * 2 ^ 240 + 2 * 2 ^ 224 + 2 ^ 208 + 12

encode_entry₀ : encode_codebook_entry entry₀ ≡ ok (codebook_word ∷ 13 ∷ [])
unfolding encode_codebook_entry code_type_to_bits
encode_entry₀ = refl

decode-encode_codebook_entry_example :
    decode_codebook_words 1 codebook_word 13 ≡ Codebook.entry entry₀
decode-encode_codebook_entry_example =
    decode-encode_codebook_entry entry₀ codebook_word 13 encode_entry₀

-- Slot 3 of the memory index, and the first temporal record, which is about it.
abbrev typed_state : CortexState
typed_state = record {
  words = replicate 35 0 ++ (memory_word ∷ (replicate 764 0 ++ (temporal_word ∷ replicate 223 0)));
}

abbrev atoms_mode : DecoderOptions
atoms_mode = record {
  policy_atoms_mode = true;
  bi_encoder_model_id_hash = none;
  retrieval_key_header_bytes = none;
  lens_diversity_floor = some 5;
  retrieval_key_layout = some (record { dim = 4; header_bytes = 9; quantization = int8 });
}

abbrev other_options : DecoderOptions
other_options = record {
  policy_atoms_mode = true;
  bi_encoder_model_id_hash = some (48 ∷ []);
  retrieval_key_header_bytes = some 20;
  lens_diversity_floor = some 5;
  retrieval_key_layout = none;
}

-- Numbers as natural numbers.
abbrev naturals : FloatArith
naturals = record {
  of_integer = λ z. pos_part z;
  float32 = λ b. b;
  to_float32 = λ b. b;
  plus = λ a b. a + b;
  times = λ a b. a * b;
  divide = λ a b. a / b;
  sqrt = λ a. a;
  is_le = λ a b. leb a b;
  is_gt = λ a b. ltb b a;
}

decode_substrate-IsCounted_example :
    IsCounted
      (decode_substrate naturals typed_state atoms_mode)
      (length (decode_relations typed_state).edges)
decode_substrate-IsCounted_example = decode_substrate-IsCounted naturals typed_state atoms_mode

decode_substrate-IsFiltered_example :
    IsFiltered
      (decode_relations typed_state).edges
      (decode_temporal typed_state).records
      (decode_substrate naturals typed_state atoms_mode)
decode_substrate-IsFiltered_example = decode_substrate-IsFiltered naturals typed_state atoms_mode

decode_substrate-policy_mode_example :
    ((decode_substrate naturals typed_state atoms_mode).retrieval_keys ≡ [])
    × ((decode_substrate naturals typed_state atoms_mode).codebook ≡ [])
    × (decode_substrate naturals typed_state atoms_mode
        ≡ record (decode_substrate naturals typed_state other_options) {
          lens_diversity_check =
              some (record { ok = true; reason = none; mean_pairwise_cosine = none });
        })
unfolding passed_check
decode_substrate-policy_mode_example =
    decode_substrate-policy_mode naturals typed_state atoms_mode other_options refl refl

five_in_range : protected_in_range (5 ∷ 6 ∷ []) (slot_capacity SlotPolicy.memory_index) ≡ true
unfolding protected_in_range slot_capacity
five_in_range = refl

-- The advance index 357 turns to slot 5, which is protected, as is slot 6.
select_substrate_slot-IsSelection_example :
    IsSelection SlotPolicy.memory_index 357
      (5 ∷ 6 ∷ [])
      (select_substrate_slot SlotPolicy.memory_index 357 (some (5 ∷ 6 ∷ [])))
select_substrate_slot-IsSelection_example =
    select_substrate_slot-IsSelection SlotPolicy.memory_index 357 (5 ∷ 6 ∷ []) (omega arith)
      five_in_range
