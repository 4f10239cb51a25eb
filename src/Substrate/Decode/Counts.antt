-- ===== src/Substrate/Decode/Counts.antt =====
-- The counters of the regions of src/substrate/retrieval-decoder.ts: every attempt is an item or a failure.
use coretex_client.Prelude.{ℕ, zero, suc, ◌+◌, ◌≤◌, ◌≡◌, refl, length, arith}
use coretex_client.State.Types.{CortexState}
use coretex_client.Substrate.MemoryIndex
use coretex_client.Substrate.MemoryIndex.{
  MemoryIndexSlot, DecodedMemoryIndex, MemoryWord, decode_memory_index, decode_memory_index_from,
  decode_memory_word, count_memory,
}
use coretex_client.Substrate.RetrievalKeys
use coretex_client.Substrate.RetrievalKeys.{
  RetrievalKeySlot, DecoderOptions, KeySlot, decode_retrieval_keys, decode_retrieval_keys_from,
  decode_key_slot, count_key,
}
use coretex_client.Substrate.Relations
use coretex_client.Substrate.Relations.{
  RelationEdge, RelationWord, decode_relations, decode_relations_from, decode_relation_word,
  count_relation,
}
use coretex_client.Substrate.Temporal
use coretex_client.Substrate.Temporal.{
  TemporalRecord, TemporalWord, decode_temporal, decode_temporal_from, decode_temporal_word,
  count_temporal,
}
use coretex_client.Substrate.Codebook
use coretex_client.Substrate.Codebook.{
  CodebookEntry, CodebookWords, decode_codebook, decode_codebook_from, decode_codebook_words,
  count_codebook,
}
use coretex_client.Substrate.PolicyAtoms
use coretex_client.Substrate.PolicyAtoms.{
  PolicyAtomFamily, decode_policy_atom_region, decode_region, decode_word, count_word,
  policy_reserved_non_zero_words,
}

-- Every attempt is an item or a failure.
pub temporal-counts :
    (n r : ℕ) (s : CortexState)
    → (decode_temporal_from n r s).failures + length (decode_temporal_from n r s).records
      ≡ (decode_temporal_from n r s).attempts
unfolding decode_temporal_from
temporal-counts zero r s = refl
temporal-counts (suc n) r s = count _ _ (temporal-counts n (suc r) s)
  where
    count :
        (t : TemporalWord) (d : Temporal.DecodedTemporal)
        → d.failures + length d.records ≡ d.attempts
        → (count_temporal t d).failures + length (count_temporal t d).records
          ≡ (count_temporal t d).attempts
    count Temporal.empty d h = h
    count Temporal.failure d h = omega arith
    count (Temporal.found t) d h = omega arith

pub relations-counts :
    (n r : ℕ) (s : CortexState)
    → let d = decode_relations_from n r s in
      d.failures + length d.edges + length d.category_lenses ≡ d.attempts
unfolding decode_relations_from
relations-counts zero r s = refl
relations-counts (suc n) r s = count _ _ (relations-counts n (suc r) s)
  where
    count :
        (t : RelationWord) (d : Relations.DecodedRelations)
        → d.failures + length d.edges + length d.category_lenses ≡ d.attempts
        → (count_relation t d).failures
            + length (count_relation t d).edges
            + length (count_relation t d).category_lenses
          ≡ (count_relation t d).attempts
    count Relations.empty d h = h
    count Relations.failure d h = omega arith
    count (Relations.edge t) d h = omega arith
    count (Relations.lens t) d h = omega arith

-- The slots come one for each position, and failures are attempts.
pub memory-counts :
    (n r : ℕ) (s : CortexState)
    → let d = decode_memory_index_from n r s in (length d.slots ≡ n) × (d.failures ≤ d.attempts)
unfolding decode_memory_index_from
memory-counts zero r s = (refl, omega arith)
memory-counts (suc n) r s = count _ _ (memory-counts n (suc r) s)
  where
    count :
        (t : MemoryWord) (d : DecodedMemoryIndex)
        → (length d.slots ≡ n) × (d.failures ≤ d.attempts)
        → (length (count_memory t d).slots ≡ suc n)
          × ((count_memory t d).failures ≤ (count_memory t d).attempts)
    count MemoryIndex.empty d (a, b) = (omega arith, b)
    count MemoryIndex.failure d (a, b) = (omega arith, omega arith)
    count MemoryIndex.inactive d (a, b) = (omega arith, omega arith)
    count (MemoryIndex.slot t) d (a, b) = (omega arith, omega arith)

pub keys-counts :
    (opts : DecoderOptions) (n r : ℕ) (s : CortexState)
    → let d = decode_retrieval_keys_from opts n r s in
      (length d.slots ≡ n) × (d.failures ≤ d.attempts)
unfolding decode_retrieval_keys_from
keys-counts opts zero r s = (refl, omega arith)
keys-counts opts (suc n) r s = count _ _ (keys-counts opts n (suc r) s)
  where
    count :
        (t : KeySlot) (d : RetrievalKeys.DecodedKeys)
        → (length d.slots ≡ n) × (d.failures ≤ d.attempts)
        → (length (count_key t d).slots ≡ suc n)
          × ((count_key t d).failures ≤ (count_key t d).attempts)
    count RetrievalKeys.empty d (a, b) = (omega arith, b)
    count RetrievalKeys.failure d (a, b) = (omega arith, omega arith)
    count (RetrievalKeys.key t) d (a, b) = (omega arith, omega arith)

pub codebook-counts :
    (n r : ℕ) (s : CortexState)
    → let d = decode_codebook_from n r s in (length d.entries ≡ n) × (d.failures ≤ d.attempts)
unfolding decode_codebook_from
codebook-counts zero r s = (refl, omega arith)
codebook-counts (suc n) r s = count _ _ (codebook-counts n (suc r) s)
  where
    count :
        (t : CodebookWords) (d : Codebook.DecodedCodebook)
        → (length d.entries ≡ n) × (d.failures ≤ d.attempts)
        → (length (count_codebook t d).entries ≡ suc n)
          × ((count_codebook t d).failures ≤ (count_codebook t d).attempts)
    count Codebook.empty d (a, b) = (omega arith, b)
    count Codebook.failure d (a, b) = (omega arith, omega arith)
    count (Codebook.entry t) d (a, b) = (omega arith, omega arith)

pub atoms-counts :
    (n k : ℕ) (f : PolicyAtomFamily) (s : CortexState)
    → let d = decode_region n k f s in d.failures + length d.atoms ≡ d.attempts
unfolding decode_region
atoms-counts zero k f s = refl
atoms-counts (suc n) k f s = count _ _ (atoms-counts n (suc k) f s)
  where
    count :
        (t : PolicyAtoms.AtomWord) (d : PolicyAtoms.DecodedRegion)
        → d.failures + length d.atoms ≡ d.attempts
        → (count_word t d).failures + length (count_word t d).atoms ≡ (count_word t d).attempts
    count PolicyAtoms.empty d h = h
    count PolicyAtoms.failure d h = omega arith
    count (PolicyAtoms.atom t) d h = omega arith
