-- ===== src/Substrate/Decode.antt =====
-- src/substrate/retrieval-decoder.ts, `decodeSubstrate`: the regions together.
pub mod Counts
pub mod Laws
use coretex_client.Prelude.{
  ℕ, zero, suc, ◌+◌, ◌-◌, ◌*◌, ◌/◌, ◌%◌, ◌^◌, ◌≤◌, ◌<◌, min, max, ◌≡◌, ◌≢◌, ◌↔◌, ◌⊎◌, inl, inr,
  refl, sym, ap, ◌∙◌, List, [], ◌∷◌, ◌++◌, map, length, get_elem?, get_or, set, take, drop,
  replicate, tabulate, All, Option, none, some, Option-cases, Bool, true, false, not, ◌&&◌, ◌||◌,
  All-append, arith, ltb, leb, ◌==◌, if◌then◌else◌, Bool-cases, &&-eq-true, ||-eq-false,
  ==-eq-false, list_head, contains, length-append, length-set, get_elem?-set_self, get_elem?-set_ne,
  ==_iff, length-map, some-injective, positive_test, if-both,
}
use coretex_client.State.Types.{CortexState}
use coretex_client.Substrate.MemoryIndex.{MemoryIndexSlot, DecodedMemoryIndex, decode_memory_index}
use coretex_client.Substrate.RetrievalKeys.{
  RetrievalKeySlot, DecoderOptions, DecodedKeys, decode_retrieval_keys,
}
use coretex_client.Substrate.LensDiversity.{FloatArith, LensDiversityCheck, lens_check}
use coretex_client.Substrate.Relations.{
  RelationEdge, RelationCategoryLens, DecodedRelations, decode_relations,
}
use coretex_client.Substrate.Temporal.{TemporalRecord, DecodedTemporal, decode_temporal}
use coretex_client.Substrate.Codebook.{CodebookEntry, DecodedCodebook, decode_codebook}
use coretex_client.Substrate.PolicyAtoms.{
  PolicyAtom, evidence_bundle, conflict_lifecycle, abstention, decode_policy_atom_region,
  policy_reserved_non_zero_words,
}
use Prim.Native.Nat.{bit_and}

abbrev pub slot_at : List (Option MemoryIndexSlot) → ℕ → Option MemoryIndexSlot
slot_at memory i = get_or memory i none

-- The test on the two slots of an edge.
unfoldable pub slots_share_domain : Option MemoryIndexSlot → Option MemoryIndexSlot → Bool
slots_share_domain (some src) (some tgt) =
    if not src.valid || not tgt.valid
    then false
    else if src.domain_bits == 0 || tgt.domain_bits == 0
    then false
    else not (bit_and src.domain_bits tgt.domain_bits == 0)
slots_share_domain _ _ = false

unfoldable pub relation_edge_valid : RelationEdge → List (Option MemoryIndexSlot) → Bool
relation_edge_valid edge memory =
    slots_share_domain (slot_at memory edge.source_slot) (slot_at memory edge.target_slot)

-- The test on the slot of a temporal record: the record is kept.
unfoldable pub temporal_slot_fits : TemporalRecord → Option MemoryIndexSlot → Bool
temporal_slot_fits t none = false
temporal_slot_fits t (some slot) = not (t.current_stale_flag && not slot.revoked)

-- The records that are kept, and the number of the others.
pub record Filtered (A : Type 0) : Type 0 where
  pub kept : List A
  pub dropped : ℕ

unfoldable pub filter_by : {A : Type 0} → (A → Bool) → List A → Filtered A
filter_by keep [] = record { kept = []; dropped = 0 }
filter_by keep (a ∷ rest) =
    let tail = filter_by keep rest in
    if keep a
    then record tail { kept = a ∷ tail.kept }
    else record tail { dropped = tail.dropped + 1 }

-- What the hard gate of `policyAtomsMode` reads of the reclaimed words: the keys and the
-- codebook, or the atoms.
pub record Gated : Type 0 where
  pub retrieval_keys : List (Option RetrievalKeySlot)
  pub codebook : List (Option CodebookEntry)
  pub evidence_bundle_atoms : List PolicyAtom
  pub conflict_lifecycle_atoms : List PolicyAtom
  pub abstention_atoms : List PolicyAtom
  pub policy_reserved : ℕ
  pub attempts : ℕ
  pub failures : ℕ

unfoldable pub decode_as_atoms : CortexState → Gated
decode_as_atoms state =
    let eb = decode_policy_atom_region state evidence_bundle in
    let cl = decode_policy_atom_region state conflict_lifecycle in
    let ab = decode_policy_atom_region state abstention in
    let reserved = policy_reserved_non_zero_words state in
    record {
      retrieval_keys = [];
      codebook = [];
      evidence_bundle_atoms = eb.atoms;
      conflict_lifecycle_atoms = cl.atoms;
      abstention_atoms = ab.atoms;
      policy_reserved = reserved;
      attempts = eb.attempts + cl.attempts + ab.attempts + reserved;
      failures = eb.failures + cl.failures + ab.failures + reserved;
    }

unfoldable pub decode_as_keys : CortexState → DecoderOptions → Gated
decode_as_keys state opts =
    let keys = decode_retrieval_keys state opts in
    let book = decode_codebook state in
    record {
      retrieval_keys = keys.slots;
      codebook = book.entries;
      evidence_bundle_atoms = [];
      conflict_lifecycle_atoms = [];
      abstention_atoms = [];
      policy_reserved = 0;
      attempts = keys.attempts + book.attempts;
      failures = keys.failures + book.failures;
    }

unfoldable pub decode_gated : CortexState → DecoderOptions → Gated
decode_gated state opts =
    if opts.policy_atoms_mode then decode_as_atoms state else decode_as_keys state opts

-- `DecodedSubstrate`
pub record DecodedSubstrate : Type 0 where
  pub memory_index : List (Option MemoryIndexSlot)
  pub retrieval_keys : List (Option RetrievalKeySlot)
  pub relations : List RelationEdge
  pub category_lenses : List RelationCategoryLens
  pub temporal : List TemporalRecord
  pub codebook : List (Option CodebookEntry)
  pub decoded_slots : ℕ
  pub decode_failures : ℕ
  pub decode_attempts : ℕ
  pub lens_diversity_check : Option LensDiversityCheck
  pub relations_dropped_by_domain_predicate : ℕ
  pub evidence_bundle_atoms : List PolicyAtom
  pub conflict_lifecycle_atoms : List PolicyAtom
  pub abstention_atoms : List PolicyAtom
  pub policy_reserved_non_zero : ℕ

-- The cross-region filters and the counters, on what the regions decode to.
unfoldable pub assemble :
    DecodedMemoryIndex
    → DecodedRelations
    → DecodedTemporal
    → Gated
    → Option LensDiversityCheck
    → DecodedSubstrate
assemble memory relations temporal gated check =
    let fits = λ (t : TemporalRecord). temporal_slot_fits t (slot_at memory.slots t.memory_slot) in
    let cross = filter_by fits temporal.records in
    let edges = filter_by (λ e. relation_edge_valid e memory.slots) relations.edges in
    let attempts =
      memory.attempts
      + relations.attempts
      + temporal.attempts
      + length temporal.records
      + gated.attempts in
    let failures =
      memory.failures + relations.failures + temporal.failures + cross.dropped + gated.failures in
    record {
      memory_index = memory.slots;
      retrieval_keys = gated.retrieval_keys;
      relations = edges.kept;
      category_lenses = relations.category_lenses;
      temporal = cross.kept;
      codebook = gated.codebook;
      decoded_slots = attempts - failures;
      decode_failures = failures;
      decode_attempts = attempts;
      lens_diversity_check = check;
      relations_dropped_by_domain_predicate = edges.dropped;
      evidence_bundle_atoms = gated.evidence_bundle_atoms;
      conflict_lifecycle_atoms = gated.conflict_lifecycle_atoms;
      abstention_atoms = gated.abstention_atoms;
      policy_reserved_non_zero = gated.policy_reserved;
    }

unfoldable pub decode_substrate : FloatArith → CortexState → DecoderOptions → DecodedSubstrate
decode_substrate arithmetic state opts =
    let gated = decode_gated state opts in
    assemble (decode_memory_index state) (decode_relations state) (decode_temporal state) gated (
      lens_check arithmetic gated.retrieval_keys opts.lens_diversity_floor
        opts.retrieval_key_layout)
