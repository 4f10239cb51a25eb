-- ===== src/Substrate/Decode/Laws.antt =====
-- Laws of `decodeSubstrate`: its counters, its filters and its gate.
use coretex_client.Prelude.{
  ℕ, ◌+◌, ◌≤◌, ◌≡◌, ◌↔◌, inl, inr, refl, sym, ap, ◌∙◌, List, [], ◌∷◌, length, Option, none, some,
  Option-cases, Bool, true, false, not, ◌&&◌, ◌||◌, arith, ◌==◌, if◌then◌else◌, Bool-cases,
  ||-eq-false, ==_iff, if-both,
}
use coretex_client.State.Types.{CortexState}
use coretex_client.Bits.{bit_and_zero_left, bit_and-zero}
use coretex_client.Substrate.MemoryIndex.{MemoryIndexSlot, DecodedMemoryIndex, decode_memory_index}
use coretex_client.Substrate.RetrievalKeys.{DecoderOptions, decode_retrieval_keys}
use coretex_client.Substrate.Relations
use coretex_client.Substrate.Relations.{
  RelationEdge, RelationWord, decode_relations, decode_relations_from, decode_relation_word,
  count_relation,
}
use coretex_client.Substrate.Temporal
use coretex_client.Substrate.Temporal.{
  TemporalRecord, TemporalWord, decode_temporal, decode_temporal_from, decode_temporal_word,
  count_temporal,
}
use coretex_client.Substrate.Codebook.{decode_codebook}
use coretex_client.Substrate.LensDiversity.{
  FloatArith, LensDiversityCheck, lens_check, check_lens_diversity, active_keys,
}
use coretex_client.Substrate.PolicyAtoms
use coretex_client.Substrate.PolicyAtoms.{
  PolicyAtomFamily, decode_policy_atom_region, decode_region, decode_word, count_word,
  policy_reserved_non_zero_words,
}
use coretex_client.Substrate.Decode.{
  slot_at, slots_share_domain, relation_edge_valid, temporal_slot_fits, filter_by, Gated,
  decode_as_atoms, decode_as_keys, decode_gated, DecodedSubstrate, assemble, decode_substrate,
}
use Prim.Native.Nat.{bit_and}
use coretex_client.Substrate.Decode.Counts.{
  temporal-counts, relations-counts, memory-counts, keys-counts, codebook-counts, atoms-counts,
}

-- The items that are kept and the number of the others make up the list, and the test holds of
-- each item that is kept.
filter_by-counts :
    {A : Type 0} (keep : A → Bool) (xs : List A)
    → length (filter_by keep xs).kept + (filter_by keep xs).dropped ≡ length xs
unfolding filter_by
filter_by-counts keep [] = refl
filter_by-counts keep (a ∷ rest) = elim (Bool-cases (keep a)) [
  | inl e ↦ rw e (let h = filter_by-counts keep rest in omega arith)
  | inr e ↦ rw e (let h = filter_by-counts keep rest in omega arith)
]

region-counts :
    (s : CortexState) (f : PolicyAtomFamily)
    → (decode_policy_atom_region s f).failures ≤ (decode_policy_atom_region s f).attempts
unfolding decode_policy_atom_region
region-counts s f = let h = atoms-counts (PolicyAtoms.region_count f) 0 f s in omega arith

atoms_gated : (s : CortexState) → (decode_as_atoms s).failures ≤ (decode_as_atoms s).attempts
unfolding decode_as_atoms
atoms_gated s =
    let a = region-counts s PolicyAtoms.evidence_bundle in
    let b = region-counts s PolicyAtoms.conflict_lifecycle in
    let c = region-counts s PolicyAtoms.abstention in omega arith

keys_gated :
    (s : CortexState) (opts : DecoderOptions)
    → (decode_as_keys s opts).failures ≤ (decode_as_keys s opts).attempts
unfolding decode_as_keys decode_retrieval_keys decode_codebook
keys_gated s opts =
    let a = (keys-counts opts 36 0 s).1 in let b = (codebook-counts 48 0 s).1 in omega arith

gated-counts :
    (s : CortexState) (opts : DecoderOptions)
    → (decode_gated s opts).failures ≤ (decode_gated s opts).attempts
unfolding decode_gated
gated-counts s opts =
    if-both (λ (g : Gated). g.failures ≤ g.attempts) opts.policy_atoms_mode (decode_as_atoms s)
      (decode_as_keys s opts) (atoms_gated s) (keys_gated s opts)

-- What the counters of a decoded substrate say.
pub record IsCounted (d : DecodedSubstrate) (edges : ℕ) : Type 0 where
  pub slots : length d.memory_index ≡ 352
  pub failures_bounded : d.decode_failures ≤ d.decode_attempts
  pub decoded : d.decoded_slots + d.decode_failures ≡ d.decode_attempts
  pub edges_split : length d.relations + d.relations_dropped_by_domain_predicate ≡ edges

assemble-IsCounted :
    (memory : DecodedMemoryIndex) (relations : Relations.DecodedRelations)
    (temporal : Temporal.DecodedTemporal) (gated : Gated) (check : Option LensDiversityCheck)
    → length memory.slots ≡ 352
    → memory.failures ≤ memory.attempts
    → relations.failures + length relations.edges + length relations.category_lenses
      ≡ relations.attempts
    → temporal.failures + length temporal.records ≡ temporal.attempts
    → gated.failures ≤ gated.attempts
    → IsCounted (assemble memory relations temporal gated check) (length relations.edges)
unfolding assemble
assemble-IsCounted memory relations temporal gated check hs hm hr ht hg =
    let fits = λ (t : TemporalRecord). temporal_slot_fits t (slot_at memory.slots t.memory_slot) in
    let c = filter_by-counts fits temporal.records in
    let b : memory.failures
          + relations.failures
          + temporal.failures
          + (filter_by fits temporal.records).dropped
          + gated.failures
        ≤ memory.attempts
          + relations.attempts
          + temporal.attempts
          + length temporal.records
          + gated.attempts =
      omega arith in
    record {
      slots = hs;
      failures_bounded = b;
      decoded = omega arith;
      edges_split = filter_by-counts (λ e. relation_edge_valid e memory.slots) relations.edges;
    }

-- Every state decodes to 352 slots of the memory index, with at most as many failures as
-- attempts, so that the decoded slots are their exact difference; and each edge of the relations
-- region is kept or counted as dropped.
pub decode_substrate-IsCounted :
    (arithmetic : FloatArith) (s : CortexState) (opts : DecoderOptions)
    → IsCounted (decode_substrate arithmetic s opts) (length (decode_relations s).edges)
unfolding decode_substrate decode_memory_index decode_temporal decode_relations
decode_substrate-IsCounted arithmetic s opts =
    let (m₁, m₂) = memory-counts 352 0 s in
    assemble-IsCounted (decode_memory_index s) (decode_relations s) (decode_temporal s)
      (decode_gated s opts) _ m₁ m₂ (relations-counts 128 0 s) (temporal-counts 96 0 s)
      (gated-counts s opts)

-- The record is about a slot that decodes, which is revoked where the record is stale.
pub record IsCurrent (t : TemporalRecord) (slot : Option MemoryIndexSlot) : Type 0 where
  pub about : MemoryIndexSlot
  pub decoded : slot ≡ some about
  pub revoked_if_stale : (t.current_stale_flag && not about.revoked) ≡ false

-- Both slots of an edge decode and are valid, and they share a domain bit.
pub record IsJoined (src tgt : Option MemoryIndexSlot) : Type 0 where
  pub from : MemoryIndexSlot
  pub to : MemoryIndexSlot
  pub both_decoded : (src ≡ some from) × (tgt ≡ some to)
  pub both_valid : (from.valid ≡ true) × (to.valid ≡ true)
  pub shared : (bit_and from.domain_bits to.domain_bits == 0) ≡ false

not-true : {b : Bool} → not b ≡ true → b ≡ false
not-true {b = true} h = absurd (cc)
not-true {b = false} h = refl

not-false : {b : Bool} → not b ≡ false → b ≡ true
not-false {b = true} h = refl
not-false {b = false} h = absurd (cc)

temporal_slot_fits-IsCurrent :
    (t : TemporalRecord) (o : Option MemoryIndexSlot)
    → temporal_slot_fits t o ≡ true
    → IsCurrent t o
unfolding temporal_slot_fits
temporal_slot_fits-IsCurrent t none h = absurd (cc)
temporal_slot_fits-IsCurrent t (some slot) h = record {
  about = slot;
  decoded = refl;
  revoked_if_stale = not-true h;
}

slots_share_domain-IsJoined :
    (src tgt : Option MemoryIndexSlot) → slots_share_domain src tgt ≡ true → IsJoined src tgt
unfolding slots_share_domain
slots_share_domain-IsJoined none tgt h = absurd (cc)
slots_share_domain-IsJoined (some src) none h = absurd (cc)
slots_share_domain-IsJoined (some src) (some tgt) h =
    elim (Bool-cases (not src.valid || not tgt.valid)) [
      | inl a ↦ absurd (cc (rw a at h))
      | inr a ↦ elim (Bool-cases (src.domain_bits == 0 || tgt.domain_bits == 0)) [
        | inl b ↦ absurd (cc (rw (a, b) at h))
        | inr b ↦
            let (v, w) = ||-eq-false {a = not src.valid} {b = not tgt.valid} a in
            record {
              from = src;
              to = tgt;
              both_decoded = (refl, refl);
              both_valid = (not-false v, not-false w);
              shared = not-true (rw (a, b) at h);
            }
      ]
    ]

-- Numbers with a common bit are not zero.
domains_given : (m n : ℕ) → (bit_and m n == 0) ≡ false → ((m == 0) ≡ false) × ((n == 0) ≡ false)
domains_given m n h = (
  nonzero m (λ e. ap (λ x. bit_and x n) e ∙ bit_and_zero_left n),
  nonzero n (λ e. ap (bit_and m) e ∙ bit_and-zero m),
)
  where
    nonzero : (k : ℕ) → (k ≡ 0 → bit_and m n ≡ 0) → (k == 0) ≡ false
    nonzero k z = elim (Bool-cases (k == 0)) [
      | inl e ↦ let b = z ((==_iff k 0).0 e) in ground (arith, h)
      | inr e ↦ e
    ]

temporal_slot_fits_iff :
    (t : TemporalRecord) (o : Option MemoryIndexSlot)
    → (temporal_slot_fits t o ≡ true) ↔ IsCurrent t o
unfolding temporal_slot_fits
temporal_slot_fits_iff t o =
    (temporal_slot_fits-IsCurrent t o, λ c. rw (c.decoded, c.revoked_if_stale) refl)

slots_share_domain_iff :
    (src tgt : Option MemoryIndexSlot) → (slots_share_domain src tgt ≡ true) ↔ IsJoined src tgt
unfolding slots_share_domain
slots_share_domain_iff src tgt = (
  slots_share_domain-IsJoined src tgt,
  λ c.
      let (a, b) = c.both_decoded in
      let (v, w) = c.both_valid in
      let (m, n) = domains_given c.from.domain_bits c.to.domain_bits c.shared in
      rw (a, b, v, w, m, n, c.shared) refl,
)

-- `ys` are those of `xs`, in their order, that have the property.
pub data IsExactly {A : Type 0} (P : A → Type 0) : List A → List A → Type 0 where
  nothing_left : IsExactly P [] []
  kept : {xs ys : List A} (a : A) → P a → IsExactly P xs ys → IsExactly P (a ∷ xs) (a ∷ ys)
  left_out : {xs ys : List A} (a : A) → ¬ P a → IsExactly P xs ys → IsExactly P (a ∷ xs) ys

filter_by-IsExactly :
    {A : Type 0} (keep : A → Bool) (P : A → Type 0) (decides : (a : A) → (keep a ≡ true) ↔ P a)
    (xs : List A)
    → IsExactly P xs (filter_by keep xs).kept
unfolding filter_by
filter_by-IsExactly keep P decides [] = nothing_left
filter_by-IsExactly keep P decides (a ∷ rest) = elim (Bool-cases (keep a)) [
  | inl e ↦ rw e (kept a ((decides a).0 e) (filter_by-IsExactly keep P decides rest))
  | inr e ↦ rw e (
      left_out a (λ p. let h = (decides a).1 p in absurd (cc))
        (filter_by-IsExactly keep P decides rest))
]

-- What the filters of a decoded substrate leave of what the regions decoded to.
pub record IsFiltered (edges : List RelationEdge) (records : List TemporalRecord)
    (d : DecodedSubstrate) : Type 0 where
  pub temporal_fit :
      IsExactly (λ t. IsCurrent t (slot_at d.memory_index t.memory_slot)) records d.temporal
  pub edges_fit :
      IsExactly
        (λ (e : RelationEdge).
          IsJoined (slot_at d.memory_index e.source_slot) (slot_at d.memory_index e.target_slot))
        edges
        d.relations

-- In every decoded substrate the temporal records are, in their order, exactly those of the
-- region that are about a slot that decodes, which is revoked where the record is flagged as
-- stale; and the relation edges are exactly those of the region that join two slots that decode
-- as valid and share a domain bit, whether these slots are revoked or not.
pub decode_substrate-IsFiltered :
    (arithmetic : FloatArith) (s : CortexState) (opts : DecoderOptions)
    → IsFiltered
        (decode_relations s).edges
        (decode_temporal s).records
        (decode_substrate arithmetic s opts)
unfolding decode_substrate assemble relation_edge_valid
decode_substrate-IsFiltered arithmetic s opts =
    let memory = decode_memory_index s in
    record {
      temporal_fit =
          filter_by-IsExactly
            (λ (t : TemporalRecord). temporal_slot_fits t (slot_at memory.slots t.memory_slot))
            (λ t. IsCurrent t (slot_at memory.slots t.memory_slot))
            (λ t. temporal_slot_fits_iff t (slot_at memory.slots t.memory_slot))
            (decode_temporal s).records;
      edges_fit =
          filter_by-IsExactly (λ (e : RelationEdge). relation_edge_valid e memory.slots)
            (λ (e : RelationEdge).
              IsJoined (slot_at memory.slots e.source_slot) (slot_at memory.slots e.target_slot))
            (λ e.
              slots_share_domain_iff (slot_at memory.slots e.source_slot)
                (slot_at memory.slots e.target_slot))
            (decode_relations s).edges;
    }

mode_on :
    (s : CortexState) (opts : DecoderOptions)
    → opts.policy_atoms_mode ≡ true
    → decode_gated s opts ≡ decode_as_atoms s
unfolding decode_gated
mode_on s opts h = ap (λ (b : Bool). if b then decode_as_atoms s else decode_as_keys s opts) h

mode_off :
    (s : CortexState) (opts : DecoderOptions)
    → opts.policy_atoms_mode ≡ false
    → decode_gated s opts ≡ decode_as_keys s opts
unfolding decode_gated
mode_off s opts h = ap (λ (b : Bool). if b then decode_as_atoms s else decode_as_keys s opts) h

-- The check of the lens diversity where no key is decoded: it passes where it runs.
unfoldable pub passed_check : DecoderOptions → Option LensDiversityCheck
passed_check opts = elim opts.lens_diversity_floor [
  | none ↦ none
  | some floor ↦ elim opts.retrieval_key_layout [
    | none ↦ none
    | some layout ↦ some (record { ok = true; reason = none; mean_pairwise_cosine = none })
  ]
]

lens_check-none :
    (arithmetic : FloatArith) (opts : DecoderOptions)
    → lens_check arithmetic [] opts.lens_diversity_floor opts.retrieval_key_layout
      ≡ passed_check opts
unfolding lens_check check_lens_diversity active_keys passed_check
lens_check-none arithmetic opts = elim (Option-cases opts.lens_diversity_floor) [
  | inl e ↦ rw e refl
  | inr (floor, e) ↦ elim (Option-cases opts.retrieval_key_layout) [
    | inl k ↦ rw (e, k) refl
    | inr (layout, k) ↦ rw (e, k) refl
  ]
]

decoded_as_atoms :
    (arithmetic : FloatArith) (s : CortexState) (opts : DecoderOptions)
    → opts.policy_atoms_mode ≡ true
    → decode_substrate arithmetic s opts
      ≡ assemble
          (decode_memory_index s)
          (decode_relations s)
          (decode_temporal s)
          (decode_as_atoms s)
          (passed_check opts)
unfolding decode_substrate decode_as_atoms
decoded_as_atoms arithmetic s opts h = rw (mode_on s opts h, lens_check-none arithmetic opts) refl

-- Under `policyAtomsMode` no retrieval key and no codebook entry is decoded; the check of the
-- lens diversity passes where its floor and layout are given, and is absent where one is not;
-- and nothing else of the result depends on the other options.
pub decode_substrate-policy_mode :
    (arithmetic : FloatArith) (s : CortexState) (opts other : DecoderOptions)
    → opts.policy_atoms_mode ≡ true
    → other.policy_atoms_mode ≡ true
    → ((decode_substrate arithmetic s opts).retrieval_keys ≡ [])
      × ((decode_substrate arithmetic s opts).codebook ≡ [])
      × (decode_substrate arithmetic s opts ≡ record (decode_substrate arithmetic s other) {
        lens_diversity_check = passed_check opts;
      })
unfolding assemble decode_as_atoms
decode_substrate-policy_mode arithmetic s opts other h k =
    let e = decoded_as_atoms arithmetic s opts h in
    let e₁ = decoded_as_atoms arithmetic s other k in
    (
      ap (λ (d : DecodedSubstrate). d.retrieval_keys) e,
      ap (λ (d : DecodedSubstrate). d.codebook) e,
      e
          ∙ sym (
              ap (λ (d : DecodedSubstrate). record d { lens_diversity_check = passed_check opts })
                e₁),
    )

-- Without the gate.
pub decode_substrate-key_mode :
    (arithmetic : FloatArith) (s : CortexState) (opts : DecoderOptions)
    → opts.policy_atoms_mode ≡ false
    → ((decode_substrate arithmetic s opts).evidence_bundle_atoms ≡ [])
      × ((decode_substrate arithmetic s opts).conflict_lifecycle_atoms ≡ [])
      × ((decode_substrate arithmetic s opts).abstention_atoms ≡ [])
      × ((decode_substrate arithmetic s opts).policy_reserved_non_zero ≡ 0)
unfolding decode_substrate assemble decode_as_keys
decode_substrate-key_mode arithmetic s opts h =
    let e = mode_off s opts h in
    (
      ap (λ (g : Gated). g.evidence_bundle_atoms) e,
      ap (λ (g : Gated). g.conflict_lifecycle_atoms) e,
      ap (λ (g : Gated). g.abstention_atoms) e,
      ap (λ (g : Gated). g.policy_reserved) e,
    )
