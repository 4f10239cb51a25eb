-- ===== src/Substrate/Relations.antt =====
-- src/substrate/retrieval-decoder.ts: the entries of the relations region, one word each: an edge
-- between two slots of the memory index, or the lens of a category of edges.
pub mod RoundTrip
use coretex_client.Prelude.{
  ℕ, zero, suc, ◌+◌, ◌-◌, ◌*◌, ◌/◌, ◌%◌, ◌^◌, ◌≤◌, ◌<◌, min, max, ◌≡◌, ◌≢◌, ◌↔◌, ◌⊎◌, inl, inr,
  refl, sym, ap, ◌∙◌, List, [], ◌∷◌, ◌++◌, map, length, get_elem?, get_or, set, take, drop,
  replicate, tabulate, All, Option, none, some, Option-cases, Bool, true, false, not, ◌&&◌, ◌||◌,
  arith, ltb, leb, ◌==◌, if◌then◌else◌, Bool-cases, &&-eq-true, ||-eq-false, ==-eq-false, list_head,
  contains, length-append, length-set, get_elem?-set_self, get_elem?-set_ne, ==_iff, length-map,
  some-injective, positive_test, if-both,
}
use coretex_client.State.Types.{CortexState}
use coretex_client.State.Types.Ranges
use coretex_client.Substrate.PolicyAtoms.{field, mask}
use coretex_client.Substrate.Counts.{
  memory_index_slot_count, relations_entry_count, EncodeResult, ok, out_of_range,
}
use Prim.Native.Nat.{bit_and, bit_or}

pub data RelationEdgeType : Type 0 where
  supports supersedes coreference_of causes derived_from co_occurs_with : RelationEdgeType

pub record RelationEdge : Type 0 where
  pub entry_index : ℕ
  pub weight : ℕ
  pub edge_type : RelationEdgeType
  pub source_slot : ℕ
  pub target_slot : ℕ

pub record RelationCategoryLens : Type 0 where
  pub entry_index : ℕ
  pub weight : ℕ
  pub edge_type : RelationEdgeType

unfoldable pub relation_type_by_bits : ℕ → Option RelationEdgeType
relation_type_by_bits b =
    if b == 1
    then some supports
    else if b == 2
    then some supersedes
    else if b == 3
    then some coreference_of
    else if b == 4
    then some causes
    else if b == 5
    then some derived_from
    else if b == 6
    then some co_occurs_with
    else none

unfoldable pub relation_type_to_bits : RelationEdgeType → ℕ
relation_type_to_bits supports = 1
relation_type_to_bits supersedes = 2
relation_type_to_bits coreference_of = 3
relation_type_to_bits causes = 4
relation_type_to_bits derived_from = 5
relation_type_to_bits co_occurs_with = 6

-- What one word is: empty, a failure, an edge or a lens.
pub data RelationWord : Type 0 where
  empty failure : RelationWord
  edge : RelationEdge → RelationWord
  lens : RelationCategoryLens → RelationWord

-- The two forms of an entry, behind the tests that they share.
unfoldable pub decode_lens_or_edge : ℕ → ℕ → RelationEdgeType → RelationWord
decode_lens_or_edge i word edge_type =
    let weight = field word 240 (mask 16) in
    let reserved = field word 208 (mask 16) in
    let source = field word 96 (mask 96) in
    let target = field word 0 (mask 96) in
    let source_slot = bit_and source (mask 8) in
    let target_slot = bit_and target (mask 8) in
    if not (bit_and reserved 0x7fff == 0)
    then failure
    else if not (field word 192 (mask 16) == 0)
    then failure
    else if reserved / 2 ^ 15 == 1
    then (if not (source == 0) || not (target == 0)
        then failure
        else lens (record { entry_index = i; weight = weight; edge_type = edge_type }))
    else if not (source / 2 ^ 8 == 0)
    then failure
    else if not (target / 2 ^ 8 == 0)
    then failure
    else if leb memory_index_slot_count source_slot || leb memory_index_slot_count target_slot
    then failure
    else edge (record {
      entry_index = i;
      weight = weight;
      edge_type = edge_type;
      source_slot = source_slot;
      target_slot = target_slot;
    })

-- The test on the type of an edge.
unfoldable pub decode_relation_type : ℕ → ℕ → Option RelationEdgeType → RelationWord
decode_relation_type i word none = failure
decode_relation_type i word (some edge_type) = decode_lens_or_edge i word edge_type

-- One round of the loop of `decodeRelations`.
unfoldable pub decode_relation_word : ℕ → ℕ → RelationWord
decode_relation_word i word =
    if word == 0
    then empty
    else if field word 240 (mask 16) == 0
    then failure
    else decode_relation_type i word (relation_type_by_bits (field word 224 (mask 16)))

pub record DecodedRelations : Type 0 where
  pub edges : List RelationEdge
  pub category_lenses : List RelationCategoryLens
  pub attempts : ℕ
  pub failures : ℕ

abbrev pub count_relation : RelationWord → DecodedRelations → DecodedRelations
count_relation empty d = d
count_relation failure d = record d { attempts = d.attempts + 1; failures = d.failures + 1 }
count_relation (edge e) d = record d { edges = e ∷ d.edges; attempts = d.attempts + 1 }
count_relation (lens l) d = record d {
  category_lenses = l ∷ d.category_lenses;
  attempts = d.attempts + 1;
}

-- The entries from `i` on, with `n` to go.
unfoldable pub decode_relations_from : ℕ → ℕ → CortexState → DecodedRelations
decode_relations_from zero i s = record {
  edges = [];
  category_lenses = [];
  attempts = 0;
  failures = 0;
}
decode_relations_from (suc n) i s =
    count_relation (decode_relation_word i (get_or s.words (Ranges.relations_start + i) 0))
      (decode_relations_from n (suc i) s)

unfoldable pub decode_relations : CortexState → DecodedRelations
decode_relations s = decode_relations_from relations_entry_count 0 s

unfoldable pub encode_relation_edge : RelationEdge → EncodeResult ℕ
encode_relation_edge e =
    if e.weight == 0 || ltb 0xffff e.weight
    then out_of_range
    else if leb memory_index_slot_count e.source_slot
    then out_of_range
    else if leb memory_index_slot_count e.target_slot
    then out_of_range
    else ok (
        bit_or
          (bit_or (bit_or (e.weight * 2 ^ 240) (relation_type_to_bits e.edge_type * 2 ^ 224))
            (e.source_slot * 2 ^ 96))
          e.target_slot)

unfoldable pub encode_relation_category_lens : RelationCategoryLens → EncodeResult ℕ
encode_relation_category_lens l =
    if l.weight == 0 || ltb 0xffff l.weight
    then out_of_range
    else ok (
        bit_or (bit_or (l.weight * 2 ^ 240) (relation_type_to_bits l.edge_type * 2 ^ 224))
          (2 ^ 223))
