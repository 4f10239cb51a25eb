-- ===== src/Substrate/Relations/RoundTrip.antt =====
-- What the encoders of relations write and `decodeRelations` reads.
use coretex_client.Prelude.{
  ℕ, ◌+◌, ◌*◌, ◌/◌, ◌^◌, ◌≤◌, ◌<◌, ◌≡◌, inl, inr, refl, sym, ◌∙◌, some, true, false, ◌||◌, arith,
  ltb, leb, ◌==◌, if◌then◌else◌, Bool-cases, ||-eq-false, positive_test,
}
use coretex_client.Substrate.PolicyAtoms.{field, mask}
use coretex_client.Substrate.Counts.{ok, ok-injective, if-eq-ok}
use coretex_client.Substrate.Fields.{field_lem, bit_or_below}
use coretex_client.Substrate.Relations.{
  RelationEdgeType, supports, supersedes, coreference_of, causes, derived_from, co_occurs_with,
  RelationEdge, RelationCategoryLens, RelationWord, failure, edge, lens, relation_type_by_bits,
  relation_type_to_bits, decode_lens_or_edge, decode_relation_type, decode_relation_word,
  encode_relation_edge, encode_relation_category_lens,
}
use coretex_client.Bits.{bit_and-mask}
use Prim.Native.Nat.{bit_and, bit_or}

relation_type-round_trip :
    (t : RelationEdgeType) → relation_type_by_bits (relation_type_to_bits t) ≡ some t
unfolding relation_type_by_bits relation_type_to_bits
relation_type-round_trip supports = refl
relation_type-round_trip supersedes = refl
relation_type-round_trip coreference_of = refl
relation_type-round_trip causes = refl
relation_type-round_trip derived_from = refl
relation_type-round_trip co_occurs_with = refl

relation_type-small : (t : RelationEdgeType) → relation_type_to_bits t < 7
unfolding relation_type_to_bits
relation_type-small supports = omega arith
relation_type-small supersedes = omega arith
relation_type-small coreference_of = omega arith
relation_type-small causes = omega arith
relation_type-small derived_from = omega arith
relation_type-small co_occurs_with = omega arith

abbrev relation_sum : ℕ → ℕ → ℕ → ℕ → ℕ → ℕ
relation_sum weight type flag source target =
    weight * 2 ^ 240 + type * 2 ^ 224 + flag * 2 ^ 223 + source * 2 ^ 96 + target

edge_word-eq-sum :
    (weight type source target : ℕ)
    → weight < 2 ^ 16
    → type < 7
    → source < 2 ^ 96
    → target < 2 ^ 96
    → bit_or (bit_or (bit_or (weight * 2 ^ 240) (type * 2 ^ 224)) (source * 2 ^ 96)) target
      ≡ relation_sum weight type 0 source target
edge_word-eq-sum weight type source target hw ht hs hg =
    let e₁ = bit_or_below 240 weight (weight * 2 ^ 240) (type * 2 ^ 224) refl (omega arith) in
    let e₂ =
      bit_or_below 224 (weight * 2 ^ 16 + type) (weight * 2 ^ 240 + type * 2 ^ 224)
        (source * 2 ^ 96) (omega arith) (omega arith) in
    let e₃ =
      bit_or_below 96 ((weight * 2 ^ 16 + type) * 2 ^ 128 + source)
        (weight * 2 ^ 240 + type * 2 ^ 224 + source * 2 ^ 96) target (omega arith) hg in
    rw (e₁, e₂, e₃) (omega arith)

lens_word-eq-sum :
    (weight type : ℕ)
    → type < 7
    → bit_or (bit_or (weight * 2 ^ 240) (type * 2 ^ 224)) (2 ^ 223) ≡ relation_sum weight type 1 0 0
lens_word-eq-sum weight type ht =
    let e₁ = bit_or_below 240 weight (weight * 2 ^ 240) (type * 2 ^ 224) refl (omega arith) in
    let e₂ =
      bit_or_below 224 (weight * 2 ^ 16 + type) (weight * 2 ^ 240 + type * 2 ^ 224) (2 ^ 223)
        (omega arith) (omega arith) in
    rw (e₁, e₂) (omega arith)

fields_read :
    (weight type flag source target : ℕ)
    → weight < 2 ^ 16
    → type < 7
    → flag < 2
    → source < 2 ^ 96
    → target < 2 ^ 96
    → (field (relation_sum weight type flag source target) 240 (mask 16) ≡ weight)
      × (field (relation_sum weight type flag source target) 224 (mask 16) ≡ type)
      × (field (relation_sum weight type flag source target) 208 (mask 16) ≡ flag * 2 ^ 15)
      × (field (relation_sum weight type flag source target) 192 (mask 16) ≡ 0)
      × (field (relation_sum weight type flag source target) 96 (mask 96) ≡ source)
      × (field (relation_sum weight type flag source target) 0 (mask 96) ≡ target)
fields_read weight type flag source target hw ht hf hs hg =
    let w = relation_sum weight type flag source target in
    (
      field_lem w 240 16 ∙ omega arith,
      field_lem w 224 16 ∙ omega arith,
      field_lem w 208 16 ∙ omega arith,
      field_lem w 192 16 ∙ omega arith,
      field_lem w 96 96 ∙ omega arith,
      field_lem w 0 96 ∙ omega arith,
    )

weight_small : (w : ℕ) → (w == 0 || ltb 0xffff w) ≡ false → ((w == 0) ≡ false) × (w < 2 ^ 16)
weight_small w h = let (a, b) = ||-eq-false {a = w == 0} {b = ltb 0xffff w} h in (a, ground arith)

-- A nonzero weight makes a nonzero word.
sum_nonzero :
    (weight type flag source target : ℕ)
    → (weight == 0) ≡ false
    → (relation_sum weight type flag source target == 0) ≡ false
sum_nonzero weight type flag source target h =
    let k : 0 < weight = ground arith in positive_test _ (omega arith)

-- An edge that the encoder accepts.
record IsEncodable (e : RelationEdge) : Type 0 where
  nonzero : (e.weight == 0) ≡ false
  weight_bits : e.weight < 2 ^ 16
  source_small : e.source_slot < 352
  target_small : e.target_slot < 352

abbrev edge_sum : RelationEdge → ℕ
edge_sum e = relation_sum e.weight (relation_type_to_bits e.edge_type) 0 e.source_slot e.target_slot

encode_relation_edge-eq-ok :
    (e : RelationEdge) (w : ℕ) → encode_relation_edge e ≡ ok w → IsEncodable e × (w ≡ edge_sum e)
unfolding encode_relation_edge
encode_relation_edge-eq-ok e w h =
    let (a, h₁) = if-eq-ok (e.weight == 0 || ltb 0xffff e.weight) _ h in
    let (b, h₂) = if-eq-ok (leb 352 e.source_slot) _ h₁ in
    let (c, h₃) = if-eq-ok (leb 352 e.target_slot) _ h₂ in
    let (nonzero, small) = weight_small e.weight a in
    let source : e.source_slot < 352 = ground arith in
    let target : e.target_slot < 352 = ground arith in
    (
      record {
        nonzero = nonzero;
        weight_bits = small;
        source_small = source;
        target_small = target;
      },
      sym (ok-injective h₃)
          ∙ edge_word-eq-sum e.weight (relation_type_to_bits e.edge_type) e.source_slot
              e.target_slot small (relation_type-small e.edge_type) (omega arith) (omega arith),
    )

not_below : (a : ℕ) → leb 256 a ≡ true → (a / 2 ^ 8 == 0) ≡ false
not_below a h =
    let k : 256 ≤ a = ground arith in
    let q : 0 < a / 2 ^ 8 = omega arith in positive_test (a / 2 ^ 8) q

below : (a : ℕ) → leb 256 a ≡ false → (a / 2 ^ 8 == 0) ≡ true
below a h = let k : a < 256 = ground arith in let q : a / 2 ^ 8 ≡ 0 = omega arith in rw q refl

low_byte : (a : ℕ) → a < 256 → bit_and a (mask 8) ≡ a
low_byte a h = bit_and-mask 8 a ∙ omega arith

abbrev reads_as : RelationEdge → RelationWord
reads_as e =
    if leb 256 e.source_slot then failure else if leb 256 e.target_slot then failure else edge e

decode_edge_fields :
    (e : RelationEdge) (w : ℕ)
    → field w 240 (mask 16) ≡ e.weight
    → field w 208 (mask 16) ≡ 0
    → field w 192 (mask 16) ≡ 0
    → field w 96 (mask 96) ≡ e.source_slot
    → field w 0 (mask 96) ≡ e.target_slot
    → decode_lens_or_edge e.entry_index w e.edge_type ≡ reads_as e
unfolding decode_lens_or_edge
decode_edge_fields e w f₁ f₂ f₃ f₄ f₅ = elim (Bool-cases (leb 256 e.source_slot)) [
  | inl a ↦
      let s : (e.source_slot / 2 ^ 8 == 0) ≡ false = not_below e.source_slot a in
      rw (f₁, f₂, f₃, f₄, f₅, s, a) refl
  | inr a ↦
      let s : (e.source_slot / 2 ^ 8 == 0) ≡ true = below e.source_slot a in
      elim (Bool-cases (leb 256 e.target_slot)) [
        | inl b ↦
            let t : (e.target_slot / 2 ^ 8 == 0) ≡ false = not_below e.target_slot b in
            rw (f₁, f₂, f₃, f₄, f₅, s, t, a, b) refl
        | inr b ↦
            let t : (e.target_slot / 2 ^ 8 == 0) ≡ true = below e.target_slot b in
            let ls = low_byte e.source_slot (ground arith) in
            let lt = low_byte e.target_slot (ground arith) in
            let c : leb 352 e.source_slot ≡ false = ground arith in
            let d : leb 352 e.target_slot ≡ false = ground arith in
            rw (f₁, f₂, f₃, f₄, f₅, s, t, a, b, ls, lt, c, d) refl
      ]
]

-- The word that `encodeRelationEdge` wrote is read back as the edge where both slots are below
-- 256, and is a decode failure where one is not.
pub decode-encode_relation_edge :
    (e : RelationEdge) (w : ℕ)
    → encode_relation_edge e ≡ ok w
    → decode_relation_word e.entry_index w ≡ reads_as e
unfolding decode_relation_word decode_relation_type
decode-encode_relation_edge e w h =
    let (v, k) = encode_relation_edge-eq-ok e w h in
    let type = relation_type_to_bits e.edge_type in
    let (f₁, f₂, f₃, f₄, f₅, f₆) =
      fields_read e.weight type 0 e.source_slot e.target_slot v.weight_bits
        (relation_type-small e.edge_type) (omega arith) (let s = v.source_small in omega arith)
        (let s = v.target_small in omega arith) in
    let n = sum_nonzero e.weight type 0 e.source_slot e.target_slot v.nonzero in
    rw (k, n, f₁, v.nonzero, f₂, relation_type-round_trip e.edge_type)
      (decode_edge_fields e (edge_sum e) f₁ f₃ f₄ f₅ f₆)

-- The word that `encodeRelationCategoryLens` wrote has, of the bits 208 to 223, exactly bit 223
-- set, and is read back as the lens.
pub decode-encode_relation_category_lens :
    (l : RelationCategoryLens) (w : ℕ)
    → encode_relation_category_lens l ≡ ok w
    → (field w 208 (mask 16) ≡ 2 ^ 15) × (decode_relation_word l.entry_index w ≡ lens l)
unfolding encode_relation_category_lens decode_relation_word decode_relation_type
    decode_lens_or_edge
decode-encode_relation_category_lens l w h =
    let (a, h₁) = if-eq-ok (l.weight == 0 || ltb 0xffff l.weight) _ h in
    let (nonzero, small) = weight_small l.weight a in
    let type = relation_type_to_bits l.edge_type in
    let k =
      sym (ok-injective h₁) ∙ lens_word-eq-sum l.weight type (relation_type-small l.edge_type) in
    let (f₁, f₂, f₃, f₄, f₅, f₆) =
      fields_read l.weight type 1 0 0 small (relation_type-small l.edge_type) (omega arith)
        (omega arith) (omega arith) in
    let n = sum_nonzero l.weight type 1 0 0 nonzero in
    (
      rw k f₃,
      rw (k, n, f₁, nonzero, f₂, relation_type-round_trip l.edge_type, f₃, f₄, f₅, f₆, f₁) refl,
    )
