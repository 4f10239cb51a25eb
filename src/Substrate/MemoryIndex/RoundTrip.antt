-- ===== src/Substrate/MemoryIndex/RoundTrip.antt =====
-- What `encodeMemoryIndexSlot` writes and `decodeMemoryIndex` reads.
use coretex_client.Prelude.{
  ℕ, ◌+◌, ◌*◌, ◌/◌, ◌^◌, ◌<◌, ◌≡◌, inl, inr, refl, sym, ap, ◌∙◌, List, ◌∷◌, Bool, true, false, not,
  arith, leb, ◌==◌, if◌then◌else◌, Bool-cases, ==-eq-false, list_head, positive_test,
}
use coretex_client.Substrate.PolicyAtoms.{field, mask}
use coretex_client.Substrate.Counts.{ok, ok-injective, if-eq-ok}
use coretex_client.Substrate.Fields.{field_lem, bit_or_below}
use coretex_client.Substrate.MemoryIndex.{
  MemoryIndexSlot, inactive, slot, family_to_bits, decode_family, decode_memory_word, slot_flags,
  encode_memory_index_slot,
}
use Prim.Native.Nat.{bit_and, bit_or}
use coretex_client.Substrate.MemoryIndex.Flags.{
  family-round_trip, family-small, FlagsRead, flags_of, flags-read,
}

abbrev memory_sum : ℕ → ℕ → ℕ → ℕ → ℕ → ℕ → ℕ
memory_sum id family domain flags retrieval expiry =
    id * 2 ^ 128 + family * 2 ^ 124 + domain * 2 ^ 64 + flags * 2 ^ 48 + retrieval * 2 ^ 40 + expiry

memory_word-eq-sum :
    (id family domain flags retrieval expiry : ℕ)
    → family < 16
    → domain < 2 ^ 60
    → flags < 16
    → retrieval < 256
    → expiry < 2 ^ 40
    → bit_or
        (bit_or
          (bit_or
            (bit_or (id * 2 ^ 128) (bit_or (family * 2 ^ 60) domain * 2 ^ 64))
            (flags * 2 ^ 48))
          (retrieval * 2 ^ 40))
        expiry
      ≡ memory_sum id family domain flags retrieval expiry
memory_word-eq-sum id family domain flags retrieval expiry hf hd hg hr he =
    let e₀ = bit_or_below 60 family (family * 2 ^ 60) domain refl hd in
    let e₁ =
      bit_or_below 128 id (id * 2 ^ 128) ((family * 2 ^ 60 + domain) * 2 ^ 64) refl (omega arith) in
    let e₂ =
      bit_or_below 64 (id * 2 ^ 64 + family * 2 ^ 60 + domain)
        (id * 2 ^ 128 + (family * 2 ^ 60 + domain) * 2 ^ 64) (flags * 2 ^ 48) (omega arith)
        (omega arith) in
    let e₃ =
      bit_or_below 48 ((id * 2 ^ 64 + family * 2 ^ 60 + domain) * 2 ^ 16 + flags)
        (id * 2 ^ 128 + (family * 2 ^ 60 + domain) * 2 ^ 64 + flags * 2 ^ 48) (retrieval * 2 ^ 40)
        (omega arith) (omega arith) in
    let e₄ =
      bit_or_below 40
        (((id * 2 ^ 64 + family * 2 ^ 60 + domain) * 2 ^ 16 + flags) * 2 ^ 8 + retrieval)
        (id * 2 ^ 128 + (family * 2 ^ 60 + domain) * 2 ^ 64 + flags * 2 ^ 48 + retrieval * 2 ^ 40)
        expiry (omega arith) he in
    rw (e₀, e₁, e₂, e₃, e₄) (omega arith)

fields_read :
    (id family domain flags retrieval expiry : ℕ)
    → id < 2 ^ 128
    → family < 16
    → domain < 2 ^ 60
    → flags < 16
    → retrieval < 256
    → expiry < 2 ^ 40
    → let w = memory_sum id family domain flags retrieval expiry in
      (field w 128 (mask 128) ≡ id)
      × (field w 124 15 ≡ family)
      × (field w 64 (mask 60) ≡ domain)
      × (field w 48 (mask 16) ≡ flags)
      × (field w 40 (mask 8) ≡ retrieval)
      × (field w 0 (mask 40) ≡ expiry)
fields_read id family domain flags retrieval expiry hi hf hd hg hr he =
    let w = memory_sum id family domain flags retrieval expiry in
    (
      field_lem w 128 128 ∙ omega arith,
      field_lem w 124 4 ∙ omega arith,
      field_lem w 64 60 ∙ omega arith,
      field_lem w 48 16 ∙ omega arith,
      field_lem w 40 8 ∙ omega arith,
      field_lem w 0 40 ∙ omega arith,
    )

-- A slot that the encoder accepts.
record IsEncodable (m : MemoryIndexSlot) : Type 0 where
  id_small : m.record_id < 2 ^ 128
  domain_small : m.domain_bits < 2 ^ 60
  retrieval_small : m.retrieval_slot < 36
  expiry_small : m.expiry_epoch < 2 ^ 40

abbrev flags_in : MemoryIndexSlot → ℕ
flags_in m = flags_of m.valid m.revoked m.is_protected m.policy_anchor

abbrev sum_of : MemoryIndexSlot → ℕ
sum_of m =
    memory_sum m.record_id (family_to_bits m.family) m.domain_bits (flags_in m) m.retrieval_slot
      m.expiry_epoch

encode_memory_index_slot-eq-ok :
    (m : MemoryIndexSlot) (w : ℕ) (rest : List ℕ)
    → encode_memory_index_slot m ≡ ok (w ∷ rest)
    → IsEncodable m × (w ≡ sum_of m)
unfolding encode_memory_index_slot slot_flags
encode_memory_index_slot-eq-ok m w rest h =
    let (a, h₁) = if-eq-ok (not (m.record_id / 2 ^ 128 == 0)) _ h in
    let (b, h₂) = if-eq-ok (not (m.domain_bits / 2 ^ 60 == 0)) _ h₁ in
    let (c, h₃) = if-eq-ok (leb 36 m.retrieval_slot) _ h₂ in
    let (d, h₄) = if-eq-ok (not (m.expiry_epoch / 2 ^ 40 == 0)) _ h₃ in
    let a₁ : m.record_id / 2 ^ 128 ≡ 0 = ==-eq-false a in
    let b₁ : m.domain_bits / 2 ^ 60 ≡ 0 = ==-eq-false b in
    let c₁ : m.retrieval_slot < 36 = ground arith in
    let d₁ : m.expiry_epoch / 2 ^ 40 ≡ 0 = ==-eq-false d in
    let small = flags-read m.valid m.revoked m.is_protected m.policy_anchor in
    let f = family-small m.family in
    (
      record {
        id_small = omega arith;
        domain_small = omega arith;
        retrieval_small = c₁;
        expiry_small = omega arith;
      },
      list_head (sym (ok-injective h₄))
          ∙ memory_word-eq-sum m.record_id (family_to_bits m.family) m.domain_bits (flags_in m)
              m.retrieval_slot m.expiry_epoch (omega arith) (omega arith) small.small (omega arith)
              (omega arith),
    )

not-false : {b : Bool} → not b ≡ true → b ≡ false
not-false {b = true} h = absurd (cc)
not-false {b = false} h = refl

not-true : {b : Bool} → not b ≡ false → b ≡ true
not-true {b = true} h = refl
not-true {b = false} h = absurd (cc)

slot_ext :
    (m : MemoryIndexSlot) (flags : ℕ)
    → FlagsRead flags m.valid m.revoked m.is_protected m.policy_anchor
    → m.valid ≡ true
    → slot (record m {
      valid = true;
      revoked = not (bit_and flags 2 == 0);
      is_protected = not (bit_and flags 4 == 0);
      policy_anchor = not (bit_and flags 8 == 0);
    })
      ≡ slot m
slot_ext m flags f h = rw (f.revoked_read, f.protected_read, f.anchor_read, sym h) refl

-- The first word that `encodeMemoryIndexSlot` wrote for a slot with a record is read back as the
-- slot where it is valid, and as an inactive slot where it is not.
pub decode-encode_memory_index_slot :
    (m : MemoryIndexSlot) (w : ℕ) (rest : List ℕ)
    → encode_memory_index_slot m ≡ ok (w ∷ rest)
    → 0 < m.record_id
    → decode_memory_word m.slot_index w ≡ (if m.valid then slot m else inactive)
unfolding decode_memory_word decode_family
decode-encode_memory_index_slot m w rest h some_id =
    let (v, e) = encode_memory_index_slot-eq-ok m w rest h in
    let i₁ = v.id_small in
    let d₁ = v.domain_small in
    let r₁ = v.retrieval_small in
    let x₁ = v.expiry_small in
    let fl = flags-read m.valid m.revoked m.is_protected m.policy_anchor in
    let g₁ = fl.small in
    let fs = family-small m.family in
    let (f₁, f₂, f₃, f₄, f₅, f₆) =
      fields_read m.record_id (family_to_bits m.family) m.domain_bits (flags_in m) m.retrieval_slot
        m.expiry_epoch i₁ (omega arith) d₁ g₁ (omega arith) x₁ in
    let n : (sum_of m == 0) ≡ false = positive_test _ (omega arith) in
    let n₁ = positive_test m.record_id some_id in
    let c : leb 36 m.retrieval_slot ≡ false = ground arith in
    elim (Bool-cases m.valid) [
      | inl t ↦
          let k = not-false (fl.valid_read ∙ t) in
          rw (e, n, f₁, n₁, f₂, family-round_trip m.family, f₅, c, f₄, k, f₁, f₃, f₆)
            (slot_ext m (flags_in m) fl t
              ∙ ap (λ (b : Bool). if b then slot m else inactive) (sym t))
      | inr t ↦
          let k = not-true (fl.valid_read ∙ t) in
          rw (e, n, f₁, n₁, f₂, family-round_trip m.family, f₅, c, f₄, k)
            (ap (λ (b : Bool). if b then slot m else inactive) (sym t))
    ]
