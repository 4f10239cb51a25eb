-- ===== src/Substrate/Codebook/RoundTrip.antt =====
-- What `encodeCodebookEntry` writes and `decodeCodebook` reads.
use coretex_client.Prelude.{
  ℕ, ◌+◌, ◌*◌, ◌/◌, ◌^◌, ◌<◌, ◌≡◌, refl, sym, ap, ◌∙◌, [], ◌∷◌, get_or, some, Bool, true, false,
  not, ◌||◌, arith, ltb, ◌==◌, if◌then◌else◌, ||-eq-false, ==-eq-false, list_head, positive_test,
}
use coretex_client.Substrate.PolicyAtoms.{field, mask}
use coretex_client.Substrate.Counts.{ok, ok-injective, if-eq-ok}
use coretex_client.Substrate.Fields.{field_lem, bit_or_below}
use coretex_client.Substrate.Codebook.{
  CodeType, int8_scale_zero, pq, CodebookEntry, CodebookWords, failure, entry, code_type_by_bits,
  code_type_to_bits, decode_code_type, decode_codebook_words, encode_codebook_entry,
}
use Prim.Native.Nat.{bit_and, bit_or}

code_type-round_trip : (t : CodeType) → code_type_by_bits (code_type_to_bits t) ≡ some t
unfolding code_type_by_bits code_type_to_bits
code_type-round_trip int8_scale_zero = refl
code_type-round_trip pq = refl

code_type-small : (t : CodeType) → code_type_to_bits t < 3
unfolding code_type_to_bits
code_type-small int8_scale_zero = omega arith
code_type-small pq = omega arith

abbrev codebook_sum : ℕ → ℕ → ℕ → ℕ → ℕ
codebook_sum code type flag payload = code * 2 ^ 240 + type * 2 ^ 224 + flag * 2 ^ 208 + payload

abbrev flag_bit : Bool → ℕ
flag_bit b = if b then 1 else 0

flag_small : (b : Bool) → flag_bit b < 2
flag_small true = omega arith
flag_small false = omega arith

codebook_word-eq-sum :
    (code type flag payload : ℕ)
    → type < 3
    → flag < 2
    → payload < 2 ^ 208
    → bit_or (bit_or (bit_or (code * 2 ^ 240) (type * 2 ^ 224)) (flag * 2 ^ 208)) payload
      ≡ codebook_sum code type flag payload
codebook_word-eq-sum code type flag payload ht hf hp =
    let e₁ = bit_or_below 240 code (code * 2 ^ 240) (type * 2 ^ 224) refl (omega arith) in
    let e₂ =
      bit_or_below 224 (code * 2 ^ 16 + type) (code * 2 ^ 240 + type * 2 ^ 224) (flag * 2 ^ 208)
        (omega arith) (omega arith) in
    let e₃ =
      bit_or_below 208 ((code * 2 ^ 16 + type) * 2 ^ 16 + flag)
        (code * 2 ^ 240 + type * 2 ^ 224 + flag * 2 ^ 208) payload (omega arith) hp in
    rw (e₁, e₂, e₃) refl

fields_read :
    (code type flag payload : ℕ)
    → code < 2 ^ 16
    → type < 3
    → flag < 2
    → payload < 2 ^ 208
    → let w = codebook_sum code type flag payload in
      (field w 240 (mask 16) ≡ code)
      × (field w 224 (mask 16) ≡ type)
      × (field w 208 (mask 16) ≡ flag)
      × (field w 0 (mask 208) ≡ payload)
fields_read code type flag payload hc ht hf hp =
    let w = codebook_sum code type flag payload in
    (
      field_lem w 240 16 ∙ omega arith,
      field_lem w 224 16 ∙ omega arith,
      field_lem w 208 16 ∙ omega arith,
      field_lem w 0 208 ∙ omega arith,
    )

-- An entry that the encoder accepts.
record IsEncodable (e : CodebookEntry) : Type 0 where
  nonzero : (e.code == 0) ≡ false
  code_small : e.code < 2 ^ 16
  payload_small : e.payload < 2 ^ 208

abbrev sum_of : CodebookEntry → ℕ
sum_of e = codebook_sum e.code (code_type_to_bits e.code_type) (flag_bit e.valid) e.payload

-- The two words of an entry that the encoder accepts.
record IsEncoded (e : CodebookEntry) (w₀ w₁ : ℕ) : Type 0 where
  entry_lem : IsEncodable e
  first : w₀ ≡ sum_of e
  second : w₁ ≡ e.payload_cont

second_word : {x x' y y' : ℕ} → x ∷ y ∷ [] ≡ x' ∷ y' ∷ [] → y ≡ y'
second_word {y} h = ap (λ l. get_or l 1 y) h

encode_codebook_entry-eq-ok :
    (e : CodebookEntry) (w₀ w₁ : ℕ)
    → encode_codebook_entry e ≡ ok (w₀ ∷ w₁ ∷ [])
    → IsEncoded e w₀ w₁
unfolding encode_codebook_entry
encode_codebook_entry-eq-ok e w₀ w₁ h =
    let (a, h₁) = if-eq-ok (e.code == 0 || ltb 0xffff e.code) _ h in
    let (b, h₂) = if-eq-ok (not (e.payload / 2 ^ 208 == 0)) _ h₁ in
    let (c, d) = ||-eq-false {a = e.code == 0} {b = ltb 0xffff e.code} a in
    let b₁ : e.payload / 2 ^ 208 ≡ 0 = ==-eq-false b in
    let p : e.payload < 2 ^ 208 = omega arith in
    let small : e.code < 2 ^ 16 = ground arith in
    let k = ok-injective h₂ in
    record {
      entry_lem = record { nonzero = c; code_small = small; payload_small = p };
      first =
          list_head (sym k)
          ∙ codebook_word-eq-sum e.code (code_type_to_bits e.code_type) (flag_bit e.valid) e.payload
              (code_type-small e.code_type) (flag_small e.valid) p;
      second = second_word (sym k);
    }

read_valid :
    (b : Bool) (x y : CodebookWords)
    → (b ≡ true → x ≡ y)
    → (if bit_and (flag_bit b) 1 == 0 then failure else x) ≡ (if b then y else failure)
read_valid true x y h = h refl
read_valid false x y h = refl

-- The two words that `encodeCodebookEntry` wrote are read back as the entry where it is valid,
-- and are a decode failure where it is not.
pub decode-encode_codebook_entry :
    (e : CodebookEntry) (w₀ w₁ : ℕ)
    → encode_codebook_entry e ≡ ok (w₀ ∷ w₁ ∷ [])
    → decode_codebook_words e.entry_index w₀ w₁ ≡ (if e.valid then entry e else failure)
unfolding decode_codebook_words decode_code_type
decode-encode_codebook_entry e w₀ w₁ h =
    let v = encode_codebook_entry-eq-ok e w₀ w₁ h in
    let u = v.entry_lem in
    let c₁ = u.code_small in
    let p₁ = u.payload_small in
    let nz = u.nonzero in
    let pos : 0 < e.code = ground arith in
    let (f₁, f₂, f₃, f₄) =
      fields_read e.code (code_type_to_bits e.code_type) (flag_bit e.valid) e.payload c₁
        (code_type-small e.code_type) (flag_small e.valid) p₁ in
    let n : (sum_of e == 0) ≡ false = positive_test _ (omega arith) in
    rw (v.first, v.second, n, f₂, code_type-round_trip e.code_type, f₁, nz, f₃, f₄)
      (read_valid e.valid (entry (record e { valid = true })) (entry e)
        (λ t. ap (λ (b : Bool). entry (record e { valid = b })) (sym t)))
