-- ===== src/Substrate/Codebook.antt =====
-- src/substrate/retrieval-decoder.ts: codebook entries, two words each.
pub mod RoundTrip
use coretex_client.Prelude.{
  ℕ, zero, suc, ◌+◌, ◌-◌, ◌*◌, ◌/◌, ◌%◌, ◌^◌, ◌≤◌, ◌<◌, min, max, ◌≡◌, ◌≢◌, ◌↔◌, ◌⊎◌, inl, inr,
  refl, sym, ap, ◌∙◌, List, [], ◌∷◌, ◌++◌, map, length, get_elem?, get_or, set, take, drop,
  replicate, tabulate, All, Option, none, some, Option-cases, Bool, true, false, not, ◌&&◌, ◌||◌,
  arith, ltb, leb, ◌==◌, if◌then◌else◌, Bool-cases, &&-eq-true, ||-eq-false, ==-eq-false, list_head,
  contains, length-append, length-set, get_elem?-set_self, get_elem?-set_ne, ==_iff, length-map,
  some-injective, positive_test, if-both,
}
use coretex_client.State.Types.{CortexState}
use coretex_client.State.Types.Ranges
use coretex_client.Substrate.PolicyAtoms.{field, mask}
use coretex_client.Substrate.Counts.{codebook_entry_count, EncodeResult, ok, out_of_range}
use Prim.Native.Nat.{bit_and, bit_or}

pub data CodeType : Type 0 where
  int8_scale_zero pq : CodeType

pub record CodebookEntry : Type 0 where
  pub entry_index : ℕ
  pub code : ℕ
  pub code_type : CodeType
  pub valid : Bool
  pub payload : ℕ
  pub payload_cont : ℕ

unfoldable pub code_type_by_bits : ℕ → Option CodeType
code_type_by_bits b = if b == 1 then some int8_scale_zero else if b == 2 then some pq else none

unfoldable pub code_type_to_bits : CodeType → ℕ
code_type_to_bits int8_scale_zero = 1
code_type_to_bits pq = 2

pub data CodebookWords : Type 0 where
  empty failure : CodebookWords
  entry : CodebookEntry → CodebookWords

-- The tests behind the one on the type.
unfoldable pub decode_code_type : ℕ → ℕ → ℕ → Option CodeType → CodebookWords
decode_code_type i w₀ w₁ none = failure
decode_code_type i w₀ w₁ (some code_type) =
    let code = field w₀ 240 (mask 16) in
    if code == 0
    then failure
    else if bit_and (field w₀ 208 (mask 16)) 1 == 0
    then failure
    else entry (record {
      entry_index = i;
      code = code;
      code_type = code_type;
      valid = true;
      payload = field w₀ 0 (mask 208);
      payload_cont = w₁;
    })

-- One round of the loop of `decodeCodebook`.
unfoldable pub decode_codebook_words : ℕ → ℕ → ℕ → CodebookWords
decode_codebook_words i w₀ w₁ =
    if w₀ == 0 && w₁ == 0
    then empty
    else decode_code_type i w₀ w₁ (code_type_by_bits (field w₀ 224 (mask 16)))

pub record DecodedCodebook : Type 0 where
  pub entries : List (Option CodebookEntry)
  pub attempts : ℕ
  pub failures : ℕ

abbrev pub count_codebook : CodebookWords → DecodedCodebook → DecodedCodebook
count_codebook empty d = record d { entries = none ∷ d.entries }
count_codebook failure d = record d {
  entries = none ∷ d.entries;
  attempts = d.attempts + 1;
  failures = d.failures + 1;
}
count_codebook (entry e) d = record d { entries = some e ∷ d.entries; attempts = d.attempts + 1 }

-- The entries from `i` on, with `n` to go.
unfoldable pub decode_codebook_from : ℕ → ℕ → CortexState → DecodedCodebook
decode_codebook_from zero i s = record { entries = []; attempts = 0; failures = 0 }
decode_codebook_from (suc n) i s =
    let base = Ranges.codebook_start + i * 2 in
    count_codebook (decode_codebook_words i (get_or s.words base 0) (get_or s.words (base + 1) 0))
      (decode_codebook_from n (suc i) s)

unfoldable pub decode_codebook : CortexState → DecodedCodebook
decode_codebook s = decode_codebook_from codebook_entry_count 0 s

unfoldable pub encode_codebook_entry : CodebookEntry → EncodeResult (List ℕ)
encode_codebook_entry e =
    if e.code == 0 || ltb 0xffff e.code
    then out_of_range
    else if not (e.payload / 2 ^ 208 == 0)
    then out_of_range
    else ok (
        bit_or
          (bit_or (bit_or (e.code * 2 ^ 240) (code_type_to_bits e.code_type * 2 ^ 224))
            ((if e.valid then 1 else 0) * 2 ^ 208))
          e.payload
        ∷ e.payload_cont
        ∷ [])
