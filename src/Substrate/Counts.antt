-- ===== src/Substrate/Counts.antt =====
-- src/substrate/retrieval-decoder.ts: the sizes of the regions, and the result of an encoder.
use coretex_client.Prelude.{ℕ, ap, ◌≡◌, refl, Bool, true, false, if◌then◌else◌}

abbrev pub memory_index_slot_count : ℕ
memory_index_slot_count = 352

abbrev pub retrieval_key_slot_count : ℕ
retrieval_key_slot_count = 36

abbrev pub retrieval_key_words_per_slot : ℕ
retrieval_key_words_per_slot = 8

abbrev pub retrieval_key_bytes_per_slot : ℕ
retrieval_key_bytes_per_slot = 256

abbrev pub relations_entry_count : ℕ
relations_entry_count = 128

abbrev pub codebook_entry_count : ℕ
codebook_entry_count = 48

-- An encoder throws an Error where a field does not fit.
pub data EncodeResult (A : Type 0) : Type 0 where
  ok : A → EncodeResult A
  out_of_range : EncodeResult A

abbrev value_or : {A : Type 0} → A → EncodeResult A → A
value_or d (ok a) = a
value_or d out_of_range = d

pub ok-injective : {A : Type 0} {a b : A} → ok a ≡ ok b → a ≡ b
ok-injective {a} h = ap (value_or a) h

-- A guard that throws, where the call returned.
pub if-eq-ok :
    {A : Type 0} (b : Bool) (x : EncodeResult A) {v : A}
    → (if b then out_of_range else x) ≡ ok v
    → (b ≡ false) × (x ≡ ok v)
if-eq-ok true x h = absurd (cc)
if-eq-ok false x h = (refl, h)
