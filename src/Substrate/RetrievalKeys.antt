-- ===== src/Substrate/RetrievalKeys.antt =====
-- src/substrate/retrieval-decoder.ts: retrieval keys, eight words each, read as bytes.
-- A text is the list of its character codes, which are ASCII. The norm is kept as the bits of its
-- binary32: the number is finite and above zero exactly where the bits are between 0 and those of
-- infinity, 0x7f800000.
use coretex_client.Prelude.{
  ℕ, zero, suc, ◌+◌, ◌-◌, ◌*◌, ◌/◌, ◌%◌, ◌^◌, List, [], ◌∷◌, map, get_or, take, drop, tabulate,
  Option, none, some, Bool, true, false, not, ◌&&◌, ◌||◌, ltb, leb, ◌==◌, if◌then◌else◌,
}
use coretex_client.State.Types.{CortexState}
use coretex_client.State.Types.Ranges
use coretex_client.Substrate.Counts.{
  retrieval_key_slot_count, retrieval_key_words_per_slot, retrieval_key_bytes_per_slot,
}
use Prim.Native.Nat.{bit_and}

pub record RetrievalKeySlot : Type 0 where
  pub slot_index : ℕ
  pub model_id_hash : List ℕ
  pub l2_norm_bits : ℕ
  pub version_tag : ℕ
  pub quantized_bytes : List ℕ

pub data Quantization : Type 0 where
  int8 bf16 : Quantization

pub record RetrievalKeyLayout : Type 0 where
  pub dim : ℕ
  pub header_bytes : ℕ
  pub quantization : Quantization

-- `DecoderOptions`. The floor is the bits of its binary64.
pub record DecoderOptions : Type 0 where
  pub policy_atoms_mode : Bool
  pub bi_encoder_model_id_hash : Option (List ℕ)
  pub retrieval_key_header_bytes : Option ℕ
  pub lens_diversity_floor : Option ℕ
  pub retrieval_key_layout : Option RetrievalKeyLayout

nth_byte : ℕ → ℕ → ℕ
nth_byte word byte_offset = bit_and (word / 2 ^ ((31 - byte_offset) * 8)) 0xff

unfoldable pub words_to_bytes : List ℕ → ℕ → ℕ → List ℕ
unfolding nth_byte
words_to_bytes words start_word word_count =
    tabulate (word_count * 32) (λ k. nth_byte (get_or words (start_word + k / 32) 0) (k % 32))

abbrev hex_digit : ℕ → ℕ
hex_digit d = if ltb d 10 then 48 + d else 87 + d

hex_digits : List ℕ → List ℕ
hex_digits [] = []
hex_digits (b ∷ bytes) = hex_digit (b / 16) ∷ hex_digit (b % 16) ∷ hex_digits bytes

-- The text starts with `0x`.
bytes_to_hex : List ℕ → List ℕ
unfolding hex_digits
bytes_to_hex bytes = 48 ∷ 120 ∷ hex_digits bytes

abbrev lower_char : ℕ → ℕ
lower_char c = if leb 65 c && leb c 90 then c + 32 else c

to_lower_case : List ℕ → List ℕ
to_lower_case s = map lower_char s

texts_equal : List ℕ → List ℕ → Bool
texts_equal [] [] = true
texts_equal (a ∷ s) (b ∷ t) = a == b && texts_equal s t
texts_equal _ _ = false

-- The bits that `getFloat32` reads as a number.
unfoldable pub read_float32_be : List ℕ → ℕ → ℕ
read_float32_be bytes o =
    get_or bytes o 0 * 2 ^ 24
    + get_or bytes (o + 1) 0 * 2 ^ 16
    + get_or bytes (o + 2) 0 * 2 ^ 8
    + get_or bytes (o + 3) 0

is_finite_positive : ℕ → Bool
is_finite_positive bits = ltb 0 bits && ltb bits 0x7f800000

any_non_zero : List ℕ → Bool
any_non_zero [] = false
any_non_zero (b ∷ bs) = not (b == 0) || any_non_zero bs

-- The test on the hash that the options expect.
hash_differs : Option (List ℕ) → List ℕ → Bool
unfolding to_lower_case texts_equal
hash_differs none hash = false
hash_differs (some expected) hash = not (texts_equal (to_lower_case hash) (to_lower_case expected))

abbrev header_bytes_or : Option ℕ → ℕ
header_bytes_or none = 9
header_bytes_or (some n) = n

pub data KeySlot : Type 0 where
  empty failure : KeySlot
  key : RetrievalKeySlot → KeySlot

-- The tests on the bytes of a slot that is not empty.
unfoldable pub decode_key_bytes : DecoderOptions → ℕ → List ℕ → KeySlot
unfolding bytes_to_hex read_float32_be is_finite_positive any_non_zero hash_differs
decode_key_bytes opts s bytes =
    let header_bytes = header_bytes_or opts.retrieval_key_header_bytes in
    let version_tag = get_or bytes 0 0 in
    let hash = bytes_to_hex (take 4 (drop 1 bytes)) in
    let norm = read_float32_be bytes 5 in
    if not (version_tag == 1)
    then failure
    else if hash_differs opts.bi_encoder_model_id_hash hash
    then failure
    else if not (is_finite_positive norm)
    then failure
    else if ltb header_bytes 9 || ltb retrieval_key_bytes_per_slot header_bytes
    then failure
    else if any_non_zero (take (header_bytes - 9) (drop 9 bytes))
    then failure
    else key (record {
      slot_index = s;
      model_id_hash = hash;
      l2_norm_bits = norm;
      version_tag = version_tag;
      quantized_bytes = drop header_bytes bytes;
    })

-- One round of the loop of `decodeRetrievalKeys`.
unfoldable pub decode_key_slot : DecoderOptions → ℕ → CortexState → KeySlot
unfolding any_non_zero
decode_key_slot opts s state =
    let base = Ranges.retrieval_keys_start + s * retrieval_key_words_per_slot in
    let slot_words = tabulate retrieval_key_words_per_slot (λ o. get_or state.words (base + o) 0) in
    if not (any_non_zero slot_words)
    then empty
    else decode_key_bytes opts s (words_to_bytes state.words base retrieval_key_words_per_slot)

pub record DecodedKeys : Type 0 where
  pub slots : List (Option RetrievalKeySlot)
  pub attempts : ℕ
  pub failures : ℕ

abbrev pub count_key : KeySlot → DecodedKeys → DecodedKeys
count_key empty d = record d { slots = none ∷ d.slots }
count_key failure d = record d {
  slots = none ∷ d.slots;
  attempts = d.attempts + 1;
  failures = d.failures + 1;
}
count_key (key k) d = record d { slots = some k ∷ d.slots; attempts = d.attempts + 1 }

-- The slots from `i` on, with `n` to go.
unfoldable pub decode_retrieval_keys_from : DecoderOptions → ℕ → ℕ → CortexState → DecodedKeys
decode_retrieval_keys_from opts zero i s = record { slots = []; attempts = 0; failures = 0 }
decode_retrieval_keys_from opts (suc n) i s =
    count_key (decode_key_slot opts i s) (decode_retrieval_keys_from opts n (suc i) s)

unfoldable pub decode_retrieval_keys : CortexState → DecoderOptions → DecodedKeys
decode_retrieval_keys s opts = decode_retrieval_keys_from opts retrieval_key_slot_count 0 s
