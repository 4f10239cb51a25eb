-- ===== src/State/Patch/Wire/RoundTrip.antt =====
-- `decodePatch` gives back the patch that `encodePatch` wrote.
use coretex_client.Prelude.{
  ℕ, ◌+◌, ◌*◌, ◌/◌, ◌%◌, ◌^◌, ◌≤◌, ◌<◌, ◌≡◌, refl, sym, ◌∙◌, List, [], ◌∷◌, ◌++◌, false, not, arith,
  ltb, ◌||◌, length, length-append, drop-append, take-append, All, All-append,
}
use coretex_client.Prelude.Int.{ℤ, pos, negsuc}
use coretex_client.State.Types.{IsByte, IsWord, Patch}
use coretex_client.State.Codec.{word_bytes}
use coretex_client.State.Codec.Bytes.{be_bytes-IsByte}
use coretex_client.State.Patch.Rules.{TypeCheck, valid, invalid, validate_patch_type, is_valid}
use coretex_client.State.Patch.Rules.Regions.{validate_patch_type_iff}
use coretex_client.State.Patch.Wire.{
  ok, >>=-eq-ok, throw_if-eq-ok, ok-injective, not_equal, wire_score_delta, u32_bytes, read_u32,
  encode_leb128, entry_bytes, encode_patch, decode_entries, decode_patch, word_count_range,
  length_mismatch, bad_patch_type, root_length, max_wire_score_delta,
}
use coretex_client.State.Patch.Wire.Leb128.{encode_leb128_one, encode_leb128_two}
use coretex_client.State.Patch.Wire.Header.{
  low_byte, u32_bytes_lem, read_u32_lem, low_half, join_halves,
}
use coretex_client.State.Patch.Wire.Entries.{word_bytes-be_bytes, decode_entries-entry_bytes}
use Prim.Native.Nat.{bit_and, bit_or}
use mathlib.Core.List.{append-nil}
use native.Mathlib.Decide.{dec_lt}

-- The bytes of a patch with a score delta of `delta`.
abbrev image : Patch → ℕ → List ℕ
image p delta =
    bit_and p.patch_type 0xff
    ∷ p.word_count
    ∷ (u32_bytes (delta / 2 ^ 32)
        ++ (u32_bytes (bit_and delta 0xffffffff)
            ++ (p.parent_state_root ++ entry_bytes p.indices p.new_words)))

-- What a patch satisfies that is encoded.
record IsEncoded (p : Patch) (delta : ℕ) : Type 0 where
  count_low : 1 ≤ p.word_count
  count_high : p.word_count ≤ 4
  index_count : length p.indices ≡ p.word_count
  value_count : length p.new_words ≡ p.word_count
  check : validate_patch_type p.patch_type p.indices ≡ valid
  delta_value : p.score_delta ≡ pos delta
  delta_range : delta < 2 ^ 63
  root_size : length p.parent_state_root ≡ 32

is_valid-eq-true : (c : TypeCheck) → not (is_valid c) ≡ false → c ≡ valid
is_valid-eq-true valid h = refl
is_valid-eq-true (invalid r) h = cc

wire_score_delta-eq-ok :
    (z : ℤ) (delta : ℕ) → wire_score_delta z ≡ ok delta → (z ≡ pos delta) × (delta < 2 ^ 63)
unfolding wire_score_delta
wire_score_delta-eq-ok (pos n) delta h = ground arith
wire_score_delta-eq-ok (negsuc n) delta h = cc

encode_patch-IsEncoded :
    (p : Patch) (bytes : List ℕ)
    → encode_patch p ≡ ok bytes
    → (delta : ℕ) × IsEncoded p delta × (image p delta ≡ bytes)
unfolding encode_patch
encode_patch-IsEncoded p bytes h =
    let (count, h₁) =
      throw_if-eq-ok (ltb p.word_count 1 || ltb 4 p.word_count) word_count_range _ h in
    let (lengths, h₂) =
      throw_if-eq-ok
        (not_equal (length p.indices) p.word_count || not_equal (length p.new_words) p.word_count)
        length_mismatch _ h₁ in
    let (check, h₃) =
      throw_if-eq-ok (not (is_valid (validate_patch_type p.patch_type p.indices))) bad_patch_type _
        h₂ in
    let (delta, range, h₄) = >>=-eq-ok (wire_score_delta p.score_delta) _ h₃ in
    let (size, h₅) = throw_if-eq-ok (not_equal (length p.parent_state_root) 32) root_length _ h₄ in
    let (value, bound) = wire_score_delta-eq-ok p.score_delta delta range in
    (
      delta,
      record {
        count_low = ground arith;
        count_high = ground arith;
        index_count = ground arith;
        value_count = ground arith;
        check = is_valid-eq-true _ check;
        delta_value = value;
        delta_range = bound;
        root_size = ground arith;
      },
      ok-injective h₅,
    )

encode_leb128-IsByte : (i : ℕ) → i < 1024 → All IsByte (encode_leb128 i)
encode_leb128-IsByte i h = elim (dec_lt i 128) [
  | yes low ↦ rw (encode_leb128_one i low) (omega arith)
  | no high ↦ rw (encode_leb128_two i (omega arith) h) (omega arith)
]

entry_bytes-IsByte :
    (is ws : List ℕ) → All (λ i. i < 1024) is → All IsWord ws → All IsByte (entry_bytes is ws)
unfolding entry_bytes
entry_bytes-IsByte [] ws hi hw = tt
entry_bytes-IsByte (i ∷ is) [] hi hw = tt
entry_bytes-IsByte (i ∷ is) (w ∷ ws) (hi, his) (hw, hws) =
    All-append IsByte (encode_leb128 i) _ (encode_leb128-IsByte i hi) (
      All-append IsByte (word_bytes w) _ (rw (word_bytes-be_bytes w hw) (be_bytes-IsByte 32 w))
        (entry_bytes-IsByte is ws his hws))

below_word_count : (is : List ℕ) → All (λ i. i < 992) is → All (λ i. i < 1024) is
below_word_count [] h = tt
below_word_count (i ∷ is) h = (omega (arith, h.0), below_word_count is h.1)

-- The image with its header taken apart into ten bytes.
abbrev header : ℕ → ℕ → ℕ → ℕ → List ℕ → List ℕ
header t count hi lo rest =
    t
    ∷ count
    ∷ hi / 2 ^ 24 % 256
    ∷ hi / 2 ^ 16 % 256
    ∷ hi / 2 ^ 8 % 256
    ∷ hi % 256
    ∷ lo / 2 ^ 24 % 256
    ∷ lo / 2 ^ 16 % 256
    ∷ lo / 2 ^ 8 % 256
    ∷ lo % 256
    ∷ rest

image-header :
    (p : Patch) (delta : ℕ)
    → p.patch_type < 256
    → image p delta
      ≡ header p.patch_type p.word_count
          (delta / 2 ^ 32)
          (delta % 2 ^ 32)
          (p.parent_state_root ++ entry_bytes p.indices p.new_words)
image-header p delta h =
    let t : bit_and p.patch_type 0xff ≡ p.patch_type = omega (arith, low_byte p.patch_type) in
    rw (t, low_half delta, u32_bytes_lem (delta / 2 ^ 32), u32_bytes_lem (delta % 2 ^ 32))

-- The header's delta is read back.
delta_read :
    (t count delta : ℕ) (rest : List ℕ)
    → delta < 2 ^ 63
    → let bytes = header t count (delta / 2 ^ 32) (delta % 2 ^ 32) rest in
      bit_or (read_u32 bytes 2 * 2 ^ 32) (read_u32 bytes 6) ≡ delta
delta_read t count delta rest h =
    let hi = delta / 2 ^ 32 in
    let lo = delta % 2 ^ 32 in
    let bytes = header t count hi lo rest in
    let high : read_u32 bytes 2 ≡ hi =
      read_u32_lem (hi / 2 ^ 24 % 256) (hi / 2 ^ 16 % 256) (hi / 2 ^ 8 % 256) (hi % 256) bytes 2
        refl refl refl refl (omega arith) (omega arith) (omega arith)
      ∙ omega arith in
    let low : read_u32 bytes 6 ≡ lo =
      read_u32_lem (lo / 2 ^ 24 % 256) (lo / 2 ^ 16 % 256) (lo / 2 ^ 8 % 256) (lo % 256) bytes 6
        refl refl refl refl (omega arith) (omega arith) (omega arith)
      ∙ omega arith in
    rw (high, low, join_halves hi lo (omega arith)) (omega arith)

header-IsByte :
    (t count hi lo : ℕ) (rest : List ℕ)
    → t < 256
    → count < 256
    → All IsByte rest
    → All IsByte (header t count hi lo rest)
header-IsByte t count hi lo rest ht hc hr =
    let b : (n : ℕ) → n % 256 < 256 = λ n. omega arith in
    (ht, (hc, (b _, (b _, (b _, (b _, (b _, (b _, (b _, (b _, hr))))))))))

-- Decoding the image of a patch.
decode_patch-header :
    (p : Patch) (delta : ℕ)
    → IsEncoded p delta
    → All IsByte p.parent_state_root
    → All IsWord p.new_words
    → p.patch_type < 256
    → All (λ i. i < 992) p.indices
    → decode_patch (
        header p.patch_type p.word_count
          (delta / 2 ^ 32)
          (delta % 2 ^ 32)
          (p.parent_state_root ++ entry_bytes p.indices p.new_words))
      ≡ ok p
unfolding decode_patch
decode_patch-header p delta enc hr hw ht low =
    let entries = entry_bytes p.indices p.new_words in
    let rest = p.parent_state_root ++ entries in
    let bytes = header p.patch_type p.word_count (delta / 2 ^ 32) (delta % 2 ^ 32) rest in
    let size : length rest ≡ 32 + length entries =
      omega (arith, length-append p.parent_state_root entries, enc.root_size) in
    let hi = below_word_count p.indices low in
    let hb =
      header-IsByte p.patch_type p.word_count (delta / 2 ^ 32) (delta % 2 ^ 32) rest ht
        (omega (arith, enc.count_high))
        (All-append IsByte p.parent_state_root entries hr
          (entry_bytes-IsByte p.indices p.new_words hi hw)) in
    let long : ltb (length bytes) 42 ≡ false = ground (arith, size) in
    let counted : (ltb p.word_count 1 || ltb 4 p.word_count) ≡ false =
      ground (arith, enc.count_low, enc.count_high) in
    let bounded : ltb max_wire_score_delta delta ≡ false = ground (arith, enc.delta_range) in
    let read : decode_entries p.word_count bytes 42
        ≡ ok (p.indices, p.new_words, 42 + length entries) =
      decode_entries-entry_bytes p.word_count p.indices p.new_words bytes 42 [] hb hi hw
        enc.index_count enc.value_count
        (drop-append 32 p.parent_state_root entries enc.root_size ∙ sym (append-nil entries)) in
    let exact : not_equal (42 + length entries) (length bytes) ≡ false = ground (arith, size) in
    rw (
      long,
      counted,
      delta_read p.patch_type p.word_count delta rest enc.delta_range,
      bounded,
      read,
      exact,
      enc.check,
      take-append 32 p.parent_state_root entries enc.root_size,
      ← enc.delta_value,
    )

-- Decoding the bytes that a patch with words of 256 bits and a root of bytes was encoded to
-- gives the patch back.
pub decode-encode_patch :
    (p : Patch) (bytes : List ℕ)
    → All IsByte p.parent_state_root
    → All IsWord p.new_words
    → encode_patch p ≡ ok bytes
    → decode_patch bytes ≡ ok p
decode-encode_patch p bytes hr hw h =
    let (delta, enc, shape) = encode_patch-IsEncoded p bytes h in
    let (known, low, _, _) = (validate_patch_type_iff p.patch_type p.indices).0 enc.check in
    let ht : p.patch_type < 256 = omega arith in
    rw (← shape, image-header p delta ht) (decode_patch-header p delta enc hr hw ht low)
