-- ===== src/State/Patch/Wire/Tests.antt =====
-- A patch of one memory-index word, its bytes, and the wire theorems at them.
use coretex_client.Prelude.{
  ℕ, zero, suc, ◌+◌, ◌<◌, ◌≤◌, ◌≡◌, refl, List, [], ◌∷◌, ◌++◌, arith, length, replicate, drop, All,
  All-append,
}
use coretex_client.Prelude.Int.{pos}
use coretex_client.State.Types.{Patch, IsByte}
use coretex_client.State.Types.PatchType
use coretex_client.State.Codec.{word_bytes, write_big_endian32, write_bytes}
use coretex_client.State.Patch.Rules.{
  validate_patch_type, check_indices, check_range, patch_type_range,
}
use coretex_client.State.Patch.Wire.{
  ok, encode_leb128, decode_leb128, u32_bytes, wire_score_delta, entry_bytes, encode_patch,
  decode_patch,
}
use coretex_client.State.Patch.Wire.Leb128.{decode-encode_leb128, encode-decode_leb128}
use coretex_client.State.Patch.Wire.RoundTrip.{decode-encode_patch}
use coretex_client.State.Patch.Wire.Canonical.{encode-decode_patch}

abbrev example_patch : Patch
example_patch = record {
  patch_type = PatchType.slot_replace;
  word_count = 1;
  score_delta = pos 7;
  parent_state_root = replicate 32 0;
  indices = 300 ∷ [];
  new_words = 5 ∷ [];
}

abbrev example_bytes : List ℕ
example_bytes =
    (0x02 ∷ 1 ∷ replicate 7 0) ++ (7 ∷ replicate 32 0) ++ (0xac ∷ 0x02 ∷ replicate 31 0) ++ (5 ∷ [])

example_encoded : encode_patch example_patch ≡ ok example_bytes
unfolding encode_patch validate_patch_type check_indices check_range patch_type_range
    write_big_endian32 write_bytes wire_score_delta u32_bytes entry_bytes encode_leb128 word_bytes
example_encoded = refl

zero_bytes : (n : ℕ) → All IsByte (replicate n 0)
zero_bytes zero = tt
zero_bytes (suc n) = (omega arith, zero_bytes n)

example_bytes-IsByte : All IsByte example_bytes
example_bytes-IsByte =
    All-append IsByte (0x02 ∷ 1 ∷ replicate 7 0)
      ((7 ∷ replicate 32 0) ++ (0xac ∷ 0x02 ∷ replicate 31 0) ++ (5 ∷ [])) (omega arith)
      (All-append IsByte (7 ∷ replicate 32 0) ((0xac ∷ 0x02 ∷ replicate 31 0) ++ (5 ∷ []))
        (omega arith, zero_bytes 32)
        (All-append IsByte (0xac ∷ 0x02 ∷ replicate 31 0) (5 ∷ []) (omega arith) (omega arith)))

decode-encode_patch_example : decode_patch example_bytes ≡ ok example_patch
decode-encode_patch_example =
    decode-encode_patch example_patch example_bytes (zero_bytes 32) (omega arith) example_encoded

encode-decode_patch_example : encode_patch example_patch ≡ ok example_bytes
encode-decode_patch_example =
    encode-decode_patch example_bytes example_patch example_bytes-IsByte (
      decode-encode_patch example_patch example_bytes (zero_bytes 32) (omega arith) example_encoded)

decode-encode_leb128_example :
    decode_leb128 (9 ∷ (encode_leb128 300 ++ (7 ∷ []))) 1 ≡ ok (300, length (encode_leb128 300))
decode-encode_leb128_example =
    decode-encode_leb128 (9 ∷ (encode_leb128 300 ++ (7 ∷ []))) 1 300 (7 ∷ []) (omega arith) refl

example_index : decode_leb128 (0xac ∷ 0x02 ∷ 9 ∷ []) 0 ≡ ok (300, 2)
unfolding decode_leb128
example_index = refl

encode-decode_leb128_example :
    (300 < 1024)
    × (0 + 2 ≤ 3)
    × (drop 0 (0xac ∷ 0x02 ∷ 9 ∷ []) ≡ encode_leb128 300 ++ drop (0 + 2) (0xac ∷ 0x02 ∷ 9 ∷ []))
encode-decode_leb128_example =
    encode-decode_leb128 (0xac ∷ 0x02 ∷ 9 ∷ []) 0 300 2 (omega arith) example_index
