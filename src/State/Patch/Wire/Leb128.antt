-- ===== src/State/Patch/Wire/Leb128.antt =====
-- The LEB128 index of a patch entry: what `encodeLEB128` writes and `decodeLEB128` accepts.
use coretex_client.Prelude.{
  ℕ, suc, ◌+◌, ◌*◌, ◌/◌, ◌%◌, ◌^◌, ◌≤◌, ◌<◌, ◌≡◌, ap, ◌∙◌, List, [], ◌∷◌, ◌++◌, arith, length,
  get_or, drop, drop-eq-cons, All, ◌⊎◌, inl, inr,
}
use coretex_client.Bits.{bit_and-mask, bit_and-top, bit_or-top, bit_or-low_shift}
use coretex_client.State.Types.{IsByte}
use coretex_client.State.Codec.Bytes.{drop-step, get_or-IsByte}
use coretex_client.State.Patch.Wire.{ok, encode_leb128, decode_leb128}
use Prim.Native.Nat.{bit_and}
use native.Mathlib.Decide.{dec_lt}
use native.Mathlib.Numerals.{add-one}

low_group : (n : ℕ) → bit_and n 0x7f ≡ n % 128
low_group n = bit_and-mask 7 n

pub encode_leb128_one : (i : ℕ) → i < 128 → encode_leb128 i ≡ i ∷ []
unfolding encode_leb128
encode_leb128_one i h = ground (arith, low_group (i % 2 ^ 32))

pub encode_leb128_two :
    (i : ℕ) → 128 ≤ i → i < 1024 → encode_leb128 i ≡ (i % 128 + 128) ∷ i / 128 ∷ []
unfolding encode_leb128
encode_leb128_two i lo hi =
    ground
      (arith, low_group (i % 2 ^ 32), low_group (i % 2 ^ 32 / 2 ^ 7), bit_or-top (i % 2 ^ 32 % 128))

-- A one-byte index.
decode_leb128_one :
    (bytes : List ℕ) (offset i : ℕ) (rest : List ℕ)
    → drop offset bytes ≡ i ∷ rest
    → i < 128
    → decode_leb128 bytes offset ≡ ok (i, 1)
unfolding decode_leb128
decode_leb128_one bytes offset i rest e h =
    let (at, len, _) = drop-eq-cons offset bytes i 0 rest e in
    rw at (ground (arith, low_group i, bit_and-top i))

-- A two-byte index.
decode_leb128_two :
    (bytes : List ℕ) (offset x y : ℕ) (rest : List ℕ)
    → drop offset bytes ≡ x ∷ y ∷ rest
    → 128 ≤ x
    → x < 256
    → 1 ≤ y
    → y < 8
    → decode_leb128 bytes offset ≡ ok (x % 128 + y * 128, 2)
unfolding decode_leb128
decode_leb128_two bytes offset x y rest e hx hx' hy hy' =
    let (at, len, tail) = drop-eq-cons offset bytes x 0 (y ∷ rest) e in
    let (at', len', _) = drop-eq-cons (offset + 1) bytes y 0 rest tail in
    rw (at, at')
      (ground (
        arith,
        low_group x,
        low_group y,
        bit_and-top x,
        bit_and-top y,
        bit_or-low_shift 7 (y % 128) (x % 128),
      ))

-- What `encodeLEB128` wrote for a word index, `decodeLEB128` reads back.
pub decode-encode_leb128 :
    (bytes : List ℕ) (offset i : ℕ) (rest : List ℕ)
    → i < 1024
    → drop offset bytes ≡ encode_leb128 i ++ rest
    → decode_leb128 bytes offset ≡ ok (i, length (encode_leb128 i))
decode-encode_leb128 bytes offset i rest h e = elim (dec_lt i 128) [
  | yes low ↦
      rw (encode_leb128_one i low)
        (decode_leb128_one bytes offset i rest (rw (encode_leb128_one i low) at e) low)
  | no high ↦
      let two = encode_leb128_two i (omega arith) h in
      rw two (
        decode_leb128_two bytes offset (i % 128 + 128) (i / 128) rest (rw two at e) (omega arith)
          (omega arith) (omega arith) (omega arith)
        ∙ ap (λ (v : ℕ). ok (v, 2)) (omega arith))
]

-- An accepted index by the number of its bytes.
decode_leb128_cases :
    (bytes : List ℕ) (offset i taken : ℕ)
    → All IsByte bytes
    → decode_leb128 bytes offset ≡ ok (i, taken)
    → let first = get_or bytes offset 0 in
      let second = get_or bytes (offset + 1) 0 in
      ((offset < length bytes) × (first < 128) × (i ≡ first) × (taken ≡ 1))
      ⊎ ((offset + 1 < length bytes)
          × (128 ≤ first)
          × (first < 256)
          × (second < 128)
          × (i ≡ first % 128 + second * 128)
          × (128 ≤ i)
          × (i < 1024)
          × (taken ≡ 2))
unfolding decode_leb128
decode_leb128_cases bytes offset i taken hb e =
    let first = get_or bytes offset 0 in
    let second = get_or bytes (offset + 1) 0 in
    ground (
      arith,
      get_or-IsByte bytes offset hb,
      get_or-IsByte bytes (offset + 1) hb,
      low_group first,
      low_group second,
      bit_and-top first,
      bit_and-top second,
      bit_or-low_shift 7 (second % 128) (first % 128),
    )

-- An index that is accepted is a word index in its one canonical form.
pub encode-decode_leb128 :
    (bytes : List ℕ) (offset i taken : ℕ)
    → All IsByte bytes
    → decode_leb128 bytes offset ≡ ok (i, taken)
    → (i < 1024)
      × (offset + taken ≤ length bytes)
      × (drop offset bytes ≡ encode_leb128 i ++ drop (offset + taken) bytes)
encode-decode_leb128 bytes offset i taken hb e =
    elim (decode_leb128_cases bytes offset i taken hb e) [
      | inl (inside, low, value, one) ↦ (
        omega arith,
        omega arith,
        rw (value, one, encode_leb128_one _ low, add-one) (drop-step bytes offset inside),
      )
      | inr (inside, high, byte, low, value, lo, hi, two) ↦ (
        hi,
        omega arith,
        drop-step bytes offset (omega arith)
            ∙ ap (λ t. get_or bytes offset 0 ∷ t) (drop-step bytes (suc offset) (omega arith))
            ∙ rw (two, encode_leb128_two i lo hi)
                (let p : get_or bytes offset 0 ≡ i % 128 + 128 = omega arith in
                  let q : get_or bytes (offset + 1) 0 ≡ i / 128 = omega arith in
                  let r : offset + 2 ≡ suc (suc offset) = omega arith in
                  cc (p, q, r, add-one offset)),
      )
    ]
