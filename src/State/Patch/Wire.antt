-- ===== src/State/Patch/Wire.antt =====
-- src/state/patch.ts: LEB128 indices, and the compact bytes of a patch.
-- A thrown RangeError is `err`. The source fills an array of the exact size from left to right;
-- here the parts are appended.
pub mod Leb128
pub mod Header
pub mod Entries
pub mod RoundTrip
pub mod Canonical
mod Tests
use coretex_client.Prelude.{
  ℕ, zero, suc, ◌+◌, ◌-◌, ◌*◌, ◌/◌, ◌%◌, ◌^◌, ◌≡◌, refl, ap, List, [], ◌∷◌, ◌++◌, Option, none,
  some, Bool, true, false, ◌&&◌, ◌||◌, ltb, leb, ◌==◌, if◌then◌else◌, length, get_or, take, drop,
  replicate, not,
}
use coretex_client.Prelude.Int.{ℤ, pos, negsuc}
use coretex_client.State.Types.{Patch}
use coretex_client.State.Types.Ranges
use coretex_client.State.Codec.{word_bytes, read_big_endian32}
use coretex_client.State.Patch.Rules.{validate_patch_type, is_valid}
use Prim.Native.Nat.{bit_and, bit_or}

pub data WireError : Type 0 where
  unexpected_end varint_too_long non_canonical_index index_out_of_range : WireError
  word_count_range length_mismatch bad_patch_type score_delta_range root_length : WireError
  too_short truncated_word trailing_bytes : WireError

pub data WireResult {ℓ} (A : Type ℓ) : Type ℓ where
  ok : A → WireResult A
  err : WireError → WireResult A

infixl 5 ◌>>=◌
infixl 5 ◌>>◌
abbrev pub ◌>>=◌ {μ ν} :
    {X : Type μ} {Y : Type ν} → WireResult X → (X → WireResult Y) → WireResult Y
ok a >>= f = f a
err e >>= f = err e

abbrev pub ◌>>◌ {ℓ} : {B : Type ℓ} → WireResult (Unit {0}) → WireResult B → WireResult B
first >> next = first >>= λ nothing. next

-- `if (b) throw new RangeError(...)`
abbrev pub throw_if : Bool → WireError → WireResult (Unit {0})
throw_if true e = err e
throw_if false e = ok tt

-- Inversion of a chain that succeeds.
pub >>=-eq-ok {μ ν} :
    {X : Type μ} {Y : Type ν} (first : WireResult X) (step : X → WireResult Y) {out : Y}
    → (first >>= step) ≡ ok out
    → (mid : X) × (first ≡ ok mid) × (step mid ≡ ok out)
>>=-eq-ok (ok mid) step run = (mid, refl, run)
>>=-eq-ok (err e) step run = cc

abbrev value_or {ℓ} : {A : Type ℓ} → A → WireResult A → A
value_or d (ok a) = a
value_or d (err e) = d

pub ok-injective {ℓ} : {A : Type ℓ} {a b : A} → ok a ≡ ok b → a ≡ b
ok-injective {a} h = ap (value_or a) h

pub throw_if-eq-ok {ℓ} :
    {B : Type ℓ} (t : Bool) (e : WireError) (m : WireResult B) {b : B}
    → (throw_if t e >> m) ≡ ok b
    → (t ≡ false) × (m ≡ ok b)
throw_if-eq-ok true e m h = cc
throw_if-eq-ok false e m h = (refl, h)

abbrev pub not_equal : ℕ → ℕ → Bool
not_equal a b = not (a == b)

-- `MAX_WIRE_SCORE_DELTA`
abbrev pub max_wire_score_delta : ℕ
max_wire_score_delta = 2 ^ 63 - 1

-- The loop of `encodeLEB128`. `n` is a 32-bit number, so five rounds are enough.
leb128_loop : ℕ → ℕ → List ℕ
leb128_loop zero n = []
leb128_loop (suc rounds) n =
    let rest = n / 2 ^ 7 in
    let more = leb128_loop rounds rest in
    if rest == 0 then bit_and n 0x7f ∷ [] else bit_or (bit_and n 0x7f) 0x80 ∷ more

pub encode_leb128 : ℕ → List ℕ
unfolding leb128_loop
encode_leb128 n = leb128_loop 5 (n % 2 ^ 32)

-- The value, and the number of bytes read.
pub decode_leb128 : List ℕ → ℕ → WireResult (ℕ × ℕ)
decode_leb128 bytes offset =
    let first = get_or bytes offset 0 in
    let second = get_or bytes (offset + 1) 0 in
    let value = bit_or (bit_and first 0x7f) (bit_and second 0x7f * 2 ^ 7) in
    if leb (length bytes) offset
    then err unexpected_end
    else if bit_and first 0x80 == 0
    then ok (bit_and first 0x7f, 1)
    else if leb (length bytes) (offset + 1)
    then err unexpected_end
    else if bit_and second 0x80 == 0
    then (if ltb value 128
        then err non_canonical_index
        else if leb Ranges.word_count value
        then err index_out_of_range
        else ok (value, 2))
    else err varint_too_long

-- Four big-endian bytes of an unsigned 32-bit number.
pub u32_bytes : ℕ → List ℕ
u32_bytes n =
    bit_and (n / 2 ^ 24) 0xff
    ∷ bit_and (n / 2 ^ 16) 0xff
    ∷ bit_and (n / 2 ^ 8) 0xff
    ∷ bit_and n 0xff
    ∷ []

pub read_u32 : List ℕ → ℕ → ℕ
read_u32 bytes offset =
    bit_or
      (bit_or (bit_or (get_or bytes offset 0 * 2 ^ 24) (get_or bytes (offset + 1) 0 * 2 ^ 16))
        (get_or bytes (offset + 2) 0 * 2 ^ 8))
      (get_or bytes (offset + 3) 0)

-- A score delta that the wire can carry: 0 to 2 ^ 63 - 1.
pub wire_score_delta : ℤ → WireResult ℕ
wire_score_delta (pos n) = if ltb max_wire_score_delta n then err score_delta_range else ok n
wire_score_delta (negsuc n) = err score_delta_range

-- For each word its index and its 32 bytes.
pub entry_bytes : List ℕ → List ℕ → List ℕ
entry_bytes (i ∷ is) (w ∷ ws) = encode_leb128 i ++ (word_bytes w ++ entry_bytes is ws)
entry_bytes is ws = []

pub encode_patch : Patch → WireResult (List ℕ)
encode_patch p = do
  throw_if (ltb p.word_count 1 || ltb 4 p.word_count) word_count_range
  throw_if
      (not_equal (length p.indices) p.word_count || not_equal (length p.new_words) p.word_count)
      length_mismatch
  throw_if (not (is_valid (validate_patch_type p.patch_type p.indices))) bad_patch_type
  delta ← wire_score_delta p.score_delta
  throw_if (not_equal (length p.parent_state_root) 32) root_length
  ok (
      bit_and p.patch_type 0xff
      ∷ p.word_count
      ∷ (u32_bytes (delta / 2 ^ 32)
          ++ (u32_bytes (bit_and delta 0xffffffff)
              ++ (p.parent_state_root ++ entry_bytes p.indices p.new_words))))

-- `n` entries from `offset` on: the indices, the words, and the offset behind them.
pub decode_entries : ℕ → List ℕ → ℕ → WireResult (List ℕ × List ℕ × ℕ)
decode_entries zero bytes offset = ok ([], [], offset)
decode_entries (suc n) bytes offset = do
  (i, taken) ← decode_leb128 bytes offset
  throw_if (ltb (length bytes) (offset + taken + 32)) truncated_word
  (is, ws, end) ← decode_entries n bytes (offset + taken + 32)
  ok (i ∷ is, read_big_endian32 bytes (offset + taken) ∷ ws, end)

pub decode_patch : List ℕ → WireResult Patch
decode_patch bytes = do
  throw_if (ltb (length bytes) 42) too_short
  let patch_type = get_or bytes 0 0
  let word_count = get_or bytes 1 0
  throw_if (ltb word_count 1 || ltb 4 word_count) word_count_range
  let delta = bit_or (read_u32 bytes 2 * 2 ^ 32) (read_u32 bytes 6)
  throw_if (ltb max_wire_score_delta delta) score_delta_range
  (is, ws, end) ← decode_entries word_count bytes 42
  throw_if (not_equal end (length bytes)) trailing_bytes
  throw_if (not (is_valid (validate_patch_type patch_type is))) bad_patch_type
  ok (record {
    patch_type = patch_type;
    word_count = word_count;
    score_delta = pos delta;
    parent_state_root = take 32 (drop 10 bytes);
    indices = is;
    new_words = ws;
  })
