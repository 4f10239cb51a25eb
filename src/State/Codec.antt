-- ===== src/State/Codec.antt =====
-- src/state/codec.ts: words as 32 big-endian bytes, a state as 32768 bytes, and bit fields.
-- An array that the source writes in place is a list that each write returns.
pub mod Bytes
pub mod Packing
use coretex_client.Prelude.{
  ℕ, zero, suc, ◌+◌, ◌-◌, ◌*◌, ◌/◌, ◌%◌, ◌^◌, List, [], ◌∷◌, ◌++◌, Option, none, some, ◌==◌,
  if◌then◌else◌, length, get_or, set, replicate,
}
use coretex_client.State.Types.{CortexState}
use coretex_client.State.Types.Ranges
use Prim.Native.Nat.{bit_and, bit_or}

pub data CodecError : Type 0 where
  wrong_word_count wrong_byte_count : CodecError

pub data CodecResult (A : Type 0) : Type 0 where
  ok : A → CodecResult A
  err : CodecError → CodecResult A

abbrev pub packed_size : ℕ
packed_size = 32768

-- The loop of `writeBigEndian32` over the bytes `b - 1` down to 0.
unfoldable pub write_bytes : ℕ → List ℕ → ℕ → ℕ → List ℕ
write_bytes zero out offset v = out
write_bytes (suc b) out offset v =
    write_bytes b (set out (offset + b) (bit_and v 0xff)) offset (v / 2 ^ 8)

-- `BigInt.asUintN(256, value)` is `value % 2 ^ 256`.
unfoldable pub write_big_endian32 : List ℕ → ℕ → ℕ → List ℕ
write_big_endian32 out offset value = write_bytes 32 out offset (value % 2 ^ 256)

-- `writeBigEndian32` into 32 fresh bytes.
unfoldable pub word_bytes : ℕ → List ℕ
word_bytes w = write_big_endian32 (replicate 32 0) 0 w

-- The loop of `readBigEndian32` with `n` bytes to go; a byte past the end reads as 0.
read_bytes : ℕ → List ℕ → ℕ → ℕ → ℕ
read_bytes zero bytes offset result = result
read_bytes (suc n) bytes offset result =
    read_bytes n bytes (offset + 1) (bit_or (result * 2 ^ 8) (get_or bytes offset 0))

pub read_big_endian32 : List ℕ → ℕ → ℕ
read_big_endian32 bytes offset = read_bytes 32 bytes offset 0

-- The loop of `pack` from word `i`, with `n` words to go.
pack_loop : ℕ → ℕ → List ℕ → List ℕ → List ℕ
pack_loop zero i words out = out
pack_loop (suc n) i words out =
    pack_loop n (suc i) words (write_big_endian32 out (i * 32) (get_or words i 0))

pub pack : CortexState → CodecResult (List ℕ)
pack s =
    if length s.words == Ranges.word_count
    then ok (pack_loop Ranges.word_count 0 s.words (replicate packed_size 0))
    else err wrong_word_count

-- The loop of `unpack` from word `i`, with `n` words to go.
unpack_loop : ℕ → ℕ → List ℕ → List ℕ
unpack_loop zero i bytes = []
unpack_loop (suc n) i bytes = read_big_endian32 bytes (i * 32) ∷ unpack_loop n (suc i) bytes

pub unpack : List ℕ → CodecResult CortexState
unpack bytes =
    if length bytes == packed_size
    then ok (record { words = unpack_loop Ranges.word_count 0 bytes })
    else err wrong_byte_count

-- `(1n << BigInt(width)) - 1n`
abbrev mask : ℕ → ℕ
mask width = 2 ^ width - 1

-- A field between bits `hi` and `lo`, with `lo ≤ hi`.
pub get_field : ℕ → ℕ → ℕ → ℕ
get_field word hi lo = bit_and (word / 2 ^ lo) (mask (hi + 1 - lo))

-- `word & ~m` on a non-negative `word` takes away the bits of `m` that it has.
pub set_field : ℕ → ℕ → ℕ → ℕ → ℕ
set_field word hi lo value =
    let m = mask (hi + 1 - lo) in
    bit_or (word - bit_and word (m * 2 ^ lo)) (bit_and value m * 2 ^ lo)
