-- ===== src/State/Patch/Wire/Header.antt =====
-- The 42 bytes before the entries: type, count, score delta and parent root.
use coretex_client.Prelude.{ℕ, ◌+◌, ◌*◌, ◌/◌, ◌%◌, ◌^◌, ◌<◌, ◌≡◌, List, [], ◌∷◌, arith, get_or}
use coretex_client.Bits.{bit_and-mask, bit_or-shift}
use coretex_client.State.Patch.Wire.{u32_bytes, read_u32}
use Prim.Native.Nat.{bit_and, bit_or}

pub low_byte : (n : ℕ) → bit_and n 0xff ≡ n % 256
low_byte n = bit_and-mask 8 n

-- Four big-endian bytes in plain arithmetic.
pub u32_bytes_lem :
    (n : ℕ) → u32_bytes n ≡ n / 2 ^ 24 % 256 ∷ n / 2 ^ 16 % 256 ∷ n / 2 ^ 8 % 256 ∷ n % 256 ∷ []
unfolding u32_bytes
u32_bytes_lem n = simp low_byte

join_u32 :
    (a b c d : ℕ)
    → b < 256
    → c < 256
    → d < 256
    → bit_or (bit_or (bit_or (a * 2 ^ 24) (b * 2 ^ 16)) (c * 2 ^ 8)) d
      ≡ a * 2 ^ 24 + b * 2 ^ 16 + c * 2 ^ 8 + d
join_u32 a b c d hb hc hd = rw (bit_or-shift 24 a (b * 2 ^ 16) (omega arith)) (
    rw (let e : a * 2 ^ 24 + b * 2 ^ 16 ≡ (a * 256 + b) * 2 ^ 16 = omega arith in e) (
      rw (bit_or-shift 16 (a * 256 + b) (c * 2 ^ 8) (omega arith)) (
        rw
          (let e : (a * 256 + b) * 2 ^ 16 + c * 2 ^ 8 ≡ ((a * 256 + b) * 256 + c) * 2 ^ 8 =
              omega arith in
            e)
          (rw (bit_or-shift 8 ((a * 256 + b) * 256 + c) d (omega arith)) (omega arith)))))

pub read_u32_lem :
    (a b c d : ℕ) (bytes : List ℕ) (offset : ℕ)
    → get_or bytes offset 0 ≡ a
    → get_or bytes (offset + 1) 0 ≡ b
    → get_or bytes (offset + 2) 0 ≡ c
    → get_or bytes (offset + 3) 0 ≡ d
    → b < 256
    → c < 256
    → d < 256
    → read_u32 bytes offset ≡ a * 2 ^ 24 + b * 2 ^ 16 + c * 2 ^ 8 + d
unfolding read_u32
read_u32_lem a b c d bytes offset ea eb ec ed hb hc hd =
    rw (ea, eb, ec, ed) (join_u32 a b c d hb hc hd)

-- The low half of a number of up to 64 bits, and the two halves joined.
pub low_half : (n : ℕ) → bit_and n 0xffffffff ≡ n % 2 ^ 32
low_half n = bit_and-mask 32 n

pub join_halves : (hi lo : ℕ) → lo < 2 ^ 32 → bit_or (hi * 2 ^ 32) lo ≡ hi * 2 ^ 32 + lo
join_halves hi lo h = bit_or-shift 32 hi lo h
