-- ===== src/State/Keccak.antt =====
-- src/state/keccak256.ts: Keccak-256 over a sponge of 25 lanes. A lane is the pair of its high and
-- its low 32-bit half, as in the two arrays of the source; an array of lanes is a list of pairs.
pub mod Shape
mod Tests
use coretex_client.Prelude.{
  ℕ, zero, suc, ◌+◌, ◌-◌, ◌*◌, ◌/◌, ◌%◌, ◌^◌, List, [], ◌∷◌, ◌++◌, Bool, true, false, ltb, leb,
  ◌==◌, if◌then◌else◌, length, get_or, set, drop, replicate, tabulate,
}
use Prim.Native.Nat.{bit_and, bit_or, bit_xor}

abbrev pub Lane : Type 0
Lane = ℕ × ℕ

abbrev pub zero_lane : Lane
zero_lane = (0, 0)

abbrev rate : ℕ
rate = 136

-- The round constants `RC`.
abbrev round_constants : List Lane
round_constants =
    (0x00000000, 0x00000001)
    ∷ (0x00000000, 0x00008082)
    ∷ (0x80000000, 0x0000808A)
    ∷ (0x80000000, 0x80008000)
    ∷ (0x00000000, 0x0000808B)
    ∷ (0x00000000, 0x80000001)
    ∷ (0x80000000, 0x80008081)
    ∷ (0x80000000, 0x00008009)
    ∷ (0x00000000, 0x0000008A)
    ∷ (0x00000000, 0x00000088)
    ∷ (0x00000000, 0x80008009)
    ∷ (0x00000000, 0x8000000A)
    ∷ (0x00000000, 0x8000808B)
    ∷ (0x80000000, 0x0000008B)
    ∷ (0x80000000, 0x00008089)
    ∷ (0x80000000, 0x00008003)
    ∷ (0x80000000, 0x00008002)
    ∷ (0x80000000, 0x00000080)
    ∷ (0x00000000, 0x0000800A)
    ∷ (0x80000000, 0x8000000A)
    ∷ (0x80000000, 0x80008081)
    ∷ (0x80000000, 0x00008080)
    ∷ (0x00000000, 0x80000001)
    ∷ (0x80000000, 0x80008008)
    ∷ []

-- The rotation offsets `RHO`.
abbrev rho_offsets : List ℕ
rho_offsets =
    0 ∷ 1 ∷ 62 ∷ 28 ∷ 27 ∷ 36 ∷ 44 ∷ 6 ∷ 55 ∷ 20 ∷ 3 ∷ 10 ∷ 43 ∷ 25 ∷ 39 ∷ 41 ∷ 45 ∷ 15 ∷ 21 ∷ 8
    ∷ 18 ∷ 2 ∷ 61 ∷ 56 ∷ 14 ∷ []

-- The lane permutation `PI`.
abbrev pi_lanes : List ℕ
pi_lanes =
    0 ∷ 10 ∷ 20 ∷ 5 ∷ 15 ∷ 16 ∷ 1 ∷ 11 ∷ 21 ∷ 6 ∷ 7 ∷ 17 ∷ 2 ∷ 12 ∷ 22 ∷ 23 ∷ 8 ∷ 18 ∷ 3 ∷ 13 ∷ 14
    ∷ 24 ∷ 9 ∷ 19 ∷ 4 ∷ []

-- `(a << n) | (b >>> (32 - n))`, as an unsigned 32-bit number.
abbrev shift_in : ℕ → ℕ → ℕ → ℕ
shift_in a b n = bit_or (a * 2 ^ n % 2 ^ 32) (b / 2 ^ (32 - n))

rot64 : ℕ → ℕ → ℕ → Lane
rot64 hi lo count =
    let n = count % 64 in
    if n == 0
    then (hi, lo)
    else if n == 32
    then (lo, hi)
    else if ltb n 32
    then (shift_in hi lo n, shift_in lo hi n)
    else (shift_in lo hi (n - 32), shift_in hi lo (n - 32))

abbrev lane_at : List Lane → ℕ → Lane
lane_at s i = get_or s i zero_lane

abbrev xor_lane : Lane → Lane → Lane
xor_lane (h, l) (h', l') = (bit_xor h h', bit_xor l l')

-- `~a & b` on 32 bits.
abbrev and_not32 : ℕ → ℕ → ℕ
and_not32 a b = bit_and (bit_xor a 0xffffffff) b

abbrev and_not_lane : Lane → Lane → Lane
and_not_lane (h, l) (h', l') = (and_not32 h h', and_not32 l l')

-- The column parity that the first loop of Theta collects.
column : List Lane → ℕ → Lane
column s x =
    xor_lane
      (xor_lane (xor_lane (xor_lane (lane_at s x) (lane_at s (x + 5))) (lane_at s (x + 10)))
        (lane_at s (x + 15)))
      (lane_at s (x + 20))

theta_delta : List Lane → ℕ → Lane
unfolding column rot64
theta_delta parities x =
    let (h, l) = lane_at parities ((x + 1) % 5) in
    xor_lane (lane_at parities ((x + 4) % 5)) (rot64 h l 1)

theta : List Lane → List Lane
unfolding column theta_delta
theta s =
    let parities = tabulate 5 (column s) in
    let deltas = tabulate 5 (theta_delta parities) in
    tabulate 25 (λ i. xor_lane (lane_at s i) (lane_at deltas (i % 5)))

-- `tmp[PI[i]] = rot64(state[i], RHO[i])` for each lane in turn.
rho_pi_loop : List Lane → List ℕ → List ℕ → List Lane → List Lane
unfolding rot64
rho_pi_loop ((h, l) ∷ s) (r ∷ rs) (p ∷ ps) tmp = rho_pi_loop s rs ps (set tmp p (rot64 h l r))
rho_pi_loop s rs ps tmp = tmp

rho_pi : List Lane → List Lane
unfolding rho_pi_loop
rho_pi s = rho_pi_loop s rho_offsets pi_lanes (replicate 25 zero_lane)

chi : List Lane → List Lane
chi tmp = tabulate 25 (λ i.
    let row = 5 * (i / 5) in
    let x = i % 5 in
    xor_lane (lane_at tmp i)
      (and_not_lane (lane_at tmp ((x + 1) % 5 + row)) (lane_at tmp ((x + 2) % 5 + row))))

iota : Lane → List Lane → List Lane
iota rc s = set s 0 (xor_lane (lane_at s 0) rc)

rounds : List Lane → List Lane → List Lane
unfolding theta rho_pi chi iota
rounds [] s = s
rounds (rc ∷ rcs) s = rounds rcs (iota rc (chi (rho_pi (theta s))))

keccak_f1600 : List Lane → List Lane
unfolding rounds
keccak_f1600 s = rounds round_constants s

-- Four bytes, lowest first; a byte past the end is 0.
abbrev word32 : List ℕ → ℕ → ℕ
word32 bytes base =
    get_or bytes base 0
    + get_or bytes (base + 1) 0 * 256
    + get_or bytes (base + 2) 0 * 65536
    + get_or bytes (base + 3) 0 * 16777216

-- The first 17 lanes take the block in.
absorb_block : List Lane → List ℕ → ℕ → List Lane
absorb_block s block offset = tabulate 25 (λ i.
    if ltb i 17
    then xor_lane (lane_at s i) (word32 block (offset + i * 8 + 4), word32 block (offset + i * 8))
    else lane_at s i)

-- `while (offset + rate <= data.length)`. A round takes 136 bytes, so `length` rounds are enough.
absorb_loop : ℕ → List Lane → List ℕ → ℕ → List Lane × ℕ
absorb_loop zero s bytes offset = (s, offset)
absorb_loop (suc fuel) s bytes offset =
    let rest =
      absorb_loop fuel (keccak_f1600 (absorb_block s bytes offset)) bytes (offset + rate) in
    if leb (offset + rate) (length bytes) then rest else (s, offset)

-- The last block: what is left, then 0x01, zeros, and the top bit of the last byte.
last_block : List ℕ → List ℕ
last_block left =
    let padded = set (left ++ replicate (rate - length left) 0) (length left) 0x01 in
    set padded (rate - 1) (bit_or (get_or padded (rate - 1) 0) 0x80)

-- Eight bytes of a lane, lowest first.
abbrev squeeze_lane : Lane → List ℕ
squeeze_lane (h, l) =
    l % 256
    ∷ (l / 256) % 256
    ∷ (l / 65536) % 256
    ∷ (l / 16777216) % 256
    ∷ h % 256
    ∷ (h / 256) % 256
    ∷ (h / 65536) % 256
    ∷ (h / 16777216) % 256
    ∷ []

squeeze : List Lane → List ℕ
squeeze s =
    squeeze_lane (lane_at s 0)
    ++ (squeeze_lane (lane_at s 1) ++ (squeeze_lane (lane_at s 2) ++ squeeze_lane (lane_at s 3)))

unfoldable pub keccak256 : List ℕ → List ℕ
unfolding absorb_loop last_block absorb_block keccak_f1600 squeeze
keccak256 bytes =
    let (s, offset) = absorb_loop (length bytes) (replicate 25 zero_lane) bytes 0 in
    squeeze (keccak_f1600 (absorb_block s (last_block (drop offset bytes)) 0))
