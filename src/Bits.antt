-- ===== src/Bits.antt =====
-- Shifts and masks as arithmetic, for every width.
use coretex_client.Prelude.{
  ℕ, zero, suc, ◌+◌, ◌-◌, ◌*◌, ◌/◌, ◌%◌, ◌^◌, ◌≤◌, ◌<◌, min, max, ◌≡◌, refl, ap, Bool, true, ◌&&◌,
  ◌==◌, ==_iff, arith,
}
use Prim.Native.Nat.{bit_and, bit_or, digits, bit_and-bitwise, bit_or-bitwise}
use native.Mathlib.Nat.{pow-suc}

-- Digit recursions do not depend on their fuel, once it is enough.
and_fuel :
    (f g x y : ℕ) → x ≤ f → x ≤ g → digits (λ b. zero) min f x y ≡ digits (λ b. zero) min g x y
and_fuel zero zero x y low high = refl
and_fuel zero (suc g) zero y low high = refl
and_fuel zero (suc g) (suc x) y low high = absurd (omega arith)
and_fuel (suc f) zero zero y low high = refl
and_fuel (suc f) zero (suc x) y low high = absurd (omega arith)
and_fuel (suc f) (suc g) zero y low high = refl
and_fuel (suc f) (suc g) (suc x) y low high =
    let rest = and_fuel f g (suc x / 2) (y / 2) (omega arith) (omega arith) in omega (arith, rest)

or_fuel : (n m a b : ℕ) → a ≤ n → a ≤ m → digits (λ b. b) max n a b ≡ digits (λ b. b) max m a b
or_fuel zero zero a b p q = refl
or_fuel zero (suc m) zero b p q = refl
or_fuel zero (suc m) (suc a) b p q = absurd (omega arith)
or_fuel (suc n) zero zero b p q = refl
or_fuel (suc n) zero (suc a) b p q = absurd (omega arith)
or_fuel (suc n) (suc m) zero b p q = refl
or_fuel (suc n) (suc m) (suc a) b p q =
    omega (arith, or_fuel n m (suc a / 2) (b / 2) (omega arith) (omega arith))

pub bit_and_zero_left : (y : ℕ) → bit_and 0 y ≡ 0
bit_and_zero_left y = bit_and-bitwise 0 y

zero-bit_or : (b : ℕ) → bit_or 0 b ≡ b
zero-bit_or b = bit_or-bitwise 0 b

bit_and_step : (x y : ℕ) → bit_and x y ≡ bit_and (x / 2) (y / 2) * 2 + min (x % 2) (y % 2)
bit_and_step zero y = omega (arith, bit_and_zero_left y, bit_and_zero_left (y / 2))
bit_and_step (suc x) y =
    let here = bit_and-bitwise (suc x) y in
    let above = bit_and-bitwise (suc x / 2) (y / 2) in
    let same_digits = and_fuel x (suc x / 2) (suc x / 2) (y / 2) (omega arith) (omega arith) in
    omega (arith, here, above, same_digits)

bit_or_step : (a b : ℕ) → bit_or a b ≡ bit_or (a / 2) (b / 2) * 2 + max (a % 2) (b % 2)
bit_or_step zero b = omega (arith, zero-bit_or b, zero-bit_or (b / 2))
bit_or_step (suc a) b = omega (
  arith,
  bit_or-bitwise (suc a) b,
  bit_or-bitwise (suc a / 2) (b / 2),
  or_fuel a (suc a / 2) (suc a / 2) (b / 2) (omega arith) (omega arith),
)

pub pow2-suc : (k : ℕ) → 2 ^ suc k ≡ 2 * 2 ^ k
pow2-suc k = omega (arith, pow-suc 2 k)

pub pow2_pos : (k : ℕ) → 0 < 2 ^ k
pow2_pos zero = omega arith
pow2_pos (suc k) = omega (arith, pow2-suc k, pow2_pos k)

no_common_bits : (bound x : ℕ) → x ≤ bound → bit_and x 0 ≡ 0
no_common_bits bound zero small = refl
no_common_bits zero (suc x) small = absurd (omega arith)
no_common_bits (suc bound) (suc x) small =
    let halved = no_common_bits bound (suc x / 2) (omega arith) in
    let step = bit_and_step (suc x) 0 in omega (arith, step, halved)

pub bit_and-zero : (x : ℕ) → bit_and x 0 ≡ 0
bit_and-zero x = no_common_bits x x (omega arith)

bit_or-zero_fuel : (n a : ℕ) → a ≤ n → bit_or a 0 ≡ a
bit_or-zero_fuel n zero h = refl
bit_or-zero_fuel zero (suc a) h = absurd (omega arith)
bit_or-zero_fuel (suc n) (suc a) h =
    omega (arith, bit_or_step (suc a) 0, bit_or-zero_fuel n (suc a / 2) (omega arith))

pub bit_or-zero : (a : ℕ) → bit_or a 0 ≡ a
bit_or-zero a = bit_or-zero_fuel a a (omega arith)

half_mod : (a k : ℕ) → (a / 2) % 2 ^ k * 2 + a % 2 ≡ a % 2 ^ suc k
half_mod a k = rw pow2-suc (grind (arith, pow2_pos k))

-- A mask of `k` ones keeps the lowest `k` bits.
pub bit_and-mask : (k a : ℕ) → bit_and a (2 ^ k - 1) ≡ a % 2 ^ k
bit_and-mask zero a = omega (arith, bit_and-zero a)
bit_and-mask (suc k) a =
    let half : (2 ^ suc k - 1) / 2 ≡ 2 ^ k - 1 = omega (arith, pow2-suc k, pow2_pos k) in
    omega (
      arith,
      bit_and_step a (2 ^ suc k - 1),
      ap (λ (t : ℕ). bit_and (a / 2) t) half,
      bit_and-mask k (a / 2),
      pow2-suc k,
      pow2_pos k,
      half_mod a k,
    )

-- `a << k | b`, with `b` below `2 ^ k`, is a sum.
pub bit_or-shift : (k a b : ℕ) → b < 2 ^ k → bit_or (a * 2 ^ k) b ≡ a * 2 ^ k + b
bit_or-shift zero a b h = let e : b ≡ 0 = omega arith in rw e (omega (arith, bit_or-zero (a * 1)))
bit_or-shift (suc k) a b h =
    let e : a * 2 ^ suc k ≡ 2 * (a * 2 ^ k) = omega (arith, ap (λ (t : ℕ). a * t) (pow2-suc k)) in
    let half : 2 * (a * 2 ^ k) / 2 ≡ a * 2 ^ k = omega arith in
    rw e (
      omega (
        arith,
        bit_or_step (2 * (a * 2 ^ k)) b,
        ap (λ (t : ℕ). bit_or t (b / 2)) half,
        bit_or-shift k a (b / 2) (omega (arith, pow2-suc k)),
      ))

-- Over a small range, check every value by evaluation.
all_below : ℕ → (ℕ → Bool) → Bool
all_below zero test = true
all_below (suc bound) test = test bound && all_below bound test

all_below-test :
    (test : ℕ → Bool) (bound y : ℕ) → y < bound → all_below bound test ≡ true → test y ≡ true
unfolding all_below
all_below-test test zero y small all = absurd (omega arith)
all_below-test test (suc bound) y small all = ground (arith, all_below-test test bound y)

-- The top bit of a byte: it tells the bytes from 128 on, and adding it to a smaller one is a sum.
top_bit_table : all_below 256 (λ b. bit_and b 0x80 == b / 128 * 128) ≡ true
unfolding all_below
top_bit_table = refl

pub bit_and-top : (b : ℕ) → b < 256 → bit_and b 0x80 ≡ b / 128 * 128
bit_and-top b h = (==_iff _ _).0 (all_below-test _ 256 b h top_bit_table)

set_top_bit_table : all_below 128 (λ b. bit_or b 0x80 == b + 128) ≡ true
unfolding all_below
set_top_bit_table = refl

pub bit_or-top : (b : ℕ) → b < 128 → bit_or b 0x80 ≡ b + 128
bit_or-top b h = (==_iff _ _).0 (all_below-test _ 128 b h set_top_bit_table)

-- The same sum with the operands the other way round.
pub bit_or-low_shift : (k a b : ℕ) → b < 2 ^ k → bit_or b (a * 2 ^ k) ≡ b + a * 2 ^ k
bit_or-low_shift zero a b h =
    let e : b ≡ 0 = omega arith in rw e (omega (arith, zero-bit_or (a * 1)))
bit_or-low_shift (suc k) a b h =
    let e : a * 2 ^ suc k ≡ 2 * (a * 2 ^ k) = omega (arith, ap (λ (t : ℕ). a * t) (pow2-suc k)) in
    let half : 2 * (a * 2 ^ k) / 2 ≡ a * 2 ^ k = omega arith in
    rw e (
      omega (
        arith,
        bit_or_step b (2 * (a * 2 ^ k)),
        ap (λ (t : ℕ). bit_or (b / 2) t) half,
        bit_or-low_shift k a (b / 2) (omega (arith, pow2-suc k)),
      ))
