-- ===== src/Rewards/Numeric.antt =====
-- src/rewards/work-units.ts: `toBigInt`, `toSignedBigInt`, `min`, `max`, `clamp`, `ceilDiv`.
-- A value of type `string | bigint | number` keeps its three forms: a number is a safe integer or
-- is anything else, and a string is the list of its character codes.
use coretex_client.Prelude.{
  ℕ, zero, suc, ◌+◌, ◌-◌, ◌*◌, ◌/◌, ◌≡◌, refl, ap, List, [], ◌∷◌, Bool, true, false, ◌&&◌, ◌||◌,
  ltb, leb, ◌==◌, if◌then◌else◌, length,
}
use coretex_client.Prelude.Int.{ℤ, pos, negsuc}

pub data Numeric : Type 0 where
  bigint : ℤ → Numeric
  safe_integer : ℤ → Numeric
  other_number : Numeric
  str : List ℕ → Numeric

-- A thrown RangeError is `range_error`.
pub data WorkResult {ℓ} (A : Type ℓ) : Type ℓ where
  ok : A → WorkResult A
  range_error : WorkResult A

infixl 5 ◌>>=◌
infixl 5 ◌>>◌
abbrev pub ◌>>=◌ {μ ν} :
    {X : Type μ} {Y : Type ν} → WorkResult X → (X → WorkResult Y) → WorkResult Y
ok a >>= f = f a
range_error >>= f = range_error

abbrev pub ◌>>◌ {ℓ} : {B : Type ℓ} → WorkResult (Unit {0}) → WorkResult B → WorkResult B
first >> next = first >>= λ nothing. next

-- `if (b) throw new RangeError(...)`
abbrev pub throw_if : Bool → WorkResult (Unit {0})
throw_if true = range_error
throw_if false = ok tt

-- Inversion of a chain that succeeds.
pub >>=-eq-ok {μ ν} :
    {X : Type μ} {Y : Type ν} (first : WorkResult X) (step : X → WorkResult Y) {out : Y}
    → (first >>= step) ≡ ok out
    → (mid : X) × (first ≡ ok mid) × (step mid ≡ ok out)
>>=-eq-ok (ok mid) step run = (mid, refl, run)
>>=-eq-ok range_error step run = cc

abbrev value_or {ℓ} : {A : Type ℓ} → A → WorkResult A → A
value_or d (ok a) = a
value_or d range_error = d

pub ok-injective {ℓ} : {A : Type ℓ} {a b : A} → ok a ≡ ok b → a ≡ b
ok-injective {a} h = ap (value_or a) h

pub throw_if-eq-ok {ℓ} :
    {B : Type ℓ} (t : Bool) (m : WorkResult B) {b : B}
    → (throw_if t >> m) ≡ ok b
    → (t ≡ false) × (m ≡ ok b)
throw_if-eq-ok true m h = cc
throw_if-eq-ok false m h = (refl, h)

-- `/^[0-9]*$/`
all_digits : List ℕ → Bool
all_digits [] = true
all_digits (c ∷ cs) = leb 48 c && leb c 57 && all_digits cs

-- `/^(0|[1-9][0-9]*)$/.test(value)`
pub is_decimal : List ℕ → Bool
unfolding all_digits
is_decimal [] = false
is_decimal (c ∷ cs) = (c == 48 && length cs == 0) || (leb 49 c && leb c 57 && all_digits cs)

-- `BigInt(value)` of a string of digits.
digits_value : ℕ → List ℕ → ℕ
digits_value acc [] = acc
digits_value acc (c ∷ cs) = digits_value (acc * 10 + (c - 48)) cs

unfoldable pub non_negative : ℤ → WorkResult ℕ
non_negative (pos n) = ok n
non_negative (negsuc n) = range_error

unfoldable pub to_big_int : Numeric → WorkResult ℕ
unfolding non_negative is_decimal digits_value
to_big_int (bigint z) = non_negative z
to_big_int (safe_integer z) = non_negative z
to_big_int other_number = range_error
to_big_int (str cs) = if is_decimal cs then ok (digits_value 0 cs) else range_error

-- `-n`
negated : ℕ → ℤ
negated zero = pos 0
negated (suc n) = negsuc n

signed_decimal : List ℕ → WorkResult ℤ
unfolding is_decimal digits_value negated
signed_decimal [] = range_error
signed_decimal (c ∷ cs) =
    if c == 45
    then (if is_decimal cs then ok (negated (digits_value 0 cs)) else range_error)
    else if is_decimal (c ∷ cs)
    then ok (pos (digits_value 0 (c ∷ cs)))
    else range_error

unfoldable pub to_signed_big_int : Numeric → WorkResult ℤ
unfolding signed_decimal
to_signed_big_int (bigint z) = ok z
to_signed_big_int (safe_integer z) = ok z
to_signed_big_int other_number = range_error
to_signed_big_int (str cs) = signed_decimal cs

abbrev pub min : ℕ → ℕ → ℕ
min a b = if ltb a b then a else b

abbrev pub max : ℕ → ℕ → ℕ
max a b = if ltb b a then a else b

abbrev pub clamp : ℕ → ℕ → ℕ → ℕ
clamp value lo hi = min (max value lo) hi

-- Its denominator is the constant 10000 wherever the source calls it.
abbrev pub ceil_div : ℕ → ℕ → ℕ
ceil_div numerator denominator = (numerator + denominator - 1) / denominator
