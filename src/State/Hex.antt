-- ===== src/State/Hex.antt =====
-- src/state/merkle.ts: `bytesToHex` and `hexToBytes`. A text is the list of its character codes, which
-- are ASCII. `parseInt(s, 16)` of two characters is written out: it reads blanks, a sign and digits
-- up to the first character that is none, and what it does not read as a number is stored as 0.
use coretex_client.Prelude.{
  ℕ, ◌+◌, ◌-◌, ◌*◌, ◌/◌, ◌%◌, ◌<◌, ◌≡◌, refl, List, [], ◌∷◌, drop, All, Option, none, some, Bool,
  false, ◌&&◌, ◌||◌, arith, ltb, leb, ◌==◌, if◌then◌else◌,
}

abbrev pub hex_digit : ℕ → ℕ
hex_digit d = if ltb d 10 then 48 + d else 87 + d

unfoldable pub hex_digits : List ℕ → List ℕ
hex_digits [] = []
hex_digits (b ∷ bytes) = hex_digit (b / 16) ∷ hex_digit (b % 16) ∷ hex_digits bytes

-- The text starts with `0x`.
unfoldable pub bytes_to_hex : List ℕ → List ℕ
bytes_to_hex bytes = 48 ∷ 120 ∷ hex_digits bytes

unfoldable pub digit_value : ℕ → Option ℕ
digit_value c =
    if leb 48 c && leb c 57
    then some (c - 48)
    else if leb 97 c && leb c 102
    then some (c - 87)
    else if leb 65 c && leb c 70
    then some (c - 55)
    else none

abbrev is_blank : ℕ → Bool
is_blank c = leb 9 c && leb c 13 || c == 32

-- After a first character that is no digit. A negative number is stored as a byte.
after_sign : ℕ → Option ℕ → ℕ
after_sign a none = 0
after_sign a (some e) = if a == 43 || is_blank a then e else if a == 45 then (256 - e) % 256 else 0

-- `parseInt(s, 16)` of two characters, stored in a byte.
unfoldable pub parse_pair : ℕ → ℕ → Option ℕ → Option ℕ → ℕ
unfolding after_sign
parse_pair a b (some d) (some e) = d * 16 + e
parse_pair a b (some d) none = d
parse_pair a b none e = after_sign a e

pub data HexResult : Type 0 where
  ok : List ℕ → HexResult
  odd_length : HexResult

abbrev with_byte : ℕ → HexResult → HexResult
with_byte b (ok bytes) = ok (b ∷ bytes)
with_byte b odd_length = odd_length

unfoldable pub parse_pairs : List ℕ → HexResult
parse_pairs [] = ok []
parse_pairs (a ∷ []) = odd_length
parse_pairs (a ∷ b ∷ s) = with_byte (parse_pair a b (digit_value a) (digit_value b)) (parse_pairs s)

-- `hex.startsWith('0x')`
unfoldable pub starts_0x : List ℕ → Bool
starts_0x (a ∷ b ∷ s) = a == 48 && b == 120
starts_0x _ = false

unfoldable pub hex_to_bytes : List ℕ → HexResult
hex_to_bytes hex = parse_pairs (if starts_0x hex then drop 2 hex else hex)

digit-round_trip : (d : ℕ) → d < 16 → digit_value (hex_digit d) ≡ some d
unfolding digit_value
digit-round_trip d h = ground arith

pairs-round_trip :
    (bytes : List ℕ) → All (λ b. b < 256) bytes → parse_pairs (hex_digits bytes) ≡ ok bytes
unfolding parse_pairs hex_digits parse_pair
pairs-round_trip [] h = refl
pairs-round_trip (b ∷ bytes) (h, hs) =
    let hi = digit-round_trip (b / 16) (omega arith) in
    let lo = digit-round_trip (b % 16) (omega arith) in
    let e : b / 16 * 16 + b % 16 ≡ b = omega arith in rw (hi, lo, e, pairs-round_trip bytes hs) refl

-- `hexToBytes` reads bytes back from the text that `bytesToHex` wrote.
pub hex_to_bytes-bytes_to_hex :
    (bytes : List ℕ) → All (λ b. b < 256) bytes → hex_to_bytes (bytes_to_hex bytes) ≡ ok bytes
unfolding hex_to_bytes bytes_to_hex starts_0x
hex_to_bytes-bytes_to_hex bytes h = pairs-round_trip bytes h
