-- ===== src/State/Codec/Bytes.antt =====
-- The bytes of a word, in plain arithmetic, and what the read and write loops do with them.
use coretex_client.Prelude.{
  ℕ, zero, suc, ◌+◌, ◌*◌, ◌/◌, ◌%◌, ◌^◌, ◌≤◌, ◌<◌, ◌≡◌, refl, sym, ap, ◌∙◌, List, [], ◌∷◌, ◌++◌,
  arith, length, length-append, length-set, get_or, set, take, drop, take-append-drop, All,
  All-append,
}
use coretex_client.Bits.{bit_and-mask, bit_or-shift}
use coretex_client.State.Types.{IsByte, IsWord}
use Prim.Native.Nat.{bit_and}
use mathlib.Core.List.{append-nil, append_assoc}
use native.Mathlib.Nat.{pow-suc, mod-eq_of_lt}
use native.Mathlib.Numerals.{add-one}
use coretex_client.State.Codec.{write_bytes, write_big_endian32, read_bytes, read_big_endian32}

-- `n` big-endian bytes of `v`.
pub be_bytes : ℕ → ℕ → List ℕ
be_bytes zero v = []
be_bytes (suc n) v = be_bytes n (v / 256) ++ (v % 256 ∷ [])

pub length-be_bytes : (n v : ℕ) → length (be_bytes n v) ≡ n
unfolding be_bytes
length-be_bytes zero v = refl
length-be_bytes (suc n) v =
    omega (arith, length-append (be_bytes n (v / 256)) (v % 256 ∷ []), length-be_bytes n (v / 256))

pub be_bytes-IsByte : (n v : ℕ) → All IsByte (be_bytes n v)
unfolding be_bytes
be_bytes-IsByte zero v = tt
be_bytes-IsByte (suc n) v =
    All-append IsByte (be_bytes n (v / 256)) _ (be_bytes-IsByte n (v / 256)) (omega arith)

-- The number that big-endian bytes stand for, behind those already read.
pub be_value : ℕ → List ℕ → ℕ
be_value r [] = r
be_value r (b ∷ bs) = be_value (r * 256 + b) bs

be_value-append : (r : ℕ) (xs ys : List ℕ) → be_value r (xs ++ ys) ≡ be_value (be_value r xs) ys
unfolding be_value
be_value-append r [] ys = refl
be_value-append r (x ∷ xs) ys = be_value-append (r * 256 + x) xs ys

pub be_value-be_bytes : (n v : ℕ) → v < 256 ^ n → be_value 0 (be_bytes n v) ≡ v
unfolding be_bytes be_value
be_value-be_bytes zero v h = omega arith
be_value-be_bytes (suc n) v h =
    be_value-append 0 (be_bytes n (v / 256)) (v % 256 ∷ [])
    ∙ omega (arith, be_value-be_bytes n (v / 256) (omega (arith, pow-suc 256 n)))

digit_high : (r x : ℕ) → x < 256 → (r * 256 + x) / 256 ≡ r
digit_high r x h = omega arith

digit_low : (r x : ℕ) → x < 256 → (r * 256 + x) % 256 ≡ x
digit_low r x h = omega arith

be_bytes-be_value_from :
    (m r : ℕ) (xs : List ℕ)
    → All IsByte xs
    → be_bytes (m + length xs) (be_value r xs) ≡ be_bytes m r ++ xs
unfolding be_value be_bytes
be_bytes-be_value_from m r [] h =
    ap (λ (k : ℕ). be_bytes k r) (let e : m + 0 ≡ m = omega arith in e)
    ∙ sym (append-nil (be_bytes m r))
be_bytes-be_value_from m r (x ∷ xs) (hx, hxs) =
    ap (λ (k : ℕ). be_bytes k (be_value (r * 256 + x) xs))
      (let e : m + suc (length xs) ≡ suc m + length xs = omega arith in e)
    ∙ be_bytes-be_value_from (suc m) (r * 256 + x) xs hxs
    ∙ rw (append_assoc, digit_high r x hx, digit_low r x hx)

pub be_bytes-be_value :
    (n : ℕ) (xs : List ℕ) → length xs ≡ n → All IsByte xs → be_bytes n (be_value 0 xs) ≡ xs
unfolding be_bytes
be_bytes-be_value n xs e h =
    ap (λ (k : ℕ). be_bytes k (be_value 0 xs)) (let d : n ≡ 0 + length xs = omega arith in d)
    ∙ be_bytes-be_value_from 0 0 xs h

-- One more digit below 256 stays below the next power.
digit_bound : (v r x p q : ℕ) → x < 256 → v < (r * 256 + x + 1) * p → q ≡ 256 * p → v < (r + 1) * q
digit_bound v r x p q hx hv hq =
    let scaled : x * p ≤ 255 * p = grind arith in
    let expand : (r + 1) * q ≡ r * 256 * p + 256 * p = rw hq (omega arith) in
    omega (arith, scaled, expand)

pub be_value-lt : (r : ℕ) (xs : List ℕ) → All IsByte xs → be_value r xs < (r + 1) * 256 ^ length xs
unfolding be_value
be_value-lt r [] h = omega arith
be_value-lt r (x ∷ xs) (hx, hxs) =
    digit_bound _ r x (256 ^ length xs) _ hx (be_value-lt (r * 256 + x) xs hxs)
      (omega (arith, pow-suc 256 (length xs)))

take-set : (out : List ℕ) (off i c : ℕ) → off ≤ i → take off (set out i c) ≡ take off out
take-set out zero i c h = refl
take-set [] (suc off) i c h = refl
take-set (x ∷ out) (suc off) zero c h = absurd (omega arith)
take-set (x ∷ out) (suc off) (suc i) c h = ap (λ t. x ∷ t) (take-set out off i c (omega arith))

drop-set : (out : List ℕ) (i c : ℕ) → i < length out → drop i (set out i c) ≡ c ∷ drop (suc i) out
drop-set [] i c h = absurd (omega arith)
drop-set (x ∷ out) zero c h = refl
drop-set (x ∷ out) (suc i) c h = drop-set out i c (omega arith)

low_byte : (v : ℕ) → bit_and v 0xff ≡ v % 256
low_byte v = bit_and-mask 8 v

-- The write loop replaces the bytes from `off` on.
write_bytes-be_bytes :
    (n : ℕ) (out : List ℕ) (off v : ℕ)
    → off + n ≤ length out
    → write_bytes n out off v ≡ take off out ++ (be_bytes n v ++ drop (off + n) out)
unfolding write_bytes be_bytes
write_bytes-be_bytes zero out off v h =
    sym (take-append-drop off out) ∙ ap (λ (k : ℕ). take off out ++ drop k out) (omega arith)
write_bytes-be_bytes (suc n) out off v h =
    let out' = set out (off + n) (bit_and v 0xff) in
    let h' : off + n ≤ length out' = omega (arith, length-set out (off + n) (bit_and v 0xff)) in
    write_bytes-be_bytes n out' off (v / 256) h'
    ∙ rw
        (
          take-set out off (off + n) (bit_and v 0xff) (omega arith),
          drop-set out (off + n) (bit_and v 0xff) (omega arith),
          low_byte v,
          append_assoc,
        )
        (ap (λ (k : ℕ). take off out ++ (be_bytes n (v / 256) ++ (v % 256 ∷ drop k out)))
          (let e : suc (off + n) ≡ off + suc n = omega arith in e))

pub write_big_endian32-be_bytes :
    (out : List ℕ) (off v : ℕ)
    → IsWord v
    → off + 32 ≤ length out
    → write_big_endian32 out off v ≡ take off out ++ (be_bytes 32 v ++ drop (off + 32) out)
unfolding write_big_endian32
write_big_endian32-be_bytes out off v hv h =
    rw (mod-eq_of_lt hv) (write_bytes-be_bytes 32 out off v h)

pub drop-step :
    (bytes : List ℕ) (off : ℕ)
    → off < length bytes
    → drop off bytes ≡ get_or bytes off 0 ∷ drop (suc off) bytes
drop-step [] off h = absurd (omega arith)
drop-step (b ∷ bytes) zero h = refl
drop-step (b ∷ bytes) (suc off) h = drop-step bytes off (omega arith)

pub get_or-IsByte : (bytes : List ℕ) (off : ℕ) → All IsByte bytes → IsByte (get_or bytes off 0)
get_or-IsByte [] off h = omega arith
get_or-IsByte (b ∷ bytes) zero h = h.0
get_or-IsByte (b ∷ bytes) (suc off) h = get_or-IsByte bytes off h.1

-- The read loop computes the value of the `n` bytes from `off` on.
read_bytes-be_value :
    (n : ℕ) (bytes : List ℕ) (off r : ℕ)
    → All IsByte bytes
    → off + n ≤ length bytes
    → read_bytes n bytes off r ≡ be_value r (take n (drop off bytes))
unfolding read_bytes be_value
read_bytes-be_value zero bytes off r hb h = refl
read_bytes-be_value (suc n) bytes off r hb h =
    rw
      (
        drop-step bytes off (omega arith),
        bit_or-shift 8 r (get_or bytes off 0) (get_or-IsByte bytes off hb),
        add-one,
      )
      (read_bytes-be_value n bytes (suc off) (r * 256 + get_or bytes off 0) hb (omega arith))

pub read_big_endian32-be_value :
    (bytes : List ℕ) (off : ℕ)
    → All IsByte bytes
    → off + 32 ≤ length bytes
    → read_big_endian32 bytes off ≡ be_value 0 (take 32 (drop off bytes))
unfolding read_big_endian32
read_big_endian32-be_value bytes off hb h = read_bytes-be_value 32 bytes off 0 hb h
