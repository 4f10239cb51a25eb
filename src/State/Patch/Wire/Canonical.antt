-- ===== src/State/Patch/Wire/Canonical.antt =====
-- No patch has two encodings: what `decodePatch` accepts is what `encodePatch` writes.
use coretex_client.Prelude.{
  ℕ, zero, suc, ◌+◌, ◌*◌, ◌/◌, ◌%◌, ◌^◌, ◌≤◌, ◌<◌, ◌≡◌, refl, sym, ap, ◌∙◌, List, [], ◌∷◌, ◌++◌,
  false, not, arith, ltb, ◌||◌, length, length-take, length-drop, get_or, take, drop, drop-drop,
  take-append-drop, drop_all, tabulate_from, All,
}
use coretex_client.Prelude.Int.{pos}
use coretex_client.State.Types.{IsByte, Patch}
use coretex_client.State.Codec.Bytes.{drop-step, get_or-IsByte}
use coretex_client.State.Patch.Rules.{validate_patch_type, is_valid}
use coretex_client.State.Patch.Wire.{
  ok, >>=-eq-ok, throw_if-eq-ok, ok-injective, not_equal, wire_score_delta, u32_bytes, read_u32,
  entry_bytes, encode_patch, decode_entries, decode_patch, word_count_range, bad_patch_type,
  too_short, score_delta_range, trailing_bytes, max_wire_score_delta,
}
use coretex_client.State.Patch.Wire.Header.{
  low_byte, u32_bytes_lem, read_u32_lem, low_half, join_halves,
}
use coretex_client.State.Patch.Wire.Entries.{IsRead, decode_entries-IsRead}
use Prim.Native.Nat.{bit_and, bit_or}
use mathlib.Core.Path.{subst}
use mathlib.Core.List.{append-nil}

-- Decoding splits the bytes into a header and entries.
heads :
    (n offset : ℕ) (bytes : List ℕ)
    → offset + n ≤ length bytes
    → drop offset bytes ≡ tabulate_from offset n (λ k. get_or bytes k 0) ++ drop (offset + n) bytes
heads zero offset bytes h =
    ap (λ (k : ℕ). drop k bytes) (let e : offset ≡ offset + 0 = omega arith in e)
heads (suc n) offset bytes h =
    drop-step bytes offset (omega arith)
    ∙ ap (λ t. get_or bytes offset 0 ∷ t)
        (heads n (suc offset) bytes (omega arith)
          ∙ ap (λ (k : ℕ). tabulate_from (suc offset) n (λ k. get_or bytes k 0) ++ drop k bytes)
              (let e : suc offset + n ≡ offset + suc n = omega arith in e))

-- Four bytes are the bytes of the number that they stand for.
u32_digits :
    (a b c d : ℕ)
    → a < 256
    → b < 256
    → c < 256
    → d < 256
    → u32_bytes (a * 2 ^ 24 + b * 2 ^ 16 + c * 2 ^ 8 + d) ≡ a ∷ b ∷ c ∷ d ∷ []
u32_digits a b c d ha hb hc hd =
    let n = a * 2 ^ 24 + b * 2 ^ 16 + c * 2 ^ 8 + d in
    u32_bytes_lem n
    ∙ rw (
      let e : n / 2 ^ 24 % 256 ≡ a = omega arith in e,
      let e : n / 2 ^ 16 % 256 ≡ b = omega arith in e,
      let e : n / 2 ^ 8 % 256 ≡ c = omega arith in e,
      let e : n % 256 ≡ d = omega arith in e,
    )

abbrev header_delta : List ℕ → ℕ
header_delta bytes = bit_or (read_u32 bytes 2 * 2 ^ 32) (read_u32 bytes 6)

-- The patch that the bytes are read as.
abbrev read_patch : List ℕ → List ℕ × List ℕ × ℕ → Patch
read_patch bytes r = record {
  patch_type = get_or bytes 0 0;
  word_count = get_or bytes 1 0;
  score_delta = pos (header_delta bytes);
  parent_state_root = take 32 (drop 10 bytes);
  indices = r.0;
  new_words = r.1;
}

-- The two halves of the delta, as read.
halves :
    (bytes : List ℕ)
    → All IsByte bytes
    → (u32_bytes (header_delta bytes / 2 ^ 32)
        ≡ get_or bytes 2 0 ∷ get_or bytes 3 0 ∷ get_or bytes 4 0 ∷ get_or bytes 5 0 ∷ [])
      × (u32_bytes (bit_and (header_delta bytes) 0xffffffff)
          ≡ get_or bytes 6 0 ∷ get_or bytes 7 0 ∷ get_or bytes 8 0 ∷ get_or bytes 9 0 ∷ [])
halves bytes hb =
    let b : (k : ℕ) → get_or bytes k 0 < 256 = λ k. get_or-IsByte bytes k hb in
    let hi =
      get_or bytes 2 0 * 2 ^ 24
      + get_or bytes 3 0 * 2 ^ 16
      + get_or bytes 4 0 * 2 ^ 8
      + get_or bytes 5 0 in
    let lo =
      get_or bytes 6 0 * 2 ^ 24
      + get_or bytes 7 0 * 2 ^ 16
      + get_or bytes 8 0 * 2 ^ 8
      + get_or bytes 9 0 in
    let high : read_u32 bytes 2 ≡ hi =
      read_u32_lem _ _ _ _ bytes 2 refl refl refl refl (b 3) (b 4) (b 5) in
    let low : read_u32 bytes 6 ≡ lo =
      read_u32_lem _ _ _ _ bytes 6 refl refl refl refl (b 7) (b 8) (b 9) in
    let small : lo < 2 ^ 32 = omega (arith, b 6, b 7, b 8, b 9) in
    let whole : header_delta bytes ≡ hi * 2 ^ 32 + lo = rw (high, low) (join_halves hi lo small) in
    (
      ap u32_bytes (let e : header_delta bytes / 2 ^ 32 ≡ hi = omega arith in e)
          ∙ u32_digits _ _ _ _ (b 2) (b 3) (b 4) (b 5),
      ap u32_bytes (
            low_half (header_delta bytes)
            ∙ (let e : header_delta bytes % 2 ^ 32 ≡ lo = omega arith in e))
          ∙ u32_digits _ _ _ _ (b 6) (b 7) (b 8) (b 9),
    )

encode_patch-read :
    (bytes : List ℕ) (r : List ℕ × List ℕ × ℕ)
    → All IsByte bytes
    → 42 ≤ length bytes
    → (ltb (get_or bytes 1 0) 1 || ltb 4 (get_or bytes 1 0)) ≡ false
    → ltb max_wire_score_delta (header_delta bytes) ≡ false
    → IsRead (get_or bytes 1 0) bytes 42 r
    → r.2 ≡ length bytes
    → not (is_valid (validate_patch_type (get_or bytes 0 0) r.0)) ≡ false
    → encode_patch (read_patch bytes r) ≡ ok bytes
unfolding encode_patch wire_score_delta
encode_patch-read bytes r hb long counted bounded (shape, _, li, lw, _, _) exact check =
    let root = take 32 (drop 10 bytes) in
    let size : length root ≡ 32 =
      omega (arith, length-take 32 (drop 10 bytes), length-drop 10 bytes) in
    let lengths : (not_equal (length r.0) (get_or bytes 1 0)
          || not_equal (length r.1) (get_or bytes 1 0))
        ≡ false =
      ground (arith, li, lw) in
    let sized : not_equal (length root) 32 ≡ false = ground (arith, size) in
    let (high, low) = halves bytes hb in
    let t : bit_and (get_or bytes 0 0) 0xff ≡ get_or bytes 0 0 =
      omega (arith, low_byte (get_or bytes 0 0), get_or-IsByte bytes 0 hb) in
    let tail : root ++ entry_bytes r.0 r.1 ≡ drop 10 bytes =
      ap (λ t. root ++ t)
        (sym (append-nil (entry_bytes r.0 r.1))
          ∙ ap (λ t. entry_bytes r.0 r.1 ++ t) (sym (drop_all r.2 bytes (omega arith)))
          ∙ sym shape
          ∙ sym (drop-drop 32 10 bytes))
      ∙ take-append-drop 32 (drop 10 bytes) in
    rw (counted, lengths, check, bounded, sized, t, high, low, tail)
      (ap ok (sym (heads 10 0 bytes (omega arith))))

-- Encoding a patch that was decoded from bytes gives those bytes back, so that no patch has two
-- encodings.
pub encode-decode_patch :
    (bytes : List ℕ) (p : Patch)
    → All IsByte bytes
    → decode_patch bytes ≡ ok p
    → encode_patch p ≡ ok bytes
unfolding decode_patch
encode-decode_patch bytes p hb h =
    let delta = bit_or (read_u32 bytes 2 * 2 ^ 32) (read_u32 bytes 6) in
    let count = get_or bytes 1 0 in
    let (long, h₁) = throw_if-eq-ok (ltb (length bytes) 42) too_short _ h in
    let (counted, h₂) = throw_if-eq-ok (ltb count 1 || ltb 4 count) word_count_range _ h₁ in
    let (bounded, h₃) = throw_if-eq-ok (ltb max_wire_score_delta delta) score_delta_range _ h₂ in
    let (r, entries, h₄) = >>=-eq-ok (decode_entries count bytes 42) _ h₃ in
    let (exact, h₅) = throw_if-eq-ok (not_equal r.2 (length bytes)) trailing_bytes _ h₄ in
    let (check, h₆) =
      throw_if-eq-ok (not (is_valid (validate_patch_type (get_or bytes 0 0) r.0))) bad_patch_type _
        h₅ in
    subst (λ q. encode_patch q ≡ ok bytes) (ok-injective h₆)
      (encode_patch-read bytes r hb (ground arith) counted bounded
        (decode_entries-IsRead count bytes 42 r hb (ground arith) entries) (ground arith) check)
