-- ===== src/State/Patch/Wire/Entries.antt =====
-- The entries of a patch: an index and a word each.
use coretex_client.Prelude.{
  ℕ, zero, suc, ◌+◌, ◌≤◌, ◌<◌, ◌≡◌, refl, sym, ap, ◌∙◌, List, [], ◌∷◌, ◌++◌, false, arith, ltb,
  length, length-append, length-take, length-drop, take, drop, drop-drop, drop-append, take-append,
  replicate, take-append-drop, All, All-take, All-drop,
}
use coretex_client.State.Types.{IsByte, IsWord}
use coretex_client.State.Codec.{word_bytes, read_big_endian32}
use coretex_client.State.Codec.Bytes.{
  be_bytes, length-be_bytes, be_value-be_bytes, be_bytes-be_value, write_big_endian32-be_bytes,
  read_big_endian32-be_value,
}
use coretex_client.State.Codec.Packing.{read_big_endian32-IsWord}
use coretex_client.State.Patch.Wire.{
  ok, >>=-eq-ok, throw_if-eq-ok, ok-injective, encode_leb128, decode_leb128, entry_bytes,
  decode_entries, truncated_word,
}
use coretex_client.State.Patch.Wire.Leb128.{decode-encode_leb128, encode-decode_leb128}
use mathlib.Core.Path.{subst, ap₂}
use mathlib.Core.List.{append-nil, append_assoc}

pub word_bytes-be_bytes : (w : ℕ) → IsWord w → word_bytes w ≡ be_bytes 32 w
unfolding word_bytes
word_bytes-be_bytes w h =
    write_big_endian32-be_bytes (replicate 32 0) 0 w h (omega arith) ∙ append-nil (be_bytes 32 w)

-- One entry: its index, then its word.
module _ (bytes : List ℕ) (hb : All IsByte bytes) (offset i w : ℕ) (rest : List ℕ) (hi : i < 1024)
    (hw : IsWord w) (e : drop offset bytes ≡ encode_leb128 i ++ (word_bytes w ++ rest)) where
  abbrev taken : ℕ
  taken = length (encode_leb128 i)

  index_read : decode_leb128 bytes offset ≡ ok (i, taken)
  index_read = decode-encode_leb128 bytes offset i (word_bytes w ++ rest) hi e

  word_next : drop (offset + taken) bytes ≡ be_bytes 32 w ++ rest
  word_next =
      sym (drop-drop taken offset bytes)
      ∙ rw e (drop-append taken (encode_leb128 i) (word_bytes w ++ rest) refl)
      ∙ ap (λ t. t ++ rest) (word_bytes-be_bytes w hw)

  word_fits : offset + taken + 32 ≤ length bytes
  word_fits = omega (
    arith,
    ap length word_next,
    length-drop (offset + taken) bytes,
    length-append (be_bytes 32 w) rest,
    length-be_bytes 32 w,
  )

  word_read : read_big_endian32 bytes (offset + taken) ≡ w
  word_read =
      read_big_endian32-be_value bytes (offset + taken) hb word_fits
      ∙ rw (word_next, take-append 32 (be_bytes 32 w) rest (length-be_bytes 32 w))
          (be_value-be_bytes 32 w hw)

  rest_next : drop (offset + taken + 32) bytes ≡ rest
  rest_next =
      sym (drop-drop 32 (offset + taken) bytes)
      ∙ rw word_next (drop-append 32 (be_bytes 32 w) rest (length-be_bytes 32 w))

length-entry :
    (i w : ℕ) (rest : List ℕ)
    → IsWord w
    → length (encode_leb128 i ++ (word_bytes w ++ rest))
      ≡ length (encode_leb128 i) + 32 + length rest
length-entry i w rest hw = omega (
  arith,
  length-append (encode_leb128 i) (word_bytes w ++ rest),
  length-append (word_bytes w) rest,
  ap length (word_bytes-be_bytes w hw),
  length-be_bytes 32 w,
)

-- Entries that were written are read back.
pub decode_entries-entry_bytes :
    (n : ℕ) (is ws bytes : List ℕ) (offset : ℕ) (rest : List ℕ)
    → All IsByte bytes
    → All (λ i. i < 1024) is
    → All IsWord ws
    → length is ≡ n
    → length ws ≡ n
    → drop offset bytes ≡ entry_bytes is ws ++ rest
    → decode_entries n bytes offset ≡ ok (is, ws, offset + length (entry_bytes is ws))
unfolding decode_entries entry_bytes
decode_entries-entry_bytes zero [] [] bytes offset rest hb hi hw li lw e =
    ap (λ (t : ℕ). ok ([], [], t)) (let d : offset ≡ offset + 0 = omega arith in d)
decode_entries-entry_bytes zero (i ∷ is) ws bytes offset rest hb hi hw li lw e =
    absurd (omega arith)
decode_entries-entry_bytes zero [] (w ∷ ws) bytes offset rest hb hi hw li lw e =
    absurd (omega arith)
decode_entries-entry_bytes (suc n) [] ws bytes offset rest hb hi hw li lw e = absurd (omega arith)
decode_entries-entry_bytes (suc n) (i ∷ is) [] bytes offset rest hb hi hw li lw e =
    absurd (omega arith)
decode_entries-entry_bytes (suc n) (i ∷ is) (w ∷ ws) bytes offset rest hb (hi, his) (hw, hws) li lw
      e =
    let tail = entry_bytes is ws ++ rest in
    let k = length (encode_leb128 i) in
    let e' : drop offset bytes ≡ encode_leb128 i ++ (word_bytes w ++ tail) =
      e
      ∙ append_assoc (encode_leb128 i) (word_bytes w ++ entry_bytes is ws) rest
      ∙ ap (λ t. encode_leb128 i ++ t) (append_assoc (word_bytes w) (entry_bytes is ws) rest) in
    let fits : ltb (length bytes) (offset + k + 32) ≡ false =
      ground (arith, word_fits bytes hb offset i w tail hi hw e') in
    rw
      (
        index_read bytes hb offset i w tail hi hw e',
        fits,
        word_read bytes hb offset i w tail hi hw e',
        decode_entries-entry_bytes n is ws bytes (offset + k + 32) rest hb his hws (omega arith)
            (omega arith) (rest_next bytes hb offset i w tail hi hw e'),
      )
      (ap (λ (t : ℕ). ok (i ∷ is, w ∷ ws, t))
        (omega (arith, length-entry i w (entry_bytes is ws) hw)))

-- What is accepted as entries, and what would be written for it.
abbrev pub IsRead : ℕ → List ℕ → ℕ → List ℕ × List ℕ × ℕ → Type 0
IsRead n bytes offset (is, ws, end) =
    (drop offset bytes ≡ entry_bytes is ws ++ drop end bytes)
    × (end ≤ length bytes)
    × (length is ≡ n)
    × (length ws ≡ n)
    × All (λ i. i < 1024) is
    × All IsWord ws

-- One accepted entry before others.
IsRead-cons :
    (n : ℕ) (bytes : List ℕ) (offset i taken : ℕ) (r : List ℕ × List ℕ × ℕ)
    → All IsByte bytes
    → decode_leb128 bytes offset ≡ ok (i, taken)
    → offset + taken + 32 ≤ length bytes
    → IsRead n bytes (offset + taken + 32) r
    → IsRead (suc n) bytes offset (i ∷ r.0, read_big_endian32 bytes (offset + taken) ∷ r.1, r.2)
unfolding entry_bytes
IsRead-cons n bytes offset i taken r hb index fits (shape, le, li, lw, his, hws) =
    let (hi, _, front) = encode-decode_leb128 bytes offset i taken hb index in
    let w = read_big_endian32 bytes (offset + taken) in
    let hw : IsWord w = read_big_endian32-IsWord bytes (offset + taken) hb fits in
    let tail = drop (offset + taken) bytes in
    let segment : take 32 tail ≡ word_bytes w = sym (
      word_bytes-be_bytes w hw
      ∙ ap (be_bytes 32) (read_big_endian32-be_value bytes (offset + taken) hb fits)
      ∙ be_bytes-be_value 32 (take 32 tail)
          (omega (arith, length-take 32 tail, length-drop (offset + taken) bytes))
          (All-take IsByte 32 tail (All-drop IsByte (offset + taken) bytes hb))) in
    let tail_shape : tail ≡ word_bytes w ++ (entry_bytes r.0 r.1 ++ drop r.2 bytes) =
      sym (take-append-drop 32 tail)
      ∙ ap₂ (λ a b. a ++ b) segment (drop-drop 32 (offset + taken) bytes ∙ shape) in
    (
      front
          ∙ ap (λ t. encode_leb128 i ++ t)
              (tail_shape
                ∙ sym (append_assoc (word_bytes w) (entry_bytes r.0 r.1) (drop r.2 bytes)))
          ∙ sym (
              append_assoc (encode_leb128 i) (word_bytes w ++ entry_bytes r.0 r.1)
                (drop r.2 bytes)),
      le,
      ap suc li,
      ap suc lw,
      (hi, his),
      (hw, hws),
    )

pub decode_entries-IsRead :
    (n : ℕ) (bytes : List ℕ) (offset : ℕ) (r : List ℕ × List ℕ × ℕ)
    → All IsByte bytes
    → offset ≤ length bytes
    → decode_entries n bytes offset ≡ ok r
    → IsRead n bytes offset r
unfolding decode_entries
decode_entries-IsRead zero bytes offset r hb le h =
    subst (IsRead 0 bytes offset) (ok-injective h)
      (unfold entry_bytes in (refl, le, refl, refl, tt, tt))
decode_entries-IsRead (suc n) bytes offset r hb le h =
    let (first, index, h₁) = >>=-eq-ok (decode_leb128 bytes offset) _ h in
    let next = offset + first.1 + 32 in
    let (fits, h₂) = throw_if-eq-ok (ltb (length bytes) next) truncated_word _ h₁ in
    let (others, later, h₃) = >>=-eq-ok (decode_entries n bytes next) _ h₂ in
    let inside : next ≤ length bytes = ground arith in
    subst (IsRead (suc n) bytes offset) (ok-injective h₃) (
      IsRead-cons n bytes offset first.0 first.1 others hb index inside
        (decode_entries-IsRead n bytes next others hb inside later))
