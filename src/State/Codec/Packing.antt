-- ===== src/State/Codec/Packing.antt =====
-- `pack` and `unpack` are inverse to each other.
use coretex_client.Prelude.{
  ℕ, zero, suc, ◌+◌, ◌*◌, ◌≤◌, ◌^◌, ◌≡◌, refl, sym, ap, ◌∙◌, List, [], ◌∷◌, ◌++◌, arith, length,
  length-append, length-take, length-drop, get_or, take, drop, take_all, drop_all, take-append,
  drop-append, drop-drop, take-append-drop, All, All-take, All-drop, All-append, replicate,
  length-replicate,
}
use coretex_client.State.Types.{IsByte, IsWord, CortexState, IsState}
use coretex_client.State.Codec.{
  ok, packed_size, write_big_endian32, read_big_endian32, pack_loop, pack, unpack_loop, unpack,
}
use coretex_client.State.Codec.Bytes.{
  be_bytes, length-be_bytes, be_bytes-IsByte, be_value-be_bytes, be_bytes-be_value, be_value-lt,
  write_big_endian32-be_bytes, read_big_endian32-be_value, drop-step,
}
use mathlib.Core.List.{append-nil, append_assoc}

-- The packed form of a list of words.
encode_words : List ℕ → List ℕ
encode_words [] = []
encode_words (w ∷ ws) = be_bytes 32 w ++ encode_words ws

length-encode_words : (ws : List ℕ) → length (encode_words ws) ≡ length ws * 32
unfolding encode_words
length-encode_words [] = refl
length-encode_words (w ∷ ws) = omega (
  arith,
  length-append (be_bytes 32 w) (encode_words ws),
  length-be_bytes 32 w,
  length-encode_words ws,
)

encode_words-IsByte : (ws : List ℕ) → All IsByte (encode_words ws)
unfolding encode_words
encode_words-IsByte [] = tt
encode_words-IsByte (w ∷ ws) =
    All-append IsByte (be_bytes 32 w) _ (be_bytes-IsByte 32 w) (encode_words-IsByte ws)

drop-encode_words :
    (i : ℕ) (ws : List ℕ)
    → i ≤ length ws
    → drop (i * 32) (encode_words ws) ≡ encode_words (drop i ws)
unfolding encode_words
drop-encode_words zero ws h = refl
drop-encode_words (suc i) [] h = absurd (omega arith)
drop-encode_words (suc i) (w ∷ ws) h =
    ap (λ (k : ℕ). drop k (be_bytes 32 w ++ encode_words ws))
      (let e : suc i * 32 ≡ 32 + i * 32 = omega arith in e)
    ∙ sym (drop-drop (i * 32) 32 (be_bytes 32 w ++ encode_words ws))
    ∙ ap (drop (i * 32)) (drop-append 32 (be_bytes 32 w) (encode_words ws) (length-be_bytes 32 w))
    ∙ drop-encode_words i ws (omega arith)

get_or-IsWord : (ws : List ℕ) (i : ℕ) → All IsWord ws → IsWord (get_or ws i 0)
get_or-IsWord [] i h = omega arith
get_or-IsWord (w ∷ ws) zero h = h.0
get_or-IsWord (w ∷ ws) (suc i) h = get_or-IsWord ws i h.1

-- One write of `pack`: the bytes before word `i`, then word `i`.
module _ (i : ℕ) (ws out : List ℕ) (words : All IsWord ws) where
  abbrev written : List ℕ
  written = write_big_endian32 out (i * 32) (get_or ws i 0)

  abbrev front : List ℕ
  front = take (i * 32) out ++ be_bytes 32 (get_or ws i 0)

  written-front : i * 32 + 32 ≤ length out → written ≡ front ++ drop (i * 32 + 32) out
  written-front h =
      write_big_endian32-be_bytes out (i * 32) (get_or ws i 0) (get_or-IsWord ws i words) h
      ∙ sym
          (append_assoc (take (i * 32) out) (be_bytes 32 (get_or ws i 0)) (drop (i * 32 + 32) out))

  length-front : i * 32 + 32 ≤ length out → length front ≡ suc i * 32
  length-front h = omega (
    arith,
    length-append (take (i * 32) out) (be_bytes 32 (get_or ws i 0)),
    length-take (i * 32) out,
    length-be_bytes 32 (get_or ws i 0),
  )

  length-written : i * 32 + 32 ≤ length out → length written ≡ length out
  length-written h = rw (written-front h) (
      omega (
        arith,
        length-append front (drop (i * 32 + 32) out),
        length-front h,
        length-drop (i * 32 + 32) out,
      ))

  take-written : i * 32 + 32 ≤ length out → take (suc i * 32) written ≡ front
  take-written h =
      rw (written-front h)
        (take-append (suc i * 32) front (drop (i * 32 + 32) out) (length-front h))

pack_loop-encode_words :
    (n i : ℕ) (ws out : List ℕ)
    → All IsWord ws
    → length ws ≡ i + n
    → length out ≡ (i + n) * 32
    → pack_loop n i ws out ≡ take (i * 32) out ++ encode_words (drop i ws)
unfolding pack_loop encode_words
pack_loop-encode_words zero i ws out hw lw lo =
    rw (drop_all i ws (omega arith), take_all (i * 32) out (omega arith), append-nil)
pack_loop-encode_words (suc n) i ws out hw lw lo =
    pack_loop-encode_words n (suc i) ws (written i ws out hw) hw (omega arith)
      (omega (arith, length-written i ws out hw (omega arith)))
    ∙ rw (take-written i ws out hw (omega arith), drop-step ws i (omega arith), append_assoc)

unpack_loop-encode_words :
    (n i : ℕ) (ws : List ℕ)
    → All IsWord ws
    → length ws ≡ i + n
    → unpack_loop n i (encode_words ws) ≡ drop i ws
unfolding unpack_loop encode_words
unpack_loop-encode_words zero i ws hw lw = sym (drop_all i ws (omega arith))
unpack_loop-encode_words (suc n) i ws hw lw =
    let w = get_or ws i 0 in
    rw (drop-step ws i (omega arith), ← unpack_loop-encode_words n (suc i) ws hw (omega arith))
      (ap (λ (t : ℕ). t ∷ unpack_loop n (suc i) (encode_words ws))
        (read_big_endian32-be_value (encode_words ws) (i * 32) (encode_words-IsByte ws)
            (omega (arith, length-encode_words ws))
          ∙ rw
              (
                drop-encode_words i ws (omega arith),
                drop-step ws i (omega arith),
                take-append 32 (be_bytes 32 w) (encode_words (drop (suc i) ws))
                    (length-be_bytes 32 w),
              )
              (be_value-be_bytes 32 w (get_or-IsWord ws i hw))))

-- Reading a segment of 32 bytes and writing it gives it back.
encode_words-unpack_loop :
    (n i : ℕ) (bytes : List ℕ)
    → All IsByte bytes
    → length bytes ≡ (i + n) * 32
    → encode_words (unpack_loop n i bytes) ≡ drop (i * 32) bytes
unfolding unpack_loop encode_words
encode_words-unpack_loop zero i bytes hb lb = sym (drop_all (i * 32) bytes (omega arith))
encode_words-unpack_loop (suc n) i bytes hb lb =
    let tail = drop (i * 32) bytes in
    rw
      (
        encode_words-unpack_loop n (suc i) bytes hb (omega arith),
        read_big_endian32-be_value bytes (i * 32) hb (omega arith),
        be_bytes-be_value 32 (take 32 tail)
            (omega (arith, length-take 32 tail, length-drop (i * 32) bytes))
            (All-take IsByte 32 tail (All-drop IsByte (i * 32) bytes hb)),
      )
      (ap (λ t. take 32 tail ++ t)
          (ap (λ (k : ℕ). drop k bytes) (let e : suc i * 32 ≡ i * 32 + 32 = omega arith in e)
            ∙ sym (drop-drop 32 (i * 32) bytes))
        ∙ take-append-drop 32 tail)

pub read_big_endian32-IsWord :
    (bytes : List ℕ) (off : ℕ)
    → All IsByte bytes
    → off + 32 ≤ length bytes
    → IsWord (read_big_endian32 bytes off)
read_big_endian32-IsWord bytes off hb h =
    let seg = take 32 (drop off bytes) in
    let len : length seg ≡ 32 =
      omega (arith, length-take 32 (drop off bytes), length-drop off bytes) in
    rw (read_big_endian32-be_value bytes off hb h) (
      omega (
        arith,
        be_value-lt 0 seg (All-take IsByte 32 (drop off bytes) (All-drop IsByte off bytes hb)),
        ap (λ (k : ℕ). 256 ^ k) len,
      ))

unpack_loop-IsWord :
    (n i : ℕ) (bytes : List ℕ)
    → All IsByte bytes
    → length bytes ≡ (i + n) * 32
    → (length (unpack_loop n i bytes) ≡ n) × All IsWord (unpack_loop n i bytes)
unfolding unpack_loop
unpack_loop-IsWord zero i bytes hb lb = (refl, tt)
unpack_loop-IsWord (suc n) i bytes hb lb =
    let (len, words) = unpack_loop-IsWord n (suc i) bytes hb (omega arith) in
    (ap suc len, (read_big_endian32-IsWord bytes (i * 32) hb (omega arith), words))

-- A state of 1024 words of 256 bits packs into 32768 bytes, and unpacking those gives the state
-- back.
pub unpack-pack :
    (s : CortexState)
    → IsState s
    → (bytes : List ℕ) × (pack s ≡ ok bytes)
      × (length bytes ≡ 32768)
      × All IsByte bytes
      × (unpack bytes ≡ ok s)
unfolding pack unpack
unpack-pack s h = (
  encode_words s.words,
  rw h.word_count (
      ap ok (
        pack_loop-encode_words 1024 0 s.words (replicate packed_size 0) h.word_size h.word_count
          (length-replicate {A = ℕ} packed_size 0))),
  length_packed,
  encode_words-IsByte s.words,
  rw length_packed (
      ap (λ ws. ok (record { words = ws }))
        (unpack_loop-encode_words 1024 0 s.words h.word_size h.word_count)),
)
  where
    length_packed : length (encode_words s.words) ≡ 32768
    length_packed = omega (arith, length-encode_words s.words, h.word_count)

-- Every array of 32768 bytes unpacks into a state of 1024 words of 256 bits, and packing that
-- gives the array back.
pub pack-unpack :
    (bytes : List ℕ)
    → All IsByte bytes
    → length bytes ≡ 32768
    → (s : CortexState) × (unpack bytes ≡ ok s) × IsState s × (pack s ≡ ok bytes)
unfolding pack unpack
pack-unpack bytes hb lb =
    let (len, words) = unpack_loop-IsWord 1024 0 bytes hb lb in
    let ws = unpack_loop 1024 0 bytes in
    (
      record { words = ws },
      rw lb,
      record { word_count = len; word_size = words },
      rw len (
          ap ok (
            pack_loop-encode_words 1024 0 ws (replicate packed_size 0) words len
              (length-replicate {A = ℕ} packed_size 0)
            ∙ encode_words-unpack_loop 1024 0 bytes hb lb)),
    )
