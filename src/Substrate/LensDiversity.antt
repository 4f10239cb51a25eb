-- ===== src/Substrate/LensDiversity.antt =====
-- src/substrate/retrieval-decoder.ts: the lens diversity. A number of the runtime is the bits of its
-- binary64, and the arithmetic on such bits is a parameter.
use coretex_client.Prelude.{
  ℕ, ◌+◌, ◌-◌, ◌*◌, ◌^◌, List, [], ◌∷◌, map, length, get_or, replicate, tabulate, Option, none,
  some, Bool, true, false, ◌||◌, ltb, if◌then◌else◌,
}
use coretex_client.Prelude.Int.{ℤ, pos, negsuc}
use coretex_client.Substrate.RetrievalKeys.{
  RetrievalKeySlot, int8, bf16, RetrievalKeyLayout, read_float32_be,
}

-- The operations of the runtime on numbers: `float32` reads the bits of a binary32, and
-- `to_float32` is the rounding of a number that is stored in a `Float32Array`.
pub record FloatArith : Type 0 where
  pub of_integer : ℤ → ℕ
  pub float32 : ℕ → ℕ
  pub to_float32 : ℕ → ℕ
  pub plus : ℕ → ℕ → ℕ
  pub times : ℕ → ℕ → ℕ
  pub divide : ℕ → ℕ → ℕ
  pub sqrt : ℕ → ℕ
  pub is_le : ℕ → ℕ → Bool
  pub is_gt : ℕ → ℕ → Bool

-- `LensDiversityCheck`. The one reason is `lens-diversity-collapse`.
pub data LensReason : Type 0 where
  lens_diversity_collapse : LensReason

pub record LensDiversityCheck : Type 0 where
  pub ok : Bool
  pub reason : Option LensReason
  pub mean_pairwise_cosine : Option ℕ

-- The slots that are keys.
unfoldable pub active_keys : List (Option RetrievalKeySlot) → List RetrievalKeySlot
active_keys [] = []
active_keys (none ∷ keys) = active_keys keys
active_keys (some k ∷ keys) = k ∷ active_keys keys

-- `raw < 128 ? raw : raw - 256`
abbrev pub signed_byte : ℕ → ℤ
signed_byte raw = if ltb raw 128 then pos raw else negsuc (255 - raw)

-- The three sums of the loop of `cosineSim`.
pub record Products : Type 0 where
  pub dot : ℕ
  pub na : ℕ
  pub nb : ℕ

module _ (f : FloatArith) where
  abbrev pub nought : ℕ
  nought = f.of_integer (pos 0)

  unfoldable pub dequantize_key_vector : List ℕ → RetrievalKeyLayout → List ℕ
  dequantize_key_vector bytes layout =
      let dim = layout.dim in
      elim layout.quantization [
        | int8 ↦
            if ltb (length bytes) (4 + dim)
            then replicate dim nought
            else tabulate dim (λ i. f.to_float32 (
                f.times (f.of_integer (signed_byte (get_or bytes (4 + i) 0)))
                  (f.float32 (read_float32_be bytes 0))))
        | bf16 ↦
            if ltb (length bytes) (dim * 2)
            then replicate dim nought
            else tabulate dim (λ i.
              f.to_float32
                (f.float32 (get_or bytes (i * 2) 0 * 2 ^ 24 + get_or bytes (i * 2 + 1) 0 * 2 ^ 16)))
      ]

  unfoldable pub add_products : List ℕ → List ℕ → Products → Products
  add_products (x ∷ a) (y ∷ b) s = add_products a b (record {
    dot = f.plus s.dot (f.times x y);
    na = f.plus s.na (f.times x x);
    nb = f.plus s.nb (f.times y y);
  })
  add_products _ _ s = s

  unfoldable pub cosine_sim : List ℕ → List ℕ → ℕ
  cosine_sim a b =
      let s = add_products a b (record { dot = nought; na = nought; nb = nought }) in
      if f.is_le s.na nought || f.is_le s.nb nought
      then nought
      else f.divide s.dot (f.times (f.sqrt s.na) (f.sqrt s.nb))

  -- The inner loop over the later vectors, and the outer loop: the sum, and the number of pairs.
  unfoldable pub add_cosines : List ℕ → List (List ℕ) → ℕ × ℕ → ℕ × ℕ
  add_cosines a [] r = r
  add_cosines a (b ∷ vecs) (sum, pairs) =
      add_cosines a vecs (f.plus sum (cosine_sim a b), pairs + 1)

  unfoldable pub add_pairs : List (List ℕ) → ℕ × ℕ → ℕ × ℕ
  add_pairs [] r = r
  add_pairs (a ∷ vecs) r = add_pairs vecs (add_cosines a vecs r)

  unfoldable pub mean_of : ℕ × ℕ → ℕ
  mean_of (sum, pairs) = if ltb 0 pairs then f.divide sum (f.of_integer (pos pairs)) else nought

  unfoldable pub check_lens_diversity :
      List (Option RetrievalKeySlot) → ℕ → RetrievalKeyLayout → LensDiversityCheck
  check_lens_diversity keys floor layout =
      let active = active_keys keys in
      let vecs = map (λ k. dequantize_key_vector k.quantized_bytes layout) active in
      let mean = mean_of (add_pairs vecs (nought, 0)) in
      if ltb (length active) 2
      then record { ok = true; reason = none; mean_pairwise_cosine = none }
      else if f.is_gt mean floor
      then record {
        ok = false;
        reason = some lens_diversity_collapse;
        mean_pairwise_cosine = some mean;
      }
      else record { ok = true; reason = none; mean_pairwise_cosine = some mean }

  -- The check of `decodeSubstrate`, which runs where the floor and the layout are given.
  unfoldable pub lens_check :
      List (Option RetrievalKeySlot)
      → Option ℕ
      → Option RetrievalKeyLayout
      → Option LensDiversityCheck
  lens_check keys (some floor) (some layout) = some (check_lens_diversity keys floor layout)
  lens_check keys _ _ = none
