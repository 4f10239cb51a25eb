-- ===== src/Reducer/Funding/Climb.antt =====
-- From a node of the Merkle tree of src/reducer/funding-tx.ts up to the root.
use coretex_client.Prelude.{
  ℕ, zero, suc, ◌+◌, ◌-◌, ◌/◌, ◌%◌, ◌≤◌, ◌<◌, ◌≡◌, inl, inr, refl, sym, ap, ◌∙◌, List, [], ◌∷◌, map,
  length, get_or, All, false, arith, ltb, ◌==◌, Bool-cases,
}
use coretex_client.State.Hex.{bytes_to_hex, hex_to_bytes-bytes_to_hex}
use coretex_client.Reducer.Bonus.{ok}
use coretex_client.Reducer.Funding.{
  Digest, hash_pair, next_level, levels_above, build_levels, last_level, is_unpaired, sibling,
  siblings, climb,
}
use coretex_client.Reducer.Funding.Pairs.{
  IsDigest, next_level-IsDigest, length-next_level, next_level-parent,
}

All-get_or :
    {A : Type 0} (P : A → Type 0) (xs : List A) (i : ℕ) (d : A)
    → All P xs
    → i < length xs
    → P (get_or xs i d)
All-get_or P [] i d h lt = absurd (omega arith)
All-get_or P (x ∷ xs) zero d h lt = h.0
All-get_or P (x ∷ xs) (suc i) d h lt = All-get_or P xs i d h.1 (omega arith)

levels_above-cons :
    (fuel : ℕ) (level : List Digest)
    → (rest : List (List Digest)) × (levels_above fuel level ≡ level ∷ rest)
unfolding levels_above
levels_above-cons zero level = ([], refl)
levels_above-cons (suc fuel) level = (_, refl)

-- A node that is paired has its sibling in the level.
sibling-IsDigest :
    (p : ℕ) (level : List Digest)
    → All IsDigest level
    → p < length level
    → is_unpaired p level ≡ false
    → IsDigest (sibling p level)
sibling-IsDigest p level h lt u = elim (Bool-cases (p % 2 == 0)) [
  | inl e ↦
      let n : p + 1 < length level = (let v = rw e at u in ground arith) in
      rw e (All-get_or IsDigest level (p + 1) [] h n)
  | inr e ↦ rw e (All-get_or IsDigest level (p - 1) [] h (omega arith))
]

climb-step :
    (c s : Digest) (proof : List (List ℕ))
    → IsDigest s
    → climb c (bytes_to_hex s ∷ proof) ≡ climb (hash_pair c s) proof
unfolding climb
climb-step c s proof h = rw (hex_to_bytes-bytes_to_hex s h.1, climb) refl

single :
    (level : List Digest) (p : ℕ)
    → p < length level
    → length level ≤ 1
    → get_or level p [] ≡ get_or level 0 []
single level zero lt n = refl
single level (suc p) lt n = absurd (omega arith)

-- From any node of a level the proof climbs to the root.
pub climb_levels :
    (fuel : ℕ) (level : List Digest) (p : ℕ)
    → All IsDigest level
    → p < length level
    → length level ≤ suc fuel
    → climb (get_or level p []) (map bytes_to_hex (siblings p (levels_above fuel level)))
      ≡ ok (get_or (last_level (levels_above fuel level)) 0 [])
unfolding climb siblings last_level levels_above
climb_levels zero level p h lt enough = ap ok (single level p lt enough)
climb_levels (suc fuel) level p h lt enough = elim (Bool-cases (ltb 1 (length level))) [
  | inr few ↦ rw few (ap ok (single level p lt (ground arith)))
  | inl more ↦
      let n : 1 < length level = ground arith in
      let size = length-next_level level in
      let (rest, e) = levels_above-cons fuel (next_level level) in
      let ih =
        climb_levels fuel (next_level level) (p / 2) (next_level-IsDigest level h) (omega arith)
          (omega arith) in
      let up = next_level-parent level p h lt in
      elim (Bool-cases (is_unpaired p level)) [
        | inl u ↦
            let same : get_or (next_level level) (p / 2) [] ≡ get_or level p [] = up ∙ rw u refl in
            rw (more, e, u)
              (ap
                  (λ (c : Digest).
                    climb c (map bytes_to_hex (siblings (p / 2) (next_level level ∷ rest))))
                  (sym same)
                ∙ (rw e at ih))
        | inr u ↦
            let same : get_or (next_level level) (p / 2) []
                ≡ hash_pair (get_or level p []) (sibling p level) =
              up ∙ rw u refl in
            rw (more, e, u)
              (climb-step (get_or level p []) (sibling p level)
                  (map bytes_to_hex (siblings (p / 2) (next_level level ∷ rest)))
                  (sibling-IsDigest p level h lt u)
                ∙ ap
                    (λ (c : Digest).
                      climb c (map bytes_to_hex (siblings (p / 2) (next_level level ∷ rest))))
                    (sym same)
                ∙ (rw e at ih))
      ]
]

levels_above-ends :
    (fuel : ℕ) (level : List Digest)
    → 0 < length level
    → length level ≤ suc fuel
    → length (last_level (levels_above fuel level)) ≡ 1
unfolding levels_above last_level
levels_above-ends zero level some_node enough = omega arith
levels_above-ends (suc fuel) level some_node enough = elim (Bool-cases (ltb 1 (length level))) [
  | inr few ↦ rw few (ground arith)
  | inl more ↦
      let n : 1 < length level = ground arith in
      let size = length-next_level level in
      let (rest, e) = levels_above-cons fuel (next_level level) in
      let ih = levels_above-ends fuel (next_level level) (omega arith) (omega arith) in
      rw (more, e) (rw e at ih)
]

-- For any leaf hashes the loop of `buildLevels` ends by its own test: the last level is a single
-- node.
pub build_levels-ends : (hashes : List Digest) → length (last_level (build_levels hashes)) ≡ 1
unfolding build_levels last_level
build_levels-ends [] = refl
build_levels-ends (d ∷ ds) =
    levels_above-ends (length (d ∷ ds)) (d ∷ ds) (omega arith) (omega arith)
