-- ===== src/Tests/Bonus.antt =====
-- The theorems on bonus leaves, their Merkle tree and the difficulty, at concrete inputs.
use coretex_client.Prelude.{
  ℕ, ◌*◌, ◌/◌, min, max, ◌≡◌, refl, List, [], ◌∷◌, ◌++◌, length, replicate, none, some, Bool, true,
  false, Option, ◌+◌, ◌^◌, ◌≤◌, leb, if◌then◌else◌, arith, ltb,
}
use native.Mathlib.Nat.{mul-le-mul_left}
use coretex_client.Prelude.Int.{ℤ, pos, negsuc, ◌-ℤ◌, ◌*ℤ◌, ◌≤ℤ◌}
use coretex_client.State.Keccak.{keccak256}
use coretex_client.State.Hex
use coretex_client.State.Hex.{
  bytes_to_hex, hex_to_bytes, hex_digits, parse_pairs, parse_pair, digit_value, starts_0x,
  hex_to_bytes-bytes_to_hex,
}
use coretex_client.State.Patch.Apply.{bytes_equal}
use coretex_client.Reducer.Live.{lower_case}
use coretex_client.Reducer.Eligibility.{EpochEligibility}
use coretex_client.Reducer.Bonus.{
  merge_multiplier_bps, MinerBonusLeaf, MinerClaimBase, ok, quotient, compute_miner_bonus,
  claim_base_of, has_miner, with_leaf, leaves_loop, insert, sort, sorted, build_epoch_bonus_leaves,
}
use coretex_client.Reducer.Bonus.Leaves.{
  IsBonusList, build_epoch_bonus_leaves-default, build_epoch_bonus_leaves-IsBonusList,
}
use coretex_client.Reducer.Funding.{
  Digest, encode_uint256, hash_pair, hash_packed, compute_leaf_hash, with_hash, leaf_hashes,
  next_level, levels_above, build_levels, last_level, root_of, compute_bonus_merkle_root,
  MinerClaimProof, find_leaf, siblings, claim_proof, proof_of_found, build_miner_claim_proof,
}
use coretex_client.Reducer.Funding.Climb.{build_levels-ends}
use coretex_client.Reducer.Funding.Proofs.{IsBacked, claim_proof-verifies}
use coretex_client.Rewards.Difficulty.{
  RatioArith, DifficultyInputs, DifficultyOutput, min_clamp, max_clamp, next_min_improvement_ppm,
}
use coretex_client.Rewards.Difficulty.Bounds.{
  IsResult, next_min_improvement_ppm-IsBounded, next_min_improvement_ppm-le,
}

hex_to_bytes-bytes_to_hex_example :
    hex_to_bytes (bytes_to_hex (0 ∷ 171 ∷ 255 ∷ [])) ≡ Hex.ok (0 ∷ 171 ∷ 255 ∷ [])
hex_to_bytes-bytes_to_hex_example =
    hex_to_bytes-bytes_to_hex (0 ∷ 171 ∷ 255 ∷ []) (omega arith, (omega arith, (omega arith, tt)))

-- The addresses `0xaa…` and `0xbb…`.
abbrev miner_a : List ℕ
miner_a = 48 ∷ 120 ∷ replicate 40 97

abbrev miner_b : List ℕ
miner_b = 48 ∷ 120 ∷ replicate 40 98

abbrev leaf_a : MinerBonusLeaf
leaf_a = record { miner = miner_a; bonus_botcoin = pos 5; cap_botcoin = pos 5 }

abbrev leaf_b : MinerBonusLeaf
leaf_b = record { miner = miner_b; bonus_botcoin = pos 7; cap_botcoin = pos 7 }

abbrev digest_a : Digest
digest_a = keccak256 (replicate 20 170 ++ (encode_uint256 (pos 5) ++ encode_uint256 (pos 5)))

abbrev digest_b : Digest
digest_b = keccak256 (replicate 20 187 ++ (encode_uint256 (pos 7) ++ encode_uint256 (pos 7)))

hash_a : compute_leaf_hash leaf_a ≡ ok digest_a
unfolding compute_leaf_hash hash_packed hex_to_bytes starts_0x parse_pairs parse_pair digit_value
hash_a = refl

hash_b : compute_leaf_hash leaf_b ≡ ok digest_b
unfolding compute_leaf_hash hash_packed hex_to_bytes starts_0x parse_pairs parse_pair digit_value
hash_b = refl

two_hashes : leaf_hashes (leaf_a ∷ leaf_b ∷ []) ≡ ok (digest_a ∷ digest_b ∷ [])
unfolding leaf_hashes with_hash
two_hashes = rw (hash_a, hash_b) refl

two_root : compute_bonus_merkle_root (leaf_a ∷ leaf_b ∷ []) ≡ ok (hash_pair digest_a digest_b)
unfolding compute_bonus_merkle_root root_of build_levels levels_above next_level last_level
two_root = rw two_hashes refl

abbrev claim_b : MinerClaimProof
claim_b = record {
  miner = miner_b;
  bonus_botcoin = pos 7;
  cap_botcoin = pos 7;
  proof = bytes_to_hex digest_a ∷ [];
  leaf_index = 1;
}

built_b : build_miner_claim_proof (leaf_a ∷ leaf_b ∷ []) miner_b ≡ ok (some claim_b)
unfolding build_miner_claim_proof proof_of_found find_leaf claim_proof siblings build_levels
    levels_above next_level bytes_equal lower_case
built_b = rw two_hashes refl

claim_proof-verifies_example : IsBacked (leaf_a ∷ leaf_b ∷ []) claim_b (hash_pair digest_a digest_b)
claim_proof-verifies_example =
    claim_proof-verifies (leaf_a ∷ leaf_b ∷ []) miner_b claim_b (hash_pair digest_a digest_b)
      built_b two_root

build_levels-ends_example :
    length (last_level (build_levels (digest_a ∷ digest_b ∷ digest_a ∷ []))) ≡ 1
build_levels-ends_example = build_levels-ends (digest_a ∷ digest_b ∷ digest_a ∷ [])

-- One miner twice, in two spellings.
abbrev eligibility : EpochEligibility
eligibility = record {
  credit_issuances = [];
  multiplier_accruals =
      record { epoch = 1; miner = 65 ∷ []; patch_hash = 1 ∷ [] }
      ∷ record { epoch = 1; miner = 97 ∷ []; patch_hash = 2 ∷ [] }
      ∷ [];
  duplicates_skipped = [];
}

abbrev bases : List MinerClaimBase
bases = record { miner = 97 ∷ []; claim_base = pos 1000 } ∷ []

abbrev before : List ℕ → List ℕ → Bool
before a b = ltb (length a) (length b)

build_epoch_bonus_leaves-default_example :
    build_epoch_bonus_leaves before eligibility bases merge_multiplier_bps ≡ ok []
build_epoch_bonus_leaves-default_example =
    build_epoch_bonus_leaves-default before eligibility bases ((1000, refl), tt)

abbrev one_leaf : List MinerBonusLeaf
one_leaf = record { miner = 97 ∷ []; bonus_botcoin = pos 100; cap_botcoin = pos 100 } ∷ []

one_leaf_built : build_epoch_bonus_leaves before eligibility bases (pos 11000) ≡ ok one_leaf
unfolding build_epoch_bonus_leaves sorted sort insert leaves_loop with_leaf compute_miner_bonus
    quotient claim_base_of has_miner bytes_equal lower_case ◌-ℤ◌ ◌*ℤ◌
one_leaf_built = refl

build_epoch_bonus_leaves-IsBonusList_example : IsBonusList one_leaf
build_epoch_bonus_leaves-IsBonusList_example =
    build_epoch_bonus_leaves-IsBonusList before eligibility bases (pos 11000) one_leaf
      one_leaf_built

-- Ratios as hundredths. An amount above 2^53 is first rounded to a multiple of 4, and one that a
-- binary64 does not hold as a finite number throws.
abbrev rounded : ℕ → ℕ
rounded n = if leb n (2 ^ 53) then n else (n + 2) / 4 * 4

abbrev scale : ℤ → ℕ → Option ℤ
scale (pos n) ratio = if ltb n (2 ^ 1024) then some (pos (rounded n * ratio / 100)) else none
scale (negsuc n) ratio = none

abbrev hundredths : RatioArith ℕ
hundredths = record {
  one = 100;
  ramp_default = 150;
  decay_default = 85;
  recovery_default = 95;
  drift = 95;
  quotient = λ a b. a * 100 / b;
  minimum = λ a b. min a b;
  maximum = λ a b. max a b;
  apply = scale;
}

abbrev few_advances : DifficultyInputs ℕ
few_advances = record {
  current = pos 10000;
  observed_advances = 1;
  target_advances = 2;
  quality_attempts = 9;
  quality_high_threshold = none;
  ramp_up_max_ratio = none;
  decay_ratio = none;
  under_target_recovery_ratio = none;
  major_delta_active = false;
  min_clamp_ppm = none;
  max_clamp_ppm = none;
}

bounds_ordered : min_clamp none ≤ℤ max_clamp (min_clamp none) none
unfolding min_clamp max_clamp
bounds_ordered = omega arith

above_floor : min_clamp none ≤ℤ pos 10000
unfolding min_clamp
above_floor = omega arith

next_min_improvement_ppm-IsBounded_example :
    IsResult hundredths few_advances
      (min_clamp none)
      (max_clamp (min_clamp none) none)
      (next_min_improvement_ppm hundredths few_advances)
next_min_improvement_ppm-IsBounded_example =
    next_min_improvement_ppm-IsBounded hundredths few_advances bounds_ordered

-- A ratio of at most one eases.
scale-Eases :
    (ratio : ℕ)
    → ratio ≤ 100
    → (n : ℕ) → n ≤ 2 ^ 53
    → (m : ℤ) × (scale (pos n) ratio ≡ some m) × (m ≤ℤ pos n)
scale-Eases ratio small n exact =
    let a : ltb n (2 ^ 1024) ≡ true = ground arith in
    let b : leb n (2 ^ 53) ≡ true = ground arith in
    (pos (n * ratio / 100), rw (a, b) refl, below (mul-le-mul_left n small))
  where
    below : n * ratio ≤ n * 100 → pos (n * ratio / 100) ≤ℤ pos n
    below h = omega arith

next_min_improvement_ppm-le_example :
    (out : DifficultyOutput ℕ) × (next_min_improvement_ppm hundredths few_advances ≡ some out)
    × (out.next ≤ℤ pos 10000)
next_min_improvement_ppm-le_example =
    next_min_improvement_ppm-le hundredths few_advances 10000 refl (omega arith) above_floor
      (scale-Eases 100 (omega arith)) (scale-Eases 95 (omega arith)) (scale-Eases 85 (omega arith))
      (scale-Eases 95 (omega arith)) (omega arith)
