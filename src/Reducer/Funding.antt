-- ===== src/Reducer/Funding.antt =====
-- src/reducer/funding-tx.ts: the Merkle tree over the bonus leaves of an epoch, the call data that
-- funds it, and the proofs of its miners.
pub mod Pairs
pub mod Climb
pub mod Proofs
use coretex_client.Prelude.{
  ℕ, zero, suc, ◌+◌, ◌-◌, ◌*◌, ◌/◌, ◌%◌, ◌^◌, ◌≤◌, ◌<◌, min, max, ◌≡◌, ◌≢◌, ◌↔◌, ◌⊎◌, inl, inr,
  refl, sym, ap, ◌∙◌, List, [], ◌∷◌, ◌++◌, map, length, get_elem?, get_or, set, take, drop,
  replicate, tabulate, All, Option, none, some, Option-cases, Bool, true, false, not, ◌&&◌, ◌||◌,
  arith, ltb, leb, ◌==◌, if◌then◌else◌, Bool-cases, &&-eq-true, ||-eq-false, ==-eq-false, list_head,
  contains, length-append, length-set, get_elem?-set_self, get_elem?-set_ne, ==_iff, length-map,
  some-injective, positive_test, if-both,
}
use coretex_client.Prelude.Int.{ℤ, pos, negsuc}
use coretex_client.State.Keccak.{keccak256}
use coretex_client.State.Codec.{write_bytes}
use coretex_client.State.Hex.{bytes_to_hex, hex_to_bytes, starts_0x, HexResult}
use coretex_client.State.Patch.Apply.{bytes_equal}
use coretex_client.Reducer.Live.{lower_case}
use coretex_client.Reducer.Bonus.{
  MinerBonusLeaf, BonusResult, ok, thrown, compute_epoch_total_bonus,
}

abbrev pub Digest : Type 0
Digest = List ℕ

-- `BigInt.asUintN(256, value)`
abbrev pub as_uint256 : ℤ → ℕ
as_uint256 (pos n) = n % 2 ^ 256
as_uint256 (negsuc n) = 2 ^ 256 - 1 - n % 2 ^ 256

unfoldable pub encode_uint256 : ℤ → List ℕ
encode_uint256 value = write_bytes 32 (replicate 32 0) 0 (as_uint256 value)

-- An epoch is not negative.
encode_uint64 : ℕ → List ℕ
encode_uint64 value = encode_uint256 (pos (value % 2 ^ 64))

encode_bytes32 : List ℕ → BonusResult (List ℕ)
encode_bytes32 value = if length value == 32 then ok value else thrown

unfoldable pub bytes_less_or_eq : List ℕ → List ℕ → Bool
bytes_less_or_eq [] b = true
bytes_less_or_eq (x ∷ a) [] = if x == 0 then bytes_less_or_eq a [] else false
bytes_less_or_eq (x ∷ a) (y ∷ b) =
    let rest = bytes_less_or_eq a b in if x == y then rest else ltb x y

unfoldable pub hash_pair : Digest → Digest → Digest
hash_pair a b = if bytes_less_or_eq a b then keccak256 (a ++ b) else keccak256 (b ++ a)

-- The hash of a leaf, once its address is parsed.
unfoldable pub hash_packed : MinerBonusLeaf → HexResult → BonusResult Digest
hash_packed leaf HexResult.odd_length = thrown
hash_packed leaf (HexResult.ok address) =
    if length address == 20
    then ok (
        keccak256
          (address ++ (encode_uint256 leaf.bonus_botcoin ++ encode_uint256 leaf.cap_botcoin)))
    else thrown

unfoldable pub compute_leaf_hash : MinerBonusLeaf → BonusResult Digest
compute_leaf_hash leaf =
    hash_packed leaf
      (hex_to_bytes (if starts_0x leaf.miner then leaf.miner else 48 ∷ 120 ∷ leaf.miner))

unfoldable pub with_hash :
    BonusResult Digest → BonusResult (List Digest) → BonusResult (List Digest)
with_hash (ok d) (ok ds) = ok (d ∷ ds)
with_hash (ok d) thrown = thrown
with_hash thrown rest = thrown

-- `leaves.map(computeLeafHash)`
unfoldable pub leaf_hashes : List MinerBonusLeaf → BonusResult (List Digest)
leaf_hashes [] = ok []
leaf_hashes (leaf ∷ leaves) = with_hash (compute_leaf_hash leaf) (leaf_hashes leaves)

-- One round of the loop: the level above. The unpaired tail is carried up.
unfoldable pub next_level : List Digest → List Digest
next_level [] = []
next_level (a ∷ []) = a ∷ []
next_level (a ∷ b ∷ level) = hash_pair a b ∷ next_level level

-- `while (levels[levels.length - 1].length > 1)`: the level, and those above it.
unfoldable pub levels_above : ℕ → List Digest → List (List Digest)
levels_above zero level = level ∷ []
levels_above (suc fuel) level =
    let above = levels_above fuel (next_level level) in
    level ∷ (if ltb 1 (length level) then above else [])

unfoldable pub build_levels : List Digest → List (List Digest)
build_levels [] = (keccak256 [] ∷ []) ∷ []
build_levels (d ∷ ds) = levels_above (length (d ∷ ds)) (d ∷ ds)

-- The last level.
unfoldable pub last_level : List (List Digest) → List Digest
last_level [] = []
last_level (level ∷ []) = level
last_level (level ∷ next ∷ above) = last_level (next ∷ above)

unfoldable pub root_of : BonusResult (List Digest) → BonusResult Digest
root_of (ok hashes) = ok (get_or (last_level (build_levels hashes)) 0 [])
root_of thrown = thrown

unfoldable pub compute_bonus_merkle_root : List MinerBonusLeaf → BonusResult Digest
compute_bonus_merkle_root leaves = root_of (leaf_hashes leaves)

pub record FundEpochCalldata : Type 0 where
  pub calldata : List ℕ
  pub calldata_hex : List ℕ
  pub merkle_root : Digest
  pub merkle_root_hex : List ℕ
  pub total_bonus : ℤ

-- The UTF-8 bytes of `fundEpoch(uint64,bytes32,uint256)`.
abbrev pub fund_epoch_signature : List ℕ
fund_epoch_signature =
    102 ∷ 117 ∷ 110 ∷ 100 ∷ 69 ∷ 112 ∷ 111 ∷ 99 ∷ 104 ∷ 40 ∷ 117 ∷ 105 ∷ 110 ∷ 116 ∷ 54 ∷ 52 ∷ 44
    ∷ 98 ∷ 121 ∷ 116 ∷ 101 ∷ 115 ∷ 51 ∷ 50 ∷ 44 ∷ 117 ∷ 105 ∷ 110 ∷ 116 ∷ 50 ∷ 53 ∷ 54 ∷ 41 ∷ []

fund_epoch_calldata : ℕ → ℤ → Digest → BonusResult (List ℕ) → BonusResult FundEpochCalldata
unfolding encode_uint64
fund_epoch_calldata epoch total root thrown = thrown
fund_epoch_calldata epoch total root (ok word) =
    let selector = take 4 (keccak256 fund_epoch_signature) in
    let calldata = selector ++ (encode_uint64 epoch ++ (word ++ encode_uint256 total)) in
    ok (record {
      calldata = calldata;
      calldata_hex = bytes_to_hex calldata;
      merkle_root = root;
      merkle_root_hex = bytes_to_hex root;
      total_bonus = total;
    })

fund_with_root : ℕ → ℤ → BonusResult Digest → BonusResult FundEpochCalldata
unfolding fund_epoch_calldata encode_bytes32
fund_with_root epoch total thrown = thrown
fund_with_root epoch total (ok root) = fund_epoch_calldata epoch total root (encode_bytes32 root)

unfoldable pub build_fund_epoch_calldata : ℕ → List MinerBonusLeaf → BonusResult FundEpochCalldata
unfolding fund_with_root
build_fund_epoch_calldata epoch leaves =
    fund_with_root epoch (compute_epoch_total_bonus leaves) (compute_bonus_merkle_root leaves)

pub record MinerClaimProof : Type 0 where
  pub miner : List ℕ
  pub bonus_botcoin : ℤ
  pub cap_botcoin : ℤ
  pub proof : List (List ℕ)
  pub leaf_index : ℕ

-- `leaves.findIndex`, from index `i` on, with the leaf that it finds.
unfoldable pub find_leaf : List ℕ → ℕ → List MinerBonusLeaf → Option (ℕ × MinerBonusLeaf)
find_leaf miner i [] = none
find_leaf miner i (leaf ∷ leaves) =
    let rest = find_leaf miner (suc i) leaves in
    if bytes_equal (lower_case leaf.miner) (lower_case miner) then some (i, leaf) else rest

-- The node at this position has no sibling.
abbrev pub is_unpaired : ℕ → List Digest → Bool
is_unpaired place level = place == length level - 1 && place % 2 == 0

abbrev pub sibling : ℕ → List Digest → Digest
sibling place level =
    if place % 2 == 0 then get_or level (place + 1) [] else get_or level (place - 1) []

-- The loop over all levels but the last.
unfoldable pub siblings : ℕ → List (List Digest) → List Digest
siblings place [] = []
siblings place (level ∷ []) = []
siblings place (level ∷ next ∷ above) =
    let rest = siblings (place / 2) (next ∷ above) in
    if is_unpaired place level then rest else sibling place level ∷ rest

unfoldable pub claim_proof :
    ℕ → MinerBonusLeaf → BonusResult (List Digest) → BonusResult (Option MinerClaimProof)
claim_proof idx leaf thrown = thrown
claim_proof idx leaf (ok hashes) = ok (
    some (record {
      miner = lower_case leaf.miner;
      bonus_botcoin = leaf.bonus_botcoin;
      cap_botcoin = leaf.cap_botcoin;
      proof = map bytes_to_hex (siblings idx (build_levels hashes));
      leaf_index = idx;
    }))

unfoldable pub proof_of_found :
    List MinerBonusLeaf → Option (ℕ × MinerBonusLeaf) → BonusResult (Option MinerClaimProof)
proof_of_found leaves none = ok none
proof_of_found leaves (some (idx, leaf)) = claim_proof idx leaf (leaf_hashes leaves)

unfoldable pub build_miner_claim_proof :
    List MinerBonusLeaf → List ℕ → BonusResult (Option MinerClaimProof)
build_miner_claim_proof leaves miner = proof_of_found leaves (find_leaf miner 0 leaves)

-- The loop over the proof.
unfoldable pub climb : Digest → List (List ℕ) → BonusResult Digest
climb computed [] = ok computed
climb computed (sib ∷ proof) = elim (hex_to_bytes sib) [
  | HexResult.odd_length ↦ thrown
  | HexResult.ok s ↦ climb (hash_pair computed s) proof
]

unfoldable pub same_digest : Digest → BonusResult Digest → BonusResult Bool
same_digest root thrown = thrown
same_digest root (ok computed) = ok (bytes_equal computed root)

unfoldable pub climb_from : List (List ℕ) → BonusResult Digest → BonusResult Digest
climb_from proof thrown = thrown
climb_from proof (ok computed) = climb computed proof

unfoldable pub verify_miner_claim_proof : MinerBonusLeaf → List (List ℕ) → Digest → BonusResult Bool
verify_miner_claim_proof leaf proof root =
    same_digest root (climb_from proof (compute_leaf_hash leaf))
