-- ===== src/Reducer/Funding/Proofs.antt =====
-- The claim proofs of src/reducer/funding-tx.ts against its roots.
use coretex_client.Prelude.{
  ℕ, zero, suc, ◌+◌, ◌<◌, ◌≡◌, inl, inr, refl, sym, ap, ◌∙◌, List, [], ◌∷◌, map, length, get_elem?,
  get_or, All, Option, none, some, true, arith, ◌==◌, Bool-cases, some-injective,
}
use coretex_client.State.Keccak.Shape.{keccak256_shape}
use coretex_client.State.Hex.{bytes_to_hex, HexResult}
use coretex_client.State.Patch.Apply.{bytes_equal}
use coretex_client.State.Patch.Apply.Equal.{equal_refl}
use coretex_client.Reducer.Live.{lower_case}
use coretex_client.Reducer.Bonus.{MinerBonusLeaf, BonusResult, ok, thrown, ok-injective}
use coretex_client.Reducer.Funding.{
  Digest, hash_packed, compute_leaf_hash, with_hash, leaf_hashes, build_levels, last_level, root_of,
  compute_bonus_merkle_root, MinerClaimProof, find_leaf, siblings, claim_proof, proof_of_found,
  build_miner_claim_proof, climb, same_digest, climb_from, verify_miner_claim_proof,
}
use coretex_client.Reducer.Funding.Pairs.{IsDigest}
use mathlib.Core.Path.{subst}
use coretex_client.Reducer.Funding.Climb.{climb_levels}

-- The hash of a leaf is a digest.
hash_packed-IsDigest :
    (leaf : MinerBonusLeaf) (o : HexResult) (d : Digest) → hash_packed leaf o ≡ ok d → IsDigest d
unfolding hash_packed
hash_packed-IsDigest leaf HexResult.odd_length d h = absurd (cc)
hash_packed-IsDigest leaf (HexResult.ok address) d h = elim (Bool-cases (length address == 20)) [
  | inl e ↦ subst IsDigest (ok-injective (rw e at h)) (keccak256_shape _)
  | inr e ↦ absurd (cc (rw e at h))
]

-- The hashes of the leaves, one for each.
record Hashed (leaves : List MinerBonusLeaf) (hashes : List Digest) : Type 0 where
  digests : All IsDigest hashes
  same_length : length hashes ≡ length leaves
  each :
      (k : ℕ) (leaf : MinerBonusLeaf)
      → get_elem? leaves k ≡ some leaf
      → compute_leaf_hash leaf ≡ ok (get_or hashes k [])

with_hash-Hashed :
    (leaf : MinerBonusLeaf) (leaves : List MinerBonusLeaf) (a : BonusResult Digest)
    (b : BonusResult (List Digest)) (hashes : List Digest)
    → compute_leaf_hash leaf ≡ a
    → ((ds : List Digest) → b ≡ ok ds → Hashed leaves ds)
    → with_hash a b ≡ ok hashes
    → Hashed (leaf ∷ leaves) hashes
unfolding with_hash compute_leaf_hash
with_hash-Hashed leaf leaves thrown b hashes e ih h = absurd (cc)
with_hash-Hashed leaf leaves (ok d) thrown hashes e ih h = absurd (cc)
with_hash-Hashed leaf leaves (ok d) (ok ds) hashes e ih h =
    let t = ih ds refl in
    subst (Hashed (leaf ∷ leaves)) (ok-injective h) (record {
      digests = (hash_packed-IsDigest leaf _ d e, t.digests);
      same_length = ap suc t.same_length;
      each = each_of t;
    })
  where
    each_of :
        Hashed leaves ds
        → (k : ℕ) (l : MinerBonusLeaf) → get_elem? (leaf ∷ leaves) k ≡ some l
        → compute_leaf_hash l ≡ ok (get_or (d ∷ ds) k [])
    each_of t zero l f = ap compute_leaf_hash (sym (some-injective f)) ∙ e
    each_of t (suc k) l f = t.each k l f

leaf_hashes-Hashed :
    (leaves : List MinerBonusLeaf) (hashes : List Digest)
    → leaf_hashes leaves ≡ ok hashes
    → Hashed leaves hashes
unfolding leaf_hashes
leaf_hashes-Hashed [] hashes h =
    subst (Hashed []) (ok-injective h)
      (record { digests = tt; same_length = refl; each = λ k leaf f. absurd (cc f) })
leaf_hashes-Hashed (leaf ∷ leaves) hashes h =
    with_hash-Hashed leaf leaves (compute_leaf_hash leaf) (leaf_hashes leaves) hashes refl
      (λ ds e. leaf_hashes-Hashed leaves ds e) h

-- The leaf that is found stands at its index.
find_leaf-found :
    (miner : List ℕ) (i idx : ℕ) (leaves : List MinerBonusLeaf) (leaf : MinerBonusLeaf)
    → find_leaf miner i leaves ≡ some (idx, leaf)
    → (k : ℕ) × (idx ≡ i + k)
      × (get_elem? leaves k ≡ some leaf)
      × (bytes_equal (lower_case leaf.miner) (lower_case miner) ≡ true)
      × (k < length leaves)
unfolding find_leaf
find_leaf-found miner i idx [] leaf h = absurd (cc)
find_leaf-found miner i idx (l ∷ leaves) leaf h =
    elim (Bool-cases (bytes_equal (lower_case l.miner) (lower_case miner))) [
      | inl e ↦
          let p : (i, l) ≡ (idx, leaf) = some-injective (rw e at h) in
          let a : i ≡ idx = ap (λ (q : ℕ × MinerBonusLeaf). q.0) p in
          let b : l ≡ leaf = ap (λ (q : ℕ × MinerBonusLeaf). q.1) p in
          (
            0,
            omega arith,
            ap some b,
            subst
                (λ (x : MinerBonusLeaf). bytes_equal (lower_case x.miner) (lower_case miner) ≡ true)
                b e,
            omega arith,
          )
      | inr e ↦
          let (k, a, b, c, d) = find_leaf-found miner (suc i) idx leaves leaf (rw e at h) in
          (suc k, omega arith, b, c, omega arith)
    ]

climb_built :
    (hashes : List Digest) (p : ℕ)
    → All IsDigest hashes
    → p < length hashes
    → climb (get_or hashes p []) (map bytes_to_hex (siblings p (build_levels hashes)))
      ≡ ok (get_or (last_level (build_levels hashes)) 0 [])
unfolding build_levels
climb_built [] p h lt = absurd (omega arith)
climb_built (d ∷ ds) p h lt = climb_levels (length (d ∷ ds)) (d ∷ ds) p h lt (omega arith)

-- What a claim proof says of the leaves and of their root.
pub record IsBacked (leaves : List MinerBonusLeaf) (claim : MinerClaimProof) (root : Digest)
    : Type 0 where
  pub leaf : MinerBonusLeaf
  pub in_place : get_elem? leaves claim.leaf_index ≡ some leaf
  pub of_miner : claim.miner ≡ lower_case leaf.miner
  pub amounts : (claim.bonus_botcoin ≡ leaf.bonus_botcoin) × (claim.cap_botcoin ≡ leaf.cap_botcoin)
  pub verifies : verify_miner_claim_proof leaf claim.proof root ≡ ok true

verified :
    (leaf : MinerBonusLeaf) (hashes : List Digest) (root : Digest) (k : ℕ)
    → All IsDigest hashes
    → k < length hashes
    → compute_leaf_hash leaf ≡ ok (get_or hashes k [])
    → get_or (last_level (build_levels hashes)) 0 [] ≡ root
    → verify_miner_claim_proof leaf (map bytes_to_hex (siblings k (build_levels hashes))) root
      ≡ ok true
unfolding verify_miner_claim_proof climb_from same_digest
verified leaf hashes root k h lt e r =
    let c = climb_built hashes k h lt ∙ ap ok r in rw (e, c, equal_refl root) refl

claim_of :
    (leaves : List MinerBonusLeaf) (hashes : List Digest) (root : Digest) (idx : ℕ)
    (leaf : MinerBonusLeaf) (claim : MinerClaimProof)
    → leaf_hashes leaves ≡ ok hashes
    → get_elem? leaves idx ≡ some leaf
    → idx < length leaves
    → get_or (last_level (build_levels hashes)) 0 [] ≡ root
    → claim_proof idx leaf (ok hashes) ≡ ok (some claim)
    → IsBacked leaves claim root
unfolding claim_proof
claim_of leaves hashes root idx leaf claim hs at lt r h =
    let t = leaf_hashes-Hashed leaves hashes hs in
    let n = t.same_length in
    subst (λ (c : MinerClaimProof). IsBacked leaves c root) (some-injective (ok-injective h))
      (record {
        leaf = leaf;
        in_place = at;
        of_miner = refl;
        amounts = (refl, refl);
        verifies = verified leaf hashes root idx t.digests (omega arith) (t.each idx leaf at) r;
      })

found_claim :
    (leaves : List MinerBonusLeaf) (miner : List ℕ) (found : Option (ℕ × MinerBonusLeaf))
    (hashes : BonusResult (List Digest)) (claim : MinerClaimProof) (root : Digest)
    → find_leaf miner 0 leaves ≡ found
    → leaf_hashes leaves ≡ hashes
    → root_of hashes ≡ ok root
    → proof_of_found leaves found ≡ ok (some claim)
    → IsBacked leaves claim root
unfolding proof_of_found root_of claim_proof
found_claim leaves miner none hashes claim root f hs r h = absurd (cc (ok-injective h))
found_claim leaves miner (some (idx, leaf)) thrown claim root f hs r h = absurd (cc)
found_claim leaves miner (some (idx, leaf)) (ok ds) claim root f hs r h =
    let (k, a, b, c, d) = find_leaf-found miner 0 idx leaves leaf f in
    let same : k ≡ idx = omega arith in
    claim_of leaves ds root idx leaf claim hs
      (subst (λ (x : ℕ). get_elem? leaves x ≡ some leaf) same b) (omega arith) (ok-injective r)
      (rw hs at h)

-- Where the leaves have a root and a claim proof is built for a miner, the proof is about the
-- leaf at its index, with that leaf's miner in lower case and its amounts, and
-- `verifyMinerClaimProof` accepts the leaf with the proof against the root.
pub claim_proof-verifies :
    (leaves : List MinerBonusLeaf) (miner : List ℕ) (claim : MinerClaimProof) (root : Digest)
    → build_miner_claim_proof leaves miner ≡ ok (some claim)
    → compute_bonus_merkle_root leaves ≡ ok root
    → IsBacked leaves claim root
unfolding build_miner_claim_proof compute_bonus_merkle_root
claim_proof-verifies leaves miner claim root h r =
    found_claim leaves miner (find_leaf miner 0 leaves) (leaf_hashes leaves) claim root refl refl r
      h
