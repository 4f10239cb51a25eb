-- ===== src/Reducer/Bonus/Leaves.antt =====
-- What the bonus leaves of src/reducer/multiplier-cap.ts are.
use coretex_client.Prelude.{
  ℕ, ◌+◌, ◌≤◌, ◌≡◌, inl, inr, refl, sym, ap, ◌∙◌, List, [], ◌∷◌, All, Bool, true, false, ◌&&◌, ◌||◌,
  arith, leb, if◌then◌else◌, Bool-cases,
}
use coretex_client.Prelude.Int.{ℤ, pos, negsuc, ◌-ℤ◌, ◌*ℤ◌}
use coretex_client.State.Patch.Apply.{bytes_equal}
use coretex_client.State.Patch.Apply.Equal.{equal_eq, equal_refl}
use coretex_client.Reducer.Live.{lower_case}
use coretex_client.Reducer.Eligibility.{Event, EpochEligibility}
use coretex_client.Reducer.Bonus.{
  merge_multiplier_bps, MinerBonusLeaf, MinerClaimBase, BonusResult, ok, thrown, ok-injective,
  quotient, compute_miner_bonus, claim_base_of, is_zero, has_miner, with_leaf, leaves_loop, insert,
  sort, sorted, build_epoch_bonus_leaves,
}
use mathlib.Core.Path.{subst}

-- Not negative.
abbrev pub IsAmount : ℤ → Type 0
IsAmount z = (n : ℕ) × (z ≡ pos n)

pick : (b : Bool) (x y : ℤ) → IsAmount x → IsAmount y → IsAmount (if b then x else y)
pick true x y hx hy = hx
pick false x y hx hy = hy

claim_base_of-IsAmount :
    (miner : List ℕ) (bases : List MinerClaimBase) (found : ℤ)
    → All (λ (b : MinerClaimBase). IsAmount b.claim_base) bases
    → IsAmount found
    → IsAmount (claim_base_of miner bases found)
unfolding claim_base_of
claim_base_of-IsAmount miner [] found h hf = hf
claim_base_of-IsAmount miner (b ∷ bases) found (hb, h) hf =
    claim_base_of-IsAmount miner bases _ h
      (pick (bytes_equal (lower_case b.miner) miner) b.claim_base found hb hf)

no_uplift : merge_multiplier_bps -ℤ pos 10000 ≡ pos 0
unfolding ◌-ℤ◌
no_uplift = refl

zero_mul : (n : ℕ) → pos 0 *ℤ pos n ≡ pos 0
unfolding ◌*ℤ◌
zero_mul n = ground arith

zero_quotient : quotient (pos 0) 10000 ≡ pos 0
unfolding quotient
zero_quotient = refl

-- At the default multiplier there is no uplift.
default_bonus :
    (miner : List ℕ) (base : ℤ)
    → IsAmount base
    → compute_miner_bonus miner base merge_multiplier_bps
      ≡ ok (record { miner = lower_case miner; bonus_botcoin = pos 0; cap_botcoin = pos 0 })
unfolding compute_miner_bonus
default_bonus miner base (n, e) = rw (e, no_uplift, zero_mul n, zero_quotient) refl

abbrev no_leaves : BonusResult (List MinerBonusLeaf)
no_leaves = ok []

default_loop :
    (accruals : List Event) (seen : List (List ℕ)) (bases : List MinerClaimBase)
    → All (λ (b : MinerClaimBase). IsAmount b.claim_base) bases
    → leaves_loop accruals seen bases merge_multiplier_bps ≡ ok []
unfolding leaves_loop with_leaf
default_loop [] seen bases h = refl
default_loop (accrual ∷ accruals) seen bases h =
    let miner = lower_case accrual.miner in
    let base = claim_base_of miner bases (pos 0) in
    let e = default_bonus miner base (claim_base_of-IsAmount miner bases (pos 0) h (0, refl)) in
    rw (default_loop accruals seen bases h, default_loop accruals (miner ∷ seen) bases h, e)
      (either (has_miner miner seen) (is_zero base))
  where
    either :
        (a b : Bool) → (if a then no_leaves else if b then no_leaves else no_leaves) ≡ no_leaves
    either true b = refl
    either false true = refl
    either false false = refl

-- At the default multiplier, with claim bases that are not negative, `buildEpochBonusLeaves`
-- returns no leaves.
pub build_epoch_bonus_leaves-default :
    (before : List ℕ → List ℕ → Bool) (eligibility : EpochEligibility) (bases : List MinerClaimBase)
    → All (λ (b : MinerClaimBase). IsAmount b.claim_base) bases
    → build_epoch_bonus_leaves before eligibility bases merge_multiplier_bps ≡ ok []
unfolding build_epoch_bonus_leaves sorted sort
build_epoch_bonus_leaves-default before eligibility bases h =
    rw (default_loop eligibility.multiplier_accruals [] bases h) refl

-- How often a miner has a leaf.
abbrev pub occ_leaf : List ℕ → List MinerBonusLeaf → ℕ
occ_leaf m [] = 0
occ_leaf m (leaf ∷ leaves) = (if bytes_equal leaf.miner m then 1 else 0) + occ_leaf m leaves

lower_idem : (s : List ℕ) → lower_case (lower_case s) ≡ lower_case s
unfolding lower_case
lower_idem [] = refl
lower_idem (c ∷ s) = let h = lower_idem s in let e = lower_char c in cc (h, e)
  where
    lower_char :
        (c : ℕ)
        → (let d : ℕ = if leb 65 c && leb c 90 then c + 32 else c in
            if leb 65 d && leb d 90 then d + 32 else d)
          ≡ (if leb 65 c && leb c 90 then c + 32 else c)
    lower_char c = ground arith

-- Of each miner there is at most one leaf, and of a miner seen before there is none.
once : (m : List ℕ) (seen : List (List ℕ)) → ℕ
once m seen = if has_miner m seen then 0 else 1

once_less : (m n : List ℕ) (seen : List (List ℕ)) → once m (n ∷ seen) ≤ once m seen
unfolding once has_miner
once_less m n seen = split (bytes_equal m n) (has_miner m seen)
  where
    split : (a b : Bool) → (if a || b then 0 else 1) ≤ (if b then 0 else 1)
    split true true = omega arith
    split true false = omega arith
    split false true = omega arith
    split false false = omega arith

-- The bonus of a leaf is its cap, and the miner is in lower case.
record FromBonus (leaf : MinerBonusLeaf) (miner : List ℕ) : Type 0 where
  capped : leaf.bonus_botcoin ≡ leaf.cap_botcoin
  named : leaf.miner ≡ lower_case miner

compute_miner_bonus-FromBonus :
    (miner : List ℕ) (base multiplier : ℤ) (leaf : MinerBonusLeaf)
    → compute_miner_bonus miner base multiplier ≡ ok leaf
    → FromBonus leaf miner
unfolding compute_miner_bonus
compute_miner_bonus-FromBonus miner (pos n) multiplier leaf h =
    subst (λ (l : MinerBonusLeaf). FromBonus l miner) (ok-injective h)
      (record { capped = refl; named = refl })
compute_miner_bonus-FromBonus miner (negsuc n) multiplier leaf h = absurd (cc)

abbrev pub IsCapped : MinerBonusLeaf → Type 0
IsCapped leaf = leaf.bonus_botcoin ≡ leaf.cap_botcoin

record Distinct (seen : List (List ℕ)) (leaves : List MinerBonusLeaf) : Type 0 where
  at_most_once : (m : List ℕ) → occ_leaf m leaves ≤ once m seen
  capped : All IsCapped leaves

-- One leaf more, for a miner that was not seen.
with_leaf-Distinct :
    (miner : List ℕ) (seen : List (List ℕ)) (a : BonusResult MinerBonusLeaf)
    (b : BonusResult (List MinerBonusLeaf)) (leaves : List MinerBonusLeaf)
    → has_miner miner seen ≡ false
    → ((leaf : MinerBonusLeaf) → a ≡ ok leaf → FromBonus leaf miner)
    → lower_case miner ≡ miner
    → ((ls : List MinerBonusLeaf) → b ≡ ok ls → Distinct (miner ∷ seen) ls)
    → with_leaf a b ≡ ok leaves
    → Distinct seen leaves
unfolding with_leaf once has_miner
with_leaf-Distinct miner seen thrown b leaves fresh fa low fb h = absurd (cc)
with_leaf-Distinct miner seen (ok leaf) thrown leaves fresh fa low fb h = absurd (cc)
with_leaf-Distinct miner seen (ok leaf) (ok ls) leaves fresh fa low fb h =
    let d = fb ls refl in
    let f = fa leaf refl in
    let same = f.named ∙ low in
    subst (Distinct seen) (ok-injective h) (
      either (is_zero leaf.bonus_botcoin)
        (record {
          at_most_once =
              λ m. let a = d.at_most_once m in let b = once_less m miner seen in omega arith;
          capped = d.capped;
        })
        (record { at_most_once = λ m. more d same m; capped = (f.capped, d.capped) }))
  where
    either :
        (c : Bool)
        → Distinct seen ls
        → Distinct seen (leaf ∷ ls)
        → Distinct seen (if c then ls else leaf ∷ ls)
    either true x y = x
    either false x y = y

    more :
        Distinct (miner ∷ seen) ls
        → leaf.miner ≡ miner
        → (m : List ℕ) → occ_leaf m (leaf ∷ ls) ≤ once m seen
    more d same m =
        let a = d.at_most_once m in
        elim (Bool-cases (bytes_equal leaf.miner m)) [
          | inl e ↦
              let k : miner ≡ m = sym same ∙ equal_eq leaf.miner m e in
              let s : bytes_equal m miner ≡ true = ap (bytes_equal m) k ∙ equal_refl m in
              let n : has_miner m seen ≡ false =
                sym (ap (λ (x : List ℕ). has_miner x seen) k) ∙ fresh in
              let a₁ : occ_leaf m ls ≤ 0 = (rw s at a) in rw (e, n) (omega arith)
          | inr e ↦ let b = once_less m miner seen in rw e (omega arith)
        ]

leaves_loop-Distinct :
    (accruals : List Event) (seen : List (List ℕ)) (bases : List MinerClaimBase) (multiplier : ℤ)
    (leaves : List MinerBonusLeaf)
    → leaves_loop accruals seen bases multiplier ≡ ok leaves
    → Distinct seen leaves
unfolding leaves_loop
leaves_loop-Distinct [] seen bases multiplier leaves h =
    subst (Distinct seen) (ok-injective h) (record { at_most_once = λ m. omega arith; capped = tt })
leaves_loop-Distinct (accrual ∷ accruals) seen bases multiplier leaves h =
    let miner = lower_case accrual.miner in
    let base = claim_base_of miner bases (pos 0) in
    let ih = leaves_loop-Distinct accruals (miner ∷ seen) bases multiplier in
    elim (Bool-cases (has_miner miner seen)) [
      | inl e ↦ leaves_loop-Distinct accruals seen bases multiplier leaves (rw e at h)
      | inr e ↦ elim (Bool-cases (is_zero base)) [
        | inl z ↦
            let d = ih leaves (rw (e, z) at h) in
            record {
              at_most_once =
                  λ m. let a = d.at_most_once m in let b = once_less m miner seen in omega arith;
              capped = d.capped;
            }
        | inr z ↦
            with_leaf-Distinct miner seen (compute_miner_bonus miner base multiplier) _ leaves e
              (λ leaf k. compute_miner_bonus-FromBonus miner base multiplier leaf k)
              (lower_idem accrual.miner) (λ ls k. ih ls k) (rw (e, z) at h)
      ]
    ]

-- The sort moves leaves only.
module _ (before : List ℕ → List ℕ → Bool) where
  insert-same :
      (m : List ℕ) (a : MinerBonusLeaf) (leaves : List MinerBonusLeaf)
      → occ_leaf m (insert before a leaves) ≡ occ_leaf m (a ∷ leaves)
  unfolding insert
  insert-same m a [] = refl
  insert-same m a (b ∷ leaves) = elim (Bool-cases (before b.miner a.miner)) [
    | inl e ↦ rw e (let h = insert-same m a leaves in omega arith)
    | inr e ↦ rw e refl
  ]

  insert-IsCapped :
      (a : MinerBonusLeaf) (leaves : List MinerBonusLeaf)
      → IsCapped a
      → All IsCapped leaves
      → All IsCapped (insert before a leaves)
  unfolding insert
  insert-IsCapped a [] ha h = (ha, tt)
  insert-IsCapped a (b ∷ leaves) ha (hb, h) = elim (Bool-cases (before b.miner a.miner)) [
    | inl e ↦ rw e (hb, insert-IsCapped a leaves ha h)
    | inr e ↦ rw e (ha, (hb, h))
  ]

  sort-same :
      (m : List ℕ) (leaves : List MinerBonusLeaf)
      → occ_leaf m (sort before leaves) ≡ occ_leaf m leaves
  unfolding sort
  sort-same m [] = refl
  sort-same m (a ∷ leaves) =
      insert-same m a (sort before leaves) ∙ (let h = sort-same m leaves in omega arith)

  sort-IsCapped :
      (leaves : List MinerBonusLeaf) → All IsCapped leaves → All IsCapped (sort before leaves)
  unfolding sort
  sort-IsCapped [] h = tt
  sort-IsCapped (a ∷ leaves) (ha, h) =
      insert-IsCapped a (sort before leaves) ha (sort-IsCapped leaves h)

-- What every list of bonus leaves is.
pub record IsBonusList (leaves : List MinerBonusLeaf) : Type 0 where
  pub one_each : (m : List ℕ) → occ_leaf m leaves ≤ 1
  pub capped : All IsCapped leaves

sorted-IsBonusList :
    (before : List ℕ → List ℕ → Bool) (r : BonusResult (List MinerBonusLeaf))
    (leaves : List MinerBonusLeaf)
    → ((ls : List MinerBonusLeaf) → r ≡ ok ls → Distinct [] ls)
    → sorted before r ≡ ok leaves
    → IsBonusList leaves
unfolding sorted once has_miner
sorted-IsBonusList before thrown leaves f h = absurd (cc)
sorted-IsBonusList before (ok ls) leaves f h =
    let d = f ls refl in
    subst IsBonusList (ok-injective h) (record {
      one_each = λ m. let a = d.at_most_once m in let b = sort-same before m ls in omega arith;
      capped = sort-IsCapped before ls d.capped;
    })

-- In the leaves that `buildEpochBonusLeaves` returns each miner has at most one, and the bonus
-- of each leaf is its cap.
pub build_epoch_bonus_leaves-IsBonusList :
    (before : List ℕ → List ℕ → Bool) (eligibility : EpochEligibility) (bases : List MinerClaimBase)
    (multiplier : ℤ) (leaves : List MinerBonusLeaf)
    → build_epoch_bonus_leaves before eligibility bases multiplier ≡ ok leaves
    → IsBonusList leaves
unfolding build_epoch_bonus_leaves
build_epoch_bonus_leaves-IsBonusList before eligibility bases multiplier leaves h =
    sorted-IsBonusList before (leaves_loop eligibility.multiplier_accruals [] bases multiplier)
      leaves (λ ls k. leaves_loop-Distinct eligibility.multiplier_accruals [] bases multiplier ls k)
      h
