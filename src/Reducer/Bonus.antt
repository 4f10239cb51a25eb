-- ===== src/Reducer/Bonus.antt =====
-- src/reducer/multiplier-cap.ts: the leaves of the merge bonus of an epoch. Amounts are signed. The
-- order of the leaves is `localeCompare` of the runtime, a parameter, under a stable sort.
pub mod Leaves
use coretex_client.Prelude.{
  ℕ, zero, suc, ◌+◌, ◌-◌, ◌*◌, ◌/◌, ◌%◌, ◌^◌, ◌≤◌, ◌<◌, min, max, ◌≡◌, ◌≢◌, ◌↔◌, ◌⊎◌, inl, inr,
  refl, sym, ap, ◌∙◌, List, [], ◌∷◌, ◌++◌, map, length, get_elem?, get_or, set, take, drop,
  replicate, tabulate, All, Option, none, some, Option-cases, Bool, true, false, not, ◌&&◌, ◌||◌,
  arith, ltb, leb, ◌==◌, if◌then◌else◌, Bool-cases, &&-eq-true, ||-eq-false, ==-eq-false, list_head,
  contains, length-append, length-set, get_elem?-set_self, get_elem?-set_ne, ==_iff, length-map,
  some-injective, positive_test, if-both,
}
use coretex_client.Prelude.Int.{ℤ, pos, negsuc, ◌+ℤ◌, ◌-ℤ◌, ◌*ℤ◌, ltb_ℤ}
use coretex_client.State.Patch.Apply.{bytes_equal}
use coretex_client.Reducer.Live.{lower_case}
use coretex_client.Reducer.Eligibility.{Event, EpochEligibility}

-- `MERGE_MULTIPLIER_BPS` and `BPS_DIVISOR`.
abbrev pub merge_multiplier_bps : ℤ
merge_multiplier_bps = pos 10000

abbrev pub bps_divisor : ℕ
bps_divisor = 10000

pub record MinerBonusLeaf : Type 0 where
  pub miner : List ℕ
  pub bonus_botcoin : ℤ
  pub cap_botcoin : ℤ

pub record MinerClaimBase : Type 0 where
  pub miner : List ℕ
  pub claim_base : ℤ

-- A function that throws a RangeError or an Error.
pub data BonusResult (A : Type 0) : Type 0 where
  ok : A → BonusResult A
  thrown : BonusResult A

abbrev value_or : {A : Type 0} → A → BonusResult A → A
value_or d (ok a) = a
value_or d thrown = d

pub ok-injective : {A : Type 0} {a b : A} → ok a ≡ ok b → a ≡ b
ok-injective {a} h = ap (value_or a) h

-- Division of a bigint, which cuts towards zero.
unfoldable pub quotient : ℤ → ℕ → ℤ
quotient (pos n) d = pos (n / d)
quotient (negsuc n) d = pos 0 -ℤ pos (suc n / d)

abbrev is_negative : ℤ → Bool
is_negative (pos n) = false
is_negative (negsuc n) = true

abbrev pub is_zero : ℤ → Bool
is_zero (pos n) = n == 0
is_zero (negsuc n) = false

unfoldable pub compute_miner_bonus : List ℕ → ℤ → ℤ → BonusResult MinerBonusLeaf
compute_miner_bonus miner claim_base multiplier_bps =
    let bonus = quotient ((multiplier_bps -ℤ pos bps_divisor) *ℤ claim_base) bps_divisor in
    if is_negative claim_base
    then thrown
    else ok (record { miner = lower_case miner; bonus_botcoin = bonus; cap_botcoin = bonus })

-- `claimBaseMap.get(miner) ?? 0n`: the last base of the miner.
unfoldable pub claim_base_of : List ℕ → List MinerClaimBase → ℤ → ℤ
claim_base_of miner [] found = found
claim_base_of miner (b ∷ bases) found =
    claim_base_of miner bases
      (if bytes_equal (lower_case b.miner) miner then b.claim_base else found)

-- `seenMiners.has(miner)`
unfoldable pub has_miner : List ℕ → List (List ℕ) → Bool
has_miner miner [] = false
has_miner miner (m ∷ seen) = bytes_equal miner m || has_miner miner seen

-- The leaf of a miner in front of the rest, unless its bonus is zero.
unfoldable pub with_leaf :
    BonusResult MinerBonusLeaf
    → BonusResult (List MinerBonusLeaf)
    → BonusResult (List MinerBonusLeaf)
with_leaf thrown rest = thrown
with_leaf (ok leaf) thrown = thrown
with_leaf (ok leaf) (ok leaves) = ok (if is_zero leaf.bonus_botcoin then leaves else leaf ∷ leaves)

-- The loop over the accruals, with the miners seen.
unfoldable pub leaves_loop :
    List Event → List (List ℕ) → List MinerClaimBase → ℤ → BonusResult (List MinerBonusLeaf)
leaves_loop [] seen bases multiplier = ok []
leaves_loop (accrual ∷ accruals) seen bases multiplier =
    let miner = lower_case accrual.miner in
    let base = claim_base_of miner bases (pos 0) in
    let again = leaves_loop accruals seen bases multiplier in
    let rest = leaves_loop accruals (miner ∷ seen) bases multiplier in
    if has_miner miner seen
    then again
    else if is_zero base
    then rest
    else with_leaf (compute_miner_bonus miner base multiplier) rest

-- A stable sort.
unfoldable pub insert :
    (List ℕ → List ℕ → Bool) → MinerBonusLeaf → List MinerBonusLeaf → List MinerBonusLeaf
insert before a [] = a ∷ []
insert before a (b ∷ leaves) =
    let rest = insert before a leaves in if before b.miner a.miner then b ∷ rest else a ∷ b ∷ leaves

unfoldable pub sort : (List ℕ → List ℕ → Bool) → List MinerBonusLeaf → List MinerBonusLeaf
sort before [] = []
sort before (a ∷ leaves) = insert before a (sort before leaves)

unfoldable pub sorted :
    (List ℕ → List ℕ → Bool) → BonusResult (List MinerBonusLeaf) → BonusResult (List MinerBonusLeaf)
sorted before (ok leaves) = ok (sort before leaves)
sorted before thrown = thrown

-- `before a b` is `a.localeCompare(b) < 0`.
unfoldable pub build_epoch_bonus_leaves :
    (List ℕ → List ℕ → Bool)
    → EpochEligibility
    → List MinerClaimBase
    → ℤ
    → BonusResult (List MinerBonusLeaf)
build_epoch_bonus_leaves before eligibility claim_bases multiplier =
    sorted before (leaves_loop eligibility.multiplier_accruals [] claim_bases multiplier)

unfoldable pub compute_epoch_total_bonus : List MinerBonusLeaf → ℤ
compute_epoch_total_bonus [] = pos 0
compute_epoch_total_bonus (leaf ∷ leaves) = leaf.bonus_botcoin +ℤ compute_epoch_total_bonus leaves

unfoldable pub assert_bonus_within_cap : MinerBonusLeaf → BonusResult Bool
assert_bonus_within_cap leaf = if ltb_ℤ leaf.cap_botcoin leaf.bonus_botcoin then thrown else ok true
